-- ===== src/Auth/Provider/Reports.antt =====
-- Access to an incident report: its authors, and those who may read the event's incidents.
use ranger_ims_server.Prelude.{
  ℕ, String, ◌≡◌, refl, ap, ◌∙◌, true, ◌↔◌, ◌⊎◌, inl, inr, some, List, [], ◌∷◌, elem, string_eq,
  arith, if◌then◌else◌, Bool-cases,
}
use ranger_ims_server.Auth.Authorization.{
  Authorization, read_incidents, write_incident_reports, meets,
}
use ranger_ims_server.Auth.Claims.{ok}
use ranger_ims_server.Auth.Acl.{ImsUser}
use ranger_ims_server.Auth.Acl.Matching.{Matches}
use ranger_ims_server.Auth.Provider.{
  Settings, AccessLists, Jwt, Request, authorizations_for_user, authorize_request, first_name,
  report_access, authorize_request_for_incident_report,
}
use ranger_ims_server.Auth.Provider.Rights.{authorizations_for_user-AreRights}
use ranger_ims_server.Auth.Provider.Requests.{attached, authorize_complete}

meets-read_incidents : (a : Authorization) → meets read_incidents a ≡ a.read_incidents
meets-read_incidents a = ground arith

module _ (jwt : Jwt) (s : Settings) (access : AccessLists) (now : ℕ) where
  by_event :
      (event_id : String) (r : Request) (u : ImsUser)
      → r.user ≡ some u
      → ((authorize_request jwt s access now (some event_id) read_incidents r).0 ≡ ok tt) ↔ (
          Matches s.require_active (access.writers event_id) (some u)
          ⊎ Matches s.require_active (access.readers event_id) (some u))
  by_event event_id r u known =
      let rights = authorizations_for_user-AreRights s access (some u) event_id in
      let done =
        authorize_complete jwt s access now (some event_id) read_incidents r u (attached known) in
      let test = meets-read_incidents (authorizations_for_user s access (some u) (some event_id)) in
      (λ h. rights.reads.0 (ground (arith, done, test)), λ m. rw done (rw (test, rights.reads.1 m)))

  by_author_of :
      (event_id : String) (authors : List String) (r : Request) (u : ImsUser) (handle : String)
      (names : List String)
      → u.short_names ≡ handle ∷ names
      → report_access jwt s access now (some u) event_id authors r ≡ (
          if elem handle authors
          then (ok tt, record r { authorizations = write_incident_reports })
          else authorize_request jwt s access now (some event_id) read_incidents r)
  unfolding report_access first_name
  by_author_of event_id [] r u handle names named = refl
  by_author_of event_id (author ∷ authors) r u handle names named = rw (named, first_name)

  by_author :
      (event_id : String) (authors : List String) (r : Request) (u : ImsUser) (handle : String)
      (names : List String)
      → r.user ≡ some u
      → u.short_names ≡ handle ∷ names
      → authorize_request_for_incident_report jwt s access now event_id authors r ≡ (
          if elem handle authors
          then (ok tt, record r { authorizations = write_incident_reports })
          else authorize_request jwt s access now (some event_id) read_incidents r)
  unfolding authorize_request_for_incident_report
  by_author event_id authors r u handle names known named =
      ap (λ o. report_access jwt s access now o event_id authors r) known
      ∙ by_author_of event_id authors r u handle names named

-- A logged-in user may see a report exactly if the user wrote one of its entries, under the first
-- short name, or passes the writers' or the readers' list of the report's event.
pub report_access_iff :
    (jwt : Jwt) (s : Settings) (access : AccessLists) (now : ℕ) (event_id : String)
    (authors : List String) (r : Request) (u : ImsUser) (handle : String) (names : List String)
    → r.user ≡ some u
    → u.short_names ≡ handle ∷ names
    → ((authorize_request_for_incident_report jwt s access now event_id authors r).0 ≡ ok tt) ↔ (
        (elem handle authors ≡ true)
        ⊎ (Matches s.require_active (access.writers event_id) (some u)
            ⊎ Matches s.require_active (access.readers event_id) (some u)))
report_access_iff jwt s access now event_id authors r u handle names known named =
    let step = by_author jwt s access now event_id authors r u handle names known named in
    let event = by_event jwt s access now event_id r u known in
    rw step (elim (Bool-cases (elem handle authors)) [
      | inl wrote ↦ rw wrote ((λ _. inl refl), (λ _. refl))
      | inr other ↦
          rw other ((λ h. inr (event.0 h)), (λ c. elim c [ inl w ↦ cc | inr m ↦ event.1 m ]))
    ])
