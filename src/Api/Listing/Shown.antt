-- ===== src/Api/Listing/Shown.antt =====
-- Whose events, and the streets of which events, are shown to whom.
use ranger_ims_server.Prelude.{
  ℕ, String, Bool, true, false, ◌≡◌, refl, ap, ◌∙◌, inl, inr, some, List, [], ◌∷◌, map, keep, arith,
  Bool-cases,
}
use ranger_ims_server.Auth.Authorization.{read_incidents, meets}
use ranger_ims_server.Auth.Acl.{ImsUser}
use ranger_ims_server.Auth.Provider.{
  Settings, Jwt, Request, authenticate_request, authorizations_for_user,
}
use ranger_ims_server.Auth.Provider.Requests.{
  ComesFrom, attached, authorize_complete, check_complete, passed,
}
use ranger_ims_server.Store.Transactions.{Connection, run_query}
use ranger_ims_server.Store.Access.{events, concentric_streets, access_lists}
use ranger_ims_server.Store.Tables.{StreetRow}
use ranger_ims_server.Store.Statements.Access
use ranger_ims_server.Store.Statements.Access.{of_event}
use ranger_ims_server.Api.Server.{value, Server, call, ◌>>=◌, give}
use ranger_ims_server.Api.Server.Sequences.{call-ok, >>=-value}
use ranger_ims_server.Api.Listing.{
  authenticated, readable, events_resource, authenticated_on, may_read, passes, streets_of,
  read_streets,
}

module _ (jwt : Jwt) (s : Settings) (now : ℕ) where
  -- The events among these whose incidents the user may read
  abbrev pub readable_by : Connection → ImsUser → List String → List String
  readable_by c u es =
      keep
        (λ e. meets read_incidents (authorizations_for_user s (access_lists c) (some u) (some e)))
        es

  may : Connection → ImsUser → String → Bool
  may c u e = meets read_incidents (authorizations_for_user s (access_lists c) (some u) (some e))

  may_read_lem :
      (e : String) (r : Request) (u : ImsUser) (c : Connection)
      → ComesFrom jwt now r u
      → (r' : Request) × (r'.user ≡ some u)
        × (may_read jwt s now e r c ≡ (value (may c u e, r'), c))
  unfolding may_read passes may
  may_read_lem e r u c from =
      let full = authorize_complete jwt s (access_lists c) now (some e) read_incidents r u from in
      elim (Bool-cases
        (meets read_incidents (authorizations_for_user s (access_lists c) (some u) (some e)))) [
          | inl can ↦
              (passed jwt s (access_lists c) now (some e) r u, refl, ground (arith, full, can))
          | inr cannot ↦
              (passed jwt s (access_lists c) now (some e) r u, refl, ground (arith, full, cannot))
        ]

  -- The streets of an event, as pairs of an ID and a name
  abbrev pub streets_in : Connection → String → List (String × String)
  streets_in c e =
      map (λ (row : StreetRow). (row.id, row.name)) (keep (of_event e) c.working.streets)

  -- The streets of one event, before those of the others
  abbrev and_streets :
      String → List String → Request → Server (List (String × List (String × String)))
  and_streets e es r = call (concentric_streets e) >>= λ streets.
      streets_of jwt s now es r >>= λ rest. give ((e, streets) ∷ rest)

  streets_of-can :
      (e : String) (es : List String) (r r' : Request) (c : Connection)
      → may_read jwt s now e r c ≡ (value (true, r'), c)
      → streets_of jwt s now (e ∷ es) r c ≡ and_streets e es r' c
  unfolding streets_of
  streets_of-can e es r r' c read = ground (arith, read)

  streets_of-cannot :
      (e : String) (es : List String) (r r' : Request) (c : Connection)
      → may_read jwt s now e r c ≡ (value (false, r'), c)
      → streets_of jwt s now (e ∷ es) r c ≡ streets_of jwt s now es r' c
  unfolding streets_of
  streets_of-cannot e es r r' c read = ground (arith, read)

  call-streets :
      (e : String) (c : Connection) → call (concentric_streets e) c ≡ (value (streets_in c e), c)
  unfolding concentric_streets run_query Access.concentric_streets
  call-streets e c = call-ok (concentric_streets e) (streets_in c e) c c refl

  call-events : (c : Connection) → call events c ≡ (value c.working.events, c)
  unfolding events
  call-events c = call-ok events c.working.events c c refl

  and_streets_lem :
      (e : String) (es : List String) (r : Request) (c : Connection)
      (rest : List (String × List (String × String)))
      → streets_of jwt s now es r c ≡ (value rest, c)
      → and_streets e es r c ≡ (value ((e, streets_in c e) ∷ rest), c)
  and_streets_lem e es r c rest h =
      >>=-value (call (concentric_streets e))
        (λ streets. streets_of jwt s now es r >>= λ rest. give ((e, streets) ∷ rest))
        (streets_in c e) c c (call-streets e c)
      ∙ >>=-value (streets_of jwt s now es r) (λ rest. give ((e, streets_in c e) ∷ rest)) rest c c h

  streets_of_lem :
      (es : List String) (r : Request) (u : ImsUser) (c : Connection)
      → ComesFrom jwt now r u
      → streets_of jwt s now es r c
        ≡ (value (map (λ e. (e, streets_in c e)) (readable_by c u es)), c)
  unfolding may streets_of
  streets_of_lem [] r u c from = refl
  streets_of_lem (e ∷ es) r u c from =
      let (r', known, read) = may_read_lem e r u c from in
      let ih = streets_of_lem es r' u c (attached known) in
      elim (Bool-cases (may c u e)) [
        | inr cannot ↦
            streets_of-cannot e es r r' c (read ∙ ap (λ b. (value (b, r'), c)) cannot)
            ∙ rw cannot ih
        | inl can ↦
            streets_of-can e es r r' c (read ∙ ap (λ b. (value (b, r'), c)) can)
            ∙ and_streets_lem e es r' c _ ih
            ∙ rw can refl
      ]

-- For a request that comes from a user, the events that are listed are exactly those whose incidents the
-- user may read, by the access lists as they are; and the streets that are listed are those of just these
-- events. The store stays as it is.
pub listings_show_readable :
    (jwt : Jwt) (s : Settings) (now : ℕ) (r : Request) (u : ImsUser) (c : Connection)
    → ComesFrom jwt now r u
    → (events_resource jwt s now r c ≡ (value (readable_by jwt s now c u c.working.events), c))
      × (read_streets jwt s now r c ≡ (
        value
            (map (λ e. (e, streets_in jwt s now c e)) (readable_by jwt s now c u c.working.events)),
        c,
      ))
unfolding events_resource read_streets authenticated authenticated_on authenticate_request readable
listings_show_readable jwt s now r u c from = (
  rw (check_complete jwt now from) (
      >>=-value (call events) (λ es. readable jwt s now (record r { user = some u }) es)
        c.working.events c c (call-events jwt s now c)),
  >>=-value (call events) (λ es. streets_of jwt s now es r) c.working.events c c
        (call-events jwt s now c)
      ∙ streets_of_lem jwt s now c.working.events r u c from,
)
