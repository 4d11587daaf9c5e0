-- ===== src/Api/Confidential.antt =====
-- Who is shown the incident reports of an event.
use mathlib.Core.Path.{subst}
use ranger_ims_server.Prelude.{
  ℕ, String, Bool, ◌≡◌, ap, sym, ◌∙◌, true, false, ◌⊎◌, inl, inr, some, List, [], ◌∷◌, keep,
  string_eq, arith, All, if◌then◌else◌, Bool-cases,
}
use ranger_ims_server.Auth.Authorization.{read_incidents, write_incident_reports, meets}
use ranger_ims_server.Auth.Claims.{AuthError}
use ranger_ims_server.Auth.Acl.{ImsUser}
use ranger_ims_server.Auth.Provider.{
  Settings, Jwt, Request, authorizations_for_user, authorize_request,
}
use ranger_ims_server.Auth.Provider.Requests.{
  ComesFrom, attached, authorize_request_iff, authorize_complete,
}
use ranger_ims_server.Auth.Provider.Refused.{Result-cases, not_authorized-user}
use ranger_ims_server.Model.{IncidentReport}
use ranger_ims_server.Store.Transactions.{Connection}
use ranger_ims_server.Store.Access.{access_lists}
use ranger_ims_server.Store.Fetch.{incident_reports}
use ranger_ims_server.Api.Server.{Outcome, value, call, authorized, author_of, ◌>>=◌}
use ranger_ims_server.Api.Server.Sequences.{>>=-eq-value}
use ranger_ims_server.Api.Incidents.{IncidentQuery}
use ranger_ims_server.Api.Reading.{
  wrote, own_reports, reports_access, full_or_limited, limited, select_reports,
  list_incident_reports,
}

All_of_keep : {A : Type 0} (p : A → Bool) (xs : List A) → All (λ x. p x ≡ true) (keep p xs)
All_of_keep p [] = tt
All_of_keep p (x ∷ xs) = elim (Bool-cases (p x)) [
  | inl hit ↦ rw hit (hit, All_of_keep p xs)
  | inr miss ↦ rw miss (All_of_keep p xs)
]

own-wrote :
    (r : Request) (u : ImsUser) (name : String) (names : List String)
    (xs reports : List IncidentReport) (c : Connection)
    → r.user ≡ some u
    → u.short_names ≡ name ∷ names
    → (own_reports r xs c).0 ≡ value reports
    → All (λ report. wrote name report ≡ true) reports
unfolding own_reports author_of
own-wrote r u name names [] reports c known named h =
    let same : [] ≡ reports = ground arith in
    subst (λ rs. All (λ report. wrote name report ≡ true) rs) same tt
own-wrote r u name names (x ∷ xs) reports c known named h =
    let same : keep (wrote name) (x ∷ xs) ≡ reports = ground (arith, known, named, h) in
    subst (λ rs. All (λ report. wrote name report ≡ true) rs) same
      (All_of_keep (wrote name) (x ∷ xs))

module _ (jwt : Jwt) (s : Settings) (now : ℕ) where
  -- By which right the reports are shown, and whether only the user's own
  abbrev pub HasAccess : String → Request → Connection → Request → Bool → ImsUser → Type 0
  HasAccess e r c r' own u =
      ComesFrom jwt now r u
      × (r'.user ≡ some u)
      × (meets (if own then write_incident_reports else read_incidents)
            (authorizations_for_user s (access_lists c) (some u) (some e))
          ≡ true)

  limited_lem :
      (e : String) (r q : Request) (c : Connection) (r' : Request) (own : Bool) (u : ImsUser)
      → ComesFrom jwt now r u
      → q.user ≡ some u
      → ((authorized jwt s now (some e) write_incident_reports q >>= limited jwt s now) c).0
        ≡ value (r', own)
      → (((authorized jwt s now (some e) write_incident_reports q >>= limited jwt s now) c).1 ≡ c)
        × HasAccess e r c r' own u
  unfolding authorized
  limited_lem e r q c r' own u from known h =
      let full =
        authorize_complete jwt s (access_lists c) now (some e) write_incident_reports q u
          (attached known) in
      elim (Bool-cases (
        meets write_incident_reports
          (authorizations_for_user s (access_lists c) (some u) (some e)))) [
            | inr lacks ↦ ground (arith, full, lacks)
            | inl has ↦
                let is_own : own ≡ true = ground (arith, full, has) in
                (ground (arith, full, has), (from, ground (arith, full, has), rw is_own has))
          ]

  pub access_lem :
      (e : String) (r : Request) (c : Connection) (r' : Request) (own : Bool)
      → (reports_access jwt s now e r c).0 ≡ value (r', own)
      → ((reports_access jwt s now e r c).1 ≡ c) × ((u : ImsUser) × HasAccess e r c r' own u)
  unfolding reports_access full_or_limited
  access_lem e r c r' own h =
      let asked = authorize_request jwt s (access_lists c) now (some e) read_incidents r in
      elim (Result-cases asked.0) [
        | inl (_, passed_it) ↦
            let (u, from, rights, after) =
              (authorize_request_iff jwt s (access_lists c) now (some e) read_incidents r).0
                passed_it in
            let not_own : own ≡ false = ground (arith, passed_it) in
            (
              ground (arith, passed_it),
              (u, (from, ground (arith, passed_it, after), rw not_own rights)),
            )
        | inr (AuthError.not_authorized, stopped) ↦
            let (u, from, known) =
              not_authorized-user jwt s (access_lists c) now (some e) read_incidents r stopped in
            let step : reports_access jwt s now e r c
                ≡ (authorized jwt s now (some e) write_incident_reports asked.1
                      >>= limited jwt s now)
                    c =
              ground (arith, stopped) in
            let (same, access) =
              limited_lem e r asked.1 c r' own u from known
                (ap (λ (o : Outcome (Request × Bool) × Connection). o.0) (sym step) ∙ h) in
            (ap (λ (o : Outcome (Request × Bool) × Connection). o.1) step ∙ same, (u, access))
        | inr (f, stopped) ↦ ground (arith, stopped)
      ]

module _ (jwt : Jwt) (s : Settings) (now : ℕ) (e : String) (query : IncidentQuery) (c : Connection)
    (u : ImsUser) (reports : List IncidentReport) where
  -- What is shown, in either case
  abbrev MayBeShown : Type 0
  MayBeShown =
      (meets read_incidents (authorizations_for_user s (access_lists c) (some u) (some e)) ≡ true)
      ⊎ ((meets write_incident_reports
              (authorizations_for_user s (access_lists c) (some u) (some e))
            ≡ true)
          × ((name : String) (names : List String)
              → u.short_names ≡ name ∷ names
              → All (λ report. wrote name report ≡ true) reports))

  shown_lem :
      (own : Bool) (r' : Request) (c' : Connection)
      → r'.user ≡ some u
      → meets
          (if own then write_incident_reports else read_incidents)
          (authorizations_for_user s (access_lists c) (some u) (some e))
        ≡ true
      → (select_reports jwt s now e query (r', own) c').0 ≡ value reports
      → MayBeShown
  unfolding select_reports
  shown_lem false r' c' known rights h = inl rights
  shown_lem true r' c' known rights h =
      let (xs, _, last) = >>=-eq-value (call (incident_reports e)) (own_reports r') c' reports h in
      inr (rights, λ name names named. own-wrote r' u name names xs reports _ known named last)

-- The incident reports of an event are listed only for a user who may read the event's incidents, or
-- for one who may write incident reports and is shown only those with an entry by the user's first
-- short name.
pub reports_are_confidential :
    (jwt : Jwt) (s : Settings) (now : ℕ) (e : String) (query : IncidentQuery) (r : Request)
    (c : Connection) (reports : List IncidentReport)
    → (list_incident_reports jwt s now e query r c).0 ≡ value reports
    → (u : ImsUser) × ComesFrom jwt now r u
      × ((meets read_incidents (authorizations_for_user s (access_lists c) (some u) (some e))
            ≡ true)
          ⊎ ((meets write_incident_reports
                  (authorizations_for_user s (access_lists c) (some u) (some e))
                ≡ true)
              × ((name : String) (names : List String)
                  → u.short_names ≡ name ∷ names
                  → All (λ report. wrote name report ≡ true) reports)))
unfolding list_incident_reports
reports_are_confidential jwt s now e query r c reports h =
    let ((r', own), admitted, selected) =
      >>=-eq-value (reports_access jwt s now e r) (select_reports jwt s now e query) c reports h in
    let (_, (u, (from, known, rights))) =
      access_lem jwt s now e r c r' own
        (ap (λ (o : Outcome (Request × Bool) × Connection). o.0) admitted) in
    (
      u,
      from,
      shown_lem jwt s now e query c u reports own r' (reports_access jwt s now e r c).1 known rights
          selected,
    )
