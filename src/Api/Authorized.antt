-- ===== src/Api/Authorized.antt =====
-- No handler changes the store for a request without the authorization that it asks for.
use ranger_ims_server.Prelude.{
  ℕ, String, ◌≡◌, ◌≢◌, refl, ap, true, ◌⊎◌, inl, inr, Option, none, some, List, arith,
}
use ranger_ims_server.Auth.Authorization.{
  Authorization, ims_admin, write_incidents, write_incident_reports, meets,
}
use ranger_ims_server.Auth.Claims
use ranger_ims_server.Auth.Claims.{AuthError}
use ranger_ims_server.Auth.Acl.{ImsUser}
use ranger_ims_server.Auth.Provider.{
  Settings, Jwt, Request, authorizations_for_user, authorize_request,
}
use ranger_ims_server.Auth.Provider.Requests.{ComesFrom, authorize_request_iff}
use ranger_ims_server.Model.Time.{DateTime}
use ranger_ims_server.Codec.Json.{Json}
use ranger_ims_server.Codec.Converter.{Converter}
use ranger_ims_server.Store.Transactions.{Connection}
use ranger_ims_server.Store.Access.{access_lists}
use ranger_ims_server.Api.Server.{
  Server, Reply, Outcome, value, reply, raised, refused, Body, authorized,
}
use ranger_ims_server.Api.Incidents.{
  IncidentEdits, ReportEdits, IncidentQuery, edit_incident, edit_incident_report,
}
use ranger_ims_server.Api.New.{new_incident, new_incident_report}
use ranger_ims_server.Api.Admin.{
  Listed, TypesEdits, AccessEdits, StreetsEdits, edit_incident_types, edit_events,
  edit_admin_access, edit_streets,
}

-- A request that may write
pub data Post : Type 0 where
  incident_types : Body TypesEdits → Post
  events : Body Listed → Post
  admin_access : Body (List AccessEdits) → Post
  streets : Body (List StreetsEdits) → Post
  incident : String → Option ℕ → Body IncidentEdits → Post
  incident_report : String → Option ℕ → Option String → IncidentQuery → Body ReportEdits → Post
  create_incident create_incident_report : String → Option Json → Post

-- The event and the authorization that the handler asks for
unfoldable pub asked : Post → Option String × Authorization
asked (incident_types body) = (none, ims_admin)
asked (events body) = (none, ims_admin)
asked (admin_access body) = (none, ims_admin)
asked (streets body) = (none, ims_admin)
asked (incident e n body) = (some e, write_incidents)
asked (incident_report e n action query body) = (some e, write_incident_reports)
asked (create_incident e body) = (some e, write_incidents)
asked (create_incident_report e body) = (some e, write_incident_reports)

no_trace :
    {o : Outcome Reply} {c c' : Connection} {f : AuthError}
    → (c' ≢ c) ⊎ ((answer : Reply) × (o ≡ reply answer)) ⊎ ((answer : Reply) × (o ≡ value answer))
    → ◌≡◌ {A = Outcome Reply × Connection} (o, c') (raised (refused f), c)
    → ⊥
no_trace (inl changed) h = changed (ap (λ (p : Outcome Reply × Connection). p.1) h)
no_trace (inr (inl (answer, replied))) h = ground arith
no_trace (inr (inr (answer, given))) h = ground arith

module _ (conv : Converter) (jwt : Jwt) (s : Settings) (now : ℕ) (clock stored : DateTime) where
  unfoldable pub serve : Post → Request → Server Reply
  serve (incident_types body) = edit_incident_types jwt s now body
  serve (events body) = edit_events jwt s now body
  serve (admin_access body) = edit_admin_access jwt s now body
  serve (streets body) = edit_streets jwt s now body
  serve (incident e n body) = edit_incident jwt s now clock e n body
  serve (incident_report e n action query body) =
      edit_incident_report jwt s now clock e n action query body
  serve (create_incident e body) = new_incident conv jwt s now clock stored e body
  serve (create_incident_report e body) = new_incident_report conv jwt s now clock stored e body

  auth-cases :
      (x : Claims.Result (Unit {0}))
      → (x ≡ Claims.Result.ok tt) ⊎ ((f : AuthError) × (x ≡ Claims.Result.err f))
  auth-cases (Claims.Result.ok tt) = inl refl
  auth-cases (Claims.Result.err f) = inr (f, refl)

  authorized-raises :
      (e : Option String) (required : Authorization) (r : Request) (c : Connection) (f : AuthError)
      → (authorize_request jwt s (access_lists c) now e required r).0 ≡ Claims.Result.err f
      → authorized jwt s now e required r c ≡ (raised (refused f), c)
  unfolding authorized
  authorized-raises e required r c f h = ground arith

  pub serve-raises :
      (post : Post) (r : Request) (c : Connection) (f : AuthError)
      → (authorize_request jwt s (access_lists c) now (asked post).0 (asked post).1 r).0
        ≡ Claims.Result.err f
      → serve post r c ≡ (raised (refused f), c)
  unfolding asked serve edit_incident_types edit_events edit_admin_access edit_streets edit_incident
      edit_incident_report new_incident new_incident_report
  serve-raises (incident_types body) r c f h =
      ground (arith, authorized-raises none ims_admin r c f h)
  serve-raises (events body) r c f h = ground (arith, authorized-raises none ims_admin r c f h)
  serve-raises (admin_access body) r c f h =
      ground (arith, authorized-raises none ims_admin r c f h)
  serve-raises (streets body) r c f h = ground (arith, authorized-raises none ims_admin r c f h)
  serve-raises (incident e n body) r c f h =
      ground (arith, authorized-raises (some e) write_incidents r c f h)
  serve-raises (incident_report e n action query body) r c f h =
      ground (arith, authorized-raises (some e) write_incident_reports r c f h)
  serve-raises (create_incident e body) r c f h =
      ground (arith, authorized-raises (some e) write_incidents r c f h)
  serve-raises (create_incident_report e body) r c f h =
      ground (arith, authorized-raises (some e) write_incident_reports r c f h)

-- If a request to write changes the store, or is answered without an exception, then it comes from a
-- user who has, by the access lists as they are, the authorization that the handler asks for: to
-- administrate, or to write the incidents, or the incident reports, of the event. The requests are those
-- that edit or create.
pub changes_are_authorized :
    (conv : Converter) (jwt : Jwt) (s : Settings) (now : ℕ) (clock stored : DateTime) (post : Post)
    (r : Request) (c : Connection)
    → ((serve conv jwt s now clock stored post r c).1 ≢ c)
      ⊎ ((answer : Reply) × ((serve conv jwt s now clock stored post r c).0 ≡ reply answer))
      ⊎ ((answer : Reply) × ((serve conv jwt s now clock stored post r c).0 ≡ value answer))
    → (u : ImsUser) × ComesFrom jwt now r u
      × (meets (asked post).1 (authorizations_for_user s (access_lists c) (some u) (asked post).0)
          ≡ true)
changes_are_authorized conv jwt s now clock stored post r c seen =
    elim (auth-cases conv jwt s now clock stored
      (authorize_request jwt s (access_lists c) now (asked post).0 (asked post).1 r).0) [
        | inl passed ↦
            let (u, from, rights, _) =
              (authorize_request_iff jwt s (access_lists c) now (asked post).0 (asked post).1 r).0
                passed in
            (u, from, rights)
        | inr (f, stopped) ↦
            let raise = serve-raises conv jwt s now clock stored post r c f stopped in
            elim (no_trace seen raise) [ ]
      ]
