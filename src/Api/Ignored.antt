-- ===== src/Api/Ignored.antt =====
-- Two edits that the handlers accept and do not make: no location, and more streets.
use ranger_ims_server.Prelude.{
  ℕ, String, ◌≡◌, refl, map, keep, false, Option, none, some, List, [], ◌∷◌, ◌++◌, string_eq,
  nat_eq, arith,
}
use ranger_ims_server.Auth.Authorization.{Authorization, ims_admin, write_incidents}
use ranger_ims_server.Auth.Claims
use ranger_ims_server.Auth.Claims.{AuthError}
use ranger_ims_server.Auth.Acl.{ImsUser}
use ranger_ims_server.Auth.Provider.{Settings, Jwt, Request, authorize_request}
use ranger_ims_server.Model.Time.{DateTime}
use ranger_ims_server.Store.Values.{ok}
use ranger_ims_server.Store.Tables.{StreetRow}
use ranger_ims_server.Store.Transactions.{Connection, run_query}
use ranger_ims_server.Store.Statements.Access
use ranger_ims_server.Store.Statements.Access.{of_event}
use ranger_ims_server.Store.Access.{access_lists, concentric_streets}
use ranger_ims_server.Api.Server.{
  no_content, value, raised, refused, json, body_of, items_of, if_set, call, for_each, authorized,
  author_of,
}
use ranger_ims_server.Api.Incidents.{
  IncidentEdits, unset, edit_location, apply_edit, apply_edits, edit_incident, number_of, unless,
  same_number,
}
use ranger_ims_server.Api.Admin.{StreetsEdits, refuse_removal, edit_streets}

-- `{"location": null}`
abbrev pub no_location : IncidentEdits
no_location = record {
  number = none;
  created = false;
  priority = unset;
  state = unset;
  summary = none;
  ranger_handles = none;
  incident_types = none;
  location = some none;
  report_entries = none;
}

module _ (jwt : Jwt) (s : Settings) (now : ℕ) where
  authorized-passes :
      (e : Option String) (required : Authorization) (r r' : Request) (c : Connection)
      → authorize_request jwt s (access_lists c) now e required r ≡ (Claims.Result.ok tt, r')
      → authorized jwt s now e required r c ≡ (value r', c)
  unfolding authorized
  authorized-passes e required r r' c h = ground arith

-- A request that sets the location of an incident to null, and nothing else, is let through by the
-- server, for a user with a short name, and answered with success; but the store stays as it is, also
-- where the incident has a location, or does not exist.
pub null_location_ignored :
    (jwt : Jwt) (s : Settings) (now : ℕ) (clock : DateTime) (e : String) (n : ℕ) (r r' : Request)
    (c : Connection) (u : ImsUser) (name : String) (names : List String)
    → authorize_request jwt s (access_lists c) now (some e) write_incidents r
      ≡ (Claims.Result.ok tt, r')
    → r'.user ≡ some u
    → u.short_names ≡ name ∷ names
    → edit_incident jwt s now clock e (some n) (json no_location) r c ≡ (value no_content, c)
unfolding edit_incident author_of number_of body_of unless same_number apply_edits apply_edit if_set
    edit_location
null_location_ignored jwt s now clock e n r r' c u name names passed user named =
    ground (arith, authorized-passes jwt s now (some e) write_incidents r r' c passed)

-- The streets of an event are read from the working database, and nothing is changed.
streets-read :
    (e : String) (c : Connection)
    → (streets : List (String × String)) × (concentric_streets e c ≡ (ok streets, c))
unfolding concentric_streets run_query Access.concentric_streets
streets-read e c =
    (map (λ (row : StreetRow). (row.id, row.name)) (keep (of_event e) c.working.streets), refl)

-- An event with a street is refused, whatever events stand before it.
removal-refused :
    (before rest : List StreetsEdits) (edits : StreetsEdits) (c : Connection)
    (street : String × String) (streets : List (String × String))
    → (concentric_streets edits.event c).0 ≡ ok (street ∷ streets)
    → for_each (before ++ edits ∷ rest) refuse_removal c
      ≡ (raised (refused AuthError.not_authorized), c)
unfolding for_each refuse_removal call
removal-refused [] rest edits c street streets there =
    let (found, read) = streets-read edits.event c in ground (arith, read)
removal-refused (earlier ∷ before) rest edits c street streets there =
    let (found, read) = streets-read earlier.event c in
    ground (arith, read, removal-refused before rest edits c street streets there)

-- An administrator cannot add a street to an event that has one: a request that names such an event,
-- among whatever others and with whatever streets, is refused, and the store stays as it is.
pub streets_refused :
    (jwt : Jwt) (s : Settings) (now : ℕ) (before rest : List StreetsEdits) (edits : StreetsEdits)
    (r r' : Request) (c : Connection) (street : String × String) (streets : List (String × String))
    → authorize_request jwt s (access_lists c) now none ims_admin r ≡ (Claims.Result.ok tt, r')
    → (concentric_streets edits.event c).0 ≡ ok (street ∷ streets)
    → edit_streets jwt s now (json (before ++ edits ∷ rest)) r c
      ≡ (raised (refused AuthError.not_authorized), c)
unfolding edit_streets items_of
streets_refused jwt s now before rest edits r r' c street streets passed there = ground (
  arith,
  authorized-passes jwt s now none ims_admin r r' c passed,
  removal-refused before rest edits c street streets there,
)
