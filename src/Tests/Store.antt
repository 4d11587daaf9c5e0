-- ===== src/Tests/Store.antt =====
-- store/ at a concrete database, and the theorems at it.
use ranger_ims_server.Prelude.{
  String, ◌≡◌, refl, true, not, ◌&&◌, none, some, List, [], ◌∷◌, elem, string_eq, ◌==◌,
  if◌then◌else◌,
}
use ranger_ims_server.Auth.Acl.{ImsUser, match_acl}
use ranger_ims_server.Auth.Provider.{Settings, authorizations_for_user}
use ranger_ims_server.Model.{Incident, text_only, new, high}
use ranger_ims_server.Model.Time.{DateTime, pos}
use ranger_ims_server.Store.Values.{ok}
use ranger_ims_server.Store.Tables.{Db}
use ranger_ims_server.Store.Transactions.{Connection}
use ranger_ims_server.Store.Statements.Incidents.{state}
use ranger_ims_server.Store.Access.{set_event_access, set_writers, access_lists}
use ranger_ims_server.Store.Access.Effect.{granted, set_event_access_effect}
use ranger_ims_server.Store.Access.Rights.{writers_take_effect}
use ranger_ims_server.Store.Calls.{
  Call, create_event, create_incident, set_attribute, perform_all, schema, fresh,
}
use ranger_ims_server.Store.Fetch.{validate}
use ranger_ims_server.Store.Audit.{validate_after_calls}

abbrev db : Db
db = record schema {
  events = "2019" ∷ [];
  access =
      record { event = "2019"; expression = "*"; mode = "read" }
      ∷ record { event = "2019"; expression = "person:Tool"; mode = "read" }
      ∷ [];
}

abbrev connection : Connection
connection = record { committed = db; working = db }

abbrev operators : List String
operators = "position:Operator" ∷ "*" ∷ []

set_event_access_effect_example :
    (db' : Db) × (set_event_access "2019" "write" operators connection
      ≡ (ok tt, record { committed = db'; working = db' }))
    × (db' ≡ record db { access = db'.access })
    × ((f m y : String)
        → granted f m y db'.access ≡ (
            if f == "2019"
            then (if m == "write"
                then elem y operators
                else granted f m y db.access && not (elem y operators))
            else granted f m y db.access))
unfolding string_eq
set_event_access_effect_example =
    set_event_access_effect "2019" "write" operators connection refl refl

abbrev ranger : ImsUser
ranger = record {
  uid = "bucket";
  short_names = "Bucket" ∷ [];
  active = true;
  groups = "Operator" ∷ [];
  hashed_password = none;
}

abbrev settings : Settings
settings = record { require_active = true; admin_users = []; master_key = "" }

abbrev later : Connection
later = (set_writers "2019" operators connection).1

known_event : elem "2019" connection.working.events ≡ true
unfolding string_eq
known_event = refl

writers_take_effect_example :
    ((set_writers "2019" operators connection).0 ≡ ok tt)
    × ((authorizations_for_user settings
          (access_lists later)
          (some ranger)
          (some "2019")).write_incidents
        ≡ match_acl true (some ranger) operators)
    × ((y : String)
        → elem y ((access_lists later).readers "2019")
          ≡ (elem y ((access_lists connection).readers "2019") && not (elem y operators)))
writers_take_effect_example =
    writers_take_effect settings (some ranger) "2019" operators connection known_event

abbrev noon : DateTime
noon = record { second = pos 1566979200; microsecond = 120000 }

abbrev incident : Incident
incident = record {
  event_id = "2019";
  number = 0;
  created = noon;
  state = new;
  priority = high;
  summary = some "Lost child";
  location = record { name = none; address = text_only none };
  ranger_handles = "Bucket" ∷ [];
  incident_types = "Junk" ∷ [];
  report_entries = [];
  incident_report_numbers = [];
}

abbrev calls : List Call
calls =
    create_event "2019"
    ∷ create_incident incident "Bucket" noon
    ∷ set_attribute (state "closed") "2019" 1 "Bucket" noon
    ∷ set_attribute (state "closed") "2019" 2 "Bucket" noon
    ∷ []

validate_after_calls_example : (validate (perform_all calls fresh)).0 ≡ ok tt
validate_after_calls_example = validate_after_calls calls
