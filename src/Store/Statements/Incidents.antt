-- ===== src/Store/Statements/Incidents.antt =====
-- The statements on incidents, their Rangers and their types.
use ranger_ims_server.Prelude.{
  ℕ, ◌^◌, ◌-◌, String, Bool, true, not, ◌&&◌, Option, none, some, List, [], ◌∷◌, ◌++◌, map, any,
  keep, first, elem, string_eq, nat_eq, ◌==◌, ltb, leb, if◌then◌else◌,
}
use ranger_ims_server.Store.Values.{storage_error, overflow_error}
use ranger_ims_server.Store.Tables.{Db, TypeRow, IncidentRow, Link}
use ranger_ims_server.Store.Transactions.{Txn, gets, guard, modify, ◌>>=◌, ◌>>◌}
use ranger_ims_server.Store.Statements.Access.{is_street}

-- ext/sqlite.py: `SQLITE_MAX_INT`. A larger parameter raises `OverflowError`.
abbrev pub sqlite_max_int : ℕ
sqlite_max_int = 2 ^ 63 - 1

-- Passing a number as a parameter. Shut, so that proofs do not compute with the bound.
unfoldable pub fits : ℕ → Bool
fits n = leb n sqlite_max_int

abbrev pub fits_option : Option ℕ → Bool
fits_option none = true
fits_option (some n) = fits n

abbrev pub is_incident : String → ℕ → IncidentRow → Bool
is_incident e n row = row.event == e && row.number == n

abbrev pub belongs : {A : Type 0} → String → ℕ → Link A → Bool
belongs e n link = link.event == e && link.number == n

abbrev pub item_of : {A : Type 0} → Link A → A
item_of link = link.item

abbrev pub items : {A : Type 0} → String → ℕ → List (Link A) → List A
items e n links = map item_of (keep (belongs e n) links)

-- incident
unfoldable pub incident : String → ℕ → Txn (Option IncidentRow)
incident e n = do guard (fits n) overflow_error; gets (λ db. first (is_incident e n) db.incidents)

-- incident_rangers
unfoldable pub incident_rangers : String → ℕ → Txn (List String)
incident_rangers e n = gets (λ db. items e n db.incident_rangers)

-- incident_incidentTypes: the names of the types that are linked, in the order of their own table
unfoldable pub incident_incident_types : String → ℕ → Txn (List String)
incident_incident_types e n = gets (λ db.
    map (λ (t : TypeRow). t.name)
      (keep (λ (t : TypeRow). elem t.name (items e n db.incident_incident_types))
        db.incident_types))

abbrev pub in_event : String → IncidentRow → Bool
in_event e row = row.event == e

abbrev pub numbers : String → List IncidentRow → List ℕ
numbers e rows = map (λ (row : IncidentRow). row.number) (keep (in_event e) rows)

-- incidentNumbers
unfoldable pub incident_numbers : String → Txn (List ℕ)
incident_numbers e = gets (λ db. numbers e db.incidents)

-- `max`, which is null over no row
unfoldable pub maximum : List ℕ → Option ℕ
maximum [] = none
maximum (n ∷ ns) = elim (maximum ns) [ none ↦ some n | some m ↦ some (if ltb m n then n else m) ]

-- maxIncidentNumber
unfoldable pub max_incident_number : String → Txn (Option ℕ)
max_incident_number e = gets (λ db. maximum (numbers e db.incidents))

-- Both parts of a foreign key to INCIDENT, and its event
abbrev pub refers : String → ℕ → Db → Bool
refers e n db = elem e db.events && any (is_incident e n) db.incidents

-- attachRangeHandleToIncident
unfoldable pub attach_ranger_handle_to_incident : String → ℕ → String → Txn (Unit {0})
attach_ranger_handle_to_incident e n handle = do
  guard (fits n) overflow_error
  db ← gets (λ db. db)
  guard (refers e n db) storage_error
  guard (not (elem handle (items e n db.incident_rangers))) storage_error
  modify (λ db. record db {
    incident_rangers = db.incident_rangers ++ record { event = e; number = n; item = handle } ∷ [];
  })

abbrev pub is_type : String → TypeRow → Bool
is_type name row = row.name == name

-- attachIncidentTypeToIncident: a type that does not exist is a null, which the column refuses.
unfoldable pub attach_incident_type_to_incident : String → ℕ → String → Txn (Unit {0})
attach_incident_type_to_incident e n name = do
  guard (fits n) overflow_error
  db ← gets (λ db. db)
  guard (refers e n db) storage_error
  guard (any (is_type name) db.incident_types) storage_error
  guard (not (elem name (items e n db.incident_incident_types))) storage_error
  modify (λ db. record db {
    incident_incident_types =
        db.incident_incident_types ++ record { event = e; number = n; item = name } ∷ [];
  })

-- clearIncidentRangers
unfoldable pub clear_incident_rangers : String → ℕ → Txn (Unit {0})
clear_incident_rangers e n = do
  guard (fits n) overflow_error
  modify (λ db. record db {
    incident_rangers = keep (λ link. not (belongs e n link)) db.incident_rangers;
  })

-- clearIncidentIncidentTypes
unfoldable pub clear_incident_incident_types : String → ℕ → Txn (Unit {0})
clear_incident_incident_types e n = do
  guard (fits n) overflow_error
  modify (λ db. record db {
    incident_incident_types = keep (λ link. not (belongs e n link)) db.incident_incident_types;
  })

-- A location may have no street, or one of its event.
abbrev pub known_street : String → Option String → Db → Bool
known_street e none db = true
known_street e (some street) db = any (is_street e street) db.streets

abbrev pub state_values : List String
state_values = "new" ∷ "on_hold" ∷ "dispatched" ∷ "on_scene" ∷ "closed" ∷ []

-- createIncident: the event exists, (EVENT, NUMBER) is the primary key, and the state and the street
-- exist.
unfoldable pub create_incident : IncidentRow → Txn (Unit {0})
create_incident row = do
  guard
      (fits row.number
        && (fits_option row.location_radial_hour && fits_option row.location_radial_minute))
      overflow_error
  db ← gets (λ db. db)
  guard (elem row.event db.events) storage_error
  guard (not (any (is_incident row.event row.number) db.incidents)) storage_error
  guard (elem row.state state_values) storage_error
  guard (known_street row.event row.location_concentric db) storage_error
  modify (λ db. record db { incidents = db.incidents ++ row ∷ [] })

-- What a `setIncident_…` statement sets: a column, and its value.
pub data Change : Type 0 where
  priority : ℕ → Change
  state : String → Change
  summary location_name location_concentric location_description : Option String → Change
  location_radial_hour location_radial_minute : Option ℕ → Change

unfoldable pub set_column : Change → IncidentRow → IncidentRow
set_column (priority v) row = record row { priority = v }
set_column (state v) row = record row { state = v }
set_column (summary v) row = record row { summary = v }
set_column (location_name v) row = record row { location_name = v }
set_column (location_concentric v) row = record row { location_concentric = v }
set_column (location_description v) row = record row { location_description = v }
set_column (location_radial_hour v) row = record row { location_radial_hour = v }
set_column (location_radial_minute v) row = record row { location_radial_minute = v }

unfoldable pub fits_value : Change → Bool
fits_value (priority v) = fits v
fits_value (location_radial_hour v) = fits_option v
fits_value (location_radial_minute v) = fits_option v
fits_value _ = true

-- The constraints on the new value, of an incident of the event.
unfoldable pub admits : Change → String → Db → Bool
admits (state v) e db = elem v state_values
admits (location_concentric v) e db = known_street e v db
admits _ e db = true

abbrev pub update_incident : Change → String → ℕ → IncidentRow → IncidentRow
update_incident change e n row = if is_incident e n row then set_column change row else row

-- template_setIncidentAttribute: an update of no row meets no constraint.
unfoldable pub set_incident_attribute : Change → String → ℕ → Txn (Unit {0})
set_incident_attribute change e n = do
  guard (fits n && fits_value change) overflow_error
  db ← gets (λ db. db)
  guard (if any (is_incident e n) db.incidents then admits change e db else true) storage_error
  modify (λ db. record db { incidents = map (update_incident change e n) db.incidents })
