-- ===== src/Store/Statements/Access.antt =====
-- The statements on events, their access lists, incident types and streets. The name of an event
-- that does not exist selects no row, and cannot be inserted.
use ranger_ims_server.Prelude.{
  String, Bool, not, ◌&&◌, List, [], ◌∷◌, ◌++◌, map, any, keep, elem, string_eq, ◌==◌,
  if◌then◌else◌,
}
use ranger_ims_server.Store.Values.{storage_error}
use ranger_ims_server.Store.Tables.{AccessRow, TypeRow, StreetRow}
use ranger_ims_server.Store.Transactions.{Txn, gets, guard, modify, ◌>>=◌, ◌>>◌}

-- events
unfoldable pub events : Txn (List String)
events = gets (λ db. db.events)

-- createEvent
unfoldable pub create_event : String → Txn (Unit {0})
create_event event_id = do
  db ← gets (λ db. db)
  guard (not (elem event_id db.events)) storage_error
  modify (λ db. record db { events = db.events ++ event_id ∷ [] })

abbrev pub in_mode : String → String → AccessRow → Bool
in_mode e mode row = row.event == e && row.mode == mode

abbrev pub has_expression : String → String → AccessRow → Bool
has_expression e expression row = row.event == e && row.expression == expression

-- eventAccess
unfoldable pub event_access : String → String → Txn (List String)
event_access e mode =
    gets (λ db. map (λ (row : AccessRow). row.expression) (keep (in_mode e mode) db.access))

-- clearEventAccessForMode
unfoldable pub clear_event_access_for_mode : String → String → Txn (Unit {0})
clear_event_access_for_mode e mode =
    modify (λ db. record db { access = keep (λ row. not (in_mode e mode row)) db.access })

-- clearEventAccessForExpression
unfoldable pub clear_event_access_for_expression : String → String → Txn (Unit {0})
clear_event_access_for_expression e expression =
    modify
      (λ db. record db { access = keep (λ row. not (has_expression e expression row)) db.access })

abbrev pub access_modes : List String
access_modes = "read" ∷ "write" ∷ "report" ∷ []

-- addEventAccess: the event and the mode exist, and (EVENT, EXPRESSION) is the primary key.
unfoldable pub add_event_access : String → String → String → Txn (Unit {0})
add_event_access e expression mode = do
  db ← gets (λ db. db)
  guard (elem e db.events) storage_error
  guard (elem mode access_modes) storage_error
  guard (not (any (has_expression e expression) db.access)) storage_error
  modify (λ db. record db {
    access = db.access ++ record { event = e; expression = expression; mode = mode } ∷ [];
  })

abbrev type_name : TypeRow → String
type_name row = row.name

-- incidentTypes
unfoldable pub incident_types : Txn (List String)
incident_types = gets (λ db. map type_name db.incident_types)

-- incidentTypesNotHidden
unfoldable pub incident_types_not_hidden : Txn (List String)
incident_types_not_hidden =
    gets (λ db. map type_name (keep (λ (row : TypeRow). not row.hidden) db.incident_types))

-- createIncidentType: the name is unique.
unfoldable pub create_incident_type : String → Bool → Txn (Unit {0})
create_incident_type name hidden = do
  db ← gets (λ db. db)
  guard (not (any (λ (row : TypeRow). row.name == name) db.incident_types)) storage_error
  modify (λ db. record db {
    incident_types = db.incident_types ++ record { name = name; hidden = hidden } ∷ [];
  })

abbrev pub set_hidden : String → Bool → TypeRow → TypeRow
set_hidden name hidden row = if row.name == name then record row { hidden = hidden } else row

-- hideShowIncidentType
unfoldable pub hide_show_incident_type : String → Bool → Txn (Unit {0})
hide_show_incident_type name hidden =
    modify (λ db. record db { incident_types = map (set_hidden name hidden) db.incident_types })

abbrev pub of_event : String → StreetRow → Bool
of_event e row = row.event == e

-- concentricStreets
unfoldable pub concentric_streets : String → Txn (List (String × String))
concentric_streets e =
    gets (λ db. map (λ (row : StreetRow). (row.id, row.name)) (keep (of_event e) db.streets))

abbrev pub is_street : String → String → StreetRow → Bool
is_street e id row = row.event == e && row.id == id

-- createConcentricStreet: the event exists, and (EVENT, ID) is the primary key.
unfoldable pub create_concentric_street : String → String → String → Txn (Unit {0})
create_concentric_street e id name = do
  db ← gets (λ db. db)
  guard (elem e db.events) storage_error
  guard (not (any (is_street e id) db.streets)) storage_error
  modify
      (λ db. record db { streets = db.streets ++ record { event = e; id = id; name = name } ∷ [] })
