-- ===== src/Store/Incidents.antt =====
-- store/_db.py: creating and changing incidents.
pub mod Columns
pub mod Changed
pub mod Loops
pub mod Written
pub mod Created
pub mod Others
pub mod Reading
pub mod State
pub mod Added
pub mod Returned
pub mod ReadBack
use ranger_ims_server.Prelude.{
  ℕ, ◌+◌, String, Bool, not, Option, none, some, List, [], ◌∷◌, ◌++◌, any, string_eq, nat_eq, ◌==◌,
  if◌then◌else◌,
}
use ranger_ims_server.Text.{join, show}
use ranger_ims_server.Model.{
  IncidentState, IncidentPriority, ReportEntry, description, concentric, radial_hour, radial_minute,
  Incident, freeze, sort_entries,
}
use ranger_ims_server.Model.Time.{DateTime}
use ranger_ims_server.Store.Values.{
  ok, err, value_error, assertion_error, TimeStamp, as_date_time_value, as_priority_value,
  as_incident_state_value,
}
use ranger_ims_server.Store.Tables.{IncidentRow}
use ranger_ims_server.Store.Statements.Incidents
use ranger_ims_server.Store.Statements.Incidents.{
  Change, max_incident_number, attach_ranger_handle_to_incident, attach_incident_type_to_incident,
  clear_incident_rangers, clear_incident_incident_types, set_incident_attribute,
}
use ranger_ims_server.Store.Entries.{
  automatic_report_entry, initial_report_entries, create_and_attach_to_incident, typed_by,
}
use ranger_ims_server.Store.Transactions.{Txn, Action, pure, lift, run_interaction, ◌>>=◌, ◌>>◌}

unfoldable pub next_incident_number : String → Txn ℕ
next_incident_number e = do
  number ← max_incident_number e
  pure (elim number [ none ↦ 1 | some n ↦ n + 1 ])

unfoldable pub attach_ranger_handles : String → ℕ → List String → Txn (Unit {0})
attach_ranger_handles e n [] = pure tt
attach_ranger_handles e n (handle ∷ handles) = do
  attach_ranger_handle_to_incident e n handle
  attach_ranger_handles e n handles

unfoldable pub attach_incident_types : String → ℕ → List String → Txn (Unit {0})
attach_incident_types e n [] = pure tt
attach_incident_types e n (name ∷ names) = do
  attach_incident_type_to_incident e n name
  attach_incident_types e n names

-- The row of an incident. An address of text alone has no street and no radial.
unfoldable pub row_of : Incident → TimeStamp → IncidentRow
row_of i created = record {
  event = i.event_id;
  number = i.number;
  created = created;
  priority = as_priority_value i.priority;
  state = as_incident_state_value i.state;
  summary = i.summary;
  location_name = i.location.name;
  location_concentric = concentric i.location.address;
  location_radial_hour = radial_hour i.location.address;
  location_radial_minute = radial_minute i.location.address;
  location_description = description i.location.address;
}

-- The inner `createIncident`, once the incident has its number
unfoldable pub write_incident : Incident → Txn Incident
write_incident i = do
  created ← lift (as_date_time_value i.created)
  Incidents.create_incident (row_of i created)
  attach_ranger_handles i.event_id i.number i.ranger_handles
  attach_incident_types i.event_id i.number i.incident_types
  create_and_attach_to_incident i.event_id i.number i.report_entries
  pure i

unfoldable pub number_and_write : Incident → Txn Incident
number_and_write i = do
  number ← next_incident_number i.event_id
  write_incident (record i { number = number })

abbrev pub any_automatic : List ReportEntry → Bool
any_automatic entries = any (λ (e : ReportEntry). e.automatic) entries

-- `createIncident` calls `_createIncident` with an author. The initial entries come first, and the
-- incident keeps its entries sorted.
unfoldable pub create_incident : Incident → String → DateTime → Action Incident
create_incident i author now c =
    if author == ""
    then (err value_error, c)
    else if not (i.number == 0)
    then (err value_error, c)
    else if any_automatic i.report_entries
    then (err assertion_error, c)
    else run_interaction
        (number_and_write (record i {
          report_entries = sort_entries (initial_report_entries i author now ++ i.report_entries);
        }))
        c

-- `importIncident` keeps the incident's number and entries.
unfoldable pub import_incident : Incident → Action Incident
import_incident i c =
    if i.number == 0 then (err value_error, c) else run_interaction (write_incident i) c

-- `_setIncidentAttribute`: the column and the value, and the attribute and the value's text as the
-- entry shows them
unfoldable pub change_incident : Change → String → ℕ → ReportEntry → Txn (Unit {0})
change_incident change e n entry = do
  set_incident_attribute change e n
  create_and_attach_to_incident e n (entry ∷ [])

shown : Option String → String
shown none = "None"
shown (some text) = text

shown_number : Option ℕ → String
shown_number none = "None"
shown_number (some n) = show n

-- The attribute's name and the value's text
unfoldable pub describe_change : Change → String × String
unfolding shown shown_number
describe_change (Change.priority v) = ("priority", show v)
describe_change (Change.state v) = ("state", v)
describe_change (Change.summary v) = ("summary", shown v)
describe_change (Change.location_name v) = ("location name", shown v)
describe_change (Change.location_concentric v) = ("location concentric street", shown v)
describe_change (Change.location_description v) = ("location description", shown v)
describe_change (Change.location_radial_hour v) = ("location radial hour", shown_number v)
describe_change (Change.location_radial_minute v) = ("location radial minute", shown_number v)

abbrev pub change_entry : Change → String → DateTime → ReportEntry
change_entry change author now =
    automatic_report_entry author now (describe_change change).0 (describe_change change).1

unfoldable pub set_attribute : Change → String → ℕ → String → DateTime → Action (Unit {0})
set_attribute change e n author now =
    run_interaction (change_incident change e n (change_entry change author now))

unfoldable pub set_incident_priority :
    String → ℕ → IncidentPriority → String → DateTime → Action (Unit {0})
set_incident_priority e n p = set_attribute (Change.priority (as_priority_value p)) e n

unfoldable pub set_incident_state :
    String → ℕ → IncidentState → String → DateTime → Action (Unit {0})
set_incident_state e n s = set_attribute (Change.state (as_incident_state_value s)) e n

unfoldable pub set_incident_summary :
    String → ℕ → Option String → String → DateTime → Action (Unit {0})
set_incident_summary e n v = set_attribute (Change.summary v) e n

unfoldable pub set_incident_location_name :
    String → ℕ → Option String → String → DateTime → Action (Unit {0})
set_incident_location_name e n v = set_attribute (Change.location_name v) e n

unfoldable pub set_incident_location_concentric_street :
    String → ℕ → Option String → String → DateTime → Action (Unit {0})
set_incident_location_concentric_street e n v = set_attribute (Change.location_concentric v) e n

unfoldable pub set_incident_location_radial_hour :
    String → ℕ → Option ℕ → String → DateTime → Action (Unit {0})
set_incident_location_radial_hour e n v = set_attribute (Change.location_radial_hour v) e n

unfoldable pub set_incident_location_radial_minute :
    String → ℕ → Option ℕ → String → DateTime → Action (Unit {0})
set_incident_location_radial_minute e n v = set_attribute (Change.location_radial_minute v) e n

unfoldable pub set_incident_location_description :
    String → ℕ → Option String → String → DateTime → Action (Unit {0})
set_incident_location_description e n v = set_attribute (Change.location_description v) e n

unfoldable pub replace_rangers : String → ℕ → List String → ReportEntry → Txn (Unit {0})
replace_rangers e n handles entry = do
  clear_incident_rangers e n
  attach_ranger_handles e n handles
  create_and_attach_to_incident e n (entry ∷ [])

unfoldable pub set_incident_rangers :
    String → ℕ → List String → String → DateTime → Action (Unit {0})
unfolding replace_rangers
set_incident_rangers e n names author now =
    let handles = freeze names in
    run_interaction (
      replace_rangers e n handles (automatic_report_entry author now "Rangers" (join ", " handles)))

unfoldable pub replace_types : String → ℕ → List String → ReportEntry → Txn (Unit {0})
replace_types e n types entry = do
  clear_incident_incident_types e n
  attach_incident_types e n types
  create_and_attach_to_incident e n (entry ∷ [])

unfoldable pub set_incident_incident_types :
    String → ℕ → List String → String → DateTime → Action (Unit {0})
unfolding replace_types
set_incident_incident_types e n names author now =
    let types = freeze names in
    run_interaction (
      replace_types e n types
        (automatic_report_entry author now "incident types" (join ", " types)))

unfoldable pub add_report_entries_to_incident :
    String → ℕ → List ReportEntry → String → Action (Unit {0})
add_report_entries_to_incident e n entries author c = elim (typed_by author entries) [
  | err error ↦ (err error, c)
  | ok _ ↦ run_interaction (create_and_attach_to_incident e n entries) c
]
