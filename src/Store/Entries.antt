-- ===== src/Store/Entries.antt =====
-- store/_db.py: report entries, the ones that the store writes itself included.
pub mod Attached
pub mod Initial
pub mod Stamped
use ranger_ims_server.Prelude.{
  ℕ, String, ◌<>◌, Bool, true, false, not, ◌&&◌, Option, none, some, List, [], ◌∷◌, ◌++◌, keep, any,
  string_eq, nat_eq, ◌==◌, if◌then◌else◌,
}
use ranger_ims_server.Text.{join, show}
use ranger_ims_server.Model.{
  IncidentState, new, IncidentPriority, normal, describe_state, describe_priority, ReportEntry,
  Address, description, concentric, radial_hour, radial_minute, Location, Incident, IncidentReport,
}
use ranger_ims_server.Model.Time.{DateTime, normalize}
use ranger_ims_server.Store.Values.{
  Result, ok, err, value_error, as_date_time_value, from_date_time_value,
}
use ranger_ims_server.Store.Tables.{Db, EntryRow}
use ranger_ims_server.Store.Statements.Entries
use ranger_ims_server.Store.Statements.Entries.{
  create_report_entry, attach_report_entry_to_incident, attach_report_entry_to_incident_report,
}
use ranger_ims_server.Store.Transactions.{Txn, Action, pure, lift, run_interaction, ◌>>=◌, ◌>>◌}

-- `value` is the text of the value.
unfoldable pub automatic_report_entry : String → DateTime → String → String → ReportEntry
automatic_report_entry author created attribute value = record {
  created = normalize created;
  author = author;
  automatic = true;
  text = "Changed " <> (attribute <> (" to: " <> value));
}

-- `if text: addEntry(…)`
if_text : (String → ReportEntry) → Option String → List ReportEntry
if_text entry none = []
if_text entry (some text) = if text == "" then [] else entry text ∷ []

-- `if number is not None: addEntry(…)`
if_number : (String → ReportEntry) → Option ℕ → List ReportEntry
if_number entry none = []
if_number entry (some n) = entry (show n) ∷ []

if_present : (String → ReportEntry) → Option String → List ReportEntry
if_present entry none = []
if_present entry (some text) = entry text ∷ []

if_any : (String → ReportEntry) → List String → List ReportEntry
if_any entry [] = []
if_any entry (x ∷ xs) = entry (join ", " (x ∷ xs)) ∷ []

if_priority : (String → ReportEntry) → IncidentPriority → List ReportEntry
if_priority entry normal = []
if_priority entry p = entry (describe_priority p) ∷ []

if_state : (String → ReportEntry) → IncidentState → List ReportEntry
if_state entry new = []
if_state entry s = entry (describe_state s) ∷ []

unfoldable pub initial_report_entries : Incident → String → DateTime → List ReportEntry
unfolding automatic_report_entry if_text if_number if_present if_any if_priority if_state
initial_report_entries incident author now =
    let entry = λ (attribute : String). automatic_report_entry author now attribute in
    let location = incident.location in
    let address = location.address in
    if_text (entry "summary") incident.summary
    ++ (if_priority (entry "priority") incident.priority
        ++ (if_state (entry "state") incident.state
            ++ (if_text (entry "location name") location.name
                ++ (if_text (entry "location description") (description address)
                    ++ (if_present (entry "location concentric street") (concentric address)
                        ++ (if_number (entry "location radial hour") (radial_hour address)
                            ++ (if_number (entry "location radial minute") (radial_minute address)
                                ++ (if_any (entry "Rangers") incident.ranger_handles
                                    ++ if_any (entry "incident types")
                                        incident.incident_types))))))))

-- The same for an incident report, which has a summary only.
unfoldable pub initial_report_entries_of_report :
    IncidentReport → String → DateTime → List ReportEntry
unfolding automatic_report_entry if_text
initial_report_entries_of_report report author now =
    if_text (automatic_report_entry author now "summary") report.summary

-- `_createReportEntry`, with the row's ID
unfoldable pub create_entry : ReportEntry → Txn ℕ
create_entry entry = do
  created ← lift (as_date_time_value entry.created)
  create_report_entry created entry.automatic entry.author entry.text

unfoldable pub create_and_attach_to_incident : String → ℕ → List ReportEntry → Txn (Unit {0})
create_and_attach_to_incident e n [] = pure tt
create_and_attach_to_incident e n (entry ∷ entries) = do
  id ← create_entry entry
  attach_report_entry_to_incident e n id
  create_and_attach_to_incident e n entries

unfoldable pub create_and_attach_to_incident_report : String → ℕ → List ReportEntry → Txn (Unit {0})
create_and_attach_to_incident_report e n [] = pure tt
create_and_attach_to_incident_report e n (entry ∷ entries) = do
  id ← create_entry entry
  attach_report_entry_to_incident_report e n id
  create_and_attach_to_incident_report e n entries

-- The entry that a row stands for
unfoldable pub entry_of_row : EntryRow → ReportEntry
entry_of_row row = record {
  created = from_date_time_value row.created;
  author = row.author;
  automatic = row.generated;
  text = row.text;
}

-- The checks of `addReportEntriesToIncident` and `addReportEntriesToIncidentReport`
unfoldable pub typed_by : String → List ReportEntry → Result (Unit {0})
typed_by author [] = ok tt
typed_by author (entry ∷ entries) =
    let rest = typed_by author entries in
    if entry.automatic
    then err value_error
    else if entry.author == author
    then rest
    else err value_error
