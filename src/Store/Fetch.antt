-- ===== src/Store/Fetch.antt =====
-- store/_db.py: reading incidents and incident reports.
use ranger_ims_server.Prelude.{
  ℕ, String, Bool, not, none, some, List, [], ◌∷◌, map, keep, string_eq, nat_eq, ◌==◌,
}
use ranger_ims_server.Model.{
  ReportEntry, rod_garett, Location, Incident, IncidentReport, freeze, sort_entries,
}
use ranger_ims_server.Store.Values.{
  Error, Result, ok, err, no_such_incident, no_such_incident_report, overflow_error, storage_error,
  from_date_time_value, from_incident_state_value, from_priority_value,
}
use ranger_ims_server.Store.Tables.{IncidentRow, EntryRow, ReportRow}
use ranger_ims_server.Store.Statements.Incidents.{
  incident, incident_rangers, incident_incident_types, incident_numbers,
}
use ranger_ims_server.Store.Statements.Entries.{
  incident_report_entries, incident_report_report_entries, detached_report_entries,
}
use ranger_ims_server.Store.Statements.Reports.{
  incident_report, incident_report_numbers, attached_incident_report_numbers,
}
use ranger_ims_server.Store.Entries.{entry_of_row}
use ranger_ims_server.Store.Transactions.{
  Txn, Connection, Action, pure, lift, run_interaction, ◌>>=◌,
}

-- `if row["TEXT"]`
abbrev pub has_text : EntryRow → Bool
has_text row = not (row.text == "")

-- `except OverflowError: notFound()`, around the first statement only
abbrev pub or_not_found : {A : Type 0} → Error → Result A → Result A
or_not_found missing (err overflow_error) = err missing
or_not_found missing (err e) = err e
or_not_found missing (ok a) = ok a

unfoldable pub find_incident : String → ℕ → Txn IncidentRow
find_incident e n db = elim (or_not_found no_such_incident (incident e n db)) [
  | err error ↦ err error
  | ok (none, db') ↦ err no_such_incident
  | ok (some row, db') ↦ ok (row, db')
]

unfoldable pub location_of_row : IncidentRow → Location
location_of_row row = record {
  name = row.location_name;
  address =
      rod_garett row.location_description row.location_concentric row.location_radial_hour
        row.location_radial_minute;
}

unfoldable pub fetch_incident : String → ℕ → Txn Incident
fetch_incident e n = do
  row ← find_incident e n
  handles ← incident_rangers e n
  types ← incident_incident_types e n
  entries ← incident_report_entries e n
  reports ← attached_incident_report_numbers e n
  state ← lift (from_incident_state_value row.state)
  priority ← lift (from_priority_value row.priority)
  pure (record {
    event_id = e;
    number = n;
    created = from_date_time_value row.created;
    state = state;
    priority = priority;
    summary = row.summary;
    location = location_of_row row;
    ranger_handles = freeze handles;
    incident_types = freeze types;
    report_entries = sort_entries (map entry_of_row (keep has_text entries));
    incident_report_numbers = freeze reports;
  })

unfoldable pub fetch_all : String → List ℕ → Txn (List Incident)
fetch_all e [] = pure []
fetch_all e (n ∷ ns) = do i ← fetch_incident e n; rest ← fetch_all e ns; pure (i ∷ rest)

unfoldable pub fetch_event : String → Txn (List Incident)
fetch_event e = do numbers ← incident_numbers e; fetch_all e numbers

unfoldable pub incidents : String → Action (List Incident)
unfolding fetch_all fetch_event
incidents e = run_interaction (fetch_event e)

unfoldable pub incident_with_number : String → ℕ → Action Incident
incident_with_number e n = run_interaction (fetch_incident e n)

unfoldable pub find_incident_report : String → ℕ → Txn ReportRow
find_incident_report e n db = elim (or_not_found no_such_incident_report (incident_report e n db)) [
  | err error ↦ err error
  | ok (none, db') ↦ err no_such_incident_report
  | ok (some row, db') ↦ ok (row, db')
]

-- The entries of a report are read with those of no text.
unfoldable pub fetch_incident_report : String → ℕ → Txn IncidentReport
fetch_incident_report e n = do
  row ← find_incident_report e n
  entries ← incident_report_report_entries e n
  pure (record {
    event_id = e;
    number = n;
    created = from_date_time_value row.created;
    summary = row.summary;
    incident_number = row.incident_number;
    report_entries = sort_entries (map entry_of_row entries);
  })

unfoldable pub fetch_reports : String → List ℕ → Txn (List IncidentReport)
fetch_reports e [] = pure []
fetch_reports e (n ∷ ns) = do
  report ← fetch_incident_report e n
  rest ← fetch_reports e ns
  pure (report ∷ rest)

unfoldable pub fetch_event_reports : String → Txn (List IncidentReport)
fetch_event_reports e = do numbers ← incident_report_numbers e; fetch_reports e numbers

unfoldable pub fetch_attached_reports : String → ℕ → Txn (List IncidentReport)
fetch_attached_reports e n = do
  numbers ← attached_incident_report_numbers e n
  fetch_reports e numbers

unfoldable pub incident_reports : String → Action (List IncidentReport)
unfolding fetch_event_reports
incident_reports e = run_interaction (fetch_event_reports e)

unfoldable pub incident_report_with_number : String → ℕ → Action IncidentReport
incident_report_with_number e n = run_interaction (fetch_incident_report e n)

unfoldable pub incident_reports_attached_to_incident : String → ℕ → Action (List IncidentReport)
unfolding fetch_attached_reports
incident_reports_attached_to_incident e n = run_interaction (fetch_attached_reports e n)

unfoldable pub fetch_detached : Txn (List ReportEntry)
fetch_detached = do rows ← detached_report_entries; pure (map entry_of_row (keep has_text rows))

unfoldable pub detached_entries : Action (List ReportEntry)
unfolding fetch_detached
detached_entries = run_interaction fetch_detached

fail_if_any : Result (List ReportEntry) × Connection → Result (Unit {0}) × Connection
fail_if_any (ok [], c) = (ok tt, c)
fail_if_any (ok (entry ∷ entries), c) = (err storage_error, c)
fail_if_any (err e, c) = (err e, c)

-- `DatabaseStore.validate`: a detached report entry is an error.
unfoldable pub validate : Action (Unit {0})
unfolding fail_if_any
validate c = fail_if_any (detached_entries c)
