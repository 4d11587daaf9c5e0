-- ===== src/Store/Reports.antt =====
-- store/_db.py: creating and changing incident reports.
pub mod Returned
use ranger_ims_server.Prelude.{
  ℕ, ◌+◌, String, not, Option, none, some, List, [], ◌∷◌, ◌++◌, string_eq, nat_eq, ◌==◌,
  if◌then◌else◌,
}
use ranger_ims_server.Text.{show}
use ranger_ims_server.Model.{ReportEntry, IncidentReport, sort_entries}
use ranger_ims_server.Model.Time.{DateTime}
use ranger_ims_server.Store.Values.{
  ok, err, value_error, assertion_error, TimeStamp, as_date_time_value,
}
use ranger_ims_server.Store.Tables.{ReportRow}
use ranger_ims_server.Store.Statements.Reports
use ranger_ims_server.Store.Statements.Reports.{
  ReportChange, report_summary, report_incident, max_incident_report_number,
  set_incident_report_attribute,
}
use ranger_ims_server.Store.Entries.{
  automatic_report_entry, initial_report_entries_of_report, create_and_attach_to_incident_report,
  typed_by,
}
use ranger_ims_server.Store.Incidents.{any_automatic}
use ranger_ims_server.Store.Transactions.{Txn, Action, pure, lift, run_interaction, ◌>>=◌, ◌>>◌}

-- One more than the greatest number in all events
unfoldable pub next_incident_report_number : Txn ℕ
next_incident_report_number = do
  number ← max_incident_report_number
  pure (elim number [ none ↦ 1 | some n ↦ n + 1 ])

unfoldable pub report_row_of : IncidentReport → TimeStamp → ReportRow
report_row_of r created = record {
  event = r.event_id;
  number = r.number;
  created = created;
  summary = r.summary;
  incident_number = r.incident_number;
}

unfoldable pub write_incident_report : IncidentReport → Txn IncidentReport
write_incident_report r = do
  created ← lift (as_date_time_value r.created)
  Reports.create_incident_report (report_row_of r created)
  create_and_attach_to_incident_report r.event_id r.number r.report_entries
  pure r

unfoldable pub number_and_write_report : IncidentReport → Txn IncidentReport
number_and_write_report r = do
  number ← next_incident_report_number
  write_incident_report (record r { number = number })

unfoldable pub create_incident_report : IncidentReport → String → DateTime → Action IncidentReport
create_incident_report r author now c =
    if author == ""
    then (err value_error, c)
    else if not (r.number == 0)
    then (err value_error, c)
    else if any_automatic r.report_entries
    then (err assertion_error, c)
    else run_interaction
        (number_and_write_report (record r {
          report_entries =
              sort_entries (initial_report_entries_of_report r author now ++ r.report_entries);
        }))
        c

unfoldable pub import_incident_report : IncidentReport → Action IncidentReport
import_incident_report r c =
    if r.number == 0 then (err value_error, c) else run_interaction (write_incident_report r) c

unfoldable pub change_incident_report : ReportChange → String → ℕ → ReportEntry → Txn (Unit {0})
change_incident_report change e n entry = do
  set_incident_report_attribute change e n
  create_and_attach_to_incident_report e n (entry ∷ [])

shown : Option String → String
shown none = "None"
shown (some text) = text

shown_number : Option ℕ → String
shown_number none = "None"
shown_number (some n) = show n

unfoldable pub describe_report_change : ReportChange → String × String
unfolding shown shown_number
describe_report_change (report_summary v) = ("summary", shown v)
describe_report_change (report_incident v) = ("incident_number", shown_number v)

abbrev pub report_change_entry : ReportChange → String → DateTime → ReportEntry
report_change_entry change author now =
    automatic_report_entry author now (describe_report_change change).0
      (describe_report_change change).1

-- `_setIncidentReportAttribute`
unfoldable pub set_report_attribute :
    ReportChange → String → ℕ → String → DateTime → Action (Unit {0})
set_report_attribute change e n author now =
    run_interaction (change_incident_report change e n (report_change_entry change author now))

unfoldable pub set_incident_report_summary :
    String → ℕ → Option String → String → DateTime → Action (Unit {0})
set_incident_report_summary e n v = set_report_attribute (report_summary v) e n

unfoldable pub attach_incident_report_to_incident :
    ℕ → String → ℕ → String → DateTime → Action (Unit {0})
attach_incident_report_to_incident report e n =
    set_report_attribute (report_incident (some n)) e report

-- The number of the incident is not used.
unfoldable pub detach_incident_report_from_incident :
    ℕ → String → ℕ → String → DateTime → Action (Unit {0})
detach_incident_report_from_incident report e n =
    set_report_attribute (report_incident none) e report

unfoldable pub add_report_entries_to_incident_report :
    String → ℕ → List ReportEntry → String → Action (Unit {0})
add_report_entries_to_incident_report e n entries author c = elim (typed_by author entries) [
  | err error ↦ (err error, c)
  | ok _ ↦ run_interaction (create_and_attach_to_incident_report e n entries) c
]
