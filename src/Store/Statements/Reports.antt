-- ===== src/Store/Statements/Reports.antt =====
-- The statements on incident reports.
use ranger_ims_server.Prelude.{
  ℕ, String, Bool, true, not, ◌&&◌, Option, none, some, List, [], ◌∷◌, ◌++◌, map, any, keep, first,
  elem, nat_eq, string_eq, option_eq, ◌==◌, if◌then◌else◌,
}
use ranger_ims_server.Store.Values.{storage_error, overflow_error}
use ranger_ims_server.Store.Tables.{Db, ReportRow}
use ranger_ims_server.Store.Transactions.{Txn, gets, guard, modify, ◌>>=◌, ◌>>◌}
use ranger_ims_server.Store.Statements.Incidents.{fits, fits_option, is_incident, maximum}
use ranger_ims_server.Store.Statements.Entries.{is_report}

-- incidentReport
unfoldable pub incident_report : String → ℕ → Txn (Option ReportRow)
incident_report e n = do
  guard (fits n) overflow_error
  gets (λ db. first (is_report e n) db.incident_reports)

abbrev pub report_number : ReportRow → ℕ
report_number row = row.number

-- incidentReportNumbers
unfoldable pub incident_report_numbers : String → Txn (List ℕ)
incident_report_numbers e =
    gets (λ db. map report_number (keep (λ (row : ReportRow). row.event == e) db.incident_reports))

-- maxIncidentReportNumber: over the reports of every event
unfoldable pub max_incident_report_number : Txn (Option ℕ)
max_incident_report_number = gets (λ db. maximum (map report_number db.incident_reports))

-- A report is attached to no incident, or to one of its event.
abbrev pub known_incident : String → Option ℕ → Db → Bool
known_incident e none db = true
known_incident e (some n) db = any (is_incident e n) db.incidents

-- createIncidentReport: the event exists, (EVENT, NUMBER) is the primary key, and the incident exists.
unfoldable pub create_incident_report : ReportRow → Txn (Unit {0})
create_incident_report row = do
  guard (fits row.number && fits_option row.incident_number) overflow_error
  db ← gets (λ db. db)
  guard (elem row.event db.events) storage_error
  guard (not (any (is_report row.event row.number) db.incident_reports)) storage_error
  guard (known_incident row.event row.incident_number db) storage_error
  modify (λ db. record db { incident_reports = db.incident_reports ++ row ∷ [] })

-- What the statements from template_setIncidentReportAttribute set.
pub data ReportChange : Type 0 where
  report_summary : Option String → ReportChange
  report_incident : Option ℕ → ReportChange

unfoldable pub set_report_column : ReportChange → ReportRow → ReportRow
set_report_column (report_summary v) row = record row { summary = v }
set_report_column (report_incident v) row = record row { incident_number = v }

unfoldable pub fits_change : ReportChange → Bool
fits_change (report_summary v) = true
fits_change (report_incident v) = fits_option v

unfoldable pub admits_report : ReportChange → String → Db → Bool
admits_report (report_summary v) e db = true
admits_report (report_incident v) e db = known_incident e v db

abbrev pub update_report : ReportChange → String → ℕ → ReportRow → ReportRow
update_report change e n row = if is_report e n row then set_report_column change row else row

-- setIncidentReport_summary, attachIncidentReportToIncident
unfoldable pub set_incident_report_attribute : ReportChange → String → ℕ → Txn (Unit {0})
set_incident_report_attribute change e n = do
  guard (fits n && fits_change change) overflow_error
  db ← gets (λ db. db)
  guard (if any (is_report e n) db.incident_reports then admits_report change e db else true)
      storage_error
  modify (λ db. record db { incident_reports = map (update_report change e n) db.incident_reports })

abbrev pub is_attached : String → Option ℕ → ReportRow → Bool
is_attached e n row = row.event == e && row.incident_number == n

-- detachedIncidentReportNumbers
unfoldable pub detached_incident_report_numbers : String → Txn (List ℕ)
detached_incident_report_numbers e =
    gets (λ db. map report_number (keep (is_attached e none) db.incident_reports))

-- attachedIncidentReportNumbers
unfoldable pub attached_incident_report_numbers : String → ℕ → Txn (List ℕ)
attached_incident_report_numbers e n = do
  guard (fits n) overflow_error
  gets (λ db. map report_number (keep (is_attached e (some n)) db.incident_reports))
