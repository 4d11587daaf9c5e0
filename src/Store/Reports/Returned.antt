-- ===== src/Store/Reports/Returned.antt =====
-- What `createIncidentReport` returns where it does not raise.
use ranger_ims_server.Prelude.{String, ◌≡◌, arith, string_eq, nat_eq, map, ◌++◌}
use ranger_ims_server.Model.{IncidentReport, sort_entries}
use ranger_ims_server.Model.Time.{DateTime}
use ranger_ims_server.Store.Values.{ok}
use ranger_ims_server.Store.Tables.{Db}
use ranger_ims_server.Store.Transactions.{Connection, run_interaction}
use ranger_ims_server.Store.Statements.Incidents.{maximum}
use ranger_ims_server.Store.Statements.Reports.{max_incident_report_number, report_number}
use ranger_ims_server.Store.Entries.{initial_report_entries_of_report}
use ranger_ims_server.Store.Reports.{
  write_incident_report, next_incident_report_number, number_and_write_report,
  create_incident_report,
}
use ranger_ims_server.Store.Numbers.{next_number}
use ranger_ims_server.Store.Incidents.Returned.{run_interaction-ok}

abbrev with_initial : IncidentReport → String → DateTime → IncidentReport
with_initial r author now = record r {
  report_entries = sort_entries (initial_report_entries_of_report r author now ++ r.report_entries);
}

-- The report as it is filed: with a number of its own among all events, and with the initial entries
-- among its own
abbrev pub filed_report : IncidentReport → String → DateTime → Db → IncidentReport
filed_report r author now db = record (with_initial r author now) {
  number = next_number (maximum (map report_number db.incident_reports));
}

write_report-same :
    (r f : IncidentReport) (db later : Db) → write_incident_report r db ≡ ok (f, later) → f ≡ r
unfolding write_incident_report
write_report-same r f db later h = ground arith

number_and_write-same :
    (r f : IncidentReport) (db later : Db)
    → number_and_write_report r db ≡ ok (f, later)
    → f ≡ record r { number = next_number (maximum (map report_number db.incident_reports)) }
unfolding number_and_write_report next_incident_report_number max_incident_report_number
number_and_write-same r f db later h = write_report-same _ f db later h

create_report-runs :
    (r f : IncidentReport) (author : String) (now : DateTime) (c c' : Connection)
    → create_incident_report r author now c ≡ (ok f, c')
    → run_interaction (number_and_write_report (with_initial r author now)) c ≡ (ok f, c')
unfolding create_incident_report
create_report-runs r f author now c c' h = ground arith

pub create_report-filed :
    (r f : IncidentReport) (author : String) (now : DateTime) (c c' : Connection)
    → create_incident_report r author now c ≡ (ok f, c')
    → f ≡ filed_report r author now c.working
create_report-filed r f author now c c' h =
    let (db, ends) = run_interaction-ok _ f c c' (create_report-runs r f author now c c' h) in
    number_and_write-same (with_initial r author now) f c.working db ends
