-- ===== src/Store/Calls/Invariants.antt =====
-- What every statement keeps, every sequence of calls keeps.
use mathlib.Core.Path.{subst}
use ranger_ims_server.Prelude.{
  ℕ, String, Bool, ◌≡◌, sym, true, false, not, List, [], ◌∷◌, ◌++◌, arith, nat_eq, string_eq, ◌==◌,
  if◌then◌else◌,
}
use ranger_ims_server.Model.{ReportEntry, Incident, IncidentReport, sort_entries}
use ranger_ims_server.Store.Values.{Error, Result, ok, err, value_error, assertion_error}
use ranger_ims_server.Store.Tables.{Db}
use ranger_ims_server.Store.Transactions
use ranger_ims_server.Store.Transactions.{
  Txn, Connection, run_interaction, run_query, run_operation, pure, ◌>>=◌, ◌>>◌,
}
use ranger_ims_server.Store.Keeps.{keeps_rules, Holds, run_interaction-Holds, run_query-Holds}
use ranger_ims_server.Store.Keeps.Statements.{KeptByStatements}
use ranger_ims_server.Store.Keeps.Methods.{
  set_access-Keeps, hide_show_all-Keeps, change_incident-Keeps, change_report-Keeps,
  replace_rangers-Keeps, replace_types-Keeps, write_incident-Keeps, number_incident-Keeps,
  write_report-Keeps, number_report-Keeps,
}
use ranger_ims_server.Store.Access
use ranger_ims_server.Store.Incidents
use ranger_ims_server.Store.Reports
use ranger_ims_server.Store.Fetch
use ranger_ims_server.Store.Fetch.{
  fetch_incident, fetch_incident_report, find_incident, find_incident_report, fetch_reports,
  fetch_all, fetch_event, fetch_event_reports, fetch_attached_reports, fetch_detached,
}
use ranger_ims_server.Store.Statements.Entries.{detached_report_entries}
use ranger_ims_server.Model.Time.{DateTime}
use ranger_ims_server.Store.Incidents.{any_automatic, number_and_write, write_incident}
use ranger_ims_server.Store.Reports.{number_and_write_report, write_incident_report}
use ranger_ims_server.Store.Entries.{
  typed_by, initial_report_entries, initial_report_entries_of_report, create_and_attach_to_incident,
  create_and_attach_to_incident_report,
}
use ranger_ims_server.Store.Calls.{Call, perform, perform_all}
use ranger_ims_server.Store.Keeps.Reads.{
  fetch_incident-Keeps, fetch_report-Keeps, fetch_event-Keeps, fetch_event_reports-Keeps,
  fetch_attached-Keeps,
}

-- A refusal leaves the connection alone.
if-Holds :
    {P : Db → Type 0} {A : Type 0} (b : Bool) (e : Error) (c : Connection)
    (m : Result A × Connection)
    → Holds P c
    → Holds P m.1
    → Holds P (if b then (err e, c) else m).1
if-Holds true e c m h k = h
if-Holds false e c m h k = k

checked-Holds :
    {P : Db → Type 0} {A : Type 0} (x : Result (Unit {0})) (c : Connection)
    (m : Result A × Connection)
    → Holds P c
    → Holds P m.1
    → Holds P (let y : Result A × Connection = elim x [ err e ↦ (err e, c) | ok _ ↦ m ] in y).1
checked-Holds (err e) c m h k = h
checked-Holds (ok _) c m h k = k

module _ {P : Db → Type 0} (k : KeptByStatements P) where
  access-Holds :
      (e mode : String) (xs : List String) (c : Connection)
      → Holds P c
      → Holds P (Access.set_event_access e mode xs c).1
  unfolding Access.set_event_access
  access-Holds e mode xs c h = run_interaction-Holds _ c (set_access-Keeps k e mode xs) h

  entries-Holds :
      (e : String) (n : ℕ) (entries : List ReportEntry) (author : String) (c : Connection)
      → Holds P c
      → Holds P (Incidents.add_report_entries_to_incident e n entries author c).1
  unfolding Incidents.add_report_entries_to_incident
  entries-Holds e n entries author c h =
      checked-Holds (typed_by author entries) c
        (run_interaction (create_and_attach_to_incident e n entries) c) h
        (run_interaction-Holds _ c (k.incident_entries e n entries) h)

  report_entries-Holds :
      (e : String) (n : ℕ) (entries : List ReportEntry) (author : String) (c : Connection)
      → Holds P c
      → Holds P (Reports.add_report_entries_to_incident_report e n entries author c).1
  unfolding Reports.add_report_entries_to_incident_report
  report_entries-Holds e n entries author c h =
      checked-Holds (typed_by author entries) c
        (run_interaction (create_and_attach_to_incident_report e n entries) c) h
        (run_interaction-Holds _ c (k.report_entries e n entries) h)

  create_incident-Holds :
      (i : Incident) (author : String) (now : DateTime) (c : Connection)
      → Holds P c
      → Holds P (Incidents.create_incident i author now c).1
  unfolding Incidents.create_incident
  create_incident-Holds i author now c h =
      let entries = sort_entries (initial_report_entries i author now ++ i.report_entries) in
      let last = run_interaction (number_and_write (record i { report_entries = entries })) c in
      let third = if any_automatic i.report_entries then (err assertion_error, c) else last in
      let second = if not (i.number == 0) then (err value_error, c) else third in
      if-Holds (author == "") value_error c second h (
        if-Holds (not (i.number == 0)) value_error c third h (
          if-Holds (any_automatic i.report_entries) assertion_error c last h
            (run_interaction-Holds _ c (number_incident-Keeps k _) h)))

  create_report-Holds :
      (r : IncidentReport) (author : String) (now : DateTime) (c : Connection)
      → Holds P c
      → Holds P (Reports.create_incident_report r author now c).1
  unfolding Reports.create_incident_report
  create_report-Holds r author now c h =
      let entries =
        sort_entries (initial_report_entries_of_report r author now ++ r.report_entries) in
      let last =
        run_interaction (number_and_write_report (record r { report_entries = entries })) c in
      let third = if any_automatic r.report_entries then (err assertion_error, c) else last in
      let second = if not (r.number == 0) then (err value_error, c) else third in
      if-Holds (author == "") value_error c second h (
        if-Holds (not (r.number == 0)) value_error c third h (
          if-Holds (any_automatic r.report_entries) assertion_error c last h
            (run_interaction-Holds _ c (number_report-Keeps k _) h)))

  import_incident-Holds :
      (i : Incident) (c : Connection) → Holds P c → Holds P (Incidents.import_incident i c).1
  unfolding Incidents.import_incident
  import_incident-Holds i c h =
      if-Holds (i.number == 0) value_error c (run_interaction (write_incident i) c) h
        (run_interaction-Holds _ c (write_incident-Keeps k i) h)

  import_report-Holds :
      (r : IncidentReport) (c : Connection)
      → Holds P c
      → Holds P (Reports.import_incident_report r c).1
  unfolding Reports.import_incident_report
  import_report-Holds r c h =
      if-Holds (r.number == 0) value_error c (run_interaction (write_incident_report r) c) h
        (run_interaction-Holds _ c (write_report-Keeps k r) h)

  validate-world : (c : Connection) → (Fetch.validate c).1 ≡ (Fetch.detached_entries c).1
  unfolding Fetch.validate
  validate-world c = ground arith

  detached-Holds : (c : Connection) → Holds P c → Holds P (Fetch.detached_entries c).1
  unfolding Fetch.detached_entries fetch_detached detached_report_entries
  detached-Holds c h = run_interaction-Holds _ c (search keeps_rules) h

  pub perform-Holds : (call : Call) (c : Connection) → Holds P c → Holds P (perform call c)
  unfolding perform Access.create_event Access.set_readers Access.set_writers Access.set_reporters
      Access.create_incident_type Access.show_incident_types Access.hide_incident_types
      Access.create_concentric_street Incidents.set_attribute Incidents.set_incident_rangers
      Incidents.set_incident_incident_types Reports.set_report_attribute Fetch.incidents
      Fetch.incident_reports Fetch.incident_with_number Fetch.incident_report_with_number
      Fetch.incident_reports_attached_to_incident Transactions.disconnect run_operation
  perform-Holds (Call.create_event e) c h = run_query-Holds _ c (k.create_event e) h
  perform-Holds (Call.set_readers e xs) c h = access-Holds e "read" xs c h
  perform-Holds (Call.set_writers e xs) c h = access-Holds e "write" xs c h
  perform-Holds (Call.set_reporters e xs) c h = access-Holds e "report" xs c h
  perform-Holds (Call.create_incident_type name hidden) c h =
      run_query-Holds _ c (k.create_type name hidden) h
  perform-Holds (Call.show_incident_types names) c h =
      run_interaction-Holds _ c (hide_show_all-Keeps k names false) h
  perform-Holds (Call.hide_incident_types names) c h =
      run_interaction-Holds _ c (hide_show_all-Keeps k names true) h
  perform-Holds (Call.create_concentric_street e id name) c h =
      run_query-Holds _ c (k.create_street e id name) h
  perform-Holds (Call.create_incident i author now) c h = create_incident-Holds i author now c h
  perform-Holds (Call.import_incident i) c h = import_incident-Holds i c h
  perform-Holds (Call.set_attribute change e n author now) c h =
      run_interaction-Holds _ c (change_incident-Keeps k e n change _) h
  perform-Holds (Call.set_incident_rangers e n names author now) c h =
      run_interaction-Holds _ c (replace_rangers-Keeps k e n _ _) h
  perform-Holds (Call.set_incident_incident_types e n names author now) c h =
      run_interaction-Holds _ c (replace_types-Keeps k e n _ _) h
  perform-Holds (Call.add_report_entries_to_incident e n entries author) c h =
      entries-Holds e n entries author c h
  perform-Holds (Call.create_incident_report r author now) c h =
      create_report-Holds r author now c h
  perform-Holds (Call.import_incident_report r) c h = import_report-Holds r c h
  perform-Holds (Call.set_report_attribute change e n author now) c h =
      run_interaction-Holds _ c (change_report-Keeps k e n change _) h
  perform-Holds (Call.add_report_entries_to_incident_report e n entries author) c h =
      report_entries-Holds e n entries author c h
  perform-Holds (Call.incidents e) c h = run_interaction-Holds _ c (fetch_event-Keeps e) h
  perform-Holds (Call.incident_reports e) c h =
      run_interaction-Holds _ c (fetch_event_reports-Keeps e) h
  perform-Holds (Call.incident_with_number e n) c h =
      run_interaction-Holds _ c (fetch_incident-Keeps e n) h
  perform-Holds (Call.incident_report_with_number e n) c h =
      run_interaction-Holds _ c (fetch_report-Keeps e n) h
  perform-Holds (Call.incident_reports_attached_to_incident e n) c h =
      run_interaction-Holds _ c (fetch_attached-Keeps e n) h
  perform-Holds Call.validate c h = subst (Holds P) (sym (validate-world c)) (detached-Holds c h)
  perform-Holds Call.disconnect c h = record { committed = h.committed; working = h.committed }

  pub perform_all-Holds :
      (calls : List Call) (c : Connection) → Holds P c → Holds P (perform_all calls c)
  unfolding perform_all
  perform_all-Holds [] c h = h
  perform_all-Holds (call ∷ calls) c h =
      perform_all-Holds calls (perform call c) (perform-Holds call c h)
