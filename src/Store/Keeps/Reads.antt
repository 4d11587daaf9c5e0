-- ===== src/Store/Keeps/Reads.antt =====
-- What is kept by the statements' compositions that only read.
use ranger_ims_server.Prelude.{ℕ, String, List, [], ◌∷◌, arith, nat_eq, string_eq}
use ranger_ims_server.Store.Tables.{Db}
use ranger_ims_server.Store.Keeps.{Keeps, Keeps-pure, Keeps-bind, keeps_rules}
use ranger_ims_server.Store.Fetch.{
  fetch_incident, fetch_incident_report, find_incident, find_incident_report, fetch_reports,
  fetch_all, fetch_event, fetch_event_reports, fetch_attached_reports,
}
use ranger_ims_server.Store.Statements.Incidents.{
  incident, incident_rangers, incident_incident_types, incident_numbers,
}
use ranger_ims_server.Store.Statements.Entries.{
  incident_report_entries, incident_report_report_entries,
}
use ranger_ims_server.Store.Statements.Reports.{
  incident_report, incident_report_numbers, attached_incident_report_numbers,
}

-- Reading keeps everything.
module _ {P : Db → Type 0} (e : String) where
  pub find_incident-Keeps : (n : ℕ) → Keeps P (find_incident e n)
  unfolding find_incident incident
  find_incident-Keeps n = record { at = λ db h r done. ground arith }

  pub find_report-Keeps : (n : ℕ) → Keeps P (find_incident_report e n)
  unfolding find_incident_report incident_report
  find_report-Keeps n = record { at = λ db h r done. ground arith }

  pub attached_numbers-Keeps : (n : ℕ) → Keeps P (attached_incident_report_numbers e n)
  unfolding attached_incident_report_numbers
  attached_numbers-Keeps n = search keeps_rules

  pub fetch_incident-Keeps : (n : ℕ) → Keeps P (fetch_incident e n)
  unfolding fetch_incident incident_rangers incident_incident_types incident_report_entries
  fetch_incident-Keeps n =
      search (keeps_rules, find_incident-Keeps, attached_numbers-Keeps) depth 12

  pub fetch_report-Keeps : (n : ℕ) → Keeps P (fetch_incident_report e n)
  unfolding fetch_incident_report incident_report_report_entries
  fetch_report-Keeps n = search (keeps_rules, find_report-Keeps) depth 8

  pub fetch_all-Keeps : (ns : List ℕ) → Keeps P (fetch_all e ns)
  unfolding fetch_all
  fetch_all-Keeps [] = Keeps-pure []
  fetch_all-Keeps (n ∷ ns) =
      Keeps-bind _ _ (fetch_incident-Keeps n)
        (λ i. Keeps-bind _ _ (fetch_all-Keeps ns) (λ rest. Keeps-pure (i ∷ rest)))

  pub fetch_reports-Keeps : (ns : List ℕ) → Keeps P (fetch_reports e ns)
  unfolding fetch_reports
  fetch_reports-Keeps [] = Keeps-pure []
  fetch_reports-Keeps (n ∷ ns) =
      Keeps-bind _ _ (fetch_report-Keeps n)
        (λ i. Keeps-bind _ _ (fetch_reports-Keeps ns) (λ rest. Keeps-pure (i ∷ rest)))

  pub fetch_event-Keeps : Keeps P (fetch_event e)
  unfolding fetch_event incident_numbers
  fetch_event-Keeps = search (keeps_rules, fetch_all-Keeps)

  pub fetch_event_reports-Keeps : Keeps P (fetch_event_reports e)
  unfolding fetch_event_reports incident_report_numbers
  fetch_event_reports-Keeps = search (keeps_rules, fetch_reports-Keeps)

  pub fetch_attached-Keeps : (n : ℕ) → Keeps P (fetch_attached_reports e n)
  unfolding fetch_attached_reports
  fetch_attached-Keeps n = search (keeps_rules, fetch_reports-Keeps, attached_numbers-Keeps)
