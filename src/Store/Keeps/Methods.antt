-- ===== src/Store/Keeps/Methods.antt =====
-- What the statements keep, the transactions of the methods keep.
use ranger_ims_server.Prelude.{ℕ, String, Bool, List, [], ◌∷◌}
use ranger_ims_server.Model.{ReportEntry, Incident, IncidentReport}
use ranger_ims_server.Store.Tables.{Db}
use ranger_ims_server.Store.Keeps.{Keeps, Keeps-bind, keeps_rules}
use ranger_ims_server.Store.Statements.Incidents.{Change, max_incident_number}
use ranger_ims_server.Store.Statements.Reports.{ReportChange, max_incident_report_number}
use ranger_ims_server.Store.Access.{grant_all, set_access, hide_show_all}
use ranger_ims_server.Store.Incidents.{
  attach_ranger_handles, attach_incident_types, next_incident_number, write_incident,
  number_and_write, change_incident, replace_rangers, replace_types,
}
use ranger_ims_server.Store.Reports.{
  next_incident_report_number, write_incident_report, number_and_write_report,
  change_incident_report,
}
use ranger_ims_server.Store.Keeps.Statements.{KeptByStatements}

module _ {P : Db → Type 0} (k : KeptByStatements P) where
  open k use {
    create_event, clear_mode, clear_expression, add_access, create_street, create_type, hide_show,
    attach_ranger, attach_type, clear_rangers, clear_types, set_attribute, set_report,
    insert_incident, insert_report, incident_entries, report_entries,
  }

  grant_all-Keeps : (e mode : String) (xs : List String) → Keeps P (grant_all e mode xs)
  unfolding grant_all
  grant_all-Keeps e mode [] = search keeps_rules
  grant_all-Keeps e mode (x ∷ xs) =
      Keeps-bind _ _ (clear_expression e x)
        (λ _. Keeps-bind _ _ (add_access e x mode) (λ _. grant_all-Keeps e mode xs))

  pub set_access-Keeps : (e mode : String) (xs : List String) → Keeps P (set_access e mode xs)
  unfolding set_access
  set_access-Keeps e mode xs = search (keeps_rules, clear_mode, grant_all-Keeps)

  pub hide_show_all-Keeps :
      (names : List String) (hidden : Bool) → Keeps P (hide_show_all names hidden)
  unfolding hide_show_all
  hide_show_all-Keeps [] hidden = search keeps_rules
  hide_show_all-Keeps (name ∷ names) hidden =
      Keeps-bind _ _ (hide_show name hidden) (λ _. hide_show_all-Keeps names hidden)

  attach_rangers-Keeps :
      (e : String) (n : ℕ) (handles : List String) → Keeps P (attach_ranger_handles e n handles)
  unfolding attach_ranger_handles
  attach_rangers-Keeps e n [] = search keeps_rules
  attach_rangers-Keeps e n (handle ∷ handles) =
      Keeps-bind _ _ (attach_ranger e n handle) (λ _. attach_rangers-Keeps e n handles)

  attach_types-Keeps :
      (e : String) (n : ℕ) (names : List String) → Keeps P (attach_incident_types e n names)
  unfolding attach_incident_types
  attach_types-Keeps e n [] = search keeps_rules
  attach_types-Keeps e n (name ∷ names) =
      Keeps-bind _ _ (attach_type e n name) (λ _. attach_types-Keeps e n names)

  module _ (e : String) (n : ℕ) where
    pub change_incident-Keeps :
        (change : Change) (entry : ReportEntry) → Keeps P (change_incident change e n entry)
    unfolding change_incident
    change_incident-Keeps change entry = search (keeps_rules, set_attribute, incident_entries)

    pub change_report-Keeps :
        (change : ReportChange) (entry : ReportEntry)
        → Keeps P (change_incident_report change e n entry)
    unfolding change_incident_report
    change_report-Keeps change entry = search (keeps_rules, set_report, report_entries)

    pub replace_rangers-Keeps :
        (handles : List String) (entry : ReportEntry) → Keeps P (replace_rangers e n handles entry)
    unfolding replace_rangers
    replace_rangers-Keeps handles entry =
        search (keeps_rules, clear_rangers, attach_rangers-Keeps, incident_entries)

    pub replace_types-Keeps :
        (types : List String) (entry : ReportEntry) → Keeps P (replace_types e n types entry)
    unfolding replace_types
    replace_types-Keeps types entry =
        search (keeps_rules, clear_types, attach_types-Keeps, incident_entries)

  pub write_incident-Keeps : (i : Incident) → Keeps P (write_incident i)
  unfolding write_incident
  write_incident-Keeps i =
      search
        (keeps_rules, insert_incident, attach_rangers-Keeps, attach_types-Keeps, incident_entries)
        depth 9

  pub number_incident-Keeps : (i : Incident) → Keeps P (number_and_write i)
  unfolding number_and_write next_incident_number max_incident_number
  number_incident-Keeps i = search (keeps_rules, write_incident-Keeps)

  pub write_report-Keeps : (r : IncidentReport) → Keeps P (write_incident_report r)
  unfolding write_incident_report
  write_report-Keeps r = search (keeps_rules, insert_report, report_entries)

  pub number_report-Keeps : (r : IncidentReport) → Keeps P (number_and_write_report r)
  unfolding number_and_write_report next_incident_report_number max_incident_report_number
  number_report-Keeps r = search (keeps_rules, write_report-Keeps)
