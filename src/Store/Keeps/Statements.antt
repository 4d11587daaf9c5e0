-- ===== src/Store/Keeps/Statements.antt =====
-- An invariant that every statement which writes keeps, and both loops over report entries.
use ranger_ims_server.Prelude.{ℕ, String, Bool, List}
use ranger_ims_server.Model.{ReportEntry}
use ranger_ims_server.Store.Tables.{Db, IncidentRow, ReportRow}
use ranger_ims_server.Store.Keeps.{Keeps}
use ranger_ims_server.Store.Statements.Access
use ranger_ims_server.Store.Statements.Access.{
  clear_event_access_for_mode, clear_event_access_for_expression, add_event_access,
  hide_show_incident_type,
}
use ranger_ims_server.Store.Statements.Incidents
use ranger_ims_server.Store.Statements.Incidents.{
  Change, attach_ranger_handle_to_incident, attach_incident_type_to_incident,
  clear_incident_rangers, clear_incident_incident_types, set_incident_attribute,
  max_incident_number,
}
use ranger_ims_server.Store.Statements.Reports
use ranger_ims_server.Store.Statements.Reports.{
  ReportChange, set_incident_report_attribute, max_incident_report_number,
}
use ranger_ims_server.Store.Entries.{
  create_and_attach_to_incident, create_and_attach_to_incident_report,
}

pub record KeptByStatements (P : Db → Type 0) : Type 0 where
  pub create_event : (e : String) → Keeps P (Access.create_event e)
  pub clear_mode : (e mode : String) → Keeps P (clear_event_access_for_mode e mode)
  pub clear_expression : (e x : String) → Keeps P (clear_event_access_for_expression e x)
  pub add_access : (e x mode : String) → Keeps P (add_event_access e x mode)
  pub create_street : (e id name : String) → Keeps P (Access.create_concentric_street e id name)
  pub create_type :
      (name : String) (hidden : Bool) → Keeps P (Access.create_incident_type name hidden)
  pub hide_show : (name : String) (hidden : Bool) → Keeps P (hide_show_incident_type name hidden)
  pub attach_ranger :
      (e : String) (n : ℕ) (handle : String) → Keeps P (attach_ranger_handle_to_incident e n handle)
  pub attach_type :
      (e : String) (n : ℕ) (name : String) → Keeps P (attach_incident_type_to_incident e n name)
  pub clear_rangers : (e : String) (n : ℕ) → Keeps P (clear_incident_rangers e n)
  pub clear_types : (e : String) (n : ℕ) → Keeps P (clear_incident_incident_types e n)
  pub set_attribute :
      (e : String) (n : ℕ) (change : Change) → Keeps P (set_incident_attribute change e n)
  pub set_report :
      (e : String) (n : ℕ) (change : ReportChange)
      → Keeps P (set_incident_report_attribute change e n)
  pub insert_incident : (row : IncidentRow) → Keeps P (Incidents.create_incident row)
  pub insert_report : (row : ReportRow) → Keeps P (Reports.create_incident_report row)
  pub incident_entries :
      (e : String) (n : ℕ) (entries : List ReportEntry)
      → Keeps P (create_and_attach_to_incident e n entries)
  pub report_entries :
      (e : String) (n : ℕ) (entries : List ReportEntry)
      → Keeps P (create_and_attach_to_incident_report e n entries)
