-- ===== src/Store/Calls.antt =====
-- Sequences of calls of the store's methods, on one connection.
pub mod Invariants
use ranger_ims_server.Prelude.{ℕ, String, Bool, false, List, [], ◌∷◌}
use ranger_ims_server.Model.{ReportEntry, Incident, IncidentReport}
use ranger_ims_server.Model.Time.{DateTime}
use ranger_ims_server.Store.Tables.{Db}
use ranger_ims_server.Store.Statements.Incidents.{Change}
use ranger_ims_server.Store.Statements.Reports.{ReportChange}
use ranger_ims_server.Store.Access
use ranger_ims_server.Store.Incidents
use ranger_ims_server.Store.Reports
use ranger_ims_server.Store.Fetch
use ranger_ims_server.Store.Transactions
use ranger_ims_server.Store.Transactions.{Connection}

-- A method that writes, or that ends the open transaction by a commit; an attribute's setter is named
-- by its change.
pub data Call : Type 0 where
  create_event : String → Call
  set_readers set_writers set_reporters : String → List String → Call
  create_incident_type : String → Bool → Call
  show_incident_types hide_incident_types : List String → Call
  create_concentric_street : String → String → String → Call
  create_incident : Incident → String → DateTime → Call
  import_incident : Incident → Call
  set_attribute : Change → String → ℕ → String → DateTime → Call
  set_incident_rangers set_incident_incident_types :
      String → ℕ → List String → String → DateTime → Call
  add_report_entries_to_incident : String → ℕ → List ReportEntry → String → Call
  create_incident_report : IncidentReport → String → DateTime → Call
  import_incident_report : IncidentReport → Call
  set_report_attribute : ReportChange → String → ℕ → String → DateTime → Call
  add_report_entries_to_incident_report : String → ℕ → List ReportEntry → String → Call
  incidents incident_reports : String → Call
  incident_with_number incident_report_with_number incident_reports_attached_to_incident :
      String → ℕ → Call
  validate disconnect : Call

-- The connection after the call, whether it returns or raises
pub perform : Call → Connection → Connection
perform (create_event e) c = (Access.create_event e c).1
perform (set_readers e xs) c = (Access.set_readers e xs c).1
perform (set_writers e xs) c = (Access.set_writers e xs c).1
perform (set_reporters e xs) c = (Access.set_reporters e xs c).1
perform (create_incident_type name hidden) c = (Access.create_incident_type name hidden c).1
perform (show_incident_types names) c = (Access.show_incident_types names c).1
perform (hide_incident_types names) c = (Access.hide_incident_types names c).1
perform (create_concentric_street e id name) c = (Access.create_concentric_street e id name c).1
perform (create_incident i author now) c = (Incidents.create_incident i author now c).1
perform (import_incident i) c = (Incidents.import_incident i c).1
perform (set_attribute change e n author now) c =
    (Incidents.set_attribute change e n author now c).1
perform (set_incident_rangers e n names author now) c =
    (Incidents.set_incident_rangers e n names author now c).1
perform (set_incident_incident_types e n names author now) c =
    (Incidents.set_incident_incident_types e n names author now c).1
perform (add_report_entries_to_incident e n entries author) c =
    (Incidents.add_report_entries_to_incident e n entries author c).1
perform (create_incident_report r author now) c = (Reports.create_incident_report r author now c).1
perform (import_incident_report r) c = (Reports.import_incident_report r c).1
perform (set_report_attribute change e n author now) c =
    (Reports.set_report_attribute change e n author now c).1
perform (add_report_entries_to_incident_report e n entries author) c =
    (Reports.add_report_entries_to_incident_report e n entries author c).1
perform (incidents e) c = (Fetch.incidents e c).1
perform (incident_reports e) c = (Fetch.incident_reports e c).1
perform (incident_with_number e n) c = (Fetch.incident_with_number e n c).1
perform (incident_report_with_number e n) c = (Fetch.incident_report_with_number e n c).1
perform (incident_reports_attached_to_incident e n) c =
    (Fetch.incident_reports_attached_to_incident e n c).1
perform validate c = (Fetch.validate c).1
perform disconnect c = Transactions.disconnect c

unfoldable pub perform_all : List Call → Connection → Connection
unfolding perform
perform_all [] c = c
perform_all (call ∷ calls) c = perform_all calls (perform call c)

-- The tables that the schema creates, with the two incident types that it inserts
abbrev pub schema : Db
schema = record {
  events = [];
  access = [];
  incident_types =
      record { name = "Admin"; hidden = false } ∷ record { name = "Junk"; hidden = false } ∷ [];
  streets = [];
  report_entries = [];
  incidents = [];
  incident_rangers = [];
  incident_incident_types = [];
  incident_report_entries = [];
  incident_reports = [];
  incident_report_report_entries = [];
}

abbrev pub fresh : Connection
fresh = record { committed = schema; working = schema }
