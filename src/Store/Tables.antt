-- ===== src/Store/Tables.antt =====
-- The tables that the queries of store/sqlite/_queries.py read and write, with the columns that they
-- name. A row refers to an event, and to an incident type, by its name, which the schema makes unique
-- and no query changes; the internal IDs of these are left out.
use ranger_ims_server.Prelude.{ℕ, String, Bool, Option, List}
use ranger_ims_server.Store.Values.{TimeStamp}

-- EVENT_ACCESS
pub record AccessRow : Type 0 where
  pub event : String
  pub expression : String
  pub mode : String

-- INCIDENT_TYPE
pub record TypeRow : Type 0 where
  pub name : String
  pub hidden : Bool

-- CONCENTRIC_STREET
pub record StreetRow : Type 0 where
  pub event : String
  pub id : String
  pub name : String

-- REPORT_ENTRY
pub record EntryRow : Type 0 where
  pub id : ℕ
  pub author : String
  pub text : String
  pub created : TimeStamp
  pub generated : Bool

-- INCIDENT
pub record IncidentRow : Type 0 where
  pub event : String
  pub number : ℕ
  pub created : TimeStamp
  pub priority : ℕ
  pub state : String
  pub summary : Option String
  pub location_name : Option String
  pub location_concentric : Option String
  pub location_radial_hour : Option ℕ
  pub location_radial_minute : Option ℕ
  pub location_description : Option String

-- INCIDENT_REPORT
pub record ReportRow : Type 0 where
  pub event : String
  pub number : ℕ
  pub created : TimeStamp
  pub summary : Option String
  pub incident_number : Option ℕ

-- A row of INCIDENT__RANGER, INCIDENT__INCIDENT_TYPE, INCIDENT__REPORT_ENTRY or
-- INCIDENT_REPORT__REPORT_ENTRY: an item that belongs to an incident, or to an incident report.
pub record Link (A : Type 0) : Type 0 where
  pub event : String
  pub number : ℕ
  pub item : A

pub record Db : Type 0 where
  pub events : List String
  pub access : List AccessRow
  pub incident_types : List TypeRow
  pub streets : List StreetRow
  pub report_entries : List EntryRow
  pub incidents : List IncidentRow
  pub incident_rangers : List (Link String)
  pub incident_incident_types : List (Link String)
  pub incident_report_entries : List (Link ℕ)
  pub incident_reports : List ReportRow
  pub incident_report_report_entries : List (Link ℕ)
