-- ===== src/Store/Links.antt =====
-- The links of the tables refer to rows that exist, and keep doing so whatever the store is asked.
pub mod Changes
pub mod Kept
use ranger_ims_server.Prelude.{
  ℕ, String, Bool, ◌≡◌, refl, true, false, ◌&&◌, ◌||◌, List, [], ◌∷◌, ◌++◌, map, any, nat_eq,
  string_eq, ◌==◌, arith, All, All-append, All-weaken, any-grown, if◌then◌else◌,
}
use ranger_ims_server.Store.Tables.{Db, EntryRow, IncidentRow, ReportRow, TypeRow, Link}
use ranger_ims_server.Store.Statements.Incidents.{
  is_incident, is_type, Change, set_column, update_incident, priority, state, summary,
  location_name, location_concentric, location_description, location_radial_hour,
  location_radial_minute,
}
use ranger_ims_server.Store.Statements.Entries.{is_report}
use ranger_ims_server.Store.Statements.Reports.{
  ReportChange, set_report_column, update_report, report_summary, report_incident,
}

abbrev pub has_entry : List EntryRow → Link ℕ → Bool
has_entry rows link = any (λ (row : EntryRow). row.id == link.item) rows

abbrev pub has_incident : {A : Type 0} → List IncidentRow → Link A → Bool
has_incident rows link = any (is_incident link.event link.number) rows

abbrev pub has_report : List ReportRow → Link ℕ → Bool
has_report rows link = any (is_report link.event link.number) rows

abbrev pub has_type : List TypeRow → Link String → Bool
has_type rows link = any (is_type link.item) rows

-- What each link refers to exists, as the tables stand: an incident or an incident report, and an
-- incident type or a report entry. A Ranger's handle refers to no table.
pub record AreLinked (rows : List EntryRow) (incidents : List IncidentRow)
    (reports : List ReportRow) (type_rows : List TypeRow) (rangers types : List (Link String))
    (of_incidents of_reports : List (Link ℕ)) : Type 0 where
  pub rangers_of : All (λ l. has_incident incidents l ≡ true) rangers
  pub types_of : All (λ l. has_incident incidents l ≡ true) types
  pub types_exist : All (λ l. has_type type_rows l ≡ true) types
  pub entries_of : All (λ l. has_incident incidents l ≡ true) of_incidents
  pub entries_of_report : All (λ l. has_report reports l ≡ true) of_reports
  pub entries : All (λ l. has_entry rows l ≡ true) of_incidents
  pub report_entries : All (λ l. has_entry rows l ≡ true) of_reports

abbrev pub IsLinked : Db → Type 0
IsLinked db =
    AreLinked db.report_entries db.incidents db.incident_reports db.incident_types
      db.incident_rangers db.incident_incident_types db.incident_report_entries
      db.incident_report_report_entries

-- A change of a column keeps the key of the row.
pub set_column-key :
    (change : Change) (row : IncidentRow) (e : String) (n : ℕ)
    → is_incident e n (set_column change row) ≡ is_incident e n row
unfolding set_column
set_column-key (priority v) row e n = refl
set_column-key (state v) row e n = refl
set_column-key (summary v) row e n = refl
set_column-key (location_name v) row e n = refl
set_column-key (location_concentric v) row e n = refl
set_column-key (location_description v) row e n = refl
set_column-key (location_radial_hour v) row e n = refl
set_column-key (location_radial_minute v) row e n = refl

pub any-update :
    (change : Change) (e f : String) (n k : ℕ) (rows : List IncidentRow)
    → any (is_incident f k) (map (update_incident change e n) rows) ≡ any (is_incident f k) rows
any-update change e f n k [] = refl
any-update change e f n k (row ∷ rows) =
    ground (arith, set_column-key change row f k, any-update change e f n k rows)

set_report_column-key :
    (change : ReportChange) (row : ReportRow) (e : String) (n : ℕ)
    → is_report e n (set_report_column change row) ≡ is_report e n row
unfolding set_report_column
set_report_column-key (report_summary v) row e n = refl
set_report_column-key (report_incident v) row e n = refl

any-update_report :
    (change : ReportChange) (e f : String) (n k : ℕ) (rows : List ReportRow)
    → any (is_report f k) (map (update_report change e n) rows) ≡ any (is_report f k) rows
any-update_report change e f n k [] = refl
any-update_report change e f n k (row ∷ rows) =
    ground (arith, set_report_column-key change row f k, any-update_report change e f n k rows)

-- New rows, and changed ones, are still found.
module _ (db : Db) (h : IsLinked db) where
  incidents_changed :
      (rows : List IncidentRow)
      → ((e : String) (n : ℕ)
          → any (is_incident e n) db.incidents ≡ true
          → any (is_incident e n) rows ≡ true)
      → IsLinked (record db { incidents = rows })
  incidents_changed rows kept = record {
    rangers_of = All-weaken _ _ (λ l. kept l.event l.number) db.incident_rangers h.rangers_of;
    types_of = All-weaken _ _ (λ l. kept l.event l.number) db.incident_incident_types h.types_of;
    types_exist = h.types_exist;
    entries_of =
        All-weaken _ _ (λ l. kept l.event l.number) db.incident_report_entries h.entries_of;
    entries_of_report = h.entries_of_report;
    entries = h.entries;
    report_entries = h.report_entries;
  }

  reports_changed :
      (rows : List ReportRow)
      → ((e : String) (n : ℕ)
          → any (is_report e n) db.incident_reports ≡ true
          → any (is_report e n) rows ≡ true)
      → IsLinked (record db { incident_reports = rows })
  reports_changed rows kept = record {
    rangers_of = h.rangers_of;
    types_of = h.types_of;
    types_exist = h.types_exist;
    entries_of = h.entries_of;
    entries_of_report =
        All-weaken _ _ (λ l. kept l.event l.number) db.incident_report_report_entries
          h.entries_of_report;
    entries = h.entries;
    report_entries = h.report_entries;
  }

  pub incident_added :
      (row : IncidentRow) → IsLinked (record db { incidents = db.incidents ++ row ∷ [] })
  incident_added row =
      incidents_changed _ (λ e n k. any-grown (is_incident e n) db.incidents (row ∷ []) k)

  pub incidents_updated :
      (change : Change) (e : String) (n : ℕ)
      → IsLinked (record db { incidents = map (update_incident change e n) db.incidents })
  incidents_updated change e n = incidents_changed _ (λ f k known. rw any-update known)

  pub report_added :
      (row : ReportRow)
      → IsLinked (record db { incident_reports = db.incident_reports ++ row ∷ [] })
  report_added row =
      reports_changed _ (λ e n k. any-grown (is_report e n) db.incident_reports (row ∷ []) k)

  pub reports_updated :
      (change : ReportChange) (e : String) (n : ℕ)
      → IsLinked
          (record db { incident_reports = map (update_report change e n) db.incident_reports })
  reports_updated change e n = reports_changed _ (λ f k known. rw any-update_report known)

  pub types_renewed :
      (rows : List TypeRow)
      → ((name : String)
          → any (is_type name) db.incident_types ≡ true
          → any (is_type name) rows ≡ true)
      → IsLinked (record db { incident_types = rows })
  types_renewed rows kept = record {
    rangers_of = h.rangers_of;
    types_of = h.types_of;
    types_exist = All-weaken _ _ (λ l. kept l.item) db.incident_incident_types h.types_exist;
    entries_of = h.entries_of;
    entries_of_report = h.entries_of_report;
    entries = h.entries;
    report_entries = h.report_entries;
  }

  pub entry_added :
      (row : EntryRow) → IsLinked (record db { report_entries = db.report_entries ++ row ∷ [] })
  entry_added row = record {
    rangers_of = h.rangers_of;
    types_of = h.types_of;
    types_exist = h.types_exist;
    entries_of = h.entries_of;
    entries_of_report = h.entries_of_report;
    entries =
        All-weaken _ _ (λ l. any-grown _ db.report_entries (row ∷ [])) db.incident_report_entries
          h.entries;
    report_entries =
        All-weaken _ _ (λ l. any-grown _ db.report_entries (row ∷ []))
          db.incident_report_report_entries h.report_entries;
  }
