-- ===== src/Store/Links/Changes.antt =====
-- What the statements do to the links, and to what these refer to.
use ranger_ims_server.Prelude.{
  ℕ, String, ◌≡◌, true, not, List, [], ◌∷◌, ◌++◌, any, keep, nat_eq, string_eq, ◌==◌, arith, All,
  All-append, All-keep, any-new,
}
use ranger_ims_server.Model.{ReportEntry}
use ranger_ims_server.Store.Values.{TimeStamp}
use ranger_ims_server.Store.Tables.{Db, EntryRow, Link}
use ranger_ims_server.Store.Statements.Incidents.{belongs, refers, is_type}
use ranger_ims_server.Store.Statements.Entries.{is_report}
use ranger_ims_server.Store.Entries.Attached.{
  row_for, entry_created, attached_to_incident, attached_to_report,
}
use ranger_ims_server.Store.Links.{
  IsLinked, entry_added, has_entry, has_incident, has_report, has_type,
}

module _ (db : Db) (h : IsLinked db) where
  -- Links, once both ends of each are known
  pub rangers_changed :
      (links : List (Link String))
      → All (λ l. has_incident db.incidents l ≡ true) links
      → IsLinked (record db { incident_rangers = links })
  rangers_changed links k = record {
    rangers_of = k;
    types_of = h.types_of;
    types_exist = h.types_exist;
    entries_of = h.entries_of;
    entries_of_report = h.entries_of_report;
    entries = h.entries;
    report_entries = h.report_entries;
  }

  pub types_changed :
      (links : List (Link String))
      → All (λ l. has_incident db.incidents l ≡ true) links
      → All (λ l. has_type db.incident_types l ≡ true) links
      → IsLinked (record db { incident_incident_types = links })
  types_changed links k j = record {
    rangers_of = h.rangers_of;
    types_of = k;
    types_exist = j;
    entries_of = h.entries_of;
    entries_of_report = h.entries_of_report;
    entries = h.entries;
    report_entries = h.report_entries;
  }

  incident_entries_changed :
      (links : List (Link ℕ))
      → All (λ l. has_incident db.incidents l ≡ true) links
      → All (λ l. has_entry db.report_entries l ≡ true) links
      → IsLinked (record db { incident_report_entries = links })
  incident_entries_changed links k j = record {
    rangers_of = h.rangers_of;
    types_of = h.types_of;
    types_exist = h.types_exist;
    entries_of = k;
    entries_of_report = h.entries_of_report;
    entries = j;
    report_entries = h.report_entries;
  }

  report_entries_changed :
      (links : List (Link ℕ))
      → All (λ l. has_report db.incident_reports l ≡ true) links
      → All (λ l. has_entry db.report_entries l ≡ true) links
      → IsLinked (record db { incident_report_report_entries = links })
  report_entries_changed links k j = record {
    rangers_of = h.rangers_of;
    types_of = h.types_of;
    types_exist = h.types_exist;
    entries_of = h.entries_of;
    entries_of_report = k;
    entries = h.entries;
    report_entries = j;
  }

  pub rangers_cleared :
      (e : String) (n : ℕ)
      → IsLinked
          (record db { incident_rangers = keep (λ l. not (belongs e n l)) db.incident_rangers })
  rangers_cleared e n =
      rangers_changed _ (All-keep _ (λ l. not (belongs e n l)) db.incident_rangers h.rangers_of)

  pub types_cleared :
      (e : String) (n : ℕ)
      → IsLinked (record db {
        incident_incident_types = keep (λ l. not (belongs e n l)) db.incident_incident_types;
      })
  types_cleared e n =
      types_changed _ (All-keep _ (λ l. not (belongs e n l)) db.incident_incident_types h.types_of)
        (All-keep _ (λ l. not (belongs e n l)) db.incident_incident_types h.types_exist)

  -- A link to an incident that exists
  pub ranger-IsLinked :
      (e : String) (n : ℕ) (handle : String)
      → refers e n db ≡ true
      → IsLinked (record db {
        incident_rangers =
            db.incident_rangers ++ record { event = e; number = n; item = handle } ∷ [];
      })
  ranger-IsLinked e n handle known =
      rangers_changed _ (All-append _ db.incident_rangers _ h.rangers_of (ground arith, tt))

  pub type-IsLinked :
      (e : String) (n : ℕ) (name : String)
      → refers e n db ≡ true
      → any (is_type name) db.incident_types ≡ true
      → IsLinked (record db {
        incident_incident_types =
            db.incident_incident_types ++ record { event = e; number = n; item = name } ∷ [];
      })
  type-IsLinked e n name known typed =
      types_changed _ (All-append _ db.incident_incident_types _ h.types_of (ground arith, tt))
        (All-append _ db.incident_incident_types _ h.types_exist (typed, tt))

  entry_found :
      (row : EntryRow) (e : String) (n : ℕ)
      → has_entry (db.report_entries ++ row ∷ []) (record { event = e; number = n; item = row.id })
        ≡ true
  entry_found row e n =
      any-new (λ (r : EntryRow). r.id == row.id) db.report_entries (row ∷ []) (ground arith)

-- One round of the loops over report entries
module _ (db : Db) (h : IsLinked db) where
  pub incident_entry-IsLinked :
      (e : String) (n : ℕ) (entry : ReportEntry) (created : TimeStamp)
      → refers e n db ≡ true
      → IsLinked (attached_to_incident e n entry created db)
  incident_entry-IsLinked e n entry created known =
      let grown = entry_added db h (row_for entry created db) in
      incident_entries_changed (entry_created entry created db) grown _
        (All-append _ db.incident_report_entries _ h.entries_of (ground arith, tt))
        (All-append _ db.incident_report_entries _ grown.entries
          (entry_found db h (row_for entry created db) e n, tt))

  pub report_entry-IsLinked :
      (e : String) (n : ℕ) (entry : ReportEntry) (created : TimeStamp)
      → any (is_report e n) db.incident_reports ≡ true
      → IsLinked (attached_to_report e n entry created db)
  report_entry-IsLinked e n entry created known =
      let grown = entry_added db h (row_for entry created db) in
      report_entries_changed (entry_created entry created db) grown _
        (All-append _ db.incident_report_report_entries _ h.entries_of_report (known, tt))
        (All-append _ db.incident_report_report_entries _ grown.report_entries
          (entry_found db h (row_for entry created db) e n, tt))
