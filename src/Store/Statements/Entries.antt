-- ===== src/Store/Statements/Entries.antt =====
-- The statements on report entries.
use ranger_ims_server.Prelude.{
  ℕ, ◌+◌, String, Bool, not, ◌&&◌, none, some, List, [], ◌∷◌, ◌++◌, map, any, keep, elem, nat_eq,
  string_eq, ◌==◌,
}
use ranger_ims_server.Store.Values.{storage_error, overflow_error, TimeStamp}
use ranger_ims_server.Store.Tables.{Db, EntryRow, ReportRow}
use ranger_ims_server.Store.Transactions.{Txn, gets, guard, modify, ◌>>=◌, ◌>>◌}
use ranger_ims_server.Store.Statements.Incidents.{fits, refers, items, item_of, maximum}

-- The ID that SQLite gives to a new row: one more than the greatest, or 1.
unfoldable pub next_id : List EntryRow → ℕ
next_id rows = elim (maximum (map (λ (row : EntryRow). row.id) rows)) [ none ↦ 1 | some n ↦ n + 1 ]

-- createReportEntry, which returns the ID of the row as `lastrowid`
unfoldable pub create_report_entry : TimeStamp → Bool → String → String → Txn ℕ
create_report_entry created generated author text = do
  db ← gets (λ db. db)
  modify (λ db. record db {
    report_entries =
        db.report_entries
        ++ record {
          id = next_id db.report_entries;
          author = author;
          text = text;
          created = created;
          generated = generated;
        }
          ∷ [];
  })
  gets (λ _. next_id db.report_entries)

-- attachReportEntryToIncident
unfoldable pub attach_report_entry_to_incident : String → ℕ → ℕ → Txn (Unit {0})
attach_report_entry_to_incident e n id = do
  guard (fits n) overflow_error
  db ← gets (λ db. db)
  guard (refers e n db) storage_error
  guard (any (λ (row : EntryRow). row.id == id) db.report_entries) storage_error
  guard (not (elem id (items e n db.incident_report_entries))) storage_error
  modify (λ db. record db {
    incident_report_entries =
        db.incident_report_entries ++ record { event = e; number = n; item = id } ∷ [];
  })

abbrev pub is_report : String → ℕ → ReportRow → Bool
is_report e n row = row.event == e && row.number == n

-- attachReportEntryToIncidentReport
unfoldable pub attach_report_entry_to_incident_report : String → ℕ → ℕ → Txn (Unit {0})
attach_report_entry_to_incident_report e n id = do
  guard (fits n) overflow_error
  db ← gets (λ db. db)
  guard (elem e db.events) storage_error
  guard (any (is_report e n) db.incident_reports) storage_error
  guard (any (λ (row : EntryRow). row.id == id) db.report_entries) storage_error
  guard (not (elem id (items e n db.incident_report_report_entries))) storage_error
  modify (λ db. record db {
    incident_report_report_entries =
        db.incident_report_report_entries ++ record { event = e; number = n; item = id } ∷ [];
  })

-- incident_reportEntries
unfoldable pub incident_report_entries : String → ℕ → Txn (List EntryRow)
incident_report_entries e n = gets (λ db.
    keep (λ (row : EntryRow). elem row.id (items e n db.incident_report_entries)) db.report_entries)

-- incidentReport_reportEntries
unfoldable pub incident_report_report_entries : String → ℕ → Txn (List EntryRow)
incident_report_report_entries e n = gets (λ db.
    keep (λ (row : EntryRow). elem row.id (items e n db.incident_report_report_entries))
      db.report_entries)

-- Attached to no incident and to no incident report
abbrev pub detached : Db → EntryRow → Bool
detached db row =
    not (elem row.id (map item_of db.incident_report_entries))
    && not (elem row.id (map item_of db.incident_report_report_entries))

-- detachedReportEntries
unfoldable pub detached_report_entries : Txn (List EntryRow)
detached_report_entries = gets (λ db. keep (detached db) db.report_entries)
