-- ===== src/Store/Incidents/Changed.antt =====
-- What a change of an incident's attribute does: it commits the change and one entry that tells it.
use ranger_ims_server.Prelude.{
  ℕ, String, ◌<>◌, List, ◌≡◌, ◌∙◌, true, false, [], ◌∷◌, ◌++◌, map, any, elem, nat_eq, string_eq,
  ◌==◌, arith, any-new,
}
use ranger_ims_server.Model.{ReportEntry}
use ranger_ims_server.Model.Time.{DateTime, normalize}
use ranger_ims_server.Store.Values.{ok, err, storage_error, TimeStamp, as_date_time_value}
use ranger_ims_server.Store.Tables.{Db, EntryRow, IncidentRow}
use ranger_ims_server.Store.Transactions.{Connection, run_interaction}
use ranger_ims_server.Store.Statements.Incidents.{
  fits, fits_value, is_incident, refers, items, Change, admits, update_incident,
  set_incident_attribute,
}
use ranger_ims_server.Store.Statements.Entries.{
  next_id, create_report_entry, attach_report_entry_to_incident,
}
use ranger_ims_server.Store.Entries.{
  create_entry, create_and_attach_to_incident, automatic_report_entry,
}
use ranger_ims_server.Store.Entries.Attached.{attached_to_incident, row_for}
use ranger_ims_server.Store.Incidents.{change_entry, change_incident, set_attribute}
use ranger_ims_server.Store.Incidents.Columns.{
  AreChanged, attribute_of, given, text_of, update-AreChanged, change_text,
}
use ranger_ims_server.Store.Links.{IsLinked, any-update, incidents_updated}
use ranger_ims_server.Store.Numbers.{next_id-new, unlinked}

module _ (e : String) (n : ℕ) (entry : ReportEntry) (created : TimeStamp) (db : Db)
    (fit : fits n ≡ true) (known : refers e n db ≡ true)
    (stamped : as_date_time_value entry.created ≡ ok created) (linked : IsLinked db) where
  -- The new row is there to be linked, and is not linked yet.
  entry_there :
      any
        (λ (row : EntryRow). row.id == next_id db.report_entries)
        (db.report_entries ++ row_for entry created db ∷ [])
      ≡ true
  entry_there =
      any-new (λ (row : EntryRow). row.id == next_id db.report_entries) db.report_entries
        (row_for entry created db ∷ []) (ground arith)

  not_linked : elem (next_id db.report_entries) (items e n db.incident_report_entries) ≡ false
  not_linked =
      unlinked _ e n db.report_entries db.incident_report_entries (next_id-new db.report_entries)
        linked.entries

  pub attach_entry_lem :
      create_and_attach_to_incident e n (entry ∷ []) db
      ≡ ok (tt, attached_to_incident e n entry created db)
  unfolding create_and_attach_to_incident create_entry create_report_entry
      attach_report_entry_to_incident
  attach_entry_lem = ground (arith, entry_there, not_linked)

-- The incidents after the change
abbrev pub changed : Change → String → ℕ → Db → Db
changed change e n db = record db { incidents = map (update_incident change e n) db.incidents }

module _ (change : Change) (e : String) (n : ℕ) (author : String) (now : DateTime) where
  refers-changed : (db : Db) → refers e n (changed change e n db) ≡ refers e n db
  refers-changed db = ground (arith, any-update change e e n n db.incidents)

  set_column_lem :
      (db : Db)
      → fits n ≡ true
      → fits_value change ≡ true
      → admits change e db ≡ true
      → set_incident_attribute change e n db ≡ ok (tt, changed change e n db)
  unfolding set_incident_attribute
  set_column_lem db fit small good = ground arith

  -- Both rounds at once
  change_incident_lem :
      (db : Db) (created : TimeStamp)
      → IsLinked db
      → fits n ≡ true
      → fits_value change ≡ true
      → refers e n db ≡ true
      → admits change e db ≡ true
      → as_date_time_value (normalize now) ≡ ok created
      → change_incident change e n (change_entry change author now) db
        ≡ ok (
          tt,
          attached_to_incident e n (change_entry change author now) created (changed change e n db),
        )
  unfolding change_incident automatic_report_entry
  change_incident_lem db created linked fit small known good stamped = ground (
    arith,
    set_column_lem db fit small good,
    attach_entry_lem e n (change_entry change author now) created (changed change e n db) fit
        (refers-changed db ∙ known) stamped (incidents_updated db linked change e n),
  )

module _ (change : Change) (e : String) (n : ℕ) (author : String) (now : DateTime) (c : Connection)
    (created : TimeStamp) (linked : IsLinked c.working) (fit : fits n ≡ true)
    (small : fits_value change ≡ true) (known : refers e n c.working ≡ true)
    (good : admits change e c.working ≡ true)
    (stamped : as_date_time_value (normalize now) ≡ ok created) where
  pub set_attribute-commits :
      let db =
        attached_to_incident e n
          (record {
            created = normalize now;
            author = author;
            automatic = true;
            text = (change_entry change author now).text;
          })
          created
          (changed change e n c.working) in
      set_attribute change e n author now c ≡ (ok tt, record { committed = db; working = db })
  unfolding set_attribute run_interaction automatic_report_entry
  set_attribute-commits = ground (
    arith,
    change_incident_lem change e n author now c.working created linked fit small known good stamped,
  )

-- Setting an attribute of an incident that exists, to a value that the column admits, commits a
-- database in which, row by row, the incident has the new value in the attribute's column, keeps its
-- other columns, and all other incidents are the same; and which has one new report entry, linked to
-- the incident: an automatic one by the author, whose text names the attribute and the value. The
-- database is to keep its links to rows that exist, the incident's number and the value to fit SQLite,
-- and the time to lie after the epoch.
pub set_attribute_effect :
    (change : Change) (e : String) (n : ℕ) (author : String) (now : DateTime) (c : Connection)
    (created : TimeStamp)
    → IsLinked c.working
    → fits n ≡ true
    → fits_value change ≡ true
    → refers e n c.working ≡ true
    → admits change e c.working ≡ true
    → as_date_time_value (normalize now) ≡ ok created
    → let text = "Changed " <> (attribute_of change <> (" to: " <> text_of (given change))) in
      (rows : List IncidentRow) × AreChanged change e n c.working.incidents rows
      × (let db =
            attached_to_incident e n
              (record { created = normalize now; author = author; automatic = true; text = text })
              created
              (record c.working { incidents = rows }) in
          set_attribute change e n author now c ≡ (ok tt, record { committed = db; working = db }))
set_attribute_effect change e n author now c created linked fit small known good stamped = (
  (changed change e n c.working).incidents,
  update-AreChanged change e n c.working.incidents,
  rw (← change_text change author now)
      (set_attribute-commits change e n author now c created linked fit small known good stamped),
)

-- Setting an attribute of an incident that does not exist raises, and the database is as it was last
-- committed; the incident's number and the value are to fit SQLite, and the time to lie after the
-- epoch.
pub set_attribute_missing :
    (change : Change) (e : String) (n : ℕ) (author : String) (now : DateTime) (c : Connection)
    (created : TimeStamp)
    → fits n ≡ true
    → fits_value change ≡ true
    → any (is_incident e n) c.working.incidents ≡ false
    → as_date_time_value (normalize now) ≡ ok created
    → set_attribute change e n author now c
      ≡ (err storage_error, record { committed = c.committed; working = c.committed })
unfolding set_attribute run_interaction change_incident set_incident_attribute
    automatic_report_entry create_and_attach_to_incident create_entry create_report_entry
    attach_report_entry_to_incident
set_attribute_missing change e n author now c created fit small missing stamped =
    ground (arith, any-update change e e n n c.working.incidents)
