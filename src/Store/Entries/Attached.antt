-- ===== src/Store/Entries/Attached.antt =====
-- What creating and attaching an entry does to the database; no entry stays detached.
use ranger_ims_server.Prelude.{
  ℕ, String, ◌≡◌, refl, ap, inl, inr, true, false, List, [], ◌∷◌, ◌++◌, map, nat_eq, arith, All,
  All-append, All-weaken, elem-append, any, string_eq,
}
use mathlib.Core.Path.{subst}
use mathlib.Core.List.{map-append}
use ranger_ims_server.Model.{ReportEntry}
use ranger_ims_server.Store.Values.{ok, TimeStamp, as_date_time_value}
use ranger_ims_server.Store.Tables.{Db, EntryRow}
use ranger_ims_server.Store.Keeps.{Keeps, Keeps-pure, Result-cases, >>=-eq-ok}
use ranger_ims_server.Store.Statements.Incidents.{refers, item_of}
use ranger_ims_server.Store.Statements.Entries.{
  next_id, create_report_entry, attach_report_entry_to_incident,
  attach_report_entry_to_incident_report, is_report, detached,
}
use ranger_ims_server.Store.Entries.{
  create_entry, create_and_attach_to_incident, create_and_attach_to_incident_report,
}

-- The row of a new entry
abbrev pub row_for : ReportEntry → TimeStamp → Db → EntryRow
row_for entry created db = record {
  id = next_id db.report_entries;
  author = entry.author;
  text = entry.text;
  created = created;
  generated = entry.automatic;
}

abbrev pub entry_created : ReportEntry → TimeStamp → Db → Db
entry_created entry created db = record db {
  report_entries = db.report_entries ++ row_for entry created db ∷ [];
}

abbrev pub linked_to_incident : String → ℕ → ℕ → Db → Db
linked_to_incident e n id db = record db {
  incident_report_entries =
      db.incident_report_entries ++ record { event = e; number = n; item = id } ∷ [];
}

abbrev pub linked_to_report : String → ℕ → ℕ → Db → Db
linked_to_report e n id db = record db {
  incident_report_report_entries =
      db.incident_report_report_entries ++ record { event = e; number = n; item = id } ∷ [];
}

pub create_entry-eq-ok :
    (entry : ReportEntry) (db : Db) (r : ℕ × Db)
    → create_entry entry db ≡ ok r
    → (created : TimeStamp) × (as_date_time_value entry.created ≡ ok created)
      × (r ≡ (next_id db.report_entries, entry_created entry created db))
unfolding create_entry create_report_entry
create_entry-eq-ok entry db r h = elim (Result-cases (as_date_time_value entry.created)) [
  | inl (e, failed) ↦ ground arith
  | inr (created, done) ↦ (created, done, ground (arith, done))
]

pub attach_to_incident-eq-ok :
    (e : String) (n id : ℕ) (db : Db) (r : Unit {0} × Db)
    → attach_report_entry_to_incident e n id db ≡ ok r
    → (refers e n db ≡ true) × (r ≡ (tt, linked_to_incident e n id db))
unfolding attach_report_entry_to_incident
attach_to_incident-eq-ok e n id db r h = ground arith

pub attach_to_report-eq-ok :
    (e : String) (n id : ℕ) (db : Db) (r : Unit {0} × Db)
    → attach_report_entry_to_incident_report e n id db ≡ ok r
    → (any (is_report e n) db.incident_reports ≡ true) × (r ≡ (tt, linked_to_report e n id db))
unfolding attach_report_entry_to_incident_report
attach_to_report-eq-ok e n id db r h = ground arith

-- Every report entry belongs to an incident or to an incident report.
pub record IsAttached (db : Db) : Type 0 where
  pub attached : All (λ row. detached db row ≡ false) db.report_entries

-- A new link takes no entry's link away, and gives one to its own.
module _ (e : String) (n id : ℕ) (db : Db) (row : EntryRow) where
  kept_by_incident : detached db row ≡ false → detached (linked_to_incident e n id db) row ≡ false
  kept_by_incident h =
      rw map-append
        (ground (arith, elem-append row.id (map item_of db.incident_report_entries) (id ∷ [])))

  kept_by_report : detached db row ≡ false → detached (linked_to_report e n id db) row ≡ false
  kept_by_report h =
      rw map-append (
        ground
          (arith, elem-append row.id (map item_of db.incident_report_report_entries) (id ∷ [])))

  given_by_incident : row.id ≡ id → detached (linked_to_incident e n id db) row ≡ false
  given_by_incident h =
      rw map-append
        (ground (arith, elem-append row.id (map item_of db.incident_report_entries) (id ∷ [])))

  given_by_report : row.id ≡ id → detached (linked_to_report e n id db) row ≡ false
  given_by_report h =
      rw map-append (
        ground
          (arith, elem-append row.id (map item_of db.incident_report_report_entries) (id ∷ [])))

module _ (e : String) (n : ℕ) (entry : ReportEntry) (created : TimeStamp) (db : Db)
    (h : IsAttached db) where
  abbrev id : ℕ
  id = next_id db.report_entries

  pub added_to_incident : IsAttached (linked_to_incident e n id (entry_created entry created db))
  added_to_incident = record {
    attached =
        All-append _ db.report_entries (row_for entry created db ∷ [])
          (All-weaken _ _ (λ row. kept_by_incident e n id (entry_created entry created db) row)
            db.report_entries h.attached)
          (
            given_by_incident e n id (entry_created entry created db) (row_for entry created db)
                refl,
            tt,
          );
  }

  pub added_to_report : IsAttached (linked_to_report e n id (entry_created entry created db))
  added_to_report = record {
    attached =
        All-append _ db.report_entries (row_for entry created db ∷ [])
          (All-weaken _ _ (λ row. kept_by_report e n id (entry_created entry created db) row)
            db.report_entries h.attached)
          (
            given_by_report e n id (entry_created entry created db) (row_for entry created db) refl,
            tt,
          );
  }

-- The database after one round of the loop
abbrev pub attached_to_incident : String → ℕ → ReportEntry → TimeStamp → Db → Db
attached_to_incident e n entry created db =
    linked_to_incident e n (next_id db.report_entries) (entry_created entry created db)

abbrev pub attached_to_report : String → ℕ → ReportEntry → TimeStamp → Db → Db
attached_to_report e n entry created db =
    linked_to_report e n (next_id db.report_entries) (entry_created entry created db)

module _ (e : String) (n : ℕ) (entry : ReportEntry) (entries : List ReportEntry) (db : Db)
    (r : Unit {0} × Db) where
  -- Inversion of the loops, one round at a time
  pub incident_round :
      create_and_attach_to_incident e n (entry ∷ entries) db ≡ ok r
      → (created : TimeStamp) × (as_date_time_value entry.created ≡ ok created)
        × (refers e n db ≡ true)
        × (create_and_attach_to_incident e n entries (attached_to_incident e n entry created db)
            ≡ ok r)
  unfolding create_and_attach_to_incident
  incident_round done =
      let (s, made, rest) = >>=-eq-ok (create_entry entry) _ db r done in
      let (t, linked, later) = >>=-eq-ok (attach_report_entry_to_incident e n s.0) _ s.1 r rest in
      let (created, stamped, s_is) = create_entry-eq-ok entry db s made in
      let (known, t_is) = attach_to_incident-eq-ok e n s.0 s.1 t linked in
      let world : t.1 ≡ attached_to_incident e n entry created db = cc in
      (
        created,
        stamped,
        subst (λ (d : Db). refers e n d ≡ true) (ap (λ (x : ℕ × Db). x.1) s_is) known,
        subst (λ (d : Db). create_and_attach_to_incident e n entries d ≡ ok r) world later,
      )

  pub report_round :
      create_and_attach_to_incident_report e n (entry ∷ entries) db ≡ ok r
      → (created : TimeStamp) × (as_date_time_value entry.created ≡ ok created)
        × (any (is_report e n) db.incident_reports ≡ true)
        × (create_and_attach_to_incident_report e n entries
              (attached_to_report e n entry created db)
            ≡ ok r)
  unfolding create_and_attach_to_incident_report
  report_round done =
      let (s, made, rest) = >>=-eq-ok (create_entry entry) _ db r done in
      let (t, linked, later) =
        >>=-eq-ok (attach_report_entry_to_incident_report e n s.0) _ s.1 r rest in
      let (created, stamped, s_is) = create_entry-eq-ok entry db s made in
      let (known, t_is) = attach_to_report-eq-ok e n s.0 s.1 t linked in
      let world : t.1 ≡ attached_to_report e n entry created db = cc in
      (
        created,
        stamped,
        subst (λ (d : Db). any (is_report e n) d.incident_reports ≡ true)
            (ap (λ (x : ℕ × Db). x.1) s_is) known,
        subst (λ (d : Db). create_and_attach_to_incident_report e n entries d ≡ ok r) world later,
      )

-- The loops leave an invariant alone that one round of them keeps.
module _ {P : Db → Type 0} (e : String) (n : ℕ) where
  pub incident_loop-Keeps :
      ((entry : ReportEntry) (created : TimeStamp) (db : Db)
        → refers e n db ≡ true
        → P db
        → P (attached_to_incident e n entry created db))
      → (entries : List ReportEntry) → Keeps P (create_and_attach_to_incident e n entries)
  unfolding create_and_attach_to_incident
  incident_loop-Keeps step [] = Keeps-pure tt
  incident_loop-Keeps step (entry ∷ entries) = record {
    at = λ db h r done.
        let (created, _, known, later) = incident_round e n entry entries db r done in
        (incident_loop-Keeps step entries).at _ (step entry created db known h) r later;
  }

  pub report_loop-Keeps :
      ((entry : ReportEntry) (created : TimeStamp) (db : Db)
        → any (is_report e n) db.incident_reports ≡ true
        → P db
        → P (attached_to_report e n entry created db))
      → (entries : List ReportEntry) → Keeps P (create_and_attach_to_incident_report e n entries)
  unfolding create_and_attach_to_incident_report
  report_loop-Keeps step [] = Keeps-pure tt
  report_loop-Keeps step (entry ∷ entries) = record {
    at = λ db h r done.
        let (created, _, known, later) = report_round e n entry entries db r done in
        (report_loop-Keeps step entries).at _ (step entry created db known h) r later;
  }
