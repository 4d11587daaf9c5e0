-- ===== src/Store/Incidents/Added.antt =====
-- Adding entries to an incident: those that their author typed, all or none.
use ranger_ims_server.Prelude.{
  ℕ, String, ◌≡◌, refl, ap, sym, ◌∙◌, ◌⊎◌, true, false, List, [], ◌∷◌, ◌++◌, map, keep, elem,
  nat_eq, string_eq, arith, All, append_assoc, append-nil, inl, inr,
}
use mathlib.Core.List.{map-append}
use ranger_ims_server.Model.{ReportEntry}
use ranger_ims_server.Store.Values.{ok, err, value_error, TimeStamp, as_date_time_value}
use ranger_ims_server.Store.Tables.{Db, EntryRow}
use ranger_ims_server.Store.Transactions.{Connection, run_interaction}
use ranger_ims_server.Store.Statements.Incidents.{fits, refers, items}
use ranger_ims_server.Store.Statements.Entries.{next_id}
use ranger_ims_server.Store.Entries.{create_and_attach_to_incident, typed_by, entry_of_row}
use ranger_ims_server.Store.Entries.Attached.{attached_to_incident, row_for}
use ranger_ims_server.Store.Entries.Stamped.{AreStamped}
use ranger_ims_server.Store.Incidents.{add_report_entries_to_incident}
use ranger_ims_server.Store.Incidents.Changed.{attach_entry_lem}
use ranger_ims_server.Store.Incidents.Reading.{items-own, entries-own, stamp_lem}
use ranger_ims_server.Store.Links.{IsLinked}
use ranger_ims_server.Store.Links.Changes.{incident_entry-IsLinked}
use ranger_ims_server.Store.Numbers.{next_id-new}

-- The author has typed the entry.
abbrev pub IsTyped : String → ReportEntry → Type 0
IsTyped author entry = (entry.automatic ≡ false) × (entry.author ≡ author)

typed_by_sound :
    (author : String) (entries : List ReportEntry)
    → typed_by author entries ≡ ok tt
    → All (IsTyped author) entries
unfolding typed_by
typed_by_sound author [] h = tt
typed_by_sound author (x ∷ xs) h =
    ((ground arith, ground arith), typed_by_sound author xs (ground arith))

typed_by_complete :
    (author : String) (entries : List ReportEntry)
    → All (IsTyped author) entries
    → typed_by author entries ≡ ok tt
unfolding typed_by
typed_by_complete author [] h = refl
typed_by_complete author (x ∷ xs) h = ground (arith, typed_by_complete author xs h.1, h.0.0, h.0.1)

-- The entries of an incident, those of no text too, in the order of their rows
abbrev pub entries_of : String → ℕ → Db → List ReportEntry
entries_of e n db = map entry_of_row (
    keep (λ (row : EntryRow). elem row.id (items e n db.incident_report_entries)) db.report_entries)

module _ (e : String) (n : ℕ) where
  entries_of-attached :
      (entry : ReportEntry) (created : TimeStamp) (db : Db)
      → as_date_time_value entry.created ≡ ok created
      → entries_of e n (attached_to_incident e n entry created db) ≡ entries_of e n db ++ entry ∷ []
  unfolding entry_of_row
  entries_of-attached entry created db stamp =
      ap
        (λ (ids : List ℕ). map entry_of_row (
          keep (λ (row : EntryRow). elem row.id ids)
            (db.report_entries ++ row_for entry created db ∷ [])))
        (items-own e n (next_id db.report_entries) db.incident_report_entries)
      ∙ ap (λ (rows : List EntryRow). map entry_of_row rows)
          (entries-own (items e n db.incident_report_entries) db.report_entries
            (row_for entry created db) (next_id-new db.report_entries))
      ∙ map-append _ _ _
      ∙ ap (λ t. entries_of e n db ++ record entry { created = t } ∷ [])
          (stamp_lem entry.created created stamp)

  pub add_loop :
      (entries : List ReportEntry) (db : Db)
      → fits n ≡ true
      → IsLinked db
      → refers e n db ≡ true
      → AreStamped entries
      → (later : Db) × (create_and_attach_to_incident e n entries db ≡ ok (tt, later))
        × (later ≡ record db {
          report_entries = later.report_entries;
          incident_report_entries = later.incident_report_entries;
        })
        × IsLinked later
        × (entries_of e n later ≡ entries_of e n db ++ entries)
  unfolding create_and_attach_to_incident
  add_loop [] db fit linked known stamped = (db, refl, refl, linked, sym (append-nil _))
  add_loop (entry ∷ entries) db fit linked known ((created, stamp), stamped) =
      let next = attached_to_incident e n entry created db in
      let (later, done, same, linked', read) =
        add_loop entries next fit (incident_entry-IsLinked db linked e n entry created known) known
          stamped in
      let step = attach_entry_lem e n entry created db fit known stamp linked in
      (
        later,
        ground (arith, step, done),
        same,
        linked',
        read
            ∙ ap (λ (xs : List ReportEntry). xs ++ entries)
                (entries_of-attached entry created db stamp)
            ∙ append_assoc (entries_of e n db) (entry ∷ []) entries,
      )

-- Adding entries that their author typed, to an incident that exists, succeeds, and commits a database
-- in which the incident has exactly these entries more, after its old ones; only the tables of entries
-- change, and links still refer to rows that exist. The incident's number is to fit SQLite, and the
-- times of the entries are to lie after the epoch.
pub add_entries_effect :
    (e : String) (n : ℕ) (entries : List ReportEntry) (author : String) (c : Connection)
    → All (IsTyped author) entries
    → fits n ≡ true
    → IsLinked c.working
    → refers e n c.working ≡ true
    → AreStamped entries
    → (later : Db) × (add_report_entries_to_incident e n entries author c
        ≡ (ok tt, record { committed = later; working = later }))
      × (later ≡ record c.working {
        report_entries = later.report_entries;
        incident_report_entries = later.incident_report_entries;
      })
      × IsLinked later
      × (entries_of e n later ≡ entries_of e n c.working ++ entries)
unfolding add_report_entries_to_incident run_interaction
add_entries_effect e n entries author c typed fit linked known stamped =
    let (later, done, same, linked', read) =
      add_loop e n entries c.working fit linked known stamped in
    (later, ground (arith, done, typed_by_complete author entries typed), same, linked', read)

typed-or-refused :
    (author : String) (entries : List ReportEntry)
    → (typed_by author entries ≡ ok tt) ⊎ (typed_by author entries ≡ err value_error)
unfolding typed_by
typed-or-refused author [] = inl refl
typed-or-refused author (x ∷ xs) = ground (arith, typed-or-refused author xs)

-- If one of the entries is automatic, or is another author's, then the call raises a ValueError and
-- leaves the database as it is, what is not committed included.
pub add_entries_refused :
    (e : String) (n : ℕ) (entries : List ReportEntry) (author : String) (c : Connection)
    → ¬ All (IsTyped author) entries
    → add_report_entries_to_incident e n entries author c ≡ (err value_error, c)
unfolding add_report_entries_to_incident
add_entries_refused e n entries author c other = elim (typed-or-refused author entries) [
  | inl typed ↦ elim (other (typed_by_sound author entries typed)) [ ]
  | inr refused ↦ ground (arith, refused)
]
