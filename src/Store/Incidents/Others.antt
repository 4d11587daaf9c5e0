-- ===== src/Store/Incidents/Others.antt =====
-- A change of one incident does not show in another.
use ranger_ims_server.Prelude.{
  ℕ, String, Bool, ◌≡◌, refl, ap, sym, ◌∙◌, true, false, not, ◌&&◌, List, [], ◌∷◌, ◌++◌, map, keep,
  first, elem, nat_eq, string_eq, ◌==◌, arith,
}
use ranger_ims_server.Model.{ReportEntry}
use ranger_ims_server.Model.Time.{DateTime, normalize}
use ranger_ims_server.Store.Values.{Result, ok, TimeStamp, as_date_time_value}
use ranger_ims_server.Store.Tables.{Db, EntryRow, IncidentRow, Link}
use ranger_ims_server.Store.Transactions.{Txn, Connection, run_interaction}
use ranger_ims_server.Store.Statements.Incidents.{
  fits, fits_value, is_incident, refers, items, Change, admits, update_incident, incident,
  incident_rangers, incident_incident_types,
}
use ranger_ims_server.Store.Statements.Entries.{next_id, incident_report_entries}
use ranger_ims_server.Store.Statements.Reports.{attached_incident_report_numbers}
use ranger_ims_server.Store.Entries.Attached.{attached_to_incident, row_for}
use ranger_ims_server.Store.Incidents.{change_entry, set_attribute}
use ranger_ims_server.Store.Incidents.Changed.{changed, set_attribute-commits}
use ranger_ims_server.Store.Fetch.{find_incident, fetch_incident, incident_with_number}
use ranger_ims_server.Store.Links.{IsLinked, set_column-key}
use ranger_ims_server.Store.Numbers.{next_id-new, unlinked}

abbrev pub is_other : String → ℕ → String → ℕ → Bool
is_other e n f k = not (f == e && k == n)

first-update :
    (change : Change) (e f : String) (n k : ℕ) (rows : List IncidentRow)
    → is_other e n f k ≡ true
    → first (is_incident f k) (map (update_incident change e n) rows) ≡ first (is_incident f k) rows
first-update change e f n k [] other = refl
first-update change e f n k (row ∷ rows) other =
    ground (arith, set_column-key change row f k, first-update change e f n k rows other)

items-other :
    (e f : String) (n k id : ℕ) (links : List (Link ℕ))
    → is_other e n f k ≡ true
    → items f k (links ++ record { event = e; number = n; item = id } ∷ []) ≡ items f k links
items-other e f n k id [] other = ground arith
items-other e f n k id (l ∷ links) other = ground (arith, items-other e f n k id links other)

entries-other :
    (ids : List ℕ) (rows : List EntryRow) (row : EntryRow)
    → elem row.id ids ≡ false
    → keep (λ (r : EntryRow). elem r.id ids) (rows ++ row ∷ [])
      ≡ keep (λ (r : EntryRow). elem r.id ids) rows
entries-other ids [] row new = ground arith
entries-other ids (r ∷ rows) row new = ground (arith, entries-other ids rows row new)

module _ (change : Change) (e f : String) (n k : ℕ) (entry : ReportEntry) (created : TimeStamp)
    (db : Db) (linked : IsLinked db) (other : is_other e n f k ≡ true) where
  abbrev later : Db
  later = attached_to_incident e n entry created (changed change e n db)

  entries_lem :
      keep
        (λ (r : EntryRow). elem r.id (items f k later.incident_report_entries))
        later.report_entries
      ≡ keep (λ (r : EntryRow). elem r.id (items f k db.incident_report_entries)) db.report_entries
  entries_lem =
      ap (λ (ids : List ℕ). keep (λ (r : EntryRow). elem r.id ids) later.report_entries)
        (items-other e f n k (next_id db.report_entries) db.incident_report_entries other)
      ∙ entries-other (items f k db.incident_report_entries) db.report_entries
          (row_for entry created db)
          (unlinked _ f k db.report_entries db.incident_report_entries
            (next_id-new db.report_entries) linked.entries)

  -- Reading the other incident gives what it gave before.
  same_incident :
      (run_interaction (fetch_incident f k) (record { committed = later; working = later })).0
      ≡ (run_interaction (fetch_incident f k) (record { committed = db; working = db })).0
  unfolding run_interaction fetch_incident find_incident incident incident_rangers
      incident_incident_types incident_report_entries attached_incident_report_numbers
  same_incident = ground (arith, entries_lem, first-update change e f n k db.incidents other)

pub result-working :
    {A : Type 0} (m : Txn A) (c : Connection)
    → (run_interaction m c).0
      ≡ (run_interaction m (record { committed = c.working; working = c.working })).0
unfolding run_interaction
result-working m c = ground arith

-- Where setting an attribute of one incident succeeds, reading any other incident, or the same number
-- in another event, gives afterwards what it gave before; the conditions are those under which it does.
pub set_attribute_others :
    (change : Change) (e f : String) (n k : ℕ) (author : String) (now : DateTime) (c : Connection)
    (created : TimeStamp)
    → IsLinked c.working
    → fits n ≡ true
    → fits_value change ≡ true
    → refers e n c.working ≡ true
    → admits change e c.working ≡ true
    → as_date_time_value (normalize now) ≡ ok created
    → is_other e n f k ≡ true
    → (incident_with_number f k (set_attribute change e n author now c).1).0
      ≡ (incident_with_number f k c).0
unfolding incident_with_number
set_attribute_others change e f n k author now c created linked fit small known good stamped other =
    ap (λ (r : Result (Unit {0}) × Connection). (run_interaction (fetch_incident f k) r.1).0)
      (set_attribute-commits change e n author now c created linked fit small known good stamped)
    ∙ same_incident change e f n k
        (record {
          created = normalize now;
          author = author;
          automatic = true;
          text = (change_entry change author now).text;
        })
        created c.working linked other
    ∙ sym (result-working (fetch_incident f k) c)
