-- ===== src/Store/Incidents/Reading.antt =====
-- What the statements that read an incident give, after a row or a link more.
use ranger_ims_server.Prelude.{
  ℕ, String, Bool, ◌≡◌, refl, ◌∙◌, true, false, some, List, [], ◌∷◌, ◌++◌, map, keep, keep-append,
  first, elem, elem-append, any, nat_eq, string_eq, ◌==◌, arith, if◌then◌else◌,
}
use ranger_ims_server.Model.{ReportEntry}
use ranger_ims_server.Model.Time.{DateTime, ℤ, pos, negsuc}
use ranger_ims_server.Store.Values.{
  ok, err, no_such_incident, TimeStamp, as_date_time_value, from_date_time_value,
}
use ranger_ims_server.Store.Tables.{Db, EntryRow, IncidentRow, Link}
use ranger_ims_server.Store.Statements.Incidents.{
  fits, is_incident, items, Change, set_column, update_incident, incident,
}
use ranger_ims_server.Store.Statements.Reports.{
  attached_incident_report_numbers, report_number, is_attached,
}
use ranger_ims_server.Store.Entries.{entry_of_row}
use ranger_ims_server.Store.Fetch.{find_incident, has_text}
use ranger_ims_server.Store.Links.{set_column-key}

pub first-updated :
    (change : Change) (e : String) (n : ℕ) (rows : List IncidentRow) (row : IncidentRow)
    → first (is_incident e n) rows ≡ some row
    → first (is_incident e n) (map (update_incident change e n) rows) ≡ some (set_column change row)
first-updated change e n [] row h = ground arith
first-updated change e n (r ∷ rows) row h =
    ground (arith, set_column-key change r e n, first-updated change e n rows row)

pub items-own :
    {A : Type 0} (e : String) (n : ℕ) (id : A) (links : List (Link A))
    → items e n (links ++ record { event = e; number = n; item = id } ∷ [])
      ≡ items e n links ++ id ∷ []
items-own e n id [] = ground arith
items-own e n id (l ∷ links) = ground (arith, items-own e n id links)

-- A new ID finds no old row, and its own row.
pub keep-old :
    (ids : List ℕ) (id : ℕ) (rows : List EntryRow)
    → any (λ (r : EntryRow). r.id == id) rows ≡ false
    → keep (λ (r : EntryRow). elem r.id (ids ++ id ∷ [])) rows
      ≡ keep (λ (r : EntryRow). elem r.id ids) rows
keep-old ids id [] h = refl
keep-old ids id (r ∷ rows) h = ground (arith, keep-old ids id rows, elem-append r.id ids (id ∷ []))

pub entries-own :
    (ids : List ℕ) (rows : List EntryRow) (row : EntryRow)
    → any (λ (r : EntryRow). r.id == row.id) rows ≡ false
    → keep (λ (r : EntryRow). elem r.id (ids ++ row.id ∷ [])) (rows ++ row ∷ [])
      ≡ keep (λ (r : EntryRow). elem r.id ids) rows ++ row ∷ []
entries-own ids rows row fresh =
    keep-append _ rows (row ∷ [])
    ∙ ground (arith, keep-old ids row.id rows fresh, elem-append row.id ids (row.id ∷ []))

pub stamp_second :
    (s : ℤ) (m : ℕ) (v : TimeStamp)
    → as_date_time_value (record { second = s; microsecond = m }) ≡ ok v
    → from_date_time_value v ≡ record { second = s; microsecond = m }
unfolding as_date_time_value from_date_time_value
stamp_second (pos n) m v h = ground arith
stamp_second (negsuc n) m v h = ground arith

pub stamp_lem :
    (t : DateTime) (v : TimeStamp) → as_date_time_value t ≡ ok v → from_date_time_value v ≡ t
stamp_lem t v h = stamp_second t.second t.microsecond v h

pub keep-last :
    {A : Type 0} (p : A → Bool) (xs : List A) (x : A)
    → p x ≡ true
    → keep p (xs ++ x ∷ []) ≡ keep p xs ++ x ∷ []
keep-last p xs x h = keep-append p xs (x ∷ []) ∙ ground arith

-- The entries of an incident, in the order of their rows
abbrev pub raw_entries : String → ℕ → Db → List ReportEntry
raw_entries e n db = map entry_of_row (
    keep has_text (
      keep (λ (row : EntryRow). elem row.id (items e n db.incident_report_entries))
        db.report_entries))

pub find_incident_lem :
    (e : String) (n : ℕ) (db : Db) (row : IncidentRow)
    → first (is_incident e n) db.incidents ≡ some row
    → find_incident e n db ≡ (if fits n then ok (row, db) else err no_such_incident)
unfolding find_incident incident
find_incident_lem e n db row there = ground (arith, there)

pub reports_lem :
    (e : String) (n : ℕ) (db : Db)
    → fits n ≡ true
    → attached_incident_report_numbers e n db
      ≡ ok (map report_number (keep (is_attached e (some n)) db.incident_reports), db)
unfolding attached_incident_report_numbers
reports_lem e n db fit = ground arith
