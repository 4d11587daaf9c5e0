-- ===== src/Store/Incidents/ReadBack.antt =====
-- Reading an incident that has been created.
use mathlib.Core.Path.{subst}
use ranger_ims_server.Prelude.{
  ℕ, String, Bool, ◌≡◌, ◌≢◌, refl, ap, sym, ◌∙◌, true, false, some, List, [], ◌∷◌, ◌++◌, any, elem,
  map, keep, first, nat_eq, string_eq, arith, All, All-append,
}
use ranger_ims_server.Model.{
  Incident, rod_garett, description, concentric, radial_hour, radial_minute, freeze, sort_entries,
}
use ranger_ims_server.Model.Time.{DateTime, normalize}
use ranger_ims_server.Model.Build.Sorting.{sort_entries-All, sort_entries_idempotent}
use ranger_ims_server.Store.Values.{Result, ok, state_roundtrip, priority_roundtrip}
use ranger_ims_server.Store.Tables.{Db, EntryRow, TypeRow, Link}
use ranger_ims_server.Store.Transactions.{Connection, run_interaction}
use ranger_ims_server.Store.Statements.Incidents.{
  fits, is_incident, items, incident_rangers, incident_incident_types,
}
use ranger_ims_server.Store.Statements.Entries.{incident_report_entries}
use ranger_ims_server.Store.Statements.Reports.{report_number, is_attached}
use ranger_ims_server.Store.Entries.{entry_of_row, initial_report_entries}
use ranger_ims_server.Store.Entries.Stamped.{IsStamped, HasText, initial-HasText}
use ranger_ims_server.Store.Fetch.{fetch_incident, incident_with_number, location_of_row, has_text}
use ranger_ims_server.Store.Incidents.{row_of, create_incident, any_automatic}
use ranger_ims_server.Store.Incidents.Added.{entries_of}
use ranger_ims_server.Store.Incidents.Loops.{links, no-items}
use ranger_ims_server.Store.Incidents.Reading.{find_incident_lem, reports_lem, stamp_lem}
use ranger_ims_server.Store.Incidents.Written.{IsWritable, IsFiled}
use ranger_ims_server.Store.Incidents.Created.{
  filed, filed-new, filed-IsWritable, create_incident-commits,
}
use ranger_ims_server.Store.Links.{IsLinked}

first-last :
    {A : Type 0} (p : A → Bool) (xs : List A) (x : A)
    → any p xs ≡ false
    → p x ≡ true
    → first p (xs ++ x ∷ []) ≡ some x
first-last p [] x h k = ground arith
first-last p (y ∷ xs) x h k = ground (arith, first-last p xs x)

items-links :
    (e : String) (n : ℕ) (old : List (Link String)) (xs : List String)
    → items e n (old ++ links e n xs) ≡ items e n old ++ xs
items-links e n [] [] = refl
items-links e n [] (x ∷ xs) = ground (arith, items-links e n [] xs)
items-links e n (l ∷ old) xs = ground (arith, items-links e n old xs)

-- Rows whose entries have a text are all read.
keep-HasText :
    (rows : List EntryRow)
    → All HasText (map entry_of_row rows)
    → map entry_of_row (keep has_text rows) ≡ map entry_of_row rows
unfolding entry_of_row
keep-HasText [] h = refl
keep-HasText (r ∷ rows) h = ground (arith, keep-HasText rows h.1, h.0)

-- The incident as it is read: its address has all the columns, its types are in the order of their
-- table, and the reports are those that are attached in the database, not those that it named.
abbrev pub as_read : Incident → Db → Incident
as_read i db = record i {
  location = record {
    name = i.location.name;
    address =
        rod_garett (description i.location.address) (concentric i.location.address)
          (radial_hour i.location.address) (radial_minute i.location.address);
  };
  ranger_handles = freeze i.ranger_handles;
  incident_types = freeze (
      map (λ (t : TypeRow). t.name)
        (keep (λ (t : TypeRow). elem t.name i.incident_types) db.incident_types));
  incident_report_numbers =
      freeze
        (map report_number (keep (is_attached i.event_id (some i.number)) db.incident_reports));
}

module _ (i : Incident) (db : Db) (fit : fits i.number ≡ true) (w : IsWritable i db)
    (fresh : any (is_incident i.event_id i.number) db.incidents ≡ false) (linked : IsLinked db)
    (later : Db) (same : IsFiled i db fit w fresh linked later)
    (entries : entries_of i.event_id i.number later ≡ i.report_entries)
    (texts : All HasText i.report_entries)
    (sorted : sort_entries i.report_entries ≡ i.report_entries) where
  abbrev e : String
  e = i.event_id

  abbrev n : ℕ
  n = i.number

  row_there : first (is_incident e n) later.incidents ≡ some (row_of i w.created)
  unfolding row_of
  row_there =
      ap (λ (d : Db). first (is_incident e n) d.incidents) same
      ∙ first-last (is_incident e n) db.incidents (row_of i w.created) fresh (ground arith)

  rangers_there : items e n later.incident_rangers ≡ i.ranger_handles
  rangers_there =
      ap (λ (d : Db). items e n d.incident_rangers) same
      ∙ items-links e n db.incident_rangers i.ranger_handles
      ∙ rw (no-items e n db.incidents db.incident_rangers fresh linked.rangers_of) refl

  types_there : items e n later.incident_incident_types ≡ i.incident_types
  types_there =
      ap (λ (d : Db). items e n d.incident_incident_types) same
      ∙ items-links e n db.incident_incident_types i.incident_types
      ∙ rw (no-items e n db.incidents db.incident_incident_types fresh linked.types_of) refl

  entries_there :
      map entry_of_row (
        keep has_text (
          keep
            (λ (row : EntryRow). elem row.id (items e n later.incident_report_entries))
            later.report_entries))
      ≡ i.report_entries
  entries_there = keep-HasText _ (subst (All HasText) (sym entries) texts) ∙ entries

  names_there :
      map
        (λ (t : TypeRow). t.name)
        (keep
          (λ (t : TypeRow). elem t.name (items e n later.incident_incident_types))
          later.incident_types)
      ≡ map
          (λ (t : TypeRow). t.name)
          (keep (λ (t : TypeRow). elem t.name i.incident_types) db.incident_types)
  names_there =
      ap
        (λ (xs : List String).
          map (λ (t : TypeRow). t.name)
            (keep (λ (t : TypeRow). elem t.name xs) later.incident_types))
        types_there
      ∙ ap
          (λ (d : Db).
            map (λ (t : TypeRow). t.name)
              (keep (λ (t : TypeRow). elem t.name i.incident_types) d.incident_types))
          same

  reports_there :
      map report_number (keep (is_attached e (some n)) later.incident_reports)
      ≡ map report_number (keep (is_attached e (some n)) db.incident_reports)
  reports_there =
      ap (λ (d : Db). map report_number (keep (is_attached e (some n)) d.incident_reports)) same

  pub read_lem : fetch_incident e n later ≡ ok (as_read i db, later)
  unfolding fetch_incident incident_rangers incident_incident_types incident_report_entries row_of
      location_of_row
  read_lem = ground (
    arith,
    find_incident_lem e n later (row_of i w.created) row_there,
    reports_lem e n later fit,
    rangers_there,
    names_there,
    entries_there,
    sorted,
    reports_there,
    state_roundtrip i.state,
    priority_roundtrip i.priority,
    stamp_lem i.created w.created w.stamped,
  )

-- Reading an incident that has been created gives back what `createIncident` returned, with its number
-- and its entries, the initial ones among them, but for four fields: the Rangers and the types are as
-- they are frozen, the types those of them that there are; the address has the columns that every
-- address is kept in; and the numbers of incident reports are those that the database has attached to
-- the incident, so that the numbers which the created incident named are lost. The conditions are those
-- under which creating succeeds; no entry is to have an empty text.
pub create_then_read :
    (i : Incident) (author : String) (now : DateTime) (c : Connection)
    → author ≢ ""
    → i.number ≡ 0
    → any_automatic i.report_entries ≡ false
    → IsStamped (normalize now)
    → (w : IsWritable i c.working) → fits (filed i author now c.working).number ≡ true
    → IsLinked c.working
    → All HasText i.report_entries
    → let c' = (create_incident i author now c).1 in
      incident_with_number i.event_id (filed i author now c.working).number c'
      ≡ (ok (as_read (filed i author now c.working) c.working), c')
unfolding incident_with_number run_interaction
create_then_read i author now c named unnumbered typed clock w fit linked texts =
    let db = c.working in
    let f = filed i author now db in
    let (later, done, (same, _, entries)) =
      create_incident-commits i author now c named unnumbered typed clock w fit linked in
    let all_texts : All HasText f.report_entries = sort_entries-All HasText _ (
      All-append HasText (initial_report_entries i author now) i.report_entries
        (initial-HasText i author now) texts) in
    let read =
      read_lem f db fit (filed-IsWritable i author now db clock w) (filed-new i author now db)
        linked later same entries all_texts (sort_entries_idempotent _) in
    subst
      (λ (r : Result Incident × Connection).
        run_interaction (fetch_incident i.event_id f.number) r.1 ≡ (ok (as_read f db), r.1))
      (sym done) (rw read refl)
