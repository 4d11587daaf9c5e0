-- ===== src/Store/Incidents/State.antt =====
-- Setting an incident's state, and reading the incident afterwards.
use ranger_ims_server.Prelude.{
  ℕ, String, ◌≡◌, ◌≢◌, refl, ap, sym, ◌∙◌, true, some, List, [], ◌∷◌, ◌++◌, map, keep, first, elem,
  nat_eq, string_eq, arith, Option-cases, inl, inr,
}
use mathlib.Core.List.{map-append}
use ranger_ims_server.Text.Prefix.{cons-append-ne-nil}
use ranger_ims_server.Model.{
  ReportEntry, Incident, IncidentState, sort_entries, new, on_hold, dispatched, on_scene, closed,
}
use ranger_ims_server.Model.Time.{DateTime, normalize}
use ranger_ims_server.Store.Values.{
  Result, ok, TimeStamp, as_date_time_value, as_incident_state_value, state_roundtrip,
}
use ranger_ims_server.Store.Tables.{Db, EntryRow, IncidentRow}
use ranger_ims_server.Store.Transactions.{Connection, run_interaction}
use ranger_ims_server.Store.Statements.Incidents.{
  fits, fits_value, is_incident, refers, items, Change, set_column, admits, incident,
  incident_rangers, incident_incident_types, state,
}
use ranger_ims_server.Store.Statements.Entries.{incident_report_entries}
use ranger_ims_server.Store.Entries.{entry_of_row, automatic_report_entry}
use ranger_ims_server.Store.Entries.Attached.{attached_to_incident, row_for}
use ranger_ims_server.Store.Incidents.{change_entry, set_incident_state}
use ranger_ims_server.Store.Incidents.Changed.{changed, set_attribute-commits}
use ranger_ims_server.Store.Incidents.Reading.{
  first-updated, items-own, entries-own, stamp_lem, keep-last, find_incident_lem, reports_lem,
  raw_entries,
}
use ranger_ims_server.Store.Incidents.Others.{result-working}
use ranger_ims_server.Store.Fetch.{
  find_incident, fetch_incident, incident_with_number, has_text, location_of_row,
}
use ranger_ims_server.Store.Links.{IsLinked}
use ranger_ims_server.Store.Numbers.{next_id-new}

-- The entry that tells the change
abbrev pub state_entry : IncidentState → String → DateTime → ReportEntry
state_entry s author now = record {
  created = normalize now;
  author = author;
  automatic = true;
  text = (change_entry (state (as_incident_state_value s)) author now).text;
}

module _ (s : IncidentState) (e : String) (n : ℕ) (author : String) (now : DateTime) (db : Db)
    (created : TimeStamp) (linked : IsLinked db)
    (stamped : as_date_time_value (normalize now) ≡ ok created) where
  abbrev change : Change
  change = state (as_incident_state_value s)

  abbrev later : Db
  later = attached_to_incident e n (state_entry s author now) created (changed change e n db)

  abbrev new_row : EntryRow
  new_row = row_for (state_entry s author now) created db

  text_there : new_row.text ≢ ""
  unfolding automatic_report_entry
  text_there = cons-append-ne-nil _ _ _

  has_text_lem : has_text new_row ≡ true
  has_text_lem = ground (arith, text_there)

  entry_lem : entry_of_row new_row ≡ state_entry s author now
  unfolding entry_of_row
  entry_lem =
      ap (λ t. record (state_entry s author now) { created = t })
        (stamp_lem (normalize now) created stamped)

  raw_lem : raw_entries e n later ≡ raw_entries e n db ++ state_entry s author now ∷ []
  raw_lem =
      ap
        (λ (ids : List ℕ).
          map entry_of_row
            (keep has_text (keep (λ (row : EntryRow). elem row.id ids) later.report_entries)))
        (items-own e n new_row.id db.incident_report_entries)
      ∙ ap (λ (rows : List EntryRow). map entry_of_row (keep has_text rows))
          (entries-own (items e n db.incident_report_entries) db.report_entries new_row
            (next_id-new db.report_entries))
      ∙ ap (λ (rows : List EntryRow). map entry_of_row rows)
          (keep-last has_text _ new_row has_text_lem)
      ∙ map-append _ _ _
      ∙ ap (λ (x : ReportEntry). raw_entries e n db ++ x ∷ []) entry_lem

  -- Reading the incident, with the new state and one entry more
  module _ (i : Incident) (row : IncidentRow) (fit : fits n ≡ true)
      (there : first (is_incident e n) db.incidents ≡ some row)
      (read : (run_interaction (fetch_incident e n) (record { committed = db; working = db })).0
        ≡ ok i) where
    before_lem : (i.report_entries ≡ sort_entries (raw_entries e n db))
    unfolding run_interaction fetch_incident incident_rangers incident_incident_types
        incident_report_entries
    before_lem = ground (arith, find_incident_lem e n db row there, reports_lem e n db fit)

    after_lem :
        (run_interaction (fetch_incident e n) (record { committed = later; working = later })).0
        ≡ ok (record i { state = s; report_entries = sort_entries (raw_entries e n later) })
    unfolding run_interaction fetch_incident incident_rangers incident_incident_types
        incident_report_entries set_column location_of_row
    after_lem = ground (
      arith,
      find_incident_lem e n db row there,
      reports_lem e n db fit,
      reports_lem e n later fit,
      find_incident_lem e n later (set_column change row)
          (first-updated change e n db.incidents row there),
      state_roundtrip s,
    )

row_there :
    (e : String) (n : ℕ) (db : Db) (i : Incident)
    → (run_interaction (fetch_incident e n) (record { committed = db; working = db })).0 ≡ ok i
    → (row : IncidentRow) × (first (is_incident e n) db.incidents ≡ some row)
unfolding run_interaction fetch_incident find_incident incident
row_there e n db i h = elim (Option-cases (first (is_incident e n) db.incidents)) [
  | inl missing ↦ ground arith
  | inr found ↦ found
]

pub state-fits : (s : IncidentState) → fits_value (state (as_incident_state_value s)) ≡ true
unfolding fits_value
state-fits s = refl

pub state-admitted :
    (s : IncidentState) (e : String) (db : Db)
    → admits (state (as_incident_state_value s)) e db ≡ true
unfolding admits as_incident_state_value string_eq
state-admitted new e db = refl
state-admitted on_hold e db = refl
state-admitted dispatched e db = refl
state-admitted on_scene e db = refl
state-admitted closed e db = refl

-- Setting the state of an incident that can be read succeeds, and reading the incident afterwards
-- gives what it gave before, but with the new state, and with one entry more among the sorted entries:
-- an automatic one by the author. The database is to keep its links to rows that exist, the event and
-- the incident's number are to be good for SQLite, and the time is to lie after the epoch.
pub set_state_effect :
    (s : IncidentState) (e : String) (n : ℕ) (author : String) (now : DateTime) (c : Connection)
    (created : TimeStamp) (i : Incident)
    → IsLinked c.working
    → fits n ≡ true
    → refers e n c.working ≡ true
    → as_date_time_value (normalize now) ≡ ok created
    → (incident_with_number e n c).0 ≡ ok i
    → let (result, c') = set_incident_state e n s author now c in
      (result ≡ ok tt)
      × ((entries : List ReportEntry) × (i.report_entries ≡ sort_entries entries)
          × ((incident_with_number e n c').0
              ≡ ok (record i {
                state = s;
                report_entries = sort_entries (entries ++ state_entry s author now ∷ []);
              })))
unfolding incident_with_number set_incident_state
set_state_effect s e n author now c created i linked fit known stamped read =
    let read' = sym (result-working (fetch_incident e n) c) ∙ read in
    let (row, there) = row_there e n c.working i read' in
    let done =
      set_attribute-commits (state (as_incident_state_value s)) e n author now c created linked fit
        (state-fits s) known (state-admitted s e c.working) stamped in
    (
      ap (λ (r : Result (Unit {0}) × Connection). r.0) done,
      (
        raw_entries e n c.working,
        before_lem s e n author now c.working created linked stamped i row fit there read',
        ap (λ (r : Result (Unit {0}) × Connection). (run_interaction (fetch_incident e n) r.1).0)
              done
            ∙ after_lem s e n author now c.working created linked stamped i row fit there read'
            ∙ ap
                (λ (entries : List ReportEntry).
                  ok (record i { state = s; report_entries = sort_entries entries }))
                (raw_lem s e n author now c.working created linked stamped),
      ),
    )
