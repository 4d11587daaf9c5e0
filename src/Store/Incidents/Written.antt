-- ===== src/Store/Incidents/Written.antt =====
-- Writing an incident that has its number, where the event and what it names exist.
use ranger_ims_server.Prelude.{
  ℕ, String, ◌≡◌, refl, ap, ◌∙◌, true, false, List, [], ◌∷◌, ◌++◌, any, elem, map, keep, nat_eq,
  string_eq, arith, All, All-append, any-new,
}
use ranger_ims_server.Model.{
  Incident, ReportEntry, IncidentState, new, on_hold, dispatched, on_scene, closed, concentric,
  radial_hour, radial_minute,
}
use ranger_ims_server.Store.Values.{ok, TimeStamp, as_date_time_value, as_incident_state_value}
use ranger_ims_server.Store.Tables.{Db, EntryRow, TypeRow, IncidentRow, Link}
use ranger_ims_server.Store.Statements.Incidents
use ranger_ims_server.Store.Statements.Incidents.{
  fits, fits_option, is_incident, is_type, refers, items, known_street, state_values, maximum,
  numbers, max_incident_number,
}
use ranger_ims_server.Store.Entries.{entry_of_row}
use ranger_ims_server.Store.Entries.Stamped.{AreStamped}
use ranger_ims_server.Store.Incidents.{
  attach_ranger_handles, attach_incident_types, row_of, write_incident,
}
use ranger_ims_server.Store.Incidents.Loops.{
  distinct, links, with_rangers, with_types, rangers_loop, types_loop, no-items,
}
use ranger_ims_server.Store.Incidents.Added.{entries_of, add_loop}
use ranger_ims_server.Store.Links.{IsLinked, incident_added, has_incident, has_type}
use ranger_ims_server.Store.Links.Changes.{rangers_changed, types_changed}

state-known : (s : IncidentState) → elem (as_incident_state_value s) state_values ≡ true
unfolding as_incident_state_value string_eq
state-known new = refl
state-known on_hold = refl
state-known dispatched = refl
state-known on_scene = refl
state-known closed = refl

-- What an incident names exists, without repetitions, and its times can be written.
pub record IsWritable (i : Incident) (db : Db) : Type 0 where
  pub event : elem i.event_id db.events ≡ true
  pub street : known_street i.event_id (concentric i.location.address) db ≡ true
  pub hour : fits_option (radial_hour i.location.address) ≡ true
  pub minute : fits_option (radial_minute i.location.address) ≡ true
  pub types : All (λ x. any (is_type x) db.incident_types ≡ true) i.incident_types
  pub distinct_types : distinct [] i.incident_types ≡ true
  pub distinct_rangers : distinct [] i.ranger_handles ≡ true
  pub created : TimeStamp
  pub stamped : as_date_time_value i.created ≡ ok created
  pub entries : AreStamped i.report_entries

links-known :
    (e : String) (n : ℕ) (rows : List IncidentRow) (xs : List String)
    → any (is_incident e n) rows ≡ true
    → All (λ (l : Link String). has_incident rows l ≡ true) (links e n xs)
links-known e n rows [] h = tt
links-known e n rows (x ∷ xs) h = (h, links-known e n rows xs h)

links-typed :
    (e : String) (n : ℕ) (rows : List TypeRow) (xs : List String)
    → All (λ x. any (is_type x) rows ≡ true) xs
    → All (λ (l : Link String). has_type rows l ≡ true) (links e n xs)
links-typed e n rows [] h = tt
links-typed e n rows (x ∷ xs) h = (h.0, links-typed e n rows xs h.1)

keep-false : {A : Type 0} (xs : List A) → keep (λ x. false) xs ≡ []
keep-false [] = refl
keep-false (x ∷ xs) = keep-false xs

module _ (i : Incident) (db : Db) (fit : fits i.number ≡ true) (w : IsWritable i db)
    (fresh : any (is_incident i.event_id i.number) db.incidents ≡ false)
    (linked : IsLinked db) where
  abbrev e : String
  e = i.event_id

  abbrev n : ℕ
  n = i.number

  abbrev with_row : Db
  with_row = record db { incidents = db.incidents ++ row_of i w.created ∷ [] }

  abbrev with_links : Db
  with_links = with_types e n fit i.incident_types (with_rangers e n fit i.ranger_handles with_row)

  insert_lem : Incidents.create_incident (row_of i w.created) db ≡ ok (tt, with_row)
  unfolding Incidents.create_incident row_of
  insert_lem = ground (arith, fit, w.hour, w.minute, w.event, w.street, fresh, state-known i.state)

  row_known : any (is_incident e n) with_row.incidents ≡ true
  unfolding row_of
  row_known = any-new (is_incident e n) db.incidents (row_of i w.created ∷ []) (ground arith)

  refers_lem : refers e n with_row ≡ true
  refers_lem = ground (arith, row_known, w.event)

  rangers_lem :
      attach_ranger_handles e n i.ranger_handles with_row
      ≡ ok (tt, with_rangers e n fit i.ranger_handles with_row)
  rangers_lem = rangers_loop e n fit i.ranger_handles with_row refers_lem (
      ap (λ old. distinct old i.ranger_handles)
        (no-items e n db.incidents db.incident_rangers fresh linked.rangers_of)
      ∙ w.distinct_rangers)

  types_lem :
      attach_incident_types e n i.incident_types (with_rangers e n fit i.ranger_handles with_row)
      ≡ ok (tt, with_links)
  types_lem =
      types_loop e n fit i.incident_types (with_rangers e n fit i.ranger_handles with_row)
        refers_lem w.types
        (ap (λ old. distinct old i.incident_types)
            (no-items e n db.incidents db.incident_incident_types fresh linked.types_of)
          ∙ w.distinct_types)

  links_lem : IsLinked with_links
  links_lem =
      let one = incident_added db linked (row_of i w.created) in
      let two = rangers_changed with_row one _ (
        All-append _ db.incident_rangers _ one.rangers_of
          (links-known e n with_row.incidents i.ranger_handles row_known)) in
      types_changed (with_rangers e n fit i.ranger_handles with_row) two _
        (All-append _ db.incident_incident_types _ two.types_of
          (links-known e n with_row.incidents i.incident_types row_known))
        (All-append _ db.incident_incident_types _ two.types_exist
          (links-typed e n db.incident_types i.incident_types w.types))

  none_before : entries_of e n with_links ≡ []
  none_before =
      ap
        (λ (ids : List ℕ).
          map entry_of_row (keep (λ (row : EntryRow). elem row.id ids) db.report_entries))
        (no-items e n db.incidents db.incident_report_entries fresh linked.entries_of)
      ∙ ap (λ (rows : List EntryRow). map entry_of_row rows) (keep-false db.report_entries)

  -- The database with the incident, its Rangers and its types; the entries are in two more tables.
  abbrev pub IsFiled : Db → Type 0
  IsFiled later = later ≡ record with_links {
    report_entries = later.report_entries;
    incident_report_entries = later.incident_report_entries;
  }

  pub write_incident_lem :
      (later : Db) × (write_incident i db ≡ ok (i, later))
      × IsFiled later
      × IsLinked later
      × (entries_of e n later ≡ i.report_entries)
  unfolding write_incident
  write_incident_lem =
      let (later, done, same, linked', read) =
        add_loop e n i.report_entries with_links fit links_lem refers_lem w.entries in
      (
        later,
        ground (arith, w.stamped, insert_lem, rangers_lem, types_lem, done),
        same,
        linked',
        read ∙ ap (λ (xs : List ReportEntry). xs ++ i.report_entries) none_before,
      )
