-- ===== src/Store/Incidents/Created.antt =====
-- Creating an incident, where the event and what the incident names exist.
use ranger_ims_server.Prelude.{
  String, ◌≡◌, ◌≢◌, ◌∙◌, true, false, [], ◌∷◌, ◌++◌, any, nat_eq, string_eq, arith, All-append,
}
use ranger_ims_server.Model.{Incident, sort_entries}
use ranger_ims_server.Model.Time.{DateTime, normalize}
use ranger_ims_server.Store.Values.{ok}
use ranger_ims_server.Store.Tables.{Db}
use ranger_ims_server.Store.Transactions.{Connection, run_interaction}
use ranger_ims_server.Store.Statements.Incidents.{
  fits, is_incident, maximum, numbers, max_incident_number,
}
use ranger_ims_server.Store.Entries.{initial_report_entries}
use ranger_ims_server.Store.Entries.Stamped.{IsStamped, sort-AreStamped, initial-AreStamped}
use ranger_ims_server.Store.Incidents.{
  row_of, next_incident_number, number_and_write, any_automatic, create_incident,
}
use ranger_ims_server.Store.Incidents.Loops.{links}
use ranger_ims_server.Store.Incidents.Added.{entries_of}
use ranger_ims_server.Store.Links.{IsLinked}
use ranger_ims_server.Store.Numbers.{next_number, next-new, any-incident}
use ranger_ims_server.Store.Incidents.Written.{IsWritable, IsFiled, write_incident_lem}

-- The incident as it is filed: with its number, and with the initial entries among its own
abbrev pub filed : Incident → String → DateTime → Db → Incident
filed i author now db = record i {
  number = next_number (maximum (numbers i.event_id db.incidents));
  report_entries = sort_entries (initial_report_entries i author now ++ i.report_entries);
}

abbrev pub filed-IsWritable :
    (i : Incident) (author : String) (now : DateTime) (db : Db)
    → IsStamped (normalize now)
    → IsWritable i db
    → IsWritable (filed i author now db) db
filed-IsWritable i author now db clock w = record {
  event = w.event;
  street = w.street;
  hour = w.hour;
  minute = w.minute;
  types = w.types;
  distinct_types = w.distinct_types;
  distinct_rangers = w.distinct_rangers;
  created = w.created;
  stamped = w.stamped;
  entries = sort-AreStamped _ (
      All-append _ (initial_report_entries i author now) i.report_entries
        (initial-AreStamped i author now clock) w.entries);
}

pub filed-new :
    (i : Incident) (author : String) (now : DateTime) (db : Db)
    → any (is_incident i.event_id (filed i author now db).number) db.incidents ≡ false
filed-new i author now db =
    any-incident i.event_id _ db.incidents ∙ next-new (numbers i.event_id db.incidents)

module _ (i : Incident) (author : String) (now : DateTime) (c : Connection) (named : author ≢ "")
    (unnumbered : i.number ≡ 0) (typed : any_automatic i.report_entries ≡ false)
    (clock : IsStamped (normalize now)) (w : IsWritable i c.working)
    (fit : fits (filed i author now c.working).number ≡ true) (linked : IsLinked c.working) where
  -- What is committed, with the incident's entries
  abbrev pub IsCommitted : Db → Type 0
  IsCommitted later =
      IsFiled (filed i author now c.working) c.working fit
        (filed-IsWritable i author now c.working clock w) (filed-new i author now c.working) linked
        later
      × IsLinked later
      × (entries_of i.event_id (filed i author now c.working).number later
          ≡ (filed i author now c.working).report_entries)

  pub create_incident-commits :
      (later : Db) × (create_incident i author now c
        ≡ (ok (filed i author now c.working), record { committed = later; working = later }))
      × IsCommitted later
  unfolding create_incident run_interaction number_and_write next_incident_number
      max_incident_number
  create_incident-commits =
      let db = c.working in
      let (later, done, same, linked', entries) =
        write_incident_lem (filed i author now db) db fit (filed-IsWritable i author now db clock w)
          (filed-new i author now db) linked in
      (later, ground (arith, done), (same, linked', entries))

-- Creating an incident without a number, by an author with a name, of an event that exists, succeeds
-- where the street and the incident types exist, no Ranger and no type is repeated, no entry is
-- automatic, the new number and the parts of the
-- radial fit SQLite, the times lie after the epoch and the database keeps its links
-- to rows that exist. The incident then has the next number of its event, which no incident had, and
-- the initial entries among its own, sorted; the committed database has its row, its Rangers and its
-- types, the entries that its tables link to the incident are just those of the incident, in order,
-- the links are to rows that exist, and all other tables are the same.
pub create_incident_effect :
    (i : Incident) (author : String) (now : DateTime) (c : Connection)
    → author ≢ ""
    → i.number ≡ 0
    → any_automatic i.report_entries ≡ false
    → IsStamped (normalize now)
    → (w : IsWritable i c.working) → fits (filed i author now c.working).number ≡ true
    → IsLinked c.working
    → let new_incident = filed i author now c.working in
      (any (is_incident i.event_id new_incident.number) c.working.incidents ≡ false)
      × ((later : Db) × (create_incident i author now c
            ≡ (ok new_incident, record { committed = later; working = later }))
          × IsLinked later
          × (entries_of i.event_id new_incident.number later ≡ new_incident.report_entries)
          × (later ≡ record c.working {
            incidents = c.working.incidents ++ row_of new_incident w.created ∷ [];
            incident_rangers =
                c.working.incident_rangers ++ links i.event_id new_incident.number i.ranger_handles;
            incident_incident_types =
                c.working.incident_incident_types
                ++ links i.event_id new_incident.number i.incident_types;
            report_entries = later.report_entries;
            incident_report_entries = later.incident_report_entries;
          }))
create_incident_effect i author now c named unnumbered typed clock w fit linked =
    let (later, done, (same, linked', entries)) =
      create_incident-commits i author now c named unnumbered typed clock w fit linked in
    (filed-new i author now c.working, (later, done, linked', entries, same))
