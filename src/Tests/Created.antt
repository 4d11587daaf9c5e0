-- ===== src/Tests/Created.antt =====
-- New incidents and events in a concrete database.
use ranger_ims_server.Prelude.{
  ◌≡◌, refl, ap, true, false, none, List, [], ◌∷◌, any, nat_eq, string_eq,
}
use ranger_ims_server.Model.{Incident, concentric, radial_hour, radial_minute}
use ranger_ims_server.Store.Values.{Result, ok, err, storage_error, as_date_time_value}
use ranger_ims_server.Store.Tables.{Db}
use ranger_ims_server.Store.Transactions.{Connection, disconnect, run_query, run_operation}
use ranger_ims_server.Store.Statements.Incidents.{fits, is_incident, state, summary, maximum}
use ranger_ims_server.Store.Statements.Access
use ranger_ims_server.Store.Access.{create_event, events}
use ranger_ims_server.Store.Incidents.{set_attribute, create_incident, row_of}
use ranger_ims_server.Store.Incidents.Added.{entries_of}
use ranger_ims_server.Store.Incidents.Changed.{set_attribute_missing}
use ranger_ims_server.Store.Incidents.Loops.{links}
use ranger_ims_server.Store.Incidents.Written.{IsWritable}
use ranger_ims_server.Store.Incidents.Created.{filed, create_incident_effect}
use ranger_ims_server.Store.Incidents.ReadBack.{as_read, create_then_read}
use ranger_ims_server.Store.Fetch.{incident_with_number}
use ranger_ims_server.Store.Links.{IsLinked}
use ranger_ims_server.Store.Links.Kept.{links_after_calls}
use ranger_ims_server.Store.Rollback.{created_event_lost}
use ranger_ims_server.Store.Calls.{Call, perform_all, fresh}
use ranger_ims_server.Tests.Data.{
  noon, stamp, row, db, connection, linked, two_fits, small, clock, incident, typed,
}

abbrev report : Incident
report = record incident {
  number = 0;
  ranger_handles = "Bucket" ∷ "Tool" ∷ [];
  incident_types = "Junk" ∷ [];
  report_entries = typed ∷ [];
}

report-IsWritable : IsWritable report db
unfolding as_date_time_value string_eq concentric radial_hour radial_minute
report-IsWritable = record {
  event = refl;
  street = refl;
  hour = refl;
  minute = refl;
  types = (refl, tt);
  distinct_types = refl;
  distinct_rangers = refl;
  created = stamp;
  stamped = refl;
  entries = ((stamp, refl), tt);
}

next_fits : fits (filed report "Bucket" noon db).number ≡ true
unfolding fits maximum string_eq
next_fits = refl

create_incident_effect_example :
    (any (is_incident "2019" (filed report "Bucket" noon db).number) db.incidents ≡ false)
    × ((later : Db) × (create_incident report "Bucket" noon connection
          ≡ (ok (filed report "Bucket" noon db), record { committed = later; working = later }))
        × IsLinked later
        × (entries_of "2019" (filed report "Bucket" noon db).number later
            ≡ (filed report "Bucket" noon db).report_entries)
        × (later ≡ record db {
          incidents = row ∷ row_of (filed report "Bucket" noon db) report-IsWritable.created ∷ [];
          incident_rangers =
              links "2019" (filed report "Bucket" noon db).number ("Bucket" ∷ "Tool" ∷ []);
          incident_incident_types =
              links "2019" (filed report "Bucket" noon db).number ("Junk" ∷ []);
          report_entries = later.report_entries;
          incident_report_entries = later.incident_report_entries;
        }))
create_incident_effect_example =
    create_incident_effect report "Bucket" noon connection (λ p. cc) refl refl (stamp, clock)
      report-IsWritable next_fits linked

event_made : (create_event "2020" connection).0 ≡ ok tt
unfolding create_event run_operation run_query Access.create_event string_eq
event_made = refl

still_missing :
    any (is_incident "2019" 2) (create_event "2020" connection).1.working.incidents ≡ false
unfolding create_event run_operation run_query Access.create_event string_eq nat_eq
still_missing = refl

then_failed :
    (set_attribute (summary none) "2019" 2 "Bucket" noon (create_event "2020" connection).1).0
    ≡ err storage_error
then_failed =
    ap (λ (r : Result (Unit {0}) × Connection). r.0)
      (set_attribute_missing (summary none) "2019" 2 "Bucket" noon
        (create_event "2020" connection).1 stamp two_fits small still_missing clock)

created_event_lost_example :
    ((events
        (set_attribute
          (summary none)
          "2019"
          2
          "Bucket"
          noon
          (create_event "2020" connection).1).1).0
      ≡ ok ("2019" ∷ []))
    × ((events (disconnect (create_event "2020" connection).1)).0 ≡ ok ("2019" ∷ []))
created_event_lost_example =
    created_event_lost "2020" connection (summary none) "2019" 2 "Bucket" noon storage_error
      event_made then_failed

abbrev calls : List Call
calls =
    Call.create_event "2019"
    ∷ Call.create_incident report "Bucket" noon
    ∷ Call.set_attribute (state "closed") "2019" 1 "Bucket" noon
    ∷ Call.set_attribute (state "closed") "2019" 2 "Bucket" noon
    ∷ []

links_after_calls_example :
    IsLinked (perform_all calls fresh).working × IsLinked (perform_all calls fresh).committed
links_after_calls_example = links_after_calls calls

create_then_read_example :
    let c' = (create_incident report "Bucket" noon connection).1 in
    incident_with_number "2019" (filed report "Bucket" noon db).number c'
    ≡ (ok (as_read (filed report "Bucket" noon db) db), c')
create_then_read_example =
    create_then_read report "Bucket" noon connection (λ p. cc) refl refl (stamp, clock)
      report-IsWritable next_fits linked (λ p. cc, tt)
