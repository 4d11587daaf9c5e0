-- ===== src/Tests/Incidents.antt =====
-- Changes of the incident of a concrete database.
use ranger_ims_server.Prelude.{
  String, ◌<>◌, Bool, ◌≡◌, refl, true, false, some, List, [], ◌∷◌, ◌++◌, nat_eq, string_eq, ◌==◌,
}
use ranger_ims_server.Model.{ReportEntry, on_scene, sort_entries, freeze}
use ranger_ims_server.Model.Time.{normalize}
use ranger_ims_server.Text.{show}
use ranger_ims_server.Store.Abstract.{abstract_of, set_state_at, set_state_refines}
use ranger_ims_server.Store.Values.{
  ok, as_date_time_value, from_date_time_value, from_incident_state_value, from_priority_value,
}
use ranger_ims_server.Store.Tables.{Db, IncidentRow}
use ranger_ims_server.Store.Transactions.{run_interaction}
use ranger_ims_server.Store.Statements.Incidents.{
  fits, is_incident, refers, incident_rangers, incident_incident_types, admits, state, fits_value,
  fits_option, location_radial_hour, set_incident_attribute, maximum, numbers,
}
use ranger_ims_server.Store.Statements.Incidents
use ranger_ims_server.Store.Statements.Entries.{incident_report_entries}
use ranger_ims_server.Store.Statements.Reports.{attached_incident_report_numbers}
use ranger_ims_server.Store.Incidents.{
  set_attribute, set_incident_state, add_report_entries_to_incident,
}
use ranger_ims_server.Store.Incidents.Columns.{AreChanged}
use ranger_ims_server.Store.Incidents.Changed.{set_attribute_effect}
use ranger_ims_server.Store.Incidents.State.{state_entry, set_state_effect}
use ranger_ims_server.Store.Incidents.Added.{entries_of, add_entries_effect}
use ranger_ims_server.Store.Entries.Attached.{attached_to_incident}
use ranger_ims_server.Store.Entries.Stamped.{IsStamped}
use ranger_ims_server.Store.Fetch.{
  incident_with_number, fetch_incident, find_incident, location_of_row,
}
use ranger_ims_server.Store.Links.{IsLinked}
use ranger_ims_server.Tests.Data.{
  noon, stamp, db, connection, linked, one_fits, one_known, clock, incident, typed,
}

hour_admitted : admits (location_radial_hour (some 7)) "2019" db ≡ true
unfolding admits
hour_admitted = refl

seven_fits : fits_value (location_radial_hour (some 7)) ≡ true
unfolding fits_value fits
seven_fits = refl

set_attribute_effect_example :
    (rows : List IncidentRow) × AreChanged
      (location_radial_hour (some 7))
      "2019"
      1
      db.incidents
      rows
    × (let later =
          attached_to_incident "2019" 1
            (record {
              created = normalize noon;
              author = "Bucket";
              automatic = true;
              text = "Changed " <> ("location radial hour" <> (" to: " <> show 7));
            })
            stamp
            (record db { incidents = rows }) in
        set_attribute (location_radial_hour (some 7)) "2019" 1 "Bucket" noon connection
        ≡ (ok tt, record { committed = later; working = later }))
set_attribute_effect_example =
    set_attribute_effect (location_radial_hour (some 7)) "2019" 1 "Bucket" noon connection stamp
      linked one_fits seven_fits one_known hour_admitted clock

incident_read : (incident_with_number "2019" 1 connection).0 ≡ ok incident
unfolding incident_with_number run_interaction fetch_incident find_incident Incidents.incident
    incident_rangers incident_incident_types incident_report_entries
    attached_incident_report_numbers freeze sort_entries location_of_row from_date_time_value
    from_incident_state_value from_priority_value fits string_eq nat_eq
incident_read = refl

set_state_effect_example :
    ((set_incident_state "2019" 1 on_scene "Bucket" noon connection).0 ≡ ok tt)
    × ((entries : List ReportEntry) × ([] ≡ sort_entries entries)
        × ((incident_with_number "2019" 1
              (set_incident_state "2019" 1 on_scene "Bucket" noon connection).1).0
            ≡ ok (record incident {
              state = on_scene;
              report_entries = sort_entries (entries ++ state_entry on_scene "Bucket" noon ∷ []);
            })))
set_state_effect_example =
    set_state_effect on_scene "2019" 1 "Bucket" noon connection stamp incident linked one_fits
      one_known clock incident_read

set_state_refines_example :
    ((set_incident_state "2019" 1 on_scene "Bucket" noon connection).0 ≡ ok tt)
    × (abstract_of (set_incident_state "2019" 1 on_scene "Bucket" noon connection).1
        ≡ set_state_at on_scene "2019" 1
            (state_entry on_scene "Bucket" noon)
            (abstract_of connection))
set_state_refines_example =
    set_state_refines on_scene "2019" 1 "Bucket" noon connection stamp incident linked one_fits
      one_known clock incident_read

abbrev other : ReportEntry
other = record { created = noon; author = "Tool"; automatic = false; text = "Found" }

noon-IsStamped : IsStamped noon
unfolding as_date_time_value
noon-IsStamped = (stamp, refl)

add_entries_effect_example :
    (later : Db) × (add_report_entries_to_incident "2019" 1 (typed ∷ []) "Bucket" connection
      ≡ (ok tt, record { committed = later; working = later }))
    × (later ≡ record db {
      report_entries = later.report_entries;
      incident_report_entries = later.incident_report_entries;
    })
    × IsLinked later
    × (entries_of "2019" 1 later ≡ entries_of "2019" 1 db ++ typed ∷ [])
add_entries_effect_example =
    add_entries_effect "2019" 1 (typed ∷ []) "Bucket" connection ((refl, refl), tt) one_fits linked
      one_known (noon-IsStamped, tt)

abbrev same_name : String → String → Bool
same_name a b = a == b

two_names : same_name "Tool" "Bucket" ≡ false
unfolding string_eq
two_names = refl
