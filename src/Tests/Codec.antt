-- ===== src/Tests/Codec.antt =====
-- Objects of the model and their JSON forms.
use ranger_ims_server.Prelude.{◌≡◌, refl, true, some, none, [], ◌∷◌, string_eq, nat_eq}
use ranger_ims_server.Model.{
  Incident, IncidentReport, ReportEntry, text_only, low, on_scene, freeze, sort_entries,
}
use ranger_ims_server.Model.Time.{pos, normalize, before, same}
use ranger_ims_server.Model.Build.{build_entry, build_incident}
use ranger_ims_server.Model.Ranger.{
  Ranger, EventAccess, IncidentType, vintage, build_access, build_ranger,
}
use ranger_ims_server.Codec.Json.{ok}
use ranger_ims_server.Codec.Incidents.{incident_json, incident_of_json}
use ranger_ims_server.Codec.Incidents.RoundTrip.{incident_roundtrip}
use ranger_ims_server.Codec.Rangers.{
  event_json, event_of_json, type_json, type_of_json, access_json, access_of_json, ranger_json,
  ranger_of_json, directory_roundtrip,
}
use ranger_ims_server.Tests.Converter.{converter, converts}
use ranger_ims_server.Tests.Data.{noon, typed}

abbrev later : ReportEntry
later = record {
  created = record { second = pos 1566979260; microsecond = 0 };
  author = "Tool";
  automatic = true;
  text = "Changed state to: on_scene";
}

abbrev incident : Incident
incident = record {
  event_id = "2019";
  number = 3;
  created = noon;
  state = on_scene;
  priority = low;
  summary = none;
  location = record { name = some "Ranger HQ"; address = text_only (some "5:45 and Esplanade") };
  ranger_handles = "Bucket" ∷ "Tool" ∷ [];
  incident_types = "Junk" ∷ [];
  report_entries = typed ∷ later ∷ [];
  incident_report_numbers = 2 ∷ 4 ∷ [];
}

built : build_incident incident ≡ incident
unfolding build_incident normalize freeze sort_entries before same string_eq nat_eq
built = refl

entry_built : build_entry typed ≡ typed
unfolding build_entry normalize nat_eq
entry_built = refl

later_built : build_entry later ≡ later
unfolding build_entry normalize nat_eq
later_built = refl

incident_roundtrip_example :
    incident_of_json converter (incident_json converter incident) ≡ ok incident
incident_roundtrip_example =
    incident_roundtrip converts incident built (entry_built, (later_built, tt))

abbrev report : IncidentReport
report = record {
  event_id = "2019";
  number = 2;
  created = noon;
  summary = some "Lost child";
  incident_number = some 3;
  report_entries = typed ∷ later ∷ [];
}

abbrev junk : IncidentType
junk = record { name = "Junk"; hidden = true }

abbrev access : EventAccess
access = record {
  readers = "*" ∷ [];
  writers = "person:Tool" ∷ "position:Operator" ∷ [];
  reporters = [];
}

abbrev bucket : Ranger
bucket = record {
  handle = "Bucket";
  name = "Bucket";
  status = vintage;
  email = "bucket@example.com" ∷ [];
  enabled = true;
  directory_id = none;
  password = some "secret";
}

access_built : build_access access ≡ access
unfolding build_access freeze string_eq
access_built = refl

bucket_built : build_ranger bucket ≡ bucket
unfolding build_ranger freeze string_eq
bucket_built = refl

directory_roundtrip_example :
    (event_of_json (event_json "2019") ≡ ok "2019")
    × (type_of_json converter (type_json junk) ≡ ok junk)
    × (access_of_json converter (access_json access) ≡ ok access)
    × (ranger_of_json converter (ranger_json bucket) ≡ ok (record bucket { password = none }))
directory_roundtrip_example =
    directory_roundtrip converts "2019" junk access bucket access_built bucket_built
