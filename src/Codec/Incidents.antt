-- ===== src/Codec/Incidents.antt =====
-- model/json/_incident.py and _report.py: incidents and incident reports.
pub mod RoundTrip
use ranger_ims_server.Prelude.{ℕ, String, Option, List, ◌≡◌, ap, ◌∙◌, string_eq, All, arith, map}
use ranger_ims_server.Model.{ReportEntry, Incident, IncidentReport}
use ranger_ims_server.Model.Build.{build_entry, build_incident, build_report}
use ranger_ims_server.Codec.Json.{
  Json, null, boolean, number, text, array, object, Fields, end, field, Result, ok, err, get, ◌>>=◌,
}
use ranger_ims_server.Codec.Converter.{Converter, IsConverter, at_key, list_of, array_of, optional}
use ranger_ims_server.Codec.Values.{
  state_json, state_of_json, priority_json, priority_of_json, entry_json, entry_of_json,
}
use ranger_ims_server.Codec.Places.{location_json, location_of_json}

module _ (c : Converter) where
  unfoldable pub incident_json : Incident → Json
  incident_json i = object (
      field "event" (text i.event_id) (
        field "number" (number i.number) (
          field "created" (text (c.iso_format i.created)) (
            field "state" (state_json i.state) (
              field "priority" (priority_json i.priority) (
                field "summary" (optional text i.summary) (
                  field "location" (location_json i.location) (
                    field "ranger_handles" (array_of text i.ranger_handles) (
                      field "incident_types" (array_of text i.incident_types) (
                        field "report_entries" (array_of (entry_json c) i.report_entries) (
                          field "incident_reports" (array_of number i.incident_report_numbers)
                            end)))))))))))

  unfoldable pub incident_of_json : Json → Result Incident
  incident_of_json v = do
    event ← at_key "event" c.to_text v
    n ← at_key "number" c.to_number v
    created ← at_key "created" c.parse_iso v
    state ← at_key "state" state_of_json v
    priority ← at_key "priority" priority_of_json v
    summary ← at_key "summary" (c.to_optional c.to_text) v
    location ← at_key "location" (location_of_json c) v
    handles ← at_key "ranger_handles" (list_of c c.to_text) v
    types ← at_key "incident_types" (list_of c c.to_text) v
    entries ← at_key "report_entries" (list_of c (entry_of_json c)) v
    reports ← at_key "incident_reports" (list_of c c.to_number) v
    ok (
        build_incident (record {
          event_id = event;
          number = n;
          created = created;
          state = state;
          priority = priority;
          summary = summary;
          location = location;
          ranger_handles = handles;
          incident_types = types;
          report_entries = entries;
          incident_report_numbers = reports;
        }))

  unfoldable pub report_json : IncidentReport → Json
  report_json r = object (
      field "event" (text r.event_id) (
        field "number" (number r.number) (
          field "created" (text (c.iso_format r.created)) (
            field "summary" (optional text r.summary) (
              field "incident" (optional number r.incident_number)
                (field "report_entries" (array_of (entry_json c) r.report_entries) end))))))

  unfoldable pub report_of_json : Json → Result IncidentReport
  report_of_json v = do
    event ← at_key "event" c.to_text v
    n ← at_key "number" c.to_number v
    created ← at_key "created" c.parse_iso v
    summary ← at_key "summary" (c.to_optional c.to_text) v
    incident ← at_key "incident" (c.to_optional c.to_number) v
    entries ← at_key "report_entries" (list_of c (entry_of_json c)) v
    ok (
        build_report (record {
          event_id = event;
          number = n;
          created = created;
          summary = summary;
          incident_number = incident;
          report_entries = entries;
        }))
