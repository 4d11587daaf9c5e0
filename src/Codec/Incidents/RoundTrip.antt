-- ===== src/Codec/Incidents/RoundTrip.antt =====
-- Writing an incident or an incident report as JSON and reading it again.
use ranger_ims_server.Prelude.{ℕ, String, List, [], ◌∷◌, ◌≡◌, ap, ◌∙◌, string_eq, All}
use ranger_ims_server.Model.{ReportEntry, Incident, IncidentReport}
use ranger_ims_server.Model.Build.{build_incident, build_report, IsBuiltEntry}
use ranger_ims_server.Codec.Json.{text, number, ok, get}
use ranger_ims_server.Codec.Converter.{Converter, IsConverter, at_key, list-array_of}
use ranger_ims_server.Codec.Values.{
  entry_json, entry_of_json, state-of-state_json, priority-of-priority_json, entry-of-entry_json,
}
use ranger_ims_server.Codec.Places.{location-of-location_json, optional_text, optional_number}
use ranger_ims_server.Codec.Incidents.{incident_json, incident_of_json, report_json, report_of_json}

module _ {c : Converter} (k : IsConverter c) where
  pub All-text : (xs : List String) → All (λ s. c.to_text (text s) ≡ ok s) xs
  All-text [] = tt
  All-text (s ∷ xs) = (k.text_lem s, All-text xs)

  All-number : (xs : List ℕ) → All (λ n. c.to_number (number n) ≡ ok n) xs
  All-number [] = tt
  All-number (n ∷ xs) = (k.number_lem n, All-number xs)

  All-entry :
      (es : List ReportEntry)
      → All IsBuiltEntry es
      → All (λ e. entry_of_json c (entry_json c e) ≡ ok e) es
  All-entry [] h = tt
  All-entry (e ∷ es) h = (entry-of-entry_json k e ∙ ap ok h.0, All-entry es h.1)

  -- An incident as the constructor makes it, with entries made so too, comes back from its JSON form,
  -- through any converter that does what is documented.
  pub incident_roundtrip :
      (i : Incident)
      → build_incident i ≡ i
      → All IsBuiltEntry i.report_entries
      → incident_of_json c (incident_json c i) ≡ ok i
  unfolding incident_json incident_of_json at_key get string_eq
  incident_roundtrip i built entries =
      rw
        (
          k.text_lem i.event_id,
          k.number_lem i.number,
          k.time_lem i.created,
          state-of-state_json i.state,
          priority-of-priority_json i.priority,
          optional_text k i.summary,
          location-of-location_json k i.location,
          list-array_of k text c.to_text i.ranger_handles (All-text i.ranger_handles),
          list-array_of k text c.to_text i.incident_types (All-text i.incident_types),
          list-array_of k (entry_json c) (entry_of_json c) i.report_entries
              (All-entry i.report_entries entries),
          list-array_of k number c.to_number i.incident_report_numbers
              (All-number i.incident_report_numbers),
        )
        (ap ok built)

  -- So does an incident report.
  pub report_roundtrip :
      (r : IncidentReport)
      → build_report r ≡ r
      → All IsBuiltEntry r.report_entries
      → report_of_json c (report_json c r) ≡ ok r
  unfolding report_json report_of_json at_key get string_eq
  report_roundtrip r built entries =
      rw
        (
          k.text_lem r.event_id,
          k.number_lem r.number,
          k.time_lem r.created,
          optional_text k r.summary,
          optional_number k r.incident_number,
          list-array_of k (entry_json c) (entry_of_json c) r.report_entries
              (All-entry r.report_entries entries),
        )
        (ap ok built)
