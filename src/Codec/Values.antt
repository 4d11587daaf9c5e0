-- ===== src/Codec/Values.antt =====
-- model/json/_state.py, _priority.py, _ranger.py and _entry.py: states, priorities and report entries.
use ranger_ims_server.Prelude.{ℕ, String, true, ◌≡◌, refl, string_eq, nat_eq, ◌==◌, if◌then◌else◌}
use ranger_ims_server.Model.{
  IncidentState, new, on_hold, dispatched, on_scene, closed, IncidentPriority, high, normal, low,
  ReportEntry,
}
use ranger_ims_server.Model.Build.{build_entry}
use ranger_ims_server.Model.Ranger.{RangerStatus, active, inactive, vintage, other}
use ranger_ims_server.Codec.Json.{
  Json, boolean, number, text, object, end, field, Result, ok, err, value_error, get, ◌>>=◌,
}
use ranger_ims_server.Codec.Converter.{Converter, IsConverter, at_key}

unfoldable pub state_json : IncidentState → Json
state_json new = text "new"
state_json on_hold = text "on_hold"
state_json dispatched = text "dispatched"
state_json on_scene = text "on_scene"
state_json closed = text "closed"

state_named : String → Result IncidentState
state_named s =
    if s == "new"
    then ok new
    else if s == "on_hold"
    then ok on_hold
    else if s == "dispatched"
    then ok dispatched
    else if s == "on_scene"
    then ok on_scene
    else if s == "closed"
    then ok closed
    else err value_error

unfoldable pub state_of_json : Json → Result IncidentState
unfolding state_named
state_of_json (text s) = state_named s
state_of_json v = err value_error

unfoldable pub priority_json : IncidentPriority → Json
priority_json high = number 1
priority_json normal = number 3
priority_json low = number 5

priority_numbered : ℕ → Result IncidentPriority
priority_numbered n =
    if n == 1
    then ok high
    else if n == 3
    then ok normal
    else if n == 5
    then ok low
    else err value_error

-- To Python, true is the number 1.
unfoldable pub priority_of_json : Json → Result IncidentPriority
unfolding priority_numbered
priority_of_json (number n) = priority_numbered n
priority_of_json (boolean true) = ok high
priority_of_json v = err value_error

unfoldable pub status_json : RangerStatus → Json
status_json active = text "active"
status_json inactive = text "inactive"
status_json vintage = text "vintage"
status_json other = text "(unknown)"

status_named : String → Result RangerStatus
status_named s =
    if s == "active"
    then ok active
    else if s == "inactive"
    then ok inactive
    else if s == "vintage"
    then ok vintage
    else if s == "(unknown)"
    then ok other
    else err value_error

unfoldable pub status_of_json : Json → Result RangerStatus
unfolding status_named
status_of_json (text s) = status_named s
status_of_json v = err value_error

module _ (c : Converter) where
  unfoldable pub entry_json : ReportEntry → Json
  entry_json e = object (
      field "created" (text (c.iso_format e.created)) (
        field "author" (text e.author)
          (field "system_entry" (boolean e.automatic) (field "text" (text e.text) end))))

  unfoldable pub entry_of_json : Json → Result ReportEntry
  unfolding build_entry
  entry_of_json v = do
    created ← at_key "created" c.parse_iso v
    author ← at_key "author" c.to_text v
    automatic ← at_key "system_entry" c.to_boolean v
    body ← at_key "text" c.to_text v
    ok (
        build_entry
          (record { created = created; author = author; automatic = automatic; text = body }))

pub state-of-state_json : (s : IncidentState) → state_of_json (state_json s) ≡ ok s
unfolding state_json state_of_json string_eq
state-of-state_json new = refl
state-of-state_json on_hold = refl
state-of-state_json dispatched = refl
state-of-state_json on_scene = refl
state-of-state_json closed = refl

pub priority-of-priority_json : (p : IncidentPriority) → priority_of_json (priority_json p) ≡ ok p
unfolding priority_json priority_of_json nat_eq
priority-of-priority_json high = refl
priority-of-priority_json normal = refl
priority-of-priority_json low = refl

pub status-of-status_json : (s : RangerStatus) → status_of_json (status_json s) ≡ ok s
unfolding status_json status_of_json string_eq
status-of-status_json active = refl
status-of-status_json inactive = refl
status-of-status_json vintage = refl
status-of-status_json other = refl

pub entry-of-entry_json :
    {c : Converter} (k : IsConverter c) (e : ReportEntry)
    → entry_of_json c (entry_json c e) ≡ ok (build_entry e)
unfolding entry_json entry_of_json at_key get string_eq
entry-of-entry_json k e =
    rw (k.time_lem e.created, k.text_lem e.author, k.boolean_lem e.automatic, k.text_lem e.text)
