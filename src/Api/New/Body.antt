-- ===== src/Api/New/Body.antt =====
-- application/_api.py: what `newIncidentResource` and `newIncidentReportResource` make of the body of a
-- request before it is stored.
use ranger_ims_server.Prelude.{
  String, Bool, true, false, not, Option, none, some, List, [], ◌∷◌, string_eq, nat_eq, ◌==◌,
  if◌then◌else◌,
}
use ranger_ims_server.Model.{Incident, IncidentReport}
use ranger_ims_server.Model.Time.{DateTime}
use ranger_ims_server.Codec.Json.{
  Json, null, boolean, number, text, array, object, nil, cons, end, field, Error, key_error, Result,
  ok, err, items, members, find, index, contains, assign, iterate, equals_text,
}
use ranger_ims_server.Codec.Converter.{Converter}
use ranger_ims_server.Codec.Incidents.{incident_of_json, report_of_json}
use ranger_ims_server.Api.Server.{Outcome, value, reply, raised, bad_request, json_error}

infixl 5 ◌>>=◌ ◌>>◌
abbrev pub ◌>>=◌ : {A B : Type 0} → Outcome A → (A → Outcome B) → Outcome B
value a >>= f = f a
reply r >>= f = reply r
raised x >>= f = raised x

abbrev pub ◌>>◌ : {B : Type 0} → Outcome (Unit {0}) → Outcome B → Outcome B
m >> k = m >>= λ _. k

abbrev pub accept : Bool → Outcome (Unit {0})
accept true = value tt
accept false = reply bad_request

-- What is raised is not caught.
unfoldable pub attempt : {A : Type 0} → Result A → Outcome A
attempt (ok a) = value a
attempt (err e) = raised (json_error e)

-- `modelObjectFromJSONObject` under `except JSONCodecError`, which stands for a `KeyError`
unfoldable pub decoded : {A : Type 0} → Result A → Outcome A
decoded (ok a) = value a
decoded (err key_error) = reply bad_request
decoded (err e) = raised (json_error e)

-- `for key in keys: if key in json: return badRequestResponse(…)`
unfoldable pub refuse_keys : List String → Json → Outcome (Unit {0})
refuse_keys [] json = value tt
refuse_keys (key ∷ keys) json = do
  there ← attempt (contains key json)
  accept (not there)
  refuse_keys keys json

-- `if key not in json: json[key] = v`
unfoldable pub default : String → Json → Json → Outcome Json
default key v json = do
  there ← attempt (contains key json)
  if there then value json else attempt (assign key v json)

-- An entry gets its time and its author, and is not automatic.
unfoldable pub stamp : String → String → Json → Outcome Json
stamp author now entry = do
  refuse_keys ("created" ∷ "author" ∷ "system_entry" ∷ []) entry
  timed ← attempt (assign "created" (text now) entry)
  signed ← attempt (assign "author" (text author) timed)
  attempt (assign "system_entry" (boolean false) signed)

unfoldable pub stamp_all : String → String → List Json → Outcome (List Json)
stamp_all author now [] = value []
stamp_all author now (entry ∷ entries) = do
  stamped ← stamp author now entry
  rest ← stamp_all author now entries
  value (stamped ∷ rest)

-- The entries of a list are changed in place.
unfoldable pub stamp_in : String → String → Json → Outcome Json
stamp_in author now (array vs) = do
  stamped ← stamp_all author now (members vs)
  value (array (items stamped))
stamp_in author now other = do
  vs ← attempt (iterate other)
  stamped ← stamp_all author now vs
  value other

unfoldable pub stamp_entries : String → String → Json → Outcome Json
stamp_entries author now json = do
  entries ← attempt (index "report_entries" json)
  stamped ← stamp_in author now entries
  attempt (assign "report_entries" stamped json)

-- The keys that a new incident may not have, and those that it gets where it has none
unfoldable pub fill_incident : String → String → Json → Outcome Json
fill_incident e now json = do
  refuse_keys ("number" ∷ "created" ∷ []) json
  unnumbered ← attempt (assign "number" (number 0) json)
  timed ← attempt (assign "created" (text now) unnumbered)
  named ← default "event" (text e) timed
  stated ← default "state" (text "new") named
  ranked ← default "priority" (number 3) stated
  manned ← default "ranger_handles" (array nil) ranked
  typed ← default "incident_types" (array nil) manned
  with_entries ← default "report_entries" (array nil) typed
  default "incident_reports" (array nil) with_entries

unfoldable pub fill_report : String → String → Json → Outcome Json
fill_report e now json = do
  refuse_keys ("number" ∷ "created" ∷ []) json
  named ← attempt (assign "event" (text e) json)
  unnumbered ← attempt (assign "number" (number 0) named)
  timed ← attempt (assign "created" (text now) unnumbered)
  default "report_entries" (array nil) timed

-- `bool(obj)`
is_true : Json → Bool
is_true null = false
is_true (boolean b) = b
is_true (number n) = not (n == 0)
is_true (text s) = not (s == "")
is_true (array nil) = false
is_true (array (cons v vs)) = true
is_true (object end) = false
is_true (object (field k v fs)) = true

is_event : String → Option Json → Bool
is_event e none = true
is_event e (some v) = equals_text v e

is_attached : Option Json → Bool
is_attached none = false
is_attached (some v) = is_true v

-- A new report is of the event of the path, and not attached to an incident.
unfoldable pub check_report : String → Json → Outcome (Unit {0})
unfolding is_event is_attached is_true
check_report e (object fs) = do
  accept (is_event e (find "event" fs))
  accept (not (is_attached (find "incident" fs)))
check_report e other = raised (json_error Error.attribute_error)

module _ (conv : Converter) where
  unfoldable pub incident_from : String → String → DateTime → Json → Outcome Incident
  incident_from e author clock json = do
    filled ← fill_incident e (conv.iso_format clock) json
    stamped ← stamp_entries author (conv.iso_format clock) filled
    i ← decoded (incident_of_json conv stamped)
    accept (i.event_id == e)
    value i

  unfoldable pub report_from : String → String → DateTime → Json → Outcome IncidentReport
  report_from e author clock json = do
    filled ← fill_report e (conv.iso_format clock) json
    stamped ← stamp_entries author (conv.iso_format clock) filled
    decoded (report_of_json conv stamped)
