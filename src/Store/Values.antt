-- ===== src/Store/Values.antt =====
-- store/_db.py: the values that stand for states, priorities and times in the database.
use ranger_ims_server.Prelude.{ℕ, String, ◌≡◌, refl, string_eq, nat_eq, ◌==◌, if◌then◌else◌}
use ranger_ims_server.Model.{
  IncidentState, new, on_hold, dispatched, on_scene, closed, IncidentPriority, high, normal, low,
}
use ranger_ims_server.Model.Time.{DateTime, pos, negsuc}

-- What a method of the store raises. `storage_error` also stands for the errors of SQLite, which the
-- store turns into it.
pub data Error : Type 0 where
  storage_error no_such_incident no_such_incident_report : Error
  value_error assertion_error key_error overflow_error : Error

pub data Result {ℓ} (A : Type ℓ) : Type ℓ where
  ok : A → Result A
  err : Error → Result A

unfoldable pub as_incident_state_value : IncidentState → String
as_incident_state_value new = "new"
as_incident_state_value on_hold = "on_hold"
as_incident_state_value dispatched = "dispatched"
as_incident_state_value on_scene = "on_scene"
as_incident_state_value closed = "closed"

unfoldable pub from_incident_state_value : String → Result IncidentState
from_incident_state_value value =
    if value == "new"
    then ok new
    else if value == "on_hold"
    then ok on_hold
    else if value == "dispatched"
    then ok dispatched
    else if value == "on_scene"
    then ok on_scene
    else if value == "closed"
    then ok closed
    else err key_error

unfoldable pub as_priority_value : IncidentPriority → ℕ
as_priority_value high = 1
as_priority_value normal = 3
as_priority_value low = 4

unfoldable pub from_priority_value : ℕ → Result IncidentPriority
from_priority_value value =
    if value == 1
    then ok high
    else if value == 2
    then ok high
    else if value == 3
    then ok normal
    else if value == 4
    then ok low
    else if value == 5
    then ok low
    else err key_error

-- The time stamp in a row: seconds and microseconds since the epoch. The code keeps it as a float,
-- which is precise enough for a time to the hundredth of a second to come back.
pub record TimeStamp : Type 0 where
  pub second : ℕ
  pub microsecond : ℕ

unfoldable pub as_date_time_value : DateTime → Result TimeStamp
as_date_time_value t = elim t.second [
  | pos n ↦ ok (record { second = n; microsecond = t.microsecond })
  | negsuc n ↦ err storage_error
]

unfoldable pub from_date_time_value : TimeStamp → DateTime
from_date_time_value v = record { second = pos v.second; microsecond = v.microsecond }

-- Reading the value that was written for a state gives the state back.
pub state_roundtrip :
    (s : IncidentState) → from_incident_state_value (as_incident_state_value s) ≡ ok s
unfolding as_incident_state_value from_incident_state_value string_eq
state_roundtrip new = refl
state_roundtrip on_hold = refl
state_roundtrip dispatched = refl
state_roundtrip on_scene = refl
state_roundtrip closed = refl

-- Reading the value that was written for a priority gives the priority back.
pub priority_roundtrip : (p : IncidentPriority) → from_priority_value (as_priority_value p) ≡ ok p
unfolding as_priority_value from_priority_value nat_eq
priority_roundtrip high = refl
priority_roundtrip normal = refl
priority_roundtrip low = refl
