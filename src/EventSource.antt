-- ===== src/EventSource.antt =====
-- application/_eventsource.py: the events that tell browsers of changes to incidents.
pub mod Latest
pub mod History
pub mod Delivery
pub mod Reconnect
use ranger_ims_server.Prelude.{
  ℕ, suc, ◌+◌, String, ◌<>◌, Bool, true, false, Option, none, some, List, [], ◌∷◌, ◌++◌, map,
  length, elem, ◌&&◌, ltb, leb, string_eq, nat_eq, ◌==◌, if◌then◌else◌,
}
use ranger_ims_server.Text.{split, join, show}

-- The class `Event`
pub record Event : Type 0 where
  pub message : String
  pub event_id : Option ℕ
  pub event_class : Option String
  pub retry : Option ℕ

numbered : String → Option ℕ → List String
numbered label none = []
numbered label (some n) = (label <> show n) ∷ []

labelled : String → Option String → List String
labelled label none = []
labelled label (some s) = (label <> s) ∷ []

unfoldable pub render : Event → String
unfolding numbered labelled
render e =
    join "\r\n" (
      numbered "id: " e.event_id
      ++ (labelled "event: " e.event_class
          ++ (numbered "retry: " e.retry ++ map (λ line. "data: " <> line) (split 10 e.message))))
    <> "\r\n\r\n"

-- What the observer's methods raise
pub data Failure : Type 0 where
  value_error write_error : Failure

pub data Result (A : Type 0) : Type 0 where
  ok : A → Result A
  err : Failure → Result A

-- The class that a write to the store is about, where the logger's event has one
pub data WriteClass : Type 0 where
  about_incident about_other : WriteClass

-- What the observer reads of a logger's event; `incident` is the number of the incident that is there.
pub record LoggerEvent : Type 0 where
  pub write_class : Option WriteClass
  pub incident : Option ℕ
  pub incident_number : Option ℕ

-- A listener is the number of its request.
pub record Observer : Type 0 where
  pub name : String
  pub listeners : List ℕ
  pub events : List (ℕ × Event)
  pub counter : ℕ
  pub sent : List (ℕ × String)

abbrev pub kept : ℕ
kept = 1000

unfoldable pub new_observer : String → Observer
new_observer name = record { name = name; listeners = []; events = []; counter = 0; sent = [] }

-- `jsonTextFromObject(dict(incident_number=n))`
unfoldable pub incident_message : ℕ → String
incident_message n = "{\"incident_number\":" <> (show n <> "}")

either : Option ℕ → Option ℕ → Option ℕ
either none other = other
either (some n) other = some n

event_of_number : ℕ → Option ℕ → Option Event
event_of_number id none = none
event_of_number id (some n) = some (record {
  message = incident_message n;
  event_id = some id;
  event_class = some "Incident";
  retry = none;
})

unfoldable pub transmogrify : LoggerEvent → ℕ → Option Event
unfolding either event_of_number
transmogrify e id = elim e.write_class [
  | none ↦ none
  | some c ↦ elim c [
    | about_incident ↦ event_of_number id (either e.incident e.incident_number)
    | about_other ↦ none
  ]
]

-- What the observer logs itself comes back to it: it is told of every event of the global log
-- publisher, also while it handles one. Such an event is no write to the store, and only counts.
own_logs : ℕ → Observer → Observer
own_logs n o = record o { counter = o.counter + n }

-- Where the number of the incident or the class is not known, that is logged.
unfoldable pub criticals : LoggerEvent → Option Event → ℕ
criticals e (some event) = 0
criticals e none = elim e.write_class [ none ↦ 0 | some c ↦ 1 ]

-- `list.remove`, where there is one
unfoldable pub remove_first : ℕ → List ℕ → List ℕ
remove_first x [] = []
remove_first x (y ∷ ys) = if y == x then ys else y ∷ remove_first x ys

-- `deque.append`, which drops the oldest entry of a full deque
drop_oldest : List (ℕ × Event) → List (ℕ × Event)
drop_oldest [] = []
drop_oldest (x ∷ xs) = xs

unfoldable pub append_event : List (ℕ × Event) → ℕ × Event → List (ℕ × Event)
unfolding drop_oldest
append_event events e =
    if ltb (length events) kept then events ++ e ∷ [] else drop_oldest events ++ e ∷ []

-- `fails` tells which listeners raise when they are written to. Such a listener is logged as an error,
-- and `removeListener` logs that it removes it.
unfoldable pub send_all : (ℕ → Bool) → String → List ℕ → Observer → Observer
unfolding own_logs
send_all fails s [] o = o
send_all fails s (l ∷ ls) o = send_all fails s ls (
    if fails l
    then record (own_logs 2 o) { listeners = remove_first l o.listeners }
    else record o { sent = o.sent ++ (l, s) ∷ [] })

unfoldable pub publish : (ℕ → Bool) → Event → Observer → Observer
publish fails e o =
    let o' = send_all fails (render e) o.listeners o in
    record o' { events = append_event o'.events (o'.counter, e) }

if_event : (ℕ → Bool) → LoggerEvent → Option Event → Observer → Observer
unfolding own_logs
if_event fails e none o = own_logs (criticals e none) o
if_event fails e (some event) o = publish fails event o

-- `__call__`
unfoldable pub observe : (ℕ → Bool) → LoggerEvent → Observer → Observer
unfolding if_event
observe fails e o =
    let id = o.counter + 1 in if_event fails e (transmogrify e id) (record o { counter = id })

-- `removeListener`, without which a `ValueError` is raised
unfoldable pub remove_listener : ℕ → Observer → Option Failure × Observer
unfolding own_logs
remove_listener l o =
    if elem l o.listeners
    then (none, record (own_logs 1 o) { listeners = remove_first l o.listeners })
    else (some value_error, own_logs 1 o)

-- The loop of `_playback`: a listener that raises ends it.
unfoldable pub replay : (ℕ → Bool) → ℕ → ℕ → List (ℕ × Event) → Observer → Option Failure × Observer
replay fails l from [] o = (none, o)
replay fails l from ((n, e) ∷ events) o = elim (leb from n && fails l) [
  | true ↦ (some write_error, o)
  | false ↦
      replay fails l from events
        (if leb from n then record o { sent = o.sent ++ (l, render e) ∷ [] } else o)
]

-- `int(text)` is the parameter `to_int`, with 0 for a number below 0.
module _ (to_int : String → Option ℕ) where
  parsed_counter : Option ℕ → Result ℕ
  parsed_counter none = err value_error
  parsed_counter (some n) = ok n

  from_parts : String → List String → Result ℕ
  unfolding parsed_counter
  from_parts name (id ∷ counter ∷ []) = if id == name then parsed_counter (to_int counter) else ok 0
  from_parts name parts = err value_error

  -- The counter that the last event's ID tells; the ID is to have two parts.
  unfoldable pub counter_of : String → String → Result ℕ
  unfolding from_parts
  counter_of name last = from_parts name (split 58 last)

  from_counter : (ℕ → Bool) → ℕ → Result ℕ → Observer → Option Failure × Observer
  from_counter fails l (err f) o = (some f, o)
  from_counter fails l (ok n) o = replay fails l n o.events o

  unfoldable pub playback : (ℕ → Bool) → ℕ → Option String → Observer → Option Failure × Observer
  unfolding from_counter
  playback fails l none o = (none, o)
  playback fails l (some last) o = from_counter fails l (counter_of o.name last) o

  listening : ℕ → Option Failure × Observer → Option Failure × Observer
  listening l (none, o) = (none, record o { listeners = o.listeners ++ l ∷ [] })
  listening l (some f, o) = (some f, o)

  unfoldable pub add_listener :
      (ℕ → Bool) → ℕ → Option String → Observer → Option Failure × Observer
  unfolding listening own_logs
  add_listener fails l last o = listening l (playback fails l last (own_logs 1 o))
