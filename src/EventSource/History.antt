-- ===== src/EventSource/History.antt =====
-- Which events the observer keeps: the latest of all that have been published.
use ranger_ims_server.Prelude.{
  ℕ, ◌+◌, String, Bool, ◌≡◌, refl, ap, ◌∙◌, ◌&&◌, inl, inr, Option, none, some, List, [], ◌∷◌, ◌++◌,
  append_assoc, append-nil, leb, nat_eq, arith, Bool-cases, Option-cases, if◌then◌else◌,
}
use ranger_ims_server.EventSource.{
  Event, LoggerEvent, Observer, Failure, Result, new_observer, transmogrify, send_all, publish,
  if_event, observe, remove_listener, replay, add_listener, playback, counter_of, from_counter,
  listening, render, remove_first, ok, err, own_logs, criticals,
}
use ranger_ims_server.EventSource.Latest.{latest, append_event-latest}

-- A call of one of the observer's methods; what it raises goes to the caller.
pub data Call : Type 0 where
  adds : (ℕ → Bool) → ℕ → Option String → Call
  removes : ℕ → Call
  logs : (ℕ → Bool) → LoggerEvent → Call

unfoldable pub perform : (String → Option ℕ) → Call → Observer → Observer
perform to_int (adds fails l last) o = (add_listener to_int fails l last o).1
perform to_int (removes l) o = (remove_listener l o).1
perform to_int (logs fails e) o = observe fails e o

unfoldable pub perform_all : (String → Option ℕ) → List Call → Observer → Observer
perform_all to_int [] o = o
perform_all to_int (c ∷ cs) o = perform_all to_int cs (perform to_int c o)

-- What is logged of the listeners that raise when they are written to: two events for each
abbrev failing : (ℕ → Bool) → List ℕ → ℕ
failing fails [] = 0
failing fails (l ∷ ls) = if fails l then 2 + failing fails ls else failing fails ls

abbrev at_place : ℕ → Option Event → List (ℕ × Event)
at_place n none = []
at_place n (some e) = (n, e) ∷ []

-- The place of a logged event that is published is the counter once the event itself and, for each
-- listener that raises, two more have been counted.
abbrev pub placed : (ℕ → Bool) → LoggerEvent → Observer → List (ℕ × Event)
placed fails e o =
    at_place (o.counter + 1 + failing fails o.listeners) (transmogrify e (o.counter + 1))

-- How many events the logger tells the observer of, with one that is logged, and because of it
abbrev ticks : (ℕ → Bool) → LoggerEvent → Option Event → List ℕ → ℕ
ticks fails e (some event) ls = 1 + failing fails ls
ticks fails e none ls = 1 + criticals e none

-- The events that the calls publish, in order, each with its ID and its place
unfoldable pub history : (String → Option ℕ) → Observer → List Call → List (ℕ × Event)
history to_int o [] = []
history to_int o (adds fails l last ∷ cs) = history to_int (perform to_int (adds fails l last) o) cs
history to_int o (removes l ∷ cs) = history to_int (perform to_int (removes l) o) cs
history to_int o (logs fails e ∷ cs) =
    placed fails e o ++ history to_int (perform to_int (logs fails e) o) cs

-- How many events the logger tells the observer of, with the calls and because of them
unfoldable pub counted : (String → Option ℕ) → Observer → List Call → ℕ
counted to_int o [] = 0
counted to_int o (adds fails l last ∷ cs) =
    1 + counted to_int (perform to_int (adds fails l last) o) cs
counted to_int o (removes l ∷ cs) = 1 + counted to_int (perform to_int (removes l) o) cs
counted to_int o (logs fails e ∷ cs) =
    ticks fails e (transmogrify e (o.counter + 1)) o.listeners
    + counted to_int (perform to_int (logs fails e) o) cs

-- Writing to the listeners leaves the events as they are, and counts what is logged of it.
abbrev pub Same : ℕ → Observer → Observer → Type 0
Same n o o' = (o'.events ≡ o.events) × (o'.counter ≡ o.counter + n)

pub send_all-Same :
    (fails : ℕ → Bool) (s : String) (ls : List ℕ) (o : Observer)
    → Same (failing fails ls) o (send_all fails s ls o)
unfolding send_all own_logs
send_all-Same fails s [] o = (refl, omega arith)
send_all-Same fails s (l ∷ ls) o = elim (Bool-cases (fails l)) [
  | inl bad ↦
      let (events, counter) =
        send_all-Same fails s ls
          (record o { counter = o.counter + 2; listeners = remove_first l o.listeners }) in
      rw (bad, send_all) (events, omega (arith, counter))
  | inr good ↦
      rw (good, send_all) (send_all-Same fails s ls (record o { sent = o.sent ++ (l, s) ∷ [] }))
]

replay-Same :
    (fails : ℕ → Bool) (l from : ℕ) (events : List (ℕ × Event)) (o : Observer)
    → Same 0 o (replay fails l from events o).1
unfolding replay
replay-Same fails l from [] o = (refl, omega arith)
replay-Same fails l from ((n, e) ∷ events) o = elim (Bool-cases (leb from n && fails l)) [
  | inl bad ↦ rw (bad, replay) (refl, omega arith)
  | inr good ↦ elim (Bool-cases (leb from n)) [
    | inl due ↦
        rw (good, due, replay)
          (replay-Same fails l from events (record o { sent = o.sent ++ (l, render e) ∷ [] }))
    | inr past ↦ rw (good, past, replay) (replay-Same fails l from events o)
  ]
]

listening-Same :
    (to_int : String → Option ℕ) (l : ℕ) (o : Observer) (r : Option Failure × Observer)
    → Same 0 o r.1
    → Same 0 o (listening to_int l r).1
unfolding listening
listening-Same to_int l o (none, o') h = h
listening-Same to_int l o (some f, o') h = h

from_counter-Same :
    (to_int : String → Option ℕ) (fails : ℕ → Bool) (l : ℕ) (n : Result ℕ) (o : Observer)
    → Same 0 o (from_counter to_int fails l n o).1
unfolding from_counter
from_counter-Same to_int fails l (ok n) o = replay-Same fails l n o.events o
from_counter-Same to_int fails l (err f) o = (refl, omega arith)

playback-Same :
    (to_int : String → Option ℕ) (fails : ℕ → Bool) (l : ℕ) (last : Option String) (o : Observer)
    → Same 0 o (playback to_int fails l last o).1
unfolding playback
playback-Same to_int fails l none o = (refl, omega arith)
playback-Same to_int fails l (some s) o =
    from_counter-Same to_int fails l (counter_of to_int o.name s) o

pub add_listener-Same :
    (to_int : String → Option ℕ) (fails : ℕ → Bool) (l : ℕ) (last : Option String) (o : Observer)
    → Same 1 o (add_listener to_int fails l last o).1
unfolding add_listener own_logs
add_listener-Same to_int fails l last o =
    let logged = record o { counter = o.counter + 1 } in
    let (events, counter) =
      listening-Same to_int l logged _ (playback-Same to_int fails l last logged) in
    (events, omega (arith, counter))

pub remove_listener-Same : (l : ℕ) (o : Observer) → Same 1 o (remove_listener l o).1
unfolding remove_listener own_logs
remove_listener-Same l o = ground arith

-- A logged event counts, and is kept where it is published.
observe_lem :
    (fails : ℕ → Bool) (e : LoggerEvent) (o : Observer) (past : List (ℕ × Event))
    → o.events ≡ latest past
    → ((observe fails e o).events ≡ latest (past ++ placed fails e o))
      × ((observe fails e o).counter
          ≡ o.counter + ticks fails e (transmogrify e (o.counter + 1)) o.listeners)
unfolding observe if_event publish own_logs
observe_lem fails e o past h = elim (Option-cases (transmogrify e (o.counter + 1))) [
  | inl silent ↦ rw (silent, append-nil past) (h, omega arith)
  | inr (ev, speaks) ↦
      let (events, counter) =
        send_all-Same fails (render ev) o.listeners (record o { counter = o.counter + 1 }) in
      rw (speaks, events, counter) (rw h (append_event-latest past _), omega arith)
]

module _ (to_int : String → Option ℕ) where
  perform_all-latest :
      (calls : List Call) (o : Observer) (past : List (ℕ × Event))
      → o.events ≡ latest past
      → ((perform_all to_int calls o).events ≡ latest (past ++ history to_int o calls))
        × ((perform_all to_int calls o).counter ≡ o.counter + counted to_int o calls)
  unfolding perform_all perform history counted
  perform_all-latest [] o past h = rw append-nil (h, omega arith)
  perform_all-latest (adds fails l last ∷ calls) o past h =
      let (events, counter) = add_listener-Same to_int fails l last o in
      let (kept_now, count) =
        perform_all-latest calls (add_listener to_int fails l last o).1 past (events ∙ h) in
      (kept_now, omega (arith, count, counter))
  perform_all-latest (removes l ∷ calls) o past h =
      let (events, counter) = remove_listener-Same l o in
      let (kept_now, count) = perform_all-latest calls (remove_listener l o).1 past (events ∙ h) in
      (kept_now, omega (arith, count, counter))
  perform_all-latest (logs fails e ∷ calls) o past h =
      let (events, counter) = observe_lem fails e o past h in
      let (kept_now, count) = perform_all-latest calls (observe fails e o) _ events in
      (kept_now ∙ ap latest (append_assoc past _ _), omega (arith, count, counter))

  -- After any calls of a new observer, whatever listeners are added, removed or fail, the observer keeps
  -- the latest thousand of the events that have been published, in order, each with its place, which is
  -- past the event's ID by two for each listener that failed; and it has counted what has been logged,
  -- by itself too: an event for each listener that is added or removed, two for each that fails, and
  -- one for each write whose class or number it does not know.
  pub events_are_latest :
      (name : String) (calls : List Call)
      → ((perform_all to_int calls (new_observer name)).events
          ≡ latest (history to_int (new_observer name) calls))
        × ((perform_all to_int calls (new_observer name)).counter
            ≡ counted to_int (new_observer name) calls)
  unfolding new_observer latest
  events_are_latest name calls =
      let (events, count) = perform_all-latest calls (new_observer name) [] refl in
      (events, omega (arith, count))
