-- ===== src/Tests/EventSource.antt =====
-- Listeners and events of a concrete observer.
use ranger_ims_server.Prelude.{
  ℕ, String, ◌<>◌, ◌≡◌, refl, Bool, false, Option, some, none, List, [], ◌∷◌, ◌++◌, map, string_eq,
  nat_eq, All, ◌==◌, if◌then◌else◌,
}
use ranger_ims_server.Text.{has_code}
use ranger_ims_server.EventSource.{
  Event, LoggerEvent, Observer, about_incident, about_other, new_observer, transmogrify, observe,
  playback, publish, send_all, criticals, incident_message, add_listener,
}
use ranger_ims_server.EventSource.History.{
  Call, adds, logs, perform, perform_all, history, counted, events_are_latest,
}
use ranger_ims_server.EventSource.Latest.{latest}
use ranger_ims_server.EventSource.Delivery.{Spares, times, sent_to, texts, listener_receives}
use ranger_ims_server.EventSource.Reconnect.{due, replay_from_place}

abbrev to_int : String → Option ℕ
to_int s = if s == "1" then some 1 else none

abbrev never : ℕ → Bool
never l = false

abbrev only_two : ℕ → Bool
only_two l = l == 2

abbrev changed : LoggerEvent
changed = record { write_class = some about_incident; incident = none; incident_number = some 5 }

abbrev created : LoggerEvent
created = record { write_class = some about_other; incident = none; incident_number = none }

abbrev calls : List Call
calls = adds never 2 none ∷ logs never changed ∷ logs only_two created ∷ logs only_two changed ∷ []

events_are_latest_example :
    ((perform_all to_int calls (new_observer "7")).events
      ≡ latest (history to_int (new_observer "7") calls))
    × ((perform_all to_int calls (new_observer "7")).counter
        ≡ counted to_int (new_observer "7") calls)
events_are_latest_example = events_are_latest to_int "7" calls

-- The listener fails at the last event, whose ID is 5: its place is 7.
places :
    map {B = ℕ × Option ℕ}
      (λ (e : ℕ × Event). (e.0, e.1.event_id))
      (history to_int (new_observer "7") calls)
    ≡ (2, some 2) ∷ (7, some 5) ∷ []
unfolding history perform add_listener new_observer observe transmogrify playback publish send_all
    criticals nat_eq
places = refl

spared : All (Spares 1) calls
unfolding nat_eq
spared = (refl, (refl, (refl, (refl, tt))))

absent : times 1 (new_observer "7").listeners ≡ 0
unfolding new_observer
absent = refl

listener_receives_example :
    sent_to 1 (perform_all to_int (adds never 1 none ∷ calls) (new_observer "7")).sent
    ≡ sent_to 1 (new_observer "7").sent
      ++ texts (history to_int (new_observer "7") (adds never 1 none ∷ calls))
listener_receives_example = listener_receives to_int 1 never calls (new_observer "7") absent spared

abbrev published : Event
published = record {
  message = incident_message 5;
  event_id = some 1;
  event_class = some "Incident";
  retry = none;
}

abbrev observer : Observer
observer = record (new_observer "7") { events = (1, published) ∷ []; counter = 1 }

named : has_code 58 observer.name ≡ false
unfolding has_code new_observer nat_eq
named = refl

placed : has_code 58 "1" ≡ false
unfolding has_code nat_eq
placed = refl

reads : to_int "1" ≡ some 1
unfolding string_eq
reads = refl

replay_from_place_example :
    add_listener to_int never 1 (some (observer.name <> (":" <> "1"))) observer ≡ (
      none,
      record observer {
        counter = 2;
        listeners = observer.listeners ++ 1 ∷ [];
        sent = observer.sent ++ due 1 1 observer.events;
      },
    )
replay_from_place_example = replay_from_place to_int 1 observer "1" 1 named placed reads
