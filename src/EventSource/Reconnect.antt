-- ===== src/EventSource/Reconnect.antt =====
-- A listener that comes back with the ID of the last event that it was sent.
use ranger_ims_server.Prelude.{
  ℕ, ◌+◌, String, ◌<>◌, ◌≡◌, refl, false, Option, none, some, List, [], ◌∷◌, ◌++◌, append_assoc,
  append-nil, map, keep, leb, string_eq, nat_eq, arith,
}
use ranger_ims_server.Text.{has_code, split, join}
use ranger_ims_server.Text.SplitJoin.{split-join}
use ranger_ims_server.EventSource.{
  Event, Observer, replay, add_listener, playback, counter_of, from_counter, from_parts,
  parsed_counter, listening, render,
}

two-parts :
    (s t : String)
    → has_code 58 s ≡ false
    → has_code 58 t ≡ false
    → split 58 (s <> (":" <> t)) ≡ s ∷ t ∷ []
unfolding join
two-parts s t h k = split-join ":" s (t ∷ []) h (k, tt)

-- What a listener is sent of the events that are kept, each with its place
abbrev pub due : ℕ → ℕ → List (ℕ × Event) → List (ℕ × String)
due l from events =
    map (λ (e : ℕ × Event). (l, render e.1)) (keep (λ (e : ℕ × Event). leb from e.0) events)

replay-due :
    (l from : ℕ) (events : List (ℕ × Event)) (o : Observer)
    → replay (λ m. false) l from events o ≡ (none, record o { sent = o.sent ++ due l from events })
unfolding replay
replay-due l from [] o = rw (append-nil o.sent) refl
replay-due l from ((n, e) ∷ events) o = ground (
  arith,
  replay-due l from events (record o { sent = o.sent ++ (l, render e) ∷ [] }),
  replay-due l from events o,
  append_assoc o.sent ((l, render e) ∷ []) (due l from events),
)

-- A listener that comes back with the observer's name and a place in the log, and can be written to, is
-- added, and sent all events that are kept from that place on, the one at the place included; what is
-- logged of it is counted.
pub replay_from_place :
    (to_int : String → Option ℕ) (l : ℕ) (o : Observer) (place : String) (n : ℕ)
    → has_code 58 o.name ≡ false
    → has_code 58 place ≡ false
    → to_int place ≡ some n
    → add_listener to_int (λ m. false) l (some (o.name <> (":" <> place))) o ≡ (
      none,
      record o {
        counter = o.counter + 1;
        listeners = o.listeners ++ l ∷ [];
        sent = o.sent ++ due l n o.events;
      },
    )
unfolding add_listener playback counter_of from_parts parsed_counter from_counter listening
replay_from_place to_int l o place n named placed number =
    rw (two-parts o.name place named placed)
      (ground (arith, number, replay-due l n o.events (record o { counter = o.counter + 1 })))
