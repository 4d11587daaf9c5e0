-- ===== src/EventSource/Delivery.antt =====
-- What a listener is sent.
use ranger_ims_server.Prelude.{
  ℕ, zero, suc, ◌+◌, String, Bool, ◌≡◌, refl, ap, sym, ◌∙◌, false, ◌&&◌, inl, inr, Option, none,
  some, List, [], ◌∷◌, ◌++◌, append_assoc, append-nil, map, leb, nat_eq, ◌==◌, arith, Bool-cases,
  Option-cases, if◌then◌else◌, All,
}
use mathlib.Core.List.{map-append}
use ranger_ims_server.EventSource.{
  Event, LoggerEvent, Observer, Failure, Result, transmogrify, send_all, publish, if_event, observe,
  remove_listener, replay, add_listener, playback, counter_of, from_counter, listening, render,
  remove_first, ok, err, own_logs,
}
use ranger_ims_server.EventSource.History.{
  Call, adds, removes, logs, perform, perform_all, history, placed,
}

-- How often a listener is in the list
abbrev pub times : ℕ → List ℕ → ℕ
times l [] = 0
times l (x ∷ xs) = if x == l then suc (times l xs) else times l xs

abbrev pub sent_to : ℕ → List (ℕ × String) → List String
sent_to l [] = []
sent_to l ((x, s) ∷ sent) = if x == l then s ∷ sent_to l sent else sent_to l sent

repeated : ℕ → String → List String
repeated zero s = []
repeated (suc n) s = s ∷ repeated n s

-- The call does not add or remove the listener, and writing to it does not fail.
abbrev pub Spares : ℕ → Call → Type 0
Spares l (adds fails m last) = (m == l) ≡ false
Spares l (removes m) = (m == l) ≡ false
Spares l (logs fails e) = fails l ≡ false

abbrev pub texts : List (ℕ × Event) → List String
texts events = map (λ (e : ℕ × Event). render e.1) events

module _ (l : ℕ) where
  times-append : (xs ys : List ℕ) → times l (xs ++ ys) ≡ times l xs + times l ys
  times-append [] ys = omega arith
  times-append (x ∷ xs) ys = ground (arith, times-append xs ys)

  sent_to-append : (xs ys : List (ℕ × String)) → sent_to l (xs ++ ys) ≡ sent_to l xs ++ sent_to l ys
  sent_to-append [] ys = refl
  sent_to-append ((x, s) ∷ xs) ys = ground (arith, sent_to-append xs ys)

  times-remove_first :
      (m : ℕ) (xs : List ℕ) → (m == l) ≡ false → times l (remove_first m xs) ≡ times l xs
  unfolding remove_first
  times-remove_first m [] h = refl
  times-remove_first m (x ∷ xs) h = ground (arith, times-remove_first m xs h)

  -- A round of writing sends the text as often as the listener is listed, and the listener stays.
  send_all-sent :
      (fails : ℕ → Bool) (s : String) (ls : List ℕ) (o : Observer)
      → fails l ≡ false
      → (sent_to l (send_all fails s ls o).sent ≡ sent_to l o.sent ++ repeated (times l ls) s)
        × (times l (send_all fails s ls o).listeners ≡ times l o.listeners)
  unfolding send_all repeated own_logs
  send_all-sent fails s [] o h = (sym (append-nil _), refl)
  send_all-sent fails s (m ∷ ls) o h = elim (Bool-cases (fails m)) [
    | inl bad ↦
        let (sent, stays) =
          send_all-sent fails s ls
            (record o { counter = o.counter + 2; listeners = remove_first m o.listeners }) h in
        let other : (m == l) ≡ false = ground (arith, ap fails) in
        rw (bad, other, send_all) (sent, stays ∙ times-remove_first m o.listeners other)
    | inr good ↦
        let (sent, stays) =
          send_all-sent fails s ls (record o { sent = o.sent ++ (m, s) ∷ [] }) h in
        let one = sent_to-append o.sent ((m, s) ∷ []) in
        elim (Bool-cases (m == l)) [
          | inl this ↦ (
            ground (
              arith,
              sent,
              one,
              append_assoc (sent_to l o.sent) (s ∷ []) (repeated (times l ls) s),
            ),
            ground (arith, stays),
          )
          | inr other ↦
              (ground (arith, sent, one, append-nil (sent_to l o.sent)), ground (arith, stays))
        ]
  ]

  replay-others :
      (fails : ℕ → Bool) (m from : ℕ) (events : List (ℕ × Event)) (o : Observer)
      → (m == l) ≡ false
      → (sent_to l (replay fails m from events o).1.sent ≡ sent_to l o.sent)
        × ((replay fails m from events o).1.listeners ≡ o.listeners)
  unfolding replay
  replay-others fails m from [] o h = (refl, refl)
  replay-others fails m from ((n, e) ∷ events) o h = elim (Bool-cases (leb from n && fails m)) [
    | inl bad ↦ rw (bad, replay) (refl, refl)
    | inr good ↦ elim (Bool-cases (leb from n)) [
      | inl due ↦
          let (sent, stays) =
            replay-others fails m from events (record o { sent = o.sent ++ (m, render e) ∷ [] })
              h in
          let one = sent_to-append o.sent ((m, render e) ∷ []) in
          rw (good, due, replay) (ground (arith, sent, one, append-nil (sent_to l o.sent)), stays)
      | inr past ↦ rw (good, past, replay) (replay-others fails m from events o h)
    ]
  ]

  -- Nothing has been sent to the listener, which is still listed as often.
  abbrev Untouched : Observer → Observer → Type 0
  Untouched o o' =
      (sent_to l o'.sent ≡ sent_to l o.sent) × (times l o'.listeners ≡ times l o.listeners)

  module _ (to_int : String → Option ℕ) where
    listening-Untouched :
        (m : ℕ) (o : Observer) (r : Option Failure × Observer)
        → (m == l) ≡ false
        → Untouched o r.1
        → Untouched o (listening to_int m r).1
    unfolding listening
    listening-Untouched m o (none, o') h (sent, stays) =
        (sent, ground (arith, stays, times-append o'.listeners (m ∷ [])))
    listening-Untouched m o (some f, o') h k = k

    from_counter-Untouched :
        (fails : ℕ → Bool) (m : ℕ) (n : Result ℕ) (o : Observer)
        → (m == l) ≡ false
        → Untouched o (from_counter to_int fails m n o).1
    unfolding from_counter
    from_counter-Untouched fails m (ok n) o h =
        let (sent, stays) = replay-others fails m n o.events o h in (sent, ap (times l) stays)
    from_counter-Untouched fails m (err f) o h = (refl, refl)

    playback-Untouched :
        (fails : ℕ → Bool) (m : ℕ) (last : Option String) (o : Observer)
        → (m == l) ≡ false
        → Untouched o (playback to_int fails m last o).1
    unfolding playback
    playback-Untouched fails m none o h = (refl, refl)
    playback-Untouched fails m (some s) o h =
        from_counter-Untouched fails m (counter_of to_int o.name s) o h

    add_listener-Untouched :
        (fails : ℕ → Bool) (m : ℕ) (last : Option String) (o : Observer)
        → (m == l) ≡ false
        → Untouched o (add_listener to_int fails m last o).1
    unfolding add_listener own_logs
    add_listener-Untouched fails m last o h =
        listening-Untouched m o _ h
          (playback-Untouched fails m last (record o { counter = o.counter + 1 }) h)

  remove_listener-Untouched :
      (m : ℕ) (o : Observer) → (m == l) ≡ false → Untouched o (remove_listener m o).1
  unfolding remove_listener own_logs
  remove_listener-Untouched m o h = ground (arith, times-remove_first m o.listeners h)

  observe-sends :
      (fails : ℕ → Bool) (e : LoggerEvent) (o : Observer)
      → fails l ≡ false
      → times l o.listeners ≡ 1
      → (sent_to l (observe fails e o).sent ≡ sent_to l o.sent ++ texts (placed fails e o))
        × (times l (observe fails e o).listeners ≡ 1)
  unfolding observe if_event publish repeated own_logs
  observe-sends fails e o h once = elim (Option-cases (transmogrify e (o.counter + 1))) [
    | inl silent ↦ rw (silent, append-nil (sent_to l o.sent)) (refl, once)
    | inr (ev, speaks) ↦
        let (sent, stays) =
          send_all-sent fails (render ev) o.listeners (record o { counter = o.counter + 1 }) h in
        rw speaks (sent ∙ ap (λ n. sent_to l o.sent ++ repeated n (render ev)) once, stays ∙ once)
  ]

module _ (to_int : String → Option ℕ) (l : ℕ) where
  perform_all-sends :
      (calls : List Call) (o : Observer)
      → All (Spares l) calls
      → times l o.listeners ≡ 1
      → sent_to l (perform_all to_int calls o).sent
        ≡ sent_to l o.sent ++ texts (history to_int o calls)
  unfolding perform_all perform history
  perform_all-sends [] o h once = sym (append-nil _)
  perform_all-sends (adds fails m last ∷ calls) o h once =
      let (sent, stays) = add_listener-Untouched l to_int fails m last o h.0 in
      perform_all-sends calls (add_listener to_int fails m last o).1 h.1 (stays ∙ once)
      ∙ rw sent refl
  perform_all-sends (removes m ∷ calls) o h once =
      let (sent, stays) = remove_listener-Untouched l m o h.0 in
      perform_all-sends calls (remove_listener m o).1 h.1 (stays ∙ once) ∙ rw sent refl
  perform_all-sends (logs fails e ∷ calls) o h once =
      let (sent, stays) = observe-sends l fails e o h.0 once in
      perform_all-sends calls (observe fails e o) h.1 stays
      ∙ rw sent (
          append_assoc (sent_to l o.sent) _ _
          ∙ ap (◌++◌ (sent_to l o.sent)) (sym (map-append (λ (e : ℕ × Event). render e.1) _ _)))

  -- A listener that is added without a last event, and was not there before, is sent each event that is
  -- published from then on, in order and once, and nothing else, as long as it is not removed or added
  -- again and can be written to, whatever happens to other listeners.
  pub listener_receives :
      (fails : ℕ → Bool) (calls : List Call) (o : Observer)
      → times l o.listeners ≡ 0
      → All (Spares l) calls
      → sent_to l (perform_all to_int (adds fails l none ∷ calls) o).sent
        ≡ sent_to l o.sent ++ texts (history to_int o (adds fails l none ∷ calls))
  unfolding perform_all perform add_listener listening playback history own_logs
  listener_receives fails calls o absent h =
      perform_all-sends calls
        (record o { counter = o.counter + 1; listeners = o.listeners ++ l ∷ [] }) h
        (ground (arith, absent, times-append l o.listeners (l ∷ [])))
