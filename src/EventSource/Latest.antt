-- ===== src/EventSource/Latest.antt =====
-- The latest of a list of events, which the observer's deque keeps.
use ranger_ims_server.Prelude.{
  ℕ, zero, suc, ◌+◌, ◌-◌, ◌≤◌, ◌≡◌, refl, sym, inl, inr, List, [], ◌∷◌, ◌++◌, length, ltb, nat_eq,
  arith, Bool-cases,
}
use ranger_ims_server.EventSource.{Event, kept, append_event, drop_oldest}

module _ {ℓ} {A : Type ℓ} where
  abbrev pub drop : ℕ → List A → List A
  drop zero xs = xs
  drop (suc n) [] = []
  drop (suc n) (x ∷ xs) = drop n xs

  drop-append : (n : ℕ) (xs ys : List A) → n ≤ length xs → drop n (xs ++ ys) ≡ drop n xs ++ ys
  drop-append zero xs ys h = refl
  drop-append (suc n) [] ys h = absurd (omega arith)
  drop-append (suc n) (x ∷ xs) ys h = drop-append n xs ys (omega arith)

  length-drop : (n : ℕ) (xs : List A) → length (drop n xs) ≡ length xs - n
  length-drop zero xs = omega arith
  length-drop (suc n) [] = omega arith
  length-drop (suc n) (x ∷ xs) = omega (arith, length-drop n xs)

  length-append_one : (xs : List A) (x : A) → length (xs ++ x ∷ []) ≡ length xs + 1
  length-append_one [] x = omega arith
  length-append_one (y ∷ xs) x = omega (arith, length-append_one xs x)

-- The last of a list, as many as are kept
unfoldable pub latest : List (ℕ × Event) → List (ℕ × Event)
latest xs = drop (length xs - kept) xs

drop_oldest-drop : (n : ℕ) (xs : List (ℕ × Event)) → drop_oldest (drop n xs) ≡ drop (suc n) xs
unfolding drop_oldest
drop_oldest-drop zero [] = refl
drop_oldest-drop zero (x ∷ xs) = refl
drop_oldest-drop (suc n) [] = refl
drop_oldest-drop (suc n) (x ∷ xs) = drop_oldest-drop n xs

pub append_event-latest :
    (xs : List (ℕ × Event)) (x : ℕ × Event) → append_event (latest xs) x ≡ latest (xs ++ x ∷ [])
unfolding append_event latest
append_event-latest xs x = elim (Bool-cases (ltb (length xs) kept)) [
  | inl room ↦
      let short : length xs - kept ≡ 0 = ground arith in
      let still : length (xs ++ x ∷ []) - kept ≡ 0 = ground (arith, length-append_one xs x) in
      rw (short, still, room) refl
  | inr full ↦
      let long : kept ≤ length xs = ground arith in
      let all : length (drop (length xs - kept) xs) ≡ kept =
        omega (arith, length-drop (length xs - kept) xs) in
      let more : length (xs ++ x ∷ []) - kept ≡ suc (length xs - kept) =
        omega (arith, length-append_one xs x) in
      rw (all, drop_oldest-drop (length xs - kept) xs, more)
        (sym (drop-append (suc (length xs - kept)) xs (x ∷ []) (omega arith)))
]
