-- ===== src/Text/Digits.antt =====
-- The text of a number has no character but digits.
use Prim.Native.String.{[], ◌∷◌}
use text.Mathlib.TextLemmas.{nil-append, cons-append}
use ranger_ims_server.Prelude.{
  ℕ, zero, suc, ◌/◌, ◌%◌, String, ◌<>◌, ◌≡◌, refl, ◌∙◌, false, inl, inr, ◌||◌, Bool-cases, arith,
  nat_eq, ◌==◌,
}
use ranger_ims_server.Text.{has_code, digit, digits, show}

has_code-append : (c : ℕ) (s t : String) → has_code c (s <> t) ≡ (has_code c s || has_code c t)
unfolding has_code
has_code-append c [] t = rw nil-append refl
has_code-append c (ch ∷ s) t = rw cons-append (ground (arith, has_code-append c s t))

colon-digit : (n : ℕ) → has_code 58 (digit n) ≡ false
unfolding digit has_code nat_eq
colon-digit zero = refl
colon-digit (suc zero) = refl
colon-digit (suc (suc zero)) = refl
colon-digit (suc (suc (suc zero))) = refl
colon-digit (suc (suc (suc (suc zero)))) = refl
colon-digit (suc (suc (suc (suc (suc zero))))) = refl
colon-digit (suc (suc (suc (suc (suc (suc zero)))))) = refl
colon-digit (suc (suc (suc (suc (suc (suc (suc zero))))))) = refl
colon-digit (suc (suc (suc (suc (suc (suc (suc (suc zero)))))))) = refl
colon-digit (suc (suc (suc (suc (suc (suc (suc (suc (suc n))))))))) = refl

colon-digits :
    (fuel n : ℕ) (s : String) → has_code 58 s ≡ false → has_code 58 (digits fuel n s) ≡ false
unfolding digits
colon-digits zero n s h = h
colon-digits (suc fuel) n s h =
    let more : has_code 58 (digit (n % 10) <> s) ≡ false =
      has_code-append 58 (digit (n % 10)) s ∙ rw (colon-digit (n % 10), h) refl in
    elim (Bool-cases (n / 10 == 0)) [
      | inl last ↦ rw last more
      | inr longer ↦ rw longer (colon-digits fuel (n / 10) (digit (n % 10) <> s) more)
    ]

pub colon-show : (n : ℕ) → has_code 58 (show n) ≡ false
unfolding show has_code
colon-show n = colon-digits (suc n) n "" refl
