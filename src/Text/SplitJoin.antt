-- ===== src/Text/SplitJoin.antt =====
-- Splitting a joined text gives the parts back.
use Prim.Native.Char.{Char, code}
use Prim.Native.String.{[], ◌∷◌}
use text.Mathlib.TextLemmas.{nil-append, cons-append, append-nil, append_assoc}
use ranger_ims_server.Prelude.{ℕ, String, ◌<>◌, ◌≡◌, ap, ◌∙◌, sym, false, List, All, arith, nat_eq}
use ranger_ims_server.Text.{has_code, split_from, split, join}

push-append : (cur s : String) (ch : Char) → (cur <> (ch ∷ [])) <> s ≡ cur <> (ch ∷ s)
push-append cur s ch = rw (append_assoc, cons-append, nil-append)

split_from-append :
    (sep : ℕ) (cur s t : String)
    → has_code sep s ≡ false
    → split_from sep cur (s <> t) ≡ split_from sep (cur <> s) t
unfolding has_code split_from
split_from-append sep cur [] t h = rw (nil-append, append-nil)
split_from-append sep cur (ch ∷ s) t h =
    rw (cons-append, ← push-append cur s ch)
      (ground (arith, split_from-append sep (cur <> (ch ∷ [])) s t))

split_from-plain :
    (sep : ℕ) (cur s : String)
    → has_code sep s ≡ false
    → split_from sep cur s ≡ List.◌∷◌ (cur <> s) List.[]
unfolding split_from
split_from-plain sep cur s h =
    ap (split_from sep cur) (sym (append-nil s)) ∙ split_from-append sep cur s [] h

split_from-sep :
    (ch : Char) (cur s : String)
    → split_from (code ch) cur (ch ∷ s) ≡ List.◌∷◌ cur (split_from (code ch) "" s)
unfolding split_from
split_from-sep ch cur s = ground arith

-- The parts come back if none of them holds the separator.
pub split-join :
    (ch : Char) (part : String) (parts : List String)
    → has_code (code ch) part ≡ false
    → All (λ p. has_code (code ch) p ≡ false) parts
    → split (code ch) (join (ch ∷ []) (List.◌∷◌ part parts)) ≡ List.◌∷◌ part parts
unfolding split join
split-join ch part List.[] h _ = split_from-plain (code ch) "" part h ∙ rw nil-append
split-join ch part (List.◌∷◌ next parts) h (k, ks) =
    split_from-append (code ch) "" part _ h
    ∙ rw (nil-append, cons-append, nil-append)
        (split_from-sep ch part _ ∙ ap (List.◌∷◌ part) (split-join ch next parts k ks))
