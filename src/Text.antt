-- ===== src/Text.antt =====
-- Python's text operations that the program uses: `str.split` at one character, `str.join`,
-- `str.removeprefix` and `str` of a number.
pub mod SplitJoin
pub mod Prefix
pub mod Digits
use Prim.Native.Char.{Char, code}
use Prim.Native.String.{[], ◌∷◌}
use mathlib.Core.List
use ranger_ims_server.Prelude.{
  ℕ, zero, suc, ◌+◌, ◌/◌, ◌%◌, String, ◌<>◌, Bool, true, false, ◌&&◌, ◌||◌, Option, none, some,
  List, nat_eq, ◌==◌, if◌then◌else◌,
}

-- `code in s`
unfoldable pub has_code : ℕ → String → Bool
has_code c [] = false
has_code c (ch ∷ s) = code ch == c || has_code c s

-- The loop of `s.split(sep)`: `cur` is the part that has been read.
unfoldable pub split_from : ℕ → String → String → List String
split_from sep cur [] = List.◌∷◌ cur List.[]
split_from sep cur (ch ∷ s) =
    let closed = List.◌∷◌ cur (split_from sep "" s) in
    let longer = split_from sep (cur <> (ch ∷ [])) s in if code ch == sep then closed else longer

unfoldable pub split : ℕ → String → List String
unfolding split_from nat_eq
split sep s = split_from sep "" s

-- `sep.join(parts)`
unfoldable pub join : String → List String → String
join sep List.[] = ""
join sep (List.◌∷◌ part List.[]) = part
join sep (List.◌∷◌ part (List.◌∷◌ next parts)) = part <> (sep <> join sep (List.◌∷◌ next parts))

-- `s.removeprefix(p)`, which gives `none` where the code finds that it got `s` itself back.
unfoldable pub remove_prefix : String → String → Option String
remove_prefix [] s = some s
remove_prefix (p ∷ ps) [] = none
remove_prefix (p ∷ ps) (ch ∷ s) =
    let rest = remove_prefix ps s in if code p == code ch then rest else none

digit : ℕ → String
digit zero = "0"
digit (suc zero) = "1"
digit (suc (suc zero)) = "2"
digit (suc (suc (suc zero))) = "3"
digit (suc (suc (suc (suc zero)))) = "4"
digit (suc (suc (suc (suc (suc zero))))) = "5"
digit (suc (suc (suc (suc (suc (suc zero)))))) = "6"
digit (suc (suc (suc (suc (suc (suc (suc zero))))))) = "7"
digit (suc (suc (suc (suc (suc (suc (suc (suc zero)))))))) = "8"
digit _ = "9"

-- The decimal digits of `n`, before those of `s`; a number has at most as many as itself, plus one.
digits : ℕ → ℕ → String → String
digits zero n s = s
digits (suc fuel) n s =
    let longer = digits fuel (n / 10) (digit (n % 10) <> s) in
    if n / 10 == 0 then digit (n % 10) <> s else longer

-- `str(n)`
unfoldable pub show : ℕ → String
unfolding digits digit nat_eq
show n = digits (suc n) n ""
