-- ===== src/Model/Text.antt =====
-- The order of Python's texts, by code points.
use Prim.Native.Char.{code}
use Prim.Native.String.{[], ◌∷◌}
use ranger_ims_server.Prelude.{String, Bool, true, false, nat_eq, ◌==◌, ltb, if◌then◌else◌}

-- `s < t`
unfoldable pub str_lt : String → String → Bool
str_lt [] [] = false
str_lt [] (d ∷ t) = true
str_lt (c ∷ s) [] = false
str_lt (c ∷ s) (d ∷ t) =
    let rest = str_lt s t in if code c == code d then rest else ltb (code c) (code d)
