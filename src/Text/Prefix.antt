-- ===== src/Text/Prefix.antt =====
-- Taking a prefix off again.
use Prim.Native.Char.{Char}
use Prim.Native.String.{[], ◌∷◌}
use text.Mathlib.TextLemmas.{nil-append, cons-append}
use ranger_ims_server.Prelude.{String, ◌<>◌, ◌≡◌, ◌≢◌, some, arith}
use ranger_ims_server.Text.{remove_prefix}

pub remove_prefix-append : (p s : String) → remove_prefix p (p <> s) ≡ some s
unfolding remove_prefix
remove_prefix-append [] s = rw nil-append
remove_prefix-append (c ∷ p) s = rw cons-append (ground (arith, remove_prefix-append p s))

pub cons-append-ne-nil : (c : Char) (p s : String) → (c ∷ p) <> s ≢ ""
cons-append-ne-nil c p s = rw cons-append (λ h. cc)
