-- ===== src/Directory/Password.antt =====
-- directory/_directory.py: `hashPassword` and `verifyPassword`. The hash function is a parameter.
use Prim.Native.Char.{Char, code}
use Prim.Native.String.{[], ◌∷◌}
use text.Mathlib.TextLemmas.{nil-append, cons-append}
use ranger_ims_server.Prelude.{
  ℕ, String, ◌<>◌, ◌≡◌, refl, ap, Bool, false, Option, none, some, string_eq, nat_eq, ◌==◌,
  if◌then◌else◌, arith,
}
use ranger_ims_server.Text.{has_code}
use ranger_ims_server.Auth.Acl.{ImsUser}

-- The code of ":"
abbrev pub colon : ℕ
colon = 58

divide_here : Char → String → Option (String × String)
divide_here c s = if code c == colon then some ("", s) else none

divide : Char → String → Option (String × String) → Option (String × String)
divide c s none = divide_here c s
divide c s (some (salt, rest)) = some (c ∷ salt, rest)

-- `text.rsplit(":", 1)`, which gives two parts only if there is a colon
unfoldable pub split_last : String → Option (String × String)
unfolding divide divide_here
split_last [] = none
split_last (c ∷ s) = divide c s (split_last s)

-- A password's answer, or the ValueError of a value that has no two parts
pub data Verified : Type 0 where
  value_error : Verified
  verified : Bool → Verified

-- The digest in hexadecimal digits of a text
module _ (sha1 : String → String) where
  unfoldable pub hash : String → String → String
  hash password salt = sha1 (salt <> password)

  -- The salt is given, or else one that has been generated.
  unfoldable pub hash_password : String → String → String
  unfolding hash
  hash_password password salt = salt <> (":" <> hash password salt)

  same_hash : String → Option (String × String) → Verified
  unfolding hash
  same_hash password none = value_error
  same_hash password (some (salt, hash_value)) = verified (hash password salt == hash_value)

  unfoldable pub verify : String → String → Verified
  unfolding same_hash
  verify password hashed_password = same_hash password (split_last hashed_password)

  -- The directory's check
  unfoldable pub verify_user : ImsUser → String → Verified
  verify_user user password = elim user.hashed_password [
    | none ↦ verified false
    | some hashed_password ↦ verify password hashed_password
  ]

split_last-no_colon : (s : String) → has_code colon s ≡ false → split_last s ≡ none
unfolding split_last has_code divide divide_here
split_last-no_colon [] h = refl
split_last-no_colon (c ∷ s) h = ground (arith, split_last-no_colon s)

split_last-colon :
    (salt rest : String)
    → has_code colon rest ≡ false
    → split_last (salt <> (":" <> rest)) ≡ some (salt, rest)
unfolding split_last divide divide_here nat_eq
split_last-colon [] rest h =
    rw (nil-append, cons-append, nil-append) (ap (divide ":" rest) (split_last-no_colon rest h))
split_last-colon (c ∷ salt) rest h =
    rw (cons-append c salt (":" <> rest))
      (ap (divide c (salt <> (":" <> rest))) (split_last-colon salt rest h))

-- What is stored for a password is verified for exactly those passwords that have the same hash with its
-- salt, if hashes hold no colon. So a password is verified for itself.
pub verify-hash_password :
    (sha1 : String → String) (password other salt : String)
    → has_code colon (sha1 (salt <> password)) ≡ false
    → verify sha1 other (hash_password sha1 password salt)
      ≡ verified (sha1 (salt <> other) == sha1 (salt <> password))
unfolding verify same_hash hash hash_password
verify-hash_password sha1 password other salt h =
    rw (split_last-colon salt (sha1 (salt <> password)) h) refl
