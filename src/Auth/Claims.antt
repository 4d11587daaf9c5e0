-- ===== src/Auth/Claims.antt =====
-- `class JSONWebTokenClaims`. Times are counts of seconds; the code only compares them.
use ranger_ims_server.Prelude.{
  ℕ, String, Bool, Option, none, some, string_eq, ◌==◌, ltb, if◌then◌else◌,
}

-- auth/_exceptions.py, the `IndexError` of `shortNames[0]`, and what else the library of JSON Web Tokens
-- or the converter of claims raises.
pub data AuthError : Type 0 where
  not_authenticated not_authorized invalid_credentials index_error token_error : AuthError

-- What a method returns or raises
pub data Result (A : Type 0) : Type 0 where
  ok : A → Result A
  err : AuthError → Result A

infixl 5 ◌>>=◌ ◌>>◌
abbrev pub ◌>>=◌ : {A B : Type 0} → Result A → (A → Result B) → Result B
◌>>=◌ (err e) next = err e
◌>>=◌ (ok a) next = next a

abbrev pub ◌>>◌ : {B : Type 0} → Result (Unit {0}) → Result B → Result B
◌>>◌ first next = first >>= λ _. next

pub record Claims : Type 0 where
  pub iss : String
  pub iat : ℕ
  pub exp : ℕ
  pub sub : String
  pub preferred_username : String
  pub ranger_on_site : Bool
  pub ranger_positions : String

validate_issuer : Claims → String → Result (Unit {0})
validate_issuer c issuer = if c.iss == issuer then ok tt else err AuthError.invalid_credentials

validate_issued : Claims → ℕ → Result (Unit {0})
validate_issued c now = if ltb now c.iat then err AuthError.invalid_credentials else ok tt

validate_expiration : Claims → ℕ → Result (Unit {0})
validate_expiration c now = if ltb c.exp now then err AuthError.invalid_credentials else ok tt

-- The check of the issuer is left out where the caller names none.
check_issuer : Claims → Option String → Result (Unit {0})
check_issuer c none = ok tt
check_issuer c (some issuer) = validate_issuer c issuer

-- `now` is the clock, which the code reads once where the caller gives no time.
unfoldable pub validate : Claims → Option String → ℕ → Result (Unit {0})
unfolding validate_issuer validate_issued validate_expiration check_issuer
validate c issuer now = do check_issuer c issuer; validate_issued c now; validate_expiration c now
