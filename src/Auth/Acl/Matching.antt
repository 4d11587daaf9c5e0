-- ===== src/Auth/Acl/Matching.antt =====
-- The rule that the access lists state, apart from the order of the code's tests.
use mathlib.Core.List.{Memᴰ}
use ranger_ims_server.Prelude.{
  String, ◌<>◌, Bool, ◌≡◌, true, ◌↔◌, inl, inr, Option, none, some, List, any, elem, string_eq,
  arith, Bool-cases, any_of_Memᴰ, Memᴰ_of_any, any_congr,
}
use ranger_ims_server.Auth.Acl.{ImsUser, match_acl}

-- `user` may pass `acl`.
pub data Matches (require_active : Bool) (acl : List String) : Option ImsUser → Type 0 where
  anyone : (user : Option ImsUser) → elem "**" acl ≡ true → Matches require_active acl user
  someone :
      (user : ImsUser)
      → (require_active ≡ true → user.active ≡ true)
      → elem "*" acl ≡ true
      → Matches require_active acl (some user)
  person :
      (user : ImsUser) (name : String)
      → (require_active ≡ true → user.active ≡ true)
      → Memᴰ name user.short_names
      → elem ("person:" <> name) acl ≡ true
      → Matches require_active acl (some user)
  position :
      (user : ImsUser) (group : String)
      → (require_active ≡ true → user.active ≡ true)
      → Memᴰ group user.groups
      → elem ("position:" <> group) acl ≡ true
      → Matches require_active acl (some user)

module _ (require_active : Bool) (acl : List String) where
  match_acl_sound :
      (user : Option ImsUser)
      → match_acl require_active user acl ≡ true
      → Matches require_active acl user
  unfolding match_acl
  match_acl_sound none h = anyone none h
  match_acl_sound (some user) h = elim (Bool-cases (elem "**" acl)) [
    | inl listed ↦ anyone (some user) listed
    | inr closed ↦ elim (Bool-cases (elem "*" acl)) [
      | inl star ↦ someone user (ground arith) star
      | inr star ↦ elim (Bool-cases (any (λ n. elem ("person:" <> n) acl) user.short_names)) [
        | inl named ↦
            let (n, m, k) = Memᴰ_of_any (λ n. elem ("person:" <> n) acl) user.short_names named in
            person user n (ground arith) m k
        | inr unnamed ↦
            let grouped : any (λ g. elem ("position:" <> g) acl) user.groups ≡ true =
              ground arith in
            let (g, m, k) = Memᴰ_of_any (λ g. elem ("position:" <> g) acl) user.groups grouped in
            position user g (ground arith) m k
      ]
    ]
  ]

  match_acl_complete :
      {user : Option ImsUser}
      → Matches require_active acl user
      → match_acl require_active user acl ≡ true
  unfolding match_acl
  match_acl_complete (anyone none h) = h
  match_acl_complete (anyone (some user) h) = ground arith
  match_acl_complete (someone user active h) = ground arith
  match_acl_complete (person user n active m h) =
      ground (arith, any_of_Memᴰ (λ n. elem ("person:" <> n) acl) n user.short_names m h)
  match_acl_complete (position user g active m h) =
      ground (arith, any_of_Memᴰ (λ g. elem ("position:" <> g) acl) g user.groups m h)

-- The code's tests let a user pass exactly when the rule does.
pub match_acl_iff :
    (require_active : Bool) (user : Option ImsUser) (acl : List String)
    → (match_acl require_active user acl ≡ true) ↔ Matches require_active acl user
match_acl_iff require_active user acl =
    (match_acl_sound require_active acl user, match_acl_complete require_active acl)

-- The order of an access list, and its repetitions, do not matter.
pub match_acl_congr :
    (require_active : Bool) (user : Option ImsUser) (acl other : List String)
    → ((x : String) → elem x acl ≡ elem x other)
    → match_acl require_active user acl ≡ match_acl require_active user other
unfolding match_acl
match_acl_congr require_active none acl other h = h "**"
match_acl_congr require_active (some user) acl other h = ground (
  arith,
  h "**",
  h "*",
  any_congr _ _ (λ n. h ("person:" <> n)) user.short_names,
  any_congr _ _ (λ g. h ("position:" <> g)) user.groups,
)
