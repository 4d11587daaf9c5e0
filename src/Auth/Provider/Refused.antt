-- ===== src/Auth/Provider/Refused.antt =====
-- A request that is refused for its authorizations still has a user.
use ranger_ims_server.Prelude.{
  ℕ, String, ◌≡◌, ◌≢◌, refl, ◌⊎◌, inl, inr, Option, none, some, string_eq, ◌==◌, arith, Bool-cases,
  Option-cases,
}
use ranger_ims_server.Auth.Authorization.{Authorization}
use ranger_ims_server.Auth.Claims.{AuthError, Result, ok, err, Claims, validate}
use ranger_ims_server.Auth.Acl.{ImsUser}
use ranger_ims_server.Text.{remove_prefix}
use ranger_ims_server.Auth.Provider.{
  Settings, AccessLists, Jwt, Request, from_text, bearer_user, user_from_bearer_authorization,
  check_authentication, authenticate_request, authorize_request, jwt_issuer,
}
use ranger_ims_server.Auth.Provider.Requests.{ComesFrom, check_sound, check_frame, Decoded-cases}

pub Result-cases :
    {A : Type 0} (x : Result A) → ((a : A) × (x ≡ ok a)) ⊎ ((f : AuthError) × (x ≡ err f))
Result-cases (ok a) = inl (a, refl)
Result-cases (err f) = inr (f, refl)

validate-error :
    (c : Claims) (now : ℕ) (f : AuthError)
    → validate c (some jwt_issuer) now ≡ err f
    → f ≢ AuthError.not_authorized
unfolding validate
validate-error c now f h = ground arith

module _ (jwt : Jwt) (now : ℕ) where
  bearer-error :
      (o : Option String) (f : AuthError)
      → bearer_user jwt now o ≡ err f
      → f ≢ AuthError.not_authorized
  unfolding bearer_user from_text
  bearer-error none f h = ground arith
  bearer-error (some text) f h = elim (Decoded-cases (jwt.decode text)) [
    | inl bad ↦ ground arith
    | inr (c, signed_c) ↦ elim (Result-cases (validate c (some jwt_issuer) now)) [
      | inl (_, fine) ↦ ground (arith, signed_c, fine)
      | inr (g, wrong) ↦ ground (arith, signed_c, wrong, validate-error c now g wrong)
    ]
  ]

  check-error :
      (r : Request) (f : AuthError)
      → (check_authentication jwt now r).0 ≡ err f
      → f ≢ AuthError.not_authorized
  unfolding check_authentication user_from_bearer_authorization
  check-error r f h = elim (Option-cases r.user) [
    | inr (v, known) ↦ ground arith
    | inl unknown ↦ elim (Option-cases r.authorization) [
      | inl no_header ↦ ground arith
      | inr (header, given) ↦ elim (Bool-cases (header == "")) [
        | inl blank ↦ ground arith
        | inr nonblank ↦
            elim (Result-cases (bearer_user jwt now (remove_prefix "Bearer " header))) [
              | inl (o, fine) ↦ ground (arith, fine)
              | inr (g, wrong) ↦
                  ground (arith, wrong, bearer-error (remove_prefix "Bearer " header) g wrong)
            ]
      ]
    ]
  ]

pub not_authorized-user :
    (jwt : Jwt) (s : Settings) (access : AccessLists) (now : ℕ) (event_id : Option String)
    (required : Authorization) (r : Request)
    → (authorize_request jwt s access now event_id required r).0 ≡ err AuthError.not_authorized
    → (u : ImsUser) × ComesFrom jwt now r u
      × ((authorize_request jwt s access now event_id required r).1.user ≡ some u)
unfolding authorize_request authenticate_request
not_authorized-user jwt s access now event_id required r h =
    elim (Result-cases (check_authentication jwt now r).0) [
      | inr (f, wrong) ↦ ground (arith, wrong, check-error jwt now r f wrong)
      | inl (_, fine) ↦ elim (Option-cases (check_authentication jwt now r).1.user) [
        | inl none_found ↦ ground arith
        | inr (u, found) ↦
            let checked = check_frame jwt now r u fine found in
            (u, check_sound jwt now r u checked, ground (arith, checked))
      ]
    ]
