-- ===== src/Auth/Provider/Checked.antt =====
-- A request that has been checked for a user before it is checked again.
use mathlib.Core.Path.{subst}
use ranger_ims_server.Prelude.{
  ℕ, String, ◌≡◌, ap, ◌∙◌, Option, none, some, inl, inr, arith, Option-cases,
}
use ranger_ims_server.Auth.Claims.{AuthError, ok, err}
use ranger_ims_server.Auth.Acl.{ImsUser}
use ranger_ims_server.Auth.Authorization.{Authorization}
use ranger_ims_server.Auth.Provider.{
  Settings, AccessLists, Jwt, Request, user_from_bearer_authorization, check_authentication,
  authenticate_request, authorize_request,
}
use ranger_ims_server.Auth.Provider.Requests.{
  ComesFrom, attached, token, session, HasNoToken, check_sound, check_frame, no_token,
}
use ranger_ims_server.Auth.Provider.Refused.{Result-cases}

module _ (jwt : Jwt) (now : ℕ) where
  -- A check that finds no user leaves the request as it is.
  checked_none :
      (r : Request)
      → (check_authentication jwt now r).0 ≡ ok tt
      → (check_authentication jwt now r).1.user ≡ none
      → (check_authentication jwt now r).1 ≡ r
  unfolding check_authentication
  checked_none r h k = elim (Option-cases r.user) [
    | inr (v, known) ↦ ground (arith, known)
    | inl unknown ↦ elim (Result-cases (user_from_bearer_authorization jwt now r.authorization)) [
      | inr (f, bad) ↦ ground (arith, unknown, bad)
      | inl (o, fine) ↦ ground (arith, unknown, fine)
    ]
  ]

  is_attached : (q : Request) (u v : ImsUser) → q.user ≡ some v → ComesFrom jwt now q u → v ≡ u
  is_attached q u v h (attached k) = ground arith
  is_attached q u v h (token header c k _ _ _) = ground arith
  is_attached q u v h (session k _ _) = ground arith

  -- The user of a request that has been checked is the request's.
  pub ComesFrom-checked :
      (r : Request) (u : ImsUser)
      → (check_authentication jwt now r).0 ≡ ok tt
      → ComesFrom jwt now (check_authentication jwt now r).1 u
      → ComesFrom jwt now r u
  ComesFrom-checked r u h from = elim (Option-cases (check_authentication jwt now r).1.user) [
    | inl unknown ↦ subst (λ q. ComesFrom jwt now q u) (checked_none r h unknown) from
    | inr (v, known) ↦
        let same = is_attached (check_authentication jwt now r).1 u v known from in
        check_sound jwt now r u (check_frame jwt now r u h (known ∙ ap some same))
  ]

  -- A request that names no user in any way stays as it is, and is not authenticated.
  pub nobody-checked :
      (r : Request)
      → r.user ≡ none
      → HasNoToken r.authorization
      → r.session_user ≡ none
      → check_authentication jwt now r ≡ (ok tt, r)
  unfolding check_authentication
  nobody-checked r unknown bare no_session =
      ground (arith, unknown, no_session, no_token jwt now r.authorization bare)

  pub nobody-refused :
      (s : Settings) (access : AccessLists) (e : Option String) (required : Authorization)
      (r : Request)
      → r.user ≡ none
      → HasNoToken r.authorization
      → r.session_user ≡ none
      → (authorize_request jwt s access now e required r).0 ≡ err AuthError.not_authenticated
  unfolding authorize_request authenticate_request
  nobody-refused s access e required r unknown bare no_session =
      ground (arith, unknown, nobody-checked r unknown bare no_session)
