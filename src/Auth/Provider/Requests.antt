-- ===== src/Auth/Provider/Requests.antt =====
-- Who a request is taken to come from, and when it is let through.
use ranger_ims_server.Prelude.{
  ℕ, ◌≤◌, String, ◌≡◌, ◌≢◌, refl, true, ◌↔◌, ◌⊎◌, inl, inr, Option, none, some, string_eq, ◌==◌,
  arith, if◌then◌else◌, Bool-cases, Option-cases,
}
use ranger_ims_server.Text.{remove_prefix}
use ranger_ims_server.Auth.Authorization.{Authorization, meets}
use ranger_ims_server.Auth.Claims.{AuthError, ok, err, Claims, validate}
use ranger_ims_server.Auth.Acl.{ImsUser}
use ranger_ims_server.Auth.Provider.{
  Settings, AccessLists, Jwt, Decoded, bad_signature, other_error, signed, Request, jwt_issuer,
  from_text, user_from_claims, bearer_user, user_from_bearer_authorization, check_authentication,
  authenticate_request, authorizations_for_user, authorize_request,
}

-- Claims pass exactly when the issuer is the expected one and the time lies between the time of
-- issue and the expiration, both included.
pub validate_iff :
    (c : Claims) (issuer : String) (now : ℕ)
    → (validate c (some issuer) now ≡ ok tt) ↔ ((c.iss ≡ issuer) × (c.iat ≤ now) × (now ≤ c.exp))
unfolding validate
validate_iff c issuer now = ground arith

-- The header carries a token of ours that is valid now.
pub record IsToken (jwt : Jwt) (now : ℕ) (header : String) (c : Claims) : Type 0 where
  pub text : String
  pub given : header ≢ ""
  pub bearer : remove_prefix "Bearer " header ≡ some text
  pub decoded : jwt.decode text ≡ signed c
  pub issuer : c.iss ≡ jwt_issuer
  pub issued : c.iat ≤ now
  pub not_expired : now ≤ c.exp

-- The header names no token: it is absent, empty or of another scheme.
pub data HasNoToken (o : Option String) : Type 0 where
  absent : o ≡ none → HasNoToken o
  empty : o ≡ some "" → HasNoToken o
  other : (header : String) → o ≡ some header → remove_prefix "Bearer " header ≡ none → HasNoToken o

-- `u` is the user of the request: the one attached before, or else the subject of its token, or
-- else, with no token, the user of its session.
pub data ComesFrom (jwt : Jwt) (now : ℕ) (r : Request) (u : ImsUser) : Type 0 where
  attached : r.user ≡ some u → ComesFrom jwt now r u
  token :
      (header : String) (c : Claims)
      → r.user ≡ none
      → r.authorization ≡ some header
      → IsToken jwt now header c
      → u ≡ user_from_claims c
      → ComesFrom jwt now r u
  session :
      r.user ≡ none → HasNoToken r.authorization → r.session_user ≡ some u → ComesFrom jwt now r u

pub Decoded-cases :
    (d : Decoded) → ((d ≡ bad_signature) ⊎ (d ≡ other_error)) ⊎ ((c : Claims) × (d ≡ signed c))
Decoded-cases bad_signature = inl (inl refl)
Decoded-cases other_error = inl (inr refl)
Decoded-cases (signed c) = inr (c, refl)

module _ (jwt : Jwt) (now : ℕ) where
  bearer_sound :
      (text : String) (u : Option ImsUser)
      → bearer_user jwt now (some text) ≡ ok u
      → (c : Claims) × (jwt.decode text ≡ signed c)
        × ((c.iss ≡ jwt_issuer) × (c.iat ≤ now) × (now ≤ c.exp))
        × (u ≡ some (user_from_claims c))
  unfolding bearer_user from_text
  bearer_sound text u h = elim (Decoded-cases (jwt.decode text)) [
    | inl bad ↦ ground arith
    | inr (c, d) ↦ (c, d, ground (arith, validate_iff c jwt_issuer now), ground arith)
  ]

  pub bearer_complete :
      (header : String) (c : Claims)
      → IsToken jwt now header c
      → user_from_bearer_authorization jwt now (some header) ≡ ok (some (user_from_claims c))
  unfolding user_from_bearer_authorization bearer_user from_text
  bearer_complete header c t = ground (arith, validate_iff c jwt_issuer now, t.bearer, t.decoded)

  pub no_token :
      (o : Option String) → HasNoToken o → user_from_bearer_authorization jwt now o ≡ ok none
  unfolding user_from_bearer_authorization bearer_user
  no_token o (absent h) = ground arith
  no_token o (empty h) = ground arith
  no_token o (other header h k) = ground arith

  pub check_sound :
      (r : Request) (u : ImsUser)
      → check_authentication jwt now r ≡ (ok tt, record r { user = some u })
      → ComesFrom jwt now r u
  unfolding check_authentication user_from_bearer_authorization
  check_sound r u h = elim (Option-cases r.user) [
    | inr (v, known) ↦ attached (ground arith)
    | inl unknown ↦ elim (Option-cases r.authorization) [
      | inl no_header ↦ session unknown (absent no_header) (ground arith)
      | inr (header, given) ↦ elim (Bool-cases (header == "")) [
        | inl blank ↦ session unknown (empty (ground arith)) (ground arith)
        | inr nonblank ↦ elim (Option-cases (remove_prefix "Bearer " header)) [
          | inl plain ↦ session unknown (other header given plain) (ground arith)
          | inr (text, bearer) ↦
              let (c, decoded, (issuer, issued, not_expired), same) =
                bearer_sound text (some u) (ground arith) in
              token header c unknown given
                (record {
                  text = text;
                  given = ground arith;
                  bearer = bearer;
                  decoded = decoded;
                  issuer = issuer;
                  issued = issued;
                  not_expired = not_expired;
                })
                (cc same)
        ]
      ]
    ]
  ]

  pub check_complete :
      {r : Request} {u : ImsUser}
      → ComesFrom jwt now r u
      → check_authentication jwt now r ≡ (ok tt, record r { user = some u })
  unfolding check_authentication
  check_complete {r} (attached h) = ground arith
  check_complete {r} (token header c h given t same) = ground (arith, bearer_complete header c t)
  check_complete {r} (session h none_given s) = ground (arith, no_token r.authorization none_given)

  -- A check changes nothing of a request but its user.
  pub check_frame :
      (r : Request) (u : ImsUser)
      → (check_authentication jwt now r).0 ≡ ok tt
      → (check_authentication jwt now r).1.user ≡ some u
      → check_authentication jwt now r ≡ (ok tt, record r { user = some u })
  unfolding check_authentication
  check_frame r u h k = ground arith

module _ (jwt : Jwt) (s : Settings) (access : AccessLists) (now : ℕ) where
  -- The request as it is passed on for the user `u`.
  abbrev pub passed : Option String → Request → ImsUser → Request
  passed event_id r u = record r {
    user = some u;
    authorizations = authorizations_for_user s access (some u) event_id;
  }

  authorize_sound :
      (event_id : Option String) (required : Authorization) (r : Request)
      → (authorize_request jwt s access now event_id required r).0 ≡ ok tt
      → (u : ImsUser) × ComesFrom jwt now r u
        × (meets required (authorizations_for_user s access (some u) event_id) ≡ true)
        × ((authorize_request jwt s access now event_id required r).1 ≡ passed event_id r u)
  unfolding authorize_request authenticate_request
  authorize_sound event_id required r h =
      elim (Option-cases (check_authentication jwt now r).1.user) [
        | inl none_found ↦ ground arith
        | inr (u, found) ↦
            let checked = check_frame jwt now r u (ground arith) found in
            (u, check_sound jwt now r u checked, ground (arith, checked), ground (arith, checked))
      ]

  pub authorize_complete :
      (event_id : Option String) (required : Authorization) (r : Request) (u : ImsUser)
      → ComesFrom jwt now r u
      → authorize_request jwt s access now event_id required r ≡ (
        (if meets required (authorizations_for_user s access (some u) event_id)
            then ok tt
            else err AuthError.not_authorized),
        passed event_id r u,
      )
  unfolding authorize_request authenticate_request
  authorize_complete event_id required r u c = ground (arith, check_complete jwt now c)

-- A request is let through exactly when it comes from a user who has one of the required
-- authorizations; the user and the authorizations are then attached to it.
pub authorize_request_iff :
    (jwt : Jwt) (s : Settings) (access : AccessLists) (now : ℕ) (event_id : Option String)
    (required : Authorization) (r : Request)
    → ((authorize_request jwt s access now event_id required r).0 ≡ ok tt) ↔ (
        (u : ImsUser) × ComesFrom jwt now r u
        × (meets required (authorizations_for_user s access (some u) event_id) ≡ true)
        × ((authorize_request jwt s access now event_id required r).1
            ≡ passed jwt s access now event_id r u))
authorize_request_iff jwt s access now event_id required r = (
  authorize_sound jwt s access now event_id required r,
  λ (u, c, m, _). rw (authorize_complete jwt s access now event_id required r u c) (rw m),
)
