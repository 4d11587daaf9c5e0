-- ===== src/Web/Session.antt =====
-- What the login form does to the session.
use ranger_ims_server.Prelude.{
  ℕ, String, ◌≡◌, refl, ap, Bool, true, Option, none, some, inl, inr, arith, Bool-cases,
}
use ranger_ims_server.Auth.Acl.{ImsUser}
use ranger_ims_server.Auth.Provider.{Settings, Jwt, Request, check_authentication, verify_password}
use ranger_ims_server.Auth.Provider.Requests.{ComesFrom, session, absent}
use ranger_ims_server.Auth.Authorization.{nothing}
use ranger_ims_server.Auth.Provider.Refused.{Result-cases}
use ranger_ims_server.Directory.{Answer, answer, directory_error, other_error}
use ranger_ims_server.Api.Listing.{query_value}
use ranger_ims_server.Web.{
  Form, moved, failed_page, again, log_in, user_named, or_default, login_submit,
}

-- What a form has to say, and the directory to know, for a user to be logged in
pub record IsLogin (s : Settings) (lookup : String → Answer (Option ImsUser))
    (check : ImsUser → String → Bool) (form : Form) (user : ImsUser) : Type 0 where
  pub name : String
  pub named : query_value form.username ≡ some name
  pub found : lookup name ≡ answer (some user)
  pub verified : verify_password s check user (or_default "" (query_value form.password)) ≡ true

module _ (jwt : Jwt) (s : Settings) (lookup : String → Answer (Option ImsUser))
    (check : ImsUser → String → Bool) (now : ℕ) where
  -- The form with the page again logs nobody in.
  again-moved :
      (r r' : Request) (o : Option String) → again jwt s lookup check now r ≡ (moved o, r') → ⊥
  unfolding again failed_page
  again-moved r r' o h = elim (Result-cases (check_authentication jwt now r).0) [
    | inl (_, fine) ↦ ground (arith, fine)
    | inr (f, bad) ↦ ground (arith, bad)
  ]

  log_in-moved :
      (form : Form) (a : Answer (Option ImsUser)) (r r' : Request) (o : Option String)
      → log_in jwt s lookup check now form a r ≡ (moved o, r')
      → (user : ImsUser) × (a ≡ answer (some user))
        × (verify_password s check user (or_default "" (query_value form.password)) ≡ true)
        × (o ≡ query_value form.origin)
        × (r' ≡ record r { session_user = some user })
  unfolding log_in
  log_in-moved form directory_error r r' o h = ground arith
  log_in-moved form other_error r r' o h = ground arith
  log_in-moved form (answer none) r r' o h = elim (again-moved r r' o h) [ ]
  log_in-moved form (answer (some user)) r r' o h =
      elim (Bool-cases (verify_password s check user (or_default "" (query_value form.password)))) [
        | inl right ↦ (user, refl, right, ground (arith, right), ground (arith, right))
        | inr wrong ↦ elim (again-moved r r' o (ground (arith, wrong))) [ ]
      ]

  user_named-found :
      (o : Option String) (user : ImsUser)
      → user_named jwt s lookup check now o ≡ answer (some user)
      → (name : String) × (o ≡ some name) × (lookup name ≡ answer (some user))
  unfolding user_named
  user_named-found none user h = ground arith
  user_named-found (some name) user h = (name, refl, h)

-- The next request of the same session, without a token
abbrev pub next_request : Request → Request
next_request r = record {
  authorization = none;
  session_user = r.session_user;
  user = none;
  authorizations = nothing;
}

-- If the login form sends the browser on, then to where the form says that it came from, and the form has
-- named a user whom the directory knows, and a password that verifies for that user, where a missing one
-- counts as empty. From then on, requests of the same session come from that user, at any time, if they
-- bring no token.
pub form_opens_session :
    (jwt : Jwt) (s : Settings) (lookup : String → Answer (Option ImsUser))
    (check : ImsUser → String → Bool) (now later : ℕ) (form : Form) (r r' : Request)
    (o : Option String)
    → login_submit jwt s lookup check now form r ≡ (moved o, r')
    → (user : ImsUser) × IsLogin s lookup check form user
      × (o ≡ query_value form.origin)
      × ComesFrom jwt later (next_request r') user
unfolding login_submit
form_opens_session jwt s lookup check now later form r r' o h =
    let (user, is_known, verified, to, after) =
      log_in-moved jwt s lookup check now form
        (user_named jwt s lookup check now (query_value form.username)) r r' o h in
    let (name, named, found) =
      user_named-found jwt s lookup check now (query_value form.username) user is_known in
    (
      user,
      record { name = name; named = named; found = found; verified = verified },
      to,
      session refl (absent refl) (ap (λ (q : Request). q.session_user) after),
    )

-- A user whom the directory knows is logged in with a password that verifies.
pub login_submit_complete :
    (jwt : Jwt) (s : Settings) (lookup : String → Answer (Option ImsUser))
    (check : ImsUser → String → Bool) (now : ℕ) (form : Form) (user : ImsUser) (r : Request)
    → IsLogin s lookup check form user
    → login_submit jwt s lookup check now form r
      ≡ (moved (query_value form.origin), record r { session_user = some user })
unfolding login_submit log_in user_named
login_submit_complete jwt s lookup check now form user r l =
    ground (arith, l.named, l.found, l.verified)
