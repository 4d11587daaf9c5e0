-- ===== src/Api/Login.antt =====
-- application/_api.py: `authResource`, which issues tokens.
use mathlib.Core.Path.{subst}
use ranger_ims_server.Prelude.{
  ℕ, String, Bool, ◌≡◌, refl, sym, ◌↔◌, inl, inr, true, Option, none, some, string_eq, ◌==◌,
  if◌then◌else◌, arith, Bool-cases,
}
use ranger_ims_server.Auth.Claims.{Result, ok, err}
use ranger_ims_server.Auth.Acl.{ImsUser}
use ranger_ims_server.Auth.Provider.{Settings, Jwt, credentials_for_user, verify_password}
use ranger_ims_server.Auth.Provider.Refused.{Result-cases}
use ranger_ims_server.Api.Server.{Body, not_json, not_dictionary, json}

-- What the directory of users says to a name
pub data Lookup : Type 0 where
  unavailable unknown : Lookup
  known : ImsUser → Lookup

pub record Login : Type 0 where
  pub identification : Option String
  pub password : Option String

pub data Answer : Type 0 where
  bad_request invalid_json bad_gateway unauthorized : Answer
  credentials : String → Answer
  raised_index_error raised_attribute_error : Answer

-- `duration` is the lifetime of a token, and `check` the directory's own check of a password.
module _ (jwt : Jwt) (s : Settings) (lookup : String → Lookup) (check : ImsUser → String → Bool)
    (now duration : ℕ) where
  issued : Result String → Answer
  issued (ok text) = credentials text
  issued (err e) = raised_index_error

  authenticate : Lookup → String → Answer
  authenticate unavailable password = bad_gateway
  authenticate unknown password = unauthorized
  authenticate (known user) password =
      if verify_password s check user password
      then issued (credentials_for_user jwt user now duration)
      else unauthorized

  -- The two tests of the body, in their order
  log_in : Option String → Option String → Answer
  log_in none password = bad_request
  log_in (some name) none = bad_request
  log_in (some name) (some password) = authenticate (lookup name) password

  answer : Body Login → Answer
  answer not_json = invalid_json
  answer not_dictionary = raised_attribute_error
  answer (json login) = log_in login.identification login.password

  unfoldable pub auth_resource : Option String → Body Login → Answer
  unfolding answer log_in authenticate issued
  auth_resource none body = bad_request
  auth_resource (some content_type) body =
      if content_type == "application/json" then answer body else bad_request

  -- A login that gives a token
  pub record IsLogin (content_type : Option String) (body : Body Login) (text : String)
      : Type 0 where
    pub name : String
    pub password : String
    pub user : ImsUser
    pub typed : content_type ≡ some "application/json"
    pub read : body ≡ json (record { identification = some name; password = some password })
    pub found : lookup name ≡ known user
    pub verified : verify_password s check user password ≡ true
    pub text_of : credentials_for_user jwt user now duration ≡ ok text

module _ (jwt : Jwt) (s : Settings) (lookup : String → Lookup) (check : ImsUser → String → Bool)
    (now duration : ℕ) where
  authenticate_sound :
      (l : Lookup) (password text : String)
      → authenticate jwt s lookup check now duration l password ≡ credentials text
      → (u : ImsUser) × (l ≡ known u)
        × (verify_password s check u password ≡ true)
        × (credentials_for_user jwt u now duration ≡ ok text)
  unfolding authenticate issued
  authenticate_sound unavailable password text h = ground arith
  authenticate_sound unknown password text h = ground arith
  authenticate_sound (known u) password text h =
      elim (Bool-cases (verify_password s check u password)) [
        | inr wrong ↦ ground (arith, wrong)
        | inl right ↦ elim (Result-cases (credentials_for_user jwt u now duration)) [
          | inr (f, failed) ↦ ground (arith, right, failed)
          | inl (t, made) ↦ (u, refl, right, ground (arith, right, made))
        ]
      ]

  log_in_sound :
      (a b : Option String) (text : String)
      → log_in jwt s lookup check now duration a b ≡ credentials text
      → IsLogin jwt s lookup check now duration
          (some "application/json")
          (json (record { identification = a; password = b }))
          text
  unfolding log_in
  log_in_sound none b text h = ground arith
  log_in_sound (some name) none text h = ground arith
  log_in_sound (some name) (some password) text h =
      let (u, found, verified, made) = authenticate_sound (lookup name) password text h in
      record {
        name = name;
        password = password;
        user = u;
        typed = refl;
        read = refl;
        found = found;
        verified = verified;
        text_of = made;
      }

  answer_sound :
      (body : Body Login) (text : String)
      → answer jwt s lookup check now duration body ≡ credentials text
      → IsLogin jwt s lookup check now duration (some "application/json") body text
  unfolding answer
  answer_sound not_json text h = ground arith
  answer_sound not_dictionary text h = ground arith
  answer_sound (json login) text h = log_in_sound login.identification login.password text h

  login_sound :
      (content_type : Option String) (body : Body Login) (text : String)
      → auth_resource jwt s lookup check now duration content_type body ≡ credentials text
      → IsLogin jwt s lookup check now duration content_type body text
  unfolding auth_resource
  login_sound none body text h = ground arith
  login_sound (some content_type) body text h =
      elim (Bool-cases (content_type == "application/json")) [
        | inr other ↦ ground (arith, other)
        | inl same ↦
            let is_json : content_type ≡ "application/json" = ground (arith, same) in
            subst (λ t. IsLogin jwt s lookup check now duration (some t) body text) (sym is_json)
              (answer_sound body text (ground (arith, same)))
      ]

  login_complete :
      (content_type : Option String) (body : Body Login) (text : String)
      → IsLogin jwt s lookup check now duration content_type body text
      → auth_resource jwt s lookup check now duration content_type body ≡ credentials text
  unfolding auth_resource answer log_in authenticate issued
  login_complete content_type body text l =
      ground (arith, l.typed, l.read, l.found, l.verified, l.text_of)

-- A login is answered with a token exactly if its content type is that of JSON, its body names a user
-- whom the directory knows, and a password that verifies for that user; the token is then the one that
-- the provider issues to the user.
pub login_iff :
    (jwt : Jwt) (s : Settings) (lookup : String → Lookup) (check : ImsUser → String → Bool)
    (now duration : ℕ) (content_type : Option String) (body : Body Login) (text : String)
    → (auth_resource jwt s lookup check now duration content_type body ≡ credentials text)
      ↔ IsLogin jwt s lookup check now duration content_type body text
login_iff jwt s lookup check now duration content_type body text = (
  login_sound jwt s lookup check now duration content_type body text,
  login_complete jwt s lookup check now duration content_type body text,
)
