-- ===== src/Auth/Provider.antt =====
-- `class AuthProvider`: authentication of a request, and its authorizations.
pub mod Rights
pub mod Requests
pub mod Tokens
pub mod Reports
pub mod Refused
pub mod Checked
use ranger_ims_server.Prelude.{
  ℕ, ◌+◌, String, Bool, true, false, not, ◌&&◌, ◌||◌, Option, none, some, List, [], ◌∷◌, any, elem,
  string_eq, ◌==◌, if◌then◌else◌,
}
use ranger_ims_server.Text.{remove_prefix, split, join}
use ranger_ims_server.Auth.Authorization.{
  Authorization, nothing, ims_admin, read_personnel, read_incidents, write_incidents,
  write_incident_reports, ◌∪◌, meets,
}
use ranger_ims_server.Auth.Claims.{AuthError, Result, ok, err, ◌>>=◌, ◌>>◌, Claims, validate}
use ranger_ims_server.Auth.Acl.{ImsUser, match_acl}

-- What the provider reads of the data store: the access lists of an event.
pub record AccessLists : Type 0 where
  pub readers : String → List String
  pub writers : String → List String
  pub reporters : String → List String

pub record Settings : Type 0 where
  pub require_active : Bool
  pub admin_users : List String
  pub master_key : String

abbrev grant_if : Bool → Authorization → Authorization → Authorization
grant_if test extra granted = if test then granted ∪ extra else granted

-- The authorizations that hold for every event. The loop over the short names sets one flag, at the
-- first name that is listed or later.
unfoldable pub global_rights : Settings → Option ImsUser → Authorization
global_rights s none = nothing
global_rights s (some user) =
    grant_if (any (λ name. elem name s.admin_users) user.short_names) ims_admin
      (nothing ∪ read_personnel)

unfoldable pub event_rights :
    Settings → AccessLists → Option ImsUser → String → Authorization → Authorization
event_rights s access user event_id granted =
    if match_acl s.require_active user (access.writers event_id)
    then granted ∪ write_incidents ∪ read_incidents ∪ write_incident_reports
    else grant_if (match_acl s.require_active user (access.reporters event_id))
        write_incident_reports
        (grant_if (match_acl s.require_active user (access.readers event_id)) read_incidents
          granted)

unfoldable pub authorizations_for_user :
    Settings → AccessLists → Option ImsUser → Option String → Authorization
unfolding global_rights
authorizations_for_user s access user none = global_rights s user
authorizations_for_user s access user (some event_id) =
    event_rights s access user event_id (global_rights s user)

-- What the JSON Web Token library makes of a token's text under the provider's key, and the text
-- that it gives to signed claims. `other_error` is all else that reading the text raises: of a malformed
-- token, by the library's own check of times, or where the claims cannot be converted.
pub data Decoded : Type 0 where
  bad_signature other_error : Decoded
  signed : Claims → Decoded

pub record Jwt : Type 0 where
  pub decode : String → Decoded
  pub encode : Claims → String

-- A request, with what has been attached to it so far.
pub record Request : Type 0 where
  pub authorization : Option String
  pub session_user : Option ImsUser
  pub user : Option ImsUser
  pub authorizations : Authorization

abbrev pub jwt_issuer : String
jwt_issuer = "ranger-ims-server"

-- `JSONWebToken.fromText` and the `claims` of the token.
from_text : Jwt → String → Result Claims
from_text jwt text = elim (jwt.decode text) [
  | bad_signature ↦ err AuthError.invalid_credentials
  | other_error ↦ err AuthError.token_error
  | signed c ↦ ok c
]

pub user_from_claims : Claims → ImsUser
user_from_claims c = record {
  uid = c.sub;
  short_names = c.preferred_username ∷ [];
  active = c.ranger_on_site;
  groups = split b',' c.ranger_positions;
  hashed_password = none;
}

bearer_user : Jwt → ℕ → Option String → Result (Option ImsUser)
bearer_user jwt now none = ok none
bearer_user jwt now (some text) = do
  claims ← from_text jwt text
  validate claims (some jwt_issuer) now
  ok (some (user_from_claims claims))

-- An empty header counts as none.
unfoldable pub user_from_bearer_authorization : Jwt → ℕ → Option String → Result (Option ImsUser)
unfolding from_text user_from_claims bearer_user
user_from_bearer_authorization jwt now none = ok none
user_from_bearer_authorization jwt now (some header) =
    if header == "" then ok none else bearer_user jwt now (remove_prefix "Bearer " header)

-- `request.user`, once the header and then the session have been read.
attach_user : Result (Option ImsUser) → Request → Result (Unit {0}) × Request
attach_user (err e) r = (err e, r)
attach_user (ok (some user)) r = (ok tt, record r { user = some user })
attach_user (ok none) r = (ok tt, record r { user = r.session_user })

known_user : Option ImsUser → Jwt → ℕ → Request → Result (Unit {0}) × Request
known_user (some user) jwt now r = (ok tt, r)
known_user none jwt now r = attach_user (user_from_bearer_authorization jwt now r.authorization) r

unfoldable pub check_authentication : Jwt → ℕ → Request → Result (Unit {0}) × Request
unfolding attach_user known_user
check_authentication jwt now r = known_user r.user jwt now r

abbrev require_user : Option ImsUser → Result (Unit {0})
require_user none = err AuthError.not_authenticated
require_user (some user) = ok tt

unfoldable pub authenticate_request : Jwt → ℕ → Request → Result (Unit {0}) × Request
authenticate_request jwt now r =
    let (checked, r') = check_authentication jwt now r in (checked >> require_user r'.user, r')

module _ (jwt : Jwt) (s : Settings) (access : AccessLists) (now : ℕ) where
  -- The rest of `authorizeRequest`, for a request with a user.
  grant_rights : Option String → Authorization → Request → Result (Unit {0}) × Request
  grant_rights event_id required r =
      let rights = authorizations_for_user s access r.user event_id in
      (
        (if meets required rights then ok tt else err AuthError.not_authorized),
        record r { authorizations = rights },
      )

  unfoldable pub authorize_request :
      Option String → Authorization → Request → Result (Unit {0}) × Request
  unfolding grant_rights
  authorize_request event_id required r =
      let (known, r') = authenticate_request jwt now r in
      elim known [ err e ↦ (err e, r') | ok _ ↦ grant_rights event_id required r' ]

  first_name : List String → Result String
  first_name [] = err AuthError.index_error
  first_name (name ∷ names) = ok name

  -- The report comes by its event and by the authors of its entries. The loop ends at the first
  -- entry that the user wrote.
  report_access : Option ImsUser → String → List String → Request → Result (Unit {0}) × Request
  report_access none event_id authors r = authorize_request (some event_id) read_incidents r
  report_access (some user) event_id [] r = authorize_request (some event_id) read_incidents r
  report_access (some user) event_id (author ∷ authors) r = elim (first_name user.short_names) [
    | err e ↦ (err e, r)
    | ok handle ↦
        if elem handle (author ∷ authors)
        then (ok tt, record r { authorizations = write_incident_reports })
        else authorize_request (some event_id) read_incidents r
  ]

  unfoldable pub authorize_request_for_incident_report :
      String → List String → Request → Result (Unit {0}) × Request
  unfolding report_access first_name
  authorize_request_for_incident_report event_id authors r = report_access r.user event_id authors r

unfoldable pub token_claims : ImsUser → ℕ → ℕ → Result Claims
token_claims user now duration = elim user.short_names [
  | [] ↦ err AuthError.index_error
  | name ∷ names ↦ ok (record {
    iss = jwt_issuer;
    iat = now;
    exp = now + duration;
    sub = user.uid;
    preferred_username = name;
    ranger_on_site = user.active;
    ranger_positions = join "," user.groups;
  })
]

-- The text of the token, under the key `token` of the reply.
unfoldable pub credentials_for_user : Jwt → ImsUser → ℕ → ℕ → Result String
unfolding token_claims
credentials_for_user jwt user now duration = do
  claims ← token_claims user now duration
  ok (jwt.encode claims)

-- The directory's own check of a password is `check`.
unfoldable pub verify_password : Settings → (ImsUser → String → Bool) → ImsUser → String → Bool
verify_password s check user password =
    if not (s.master_key == "") && password == s.master_key then true else check user password
