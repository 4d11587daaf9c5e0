-- ===== src/Tests/Api.antt =====
-- Requests to write, of a concrete user.
use ranger_ims_server.Prelude.{
  ◌≡◌, ◌↔◌, ◌==◌, if◌then◌else◌, refl, ap, true, false, inl, none, map, some, [], ◌∷◌, string_eq,
  String, Bool,
}
use ranger_ims_server.Auth.Authorization.{nothing, ims_admin, write_incidents, meets}
use ranger_ims_server.Auth.Claims
use ranger_ims_server.Auth.Claims.{AuthError}
use ranger_ims_server.Auth.Acl.{ImsUser, match_acl}
use ranger_ims_server.Auth.Provider.{
  Settings, Jwt, bad_signature, Request, authorize_request, authenticate_request,
  check_authentication, authorizations_for_user, event_rights, user_from_bearer_authorization,
}
use ranger_ims_server.Auth.Provider.Requests.{ComesFrom, session, absent}
use ranger_ims_server.Store.Values.{ok}
use ranger_ims_server.Store.Tables.{Db}
use ranger_ims_server.Store.Transactions.{Connection, run_query}
use ranger_ims_server.Store.Statements.Access.{event_access}
use ranger_ims_server.Store.Statements.Access
use ranger_ims_server.Store.Access.{access_lists, concentric_streets}
use ranger_ims_server.Store.Calls.{schema}
use ranger_ims_server.Api.Server.{Outcome, Reply, value, raised, refused, no_content, Body, json}
use ranger_ims_server.Api.Incidents.{edit_incident}
use ranger_ims_server.Api.Admin.{StreetsEdits, edit_streets}
use ranger_ims_server.Api.Authorized.{Post, incident, asked, serve}
use ranger_ims_server.Api.Router.{
  no_content_204, forbidden_403, found_302, status_of_reply, response, routed, answered, is_script,
  nobody_is_refused, success_is_authorized,
}
use ranger_ims_server.Api.Listing.{events_resource, read_streets}
use ranger_ims_server.Api.Listing.Shown.{readable_by, streets_in, listings_show_readable}
use ranger_ims_server.Api.Ignored.{no_location, null_location_ignored, streets_refused}
use ranger_ims_server.Api.Login.{
  Login, Lookup, known, unknown, credentials, auth_resource, IsLogin, login_iff,
}
use ranger_ims_server.Tests.Converter.{converter}
use ranger_ims_server.Tests.Data.{noon}

abbrev pub jwt : Jwt
jwt = record { decode = λ text. bad_signature; encode = λ c. "" }

abbrev pub settings : Settings
settings = record { require_active = true; admin_users = "Tool" ∷ []; master_key = "" }

abbrev pub tool : ImsUser
tool = record {
  uid = "tool";
  short_names = "Tool" ∷ [];
  active = true;
  groups = [];
  hashed_password = none;
}

abbrev pub db : Db
db = record schema {
  events = "2019" ∷ [];
  access = record { event = "2019"; expression = "*"; mode = "write" } ∷ [];
  streets = record { event = "2019"; id = "1"; name = "Esplanade" } ∷ [];
}

abbrev pub connection : Connection
connection = record { committed = db; working = db }

abbrev pub request : Request
request = record {
  authorization = none;
  session_user = some tool;
  user = none;
  authorizations = nothing;
}

abbrev writer : Request
writer = record request {
  user = some tool;
  authorizations = record {
    ims_admin = true;
    read_personnel = true;
    read_incidents = true;
    write_incidents = true;
    write_incident_reports = true;
  };
}

abbrev admin : Request
admin = record request {
  user = some tool;
  authorizations = record {
    ims_admin = true;
    read_personnel = true;
    read_incidents = false;
    write_incidents = false;
    write_incident_reports = false;
  };
}

may_write :
    authorize_request jwt settings
      (access_lists connection)
      150
      (some "2019")
      write_incidents
      request
    ≡ (Claims.Result.ok tt, writer)
unfolding authorize_request authenticate_request check_authentication user_from_bearer_authorization
    authorizations_for_user event_rights match_acl access_lists run_query event_access string_eq
may_write = refl

may_administrate :
    authorize_request jwt settings (access_lists connection) 150 none ims_admin request
    ≡ (Claims.Result.ok tt, admin)
unfolding authorize_request authenticate_request check_authentication user_from_bearer_authorization
    authorizations_for_user string_eq
may_administrate = refl

null_location_ignored_example :
    edit_incident jwt settings 150 noon "2019" (some 1) (json no_location) request connection
    ≡ (value no_content, connection)
null_location_ignored_example =
    null_location_ignored jwt settings 150 noon "2019" 1 request writer connection tool "Tool" []
      may_write refl refl

abbrev edits : StreetsEdits
edits = record { event = "2019"; streets = ("2", "Arctica") ∷ [] }

one_street : (concentric_streets "2019" connection).0 ≡ ok (("1", "Esplanade") ∷ [])
unfolding concentric_streets run_query Access.concentric_streets string_eq
one_street = refl

abbrev unsurveyed : StreetsEdits
unsurveyed = record { event = "2020"; streets = ("1", "Esplanade") ∷ [] }

streets_refused_example :
    edit_streets jwt settings 150 (json (unsurveyed ∷ edits ∷ [])) request connection
    ≡ (raised (refused AuthError.not_authorized), connection)
streets_refused_example =
    streets_refused jwt settings 150 (unsurveyed ∷ []) [] edits request admin connection
      ("1", "Esplanade") [] may_administrate one_street

abbrev post : Post
post = incident "2019" (some 1) (json no_location)

abbrev checked : Request
checked = record request { user = some tool }

checked_may_write :
    authorize_request jwt settings
      (access_lists connection)
      150
      (some "2019")
      write_incidents
      checked
    ≡ (Claims.Result.ok tt, writer)
unfolding authorize_request authenticate_request check_authentication user_from_bearer_authorization
    authorizations_for_user event_rights match_acl access_lists run_query event_access string_eq
checked_may_write = refl

served :
    serve converter jwt settings 150 noon noon post checked connection
    ≡ (value no_content, connection)
unfolding serve
served =
    null_location_ignored jwt settings 150 noon "2019" 1 checked writer connection tool "Tool" []
      checked_may_write refl refl

succeeds :
    (answered converter jwt settings 150 noon noon none true post request connection).0
    ≡ no_content_204
unfolding answered routed response status_of_reply check_authentication
    user_from_bearer_authorization
succeeds = ap (λ (p : Outcome Reply × Connection). response none true p.0) served

success_is_authorized_example :
    (u : ImsUser) × ComesFrom jwt 150 request u
    × (meets
          (asked post).1
          (authorizations_for_user settings (access_lists connection) (some u) (asked post).0)
        ≡ true)
success_is_authorized_example =
    success_is_authorized converter jwt settings 150 noon noon none true post request connection
      (inl succeeds)

abbrev stranger : Request
stranger = record request { session_user = none }

nobody_is_refused_example :
    answered converter jwt settings 150 noon noon
      (some "XMLHttpRequest")
      true
      post
      stranger
      connection
    ≡ ((if is_script (some "XMLHttpRequest") then forbidden_403 else found_302), connection)
nobody_is_refused_example =
    nobody_is_refused converter jwt settings 150 noon noon (some "XMLHttpRequest") post stranger
      connection refl (absent refl) refl

listings_show_readable_example :
    (events_resource jwt settings 150 request connection
      ≡ (value (readable_by jwt settings 150 connection tool ("2019" ∷ [])), connection))
    × (read_streets jwt settings 150 request connection ≡ (
      value (
          map
            (λ e. (e, streets_in jwt settings 150 connection e))
            (readable_by jwt settings 150 connection tool ("2019" ∷ []))),
      connection,
    ))
listings_show_readable_example =
    listings_show_readable jwt settings 150 request tool connection
      (session refl (absent refl) refl)

-- A directory that knows one user, and takes one password
abbrev directory : String → Lookup
directory name = if name == "Tool" then known tool else unknown

abbrev takes : ImsUser → String → Bool
takes user password = password == "password"

abbrev login : Body Login
login = json (record { identification = some "Tool"; password = some "password" })

login_iff_example :
    (auth_resource jwt settings directory takes 100 60 (some "application/json") login
      ≡ credentials "")
    ↔ IsLogin jwt settings directory takes 100 60 (some "application/json") login ""
login_iff_example = login_iff jwt settings directory takes 100 60 (some "application/json") login ""
