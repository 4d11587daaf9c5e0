-- ===== src/Api/Listing.antt =====
-- application/_api.py: the handlers that list Rangers, incident types, events, access lists and streets.
pub mod Shown
use ranger_ims_server.Prelude.{
  ℕ, String, Bool, true, false, Option, none, some, List, [], ◌∷◌, keep, string_eq, ◌==◌,
  if◌then◌else◌,
}
use ranger_ims_server.Auth.Authorization.{ims_admin, read_personnel, read_incidents, meets}
use ranger_ims_server.Auth.Claims
use ranger_ims_server.Auth.Claims.{AuthError}
use ranger_ims_server.Auth.Provider.{
  Settings, Jwt, Request, authenticate_request, authorize_request, authorizations_for_user,
}
use ranger_ims_server.Model.Ranger.{Ranger, EventAccess}
use ranger_ims_server.Directory.{Answer, answer, directory_error, other_error}
use ranger_ims_server.Store.Access.{
  events, readers, writers, reporters, incident_types, concentric_streets, access_lists,
}
use ranger_ims_server.Api.Server.{
  Server, refused, other_exception, give, throw, call, authorized, ◌>>=◌,
}

-- `personnelData`: where the directory fails, there are no Rangers.
unfoldable pub personnel_data : Answer (List Ranger) → Server (List Ranger)
personnel_data (answer rangers) = give rangers
personnel_data directory_error = give []
personnel_data other_error = throw other_exception

-- `queryValue(request, "hidden") == "true"`: the last of the values counts.
unfoldable pub query_value : List String → Option String
query_value [] = none
query_value (v ∷ []) = some v
query_value (v ∷ w ∷ vs) = query_value (w ∷ vs)

is_true : Option String → Bool
is_true none = false
is_true (some s) = s == "true"

-- The access lists of each event
unfoldable pub lists_of : List String → Server (List (String × EventAccess))
lists_of [] = give []
lists_of (e ∷ es) = do
  readers_of ← call (readers e)
  writers_of ← call (writers e)
  reporters_of ← call (reporters e)
  rest ← lists_of es
  give ((e, record { readers = readers_of; writers = writers_of; reporters = reporters_of }) ∷ rest)

module _ (jwt : Jwt) (s : Settings) (now : ℕ) where
  authenticated_on : Claims.Result (Unit {0}) × Request → Server Request
  authenticated_on (Claims.Result.ok _, r) = give r
  authenticated_on (Claims.Result.err x, r) = throw (refused x)

  unfoldable pub authenticated : Request → Server Request
  unfolding authenticated_on
  authenticated r = authenticated_on (authenticate_request jwt now r)

  -- `personnelResource`; `directory` is what the directory answers.
  unfoldable pub personnel_resource : Answer (List Ranger) → Request → Server (List Ranger)
  personnel_resource directory r = do
    r' ← authorized jwt s now none read_personnel r
    personnel_data directory

  -- `incidentTypesResource`; `hidden` has the values of that parameter of the query.
  unfoldable pub incident_types_resource : List String → Request → Server (List String)
  unfolding is_true
  incident_types_resource hidden r = do
    r' ← authenticated r
    call (incident_types (is_true (query_value hidden)))

  readable : Request → List String → Server (List String)
  readable r es c =
      give
        (keep
          (λ e. meets read_incidents (authorizations_for_user s (access_lists c) r.user (some e)))
          es)
        c

  -- `eventsResource`
  unfoldable pub events_resource : Request → Server (List String)
  unfolding readable
  events_resource r = do r' ← authenticated r; es ← call events; readable r' es

  -- `readAdminAccessResource`
  unfoldable pub read_admin_access : Request → Server (List (String × EventAccess))
  read_admin_access r = do r' ← authorized jwt s now none ims_admin r; es ← call events; lists_of es

  passes : Claims.Result (Unit {0}) × Request → Server (Bool × Request)
  passes (Claims.Result.ok _, r) = give (true, r)
  passes (Claims.Result.err AuthError.not_authorized, r) = give (false, r)
  passes (Claims.Result.err x, r) = throw (refused x)

  may_read : String → Request → Server (Bool × Request)
  may_read e r c = passes (authorize_request jwt s (access_lists c) now (some e) read_incidents r) c

  -- The loop over the events that the request may read, each with its streets
  unfoldable pub streets_of :
      List String → Request → Server (List (String × List (String × String)))
  unfolding may_read passes
  streets_of [] r = give []
  streets_of (e ∷ es) r = do
    (shown, r') ← may_read e r
    if shown
        then (do
          streets ← call (concentric_streets e)
          rest ← streets_of es r'
          give ((e, streets) ∷ rest))
        else streets_of es r'

  -- `readStreetsResource`
  unfoldable pub read_streets : Request → Server (List (String × List (String × String)))
  read_streets r = do es ← call events; streets_of es r
