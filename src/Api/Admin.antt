-- ===== src/Api/Admin.antt =====
-- application/_api.py: the handlers of administrators.
use ranger_ims_server.Prelude.{
  ℕ, String, false, Option, none, List, [], ◌∷◌, any, string_eq, ◌==◌, if◌then◌else◌,
}
use ranger_ims_server.Auth.Authorization.{ims_admin}
use ranger_ims_server.Auth.Claims.{AuthError}
use ranger_ims_server.Auth.Provider.{Settings, Jwt, Request}
use ranger_ims_server.Store.Access.{
  create_event, set_readers, set_writers, set_reporters, create_incident_type, show_incident_types,
  hide_incident_types, concentric_streets, create_concentric_street,
}
use ranger_ims_server.Api.Server.{
  Server, Reply, no_content, bad_request, refused, give, stop, throw, call, for_each, if_set, Body,
  body_of, items_of, authorized, ◌>>=◌, ◌>>◌,
}

-- The value of `add`, `show` or `hide`: false to Python, as it is where the key is absent, or no list,
-- or a list
pub data Listed : Type 0 where
  falsy not_list : Listed
  list : List String → Listed

unfoldable pub if_listed : Listed → (List String → Server (Unit {0})) → Server (Unit {0})
if_listed falsy f = give tt
if_listed not_list f = stop bad_request
if_listed (list xs) f = f xs

pub record TypesEdits : Type 0 where
  pub add : Listed
  pub show : Listed
  pub hide : Listed

-- What the edits say of an event's access lists
pub record AccessEdits : Type 0 where
  pub event : String
  pub readers : Option (List String)
  pub writers : Option (List String)
  pub reporters : Option (List String)

-- The streets of an event: their IDs and names
pub record StreetsEdits : Type 0 where
  pub event : String
  pub streets : List (String × String)

unfoldable pub set_access_lists : AccessEdits → Server (Unit {0})
set_access_lists a = do
  if_set a.readers (λ xs. call (set_readers a.event xs))
  if_set a.writers (λ xs. call (set_writers a.event xs))
  if_set a.reporters (λ xs. call (set_reporters a.event xs))

-- The first loop refuses any street that is there, without a look at the edits.
refuse_any : List (String × String) → Server (Unit {0})
refuse_any [] = give tt
refuse_any (street ∷ streets) = throw (refused AuthError.not_authorized)

unfoldable pub refuse_removal : StreetsEdits → Server (Unit {0})
unfolding refuse_any
refuse_removal edits = do existing ← call (concentric_streets edits.event); refuse_any existing

add_street : String → List (String × String) → String × String → Server (Unit {0})
add_street e existing (id, name) =
    if any (λ (street : String × String). street.0 == id) existing
    then give tt
    else call (create_concentric_street e id name)

unfoldable pub add_streets : StreetsEdits → Server (Unit {0})
unfolding add_street
add_streets edits = do
  existing ← call (concentric_streets edits.event)
  for_each edits.streets (add_street edits.event existing)

module _ (jwt : Jwt) (s : Settings) (now : ℕ) where
  unfoldable pub edit_incident_types : Body TypesEdits → Request → Server Reply
  edit_incident_types body r = do
    r' ← authorized jwt s now none ims_admin r
    edits ← body_of body
    if_listed edits.add (λ xs. for_each xs (λ name. call (create_incident_type name false)))
    if_listed edits.show (λ xs. call (show_incident_types xs))
    if_listed edits.hide (λ xs. call (hide_incident_types xs))
    give no_content

  -- The body is the value of `add`.
  unfoldable pub edit_events : Body Listed → Request → Server Reply
  edit_events body r = do
    r' ← authorized jwt s now none ims_admin r
    adds ← body_of body
    if_listed adds (λ xs. for_each xs (λ e. call (create_event e)))
    give no_content

  unfoldable pub edit_admin_access : Body (List AccessEdits) → Request → Server Reply
  edit_admin_access body r = do
    r' ← authorized jwt s now none ims_admin r
    edits ← items_of body
    for_each edits set_access_lists
    give no_content

  unfoldable pub edit_streets : Body (List StreetsEdits) → Request → Server Reply
  edit_streets body r = do
    r' ← authorized jwt s now none ims_admin r
    edits ← items_of body
    for_each edits refuse_removal
    for_each edits add_streets
    give no_content
