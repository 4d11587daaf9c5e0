-- ===== src/Codec/Rangers.antt =====
-- model/json/_event.py, _eventaccess.py, _type.py and _ranger.py: events, their access lists, incident
-- types and Rangers.
use ranger_ims_server.Prelude.{
  String, Bool, true, false, none, List, ◌≡◌, ap, ◌∙◌, string_eq, arith,
}
use ranger_ims_server.Model.Ranger.{Ranger, EventAccess, IncidentType, build_ranger, build_access}
use ranger_ims_server.Codec.Json.{
  Json, boolean, text, object, end, field, Result, ok, err, assertion_error, guard, index,
  equals_text, get, ◌>>=◌, ◌>>◌,
}
use ranger_ims_server.Codec.Converter.{
  Converter, IsConverter, at_key, list_of, array_of, optional, list-array_of,
}
use ranger_ims_server.Codec.Values.{status_json, status_of_json, status-of-status_json}
use ranger_ims_server.Codec.Places.{optional_text}
use ranger_ims_server.Codec.Incidents.RoundTrip.{All-text}

-- An event is its ID, which is written as its name too.
unfoldable pub event_json : String → Json
event_json id = object (field "id" (text id) (field "name" (text id) end))

-- `Event(id=eventID)` with an ID that is a text. Any other, which the code keeps, is refused here.
event_id_of : Json → Result String
event_id_of (text s) = ok s
event_id_of v = err assertion_error

same_text : Json → Json → Bool
same_text v (text s) = equals_text v s
same_text v w = false

unfoldable pub event_of_json : Json → Result String
unfolding event_id_of same_text
event_of_json v = do
  id ← index "id" v
  name ← index "name" v
  guard (same_text name id) assertion_error
  event_id_of id

unfoldable pub access_json : EventAccess → Json
access_json a = object (
    field "readers" (array_of text a.readers) (
      field "writers" (array_of text a.writers)
        (field "reporters" (array_of text a.reporters) end)))

unfoldable pub type_json : IncidentType → Json
type_json t = object (field "name" (text t.name) (field "hidden" (boolean t.hidden) end))

unfoldable pub ranger_json : Ranger → Json
ranger_json r = object (
    field "handle" (text r.handle) (
      field "name" (text r.name) (
        field "status" (status_json r.status) (
          field "email" (array_of text r.email) (
            field "enabled" (boolean r.enabled)
              (field "directory_id" (optional text r.directory_id) end))))))

module _ (c : Converter) where
  unfoldable pub access_of_json : Json → Result EventAccess
  access_of_json v = do
    readers ← at_key "readers" (list_of c c.to_text) v
    writers ← at_key "writers" (list_of c c.to_text) v
    reporters ← at_key "reporters" (list_of c c.to_text) v
    ok (build_access (record { readers = readers; writers = writers; reporters = reporters }))

  unfoldable pub type_of_json : Json → Result IncidentType
  type_of_json v = do
    name ← at_key "name" c.to_text v
    hidden ← at_key "hidden" c.to_boolean v
    ok (record { name = name; hidden = hidden })

  unfoldable pub ranger_of_json : Json → Result Ranger
  ranger_of_json v = do
    handle ← at_key "handle" c.to_text v
    name ← at_key "name" c.to_text v
    status ← at_key "status" status_of_json v
    email ← at_key "email" (list_of c c.to_text) v
    enabled ← at_key "enabled" c.to_boolean v
    directory_id ← at_key "directory_id" (c.to_optional c.to_text) v
    ok (
        build_ranger (record {
          handle = handle;
          name = name;
          status = status;
          email = email;
          enabled = enabled;
          directory_id = directory_id;
          password = none;
        }))

equals_text_self : (s : String) → equals_text (text s) s ≡ true
unfolding equals_text
equals_text_self s = ground arith

build_ranger-forgotten :
    (r : Ranger)
    → build_ranger r ≡ r
    → build_ranger (record r { password = none }) ≡ record r { password = none }
unfolding build_ranger
build_ranger-forgotten r built = ap (λ (x : Ranger). record x { password = none }) built

event-of-event_json : (id : String) → event_of_json (event_json id) ≡ ok id
unfolding event_json event_of_json index string_eq
event-of-event_json id = rw (equals_text_self id)

module _ {c : Converter} (k : IsConverter c) where
  texts : (xs : List String) → list_of c c.to_text (array_of text xs) ≡ ok xs
  texts xs = list-array_of k text c.to_text xs (All-text k xs)

  type-of-type_json : (t : IncidentType) → type_of_json c (type_json t) ≡ ok t
  unfolding type_json type_of_json at_key get string_eq
  type-of-type_json t = rw (k.text_lem t.name, k.boolean_lem t.hidden)

  access-of-access_json : (a : EventAccess) → access_of_json c (access_json a) ≡ ok (build_access a)
  unfolding access_json access_of_json at_key get string_eq
  access-of-access_json a = rw (texts a.readers, texts a.writers, texts a.reporters)

  ranger-of-ranger_json :
      (r : Ranger)
      → ranger_of_json c (ranger_json r) ≡ ok (build_ranger (record r { password = none }))
  unfolding ranger_json ranger_of_json at_key get string_eq
  ranger-of-ranger_json r = rw (
    k.text_lem r.handle,
    k.text_lem r.name,
    status-of-status_json r.status,
    texts r.email,
    k.boolean_lem r.enabled,
    optional_text k r.directory_id,
  )

  -- The JSON form of an event, of an incident type and of the access lists of an event gives back what
  -- it was made from, lists as the constructor makes them. That of a Ranger gives back all but the
  -- password, which it does not hold.
  pub directory_roundtrip :
      (id : String) (t : IncidentType) (a : EventAccess) (r : Ranger)
      → build_access a ≡ a
      → build_ranger r ≡ r
      → (event_of_json (event_json id) ≡ ok id)
        × (type_of_json c (type_json t) ≡ ok t)
        × (access_of_json c (access_json a) ≡ ok a)
        × (ranger_of_json c (ranger_json r) ≡ ok (record r { password = none }))
  directory_roundtrip id t a r built_access built_ranger = (
    event-of-event_json id,
    type-of-type_json t,
    access-of-access_json a ∙ ap ok built_access,
    ranger-of-ranger_json r ∙ ap ok (build_ranger-forgotten r built_ranger),
  )
