-- ===== src/Tests/Directory.antt =====
-- Concrete Rangers, positions, passwords and files.
use ranger_ims_server.Model.{freeze}
use ranger_ims_server.Model.Ranger.{build_ranger, Ranger, RangerStatus}
use ranger_ims_server.Directory.File.{
  ranger_from_mapping, each, from_mappings, parsed, keep_loaded, reload_modified, reload,
  after_reload, State, File, new_state, load, find_user,
}
use ranger_ims_server.Codec.Json.{
  members, find, Json, number, text, boolean, array, object, end, field, cons, nil,
}
use ranger_ims_server.Directory.{
  add_member, add_members, positions_by_handle, user_of, add_email, add_emails, add_ranger,
  add_rangers, answer, Position, RangerDirectory, ranger_directory, lookup_user, user_from_ranger,
}
use ranger_ims_server.Directory.Dictionary.{erase, put, look, has}
use ranger_ims_server.Prelude.{
  ℕ, String, ◌<>◌, ◌≡◌, refl, ◌⊎◌, if◌then◌else◌, true, false, none, some, List, [], ◌∷◌, ◌++◌,
  string_eq, nat_eq, option_eq, ◌==◌,
}
use ranger_ims_server.Text.{has_code}
use ranger_ims_server.Auth.Acl.{ImsUser}
use ranger_ims_server.Directory.Indexed.{IsDistinct, handles, map_option, ranger_user, meant}
use ranger_ims_server.Directory.Lookup.{lookup_user_finds}
use ranger_ims_server.Directory.Password.{
  colon, verified, verify, hash_password, verify-hash_password,
}
use ranger_ims_server.Directory.File.Current.{after, LoadedIn, IsCurrent, answers_are_current}
use ranger_ims_server.Directory.Clubhouse.{Fetch, Try, sql_error}
use ranger_ims_server.Directory.Clubhouse
use ranger_ims_server.Directory.Clubhouse.Loading.{personnel_tries_once}

abbrev hubcap : Ranger
hubcap = record {
  handle = "Hubcap";
  name = "Hub Cap";
  status = RangerStatus.active;
  email = "hubcap@example.com" ∷ "desk@example.com" ∷ [];
  enabled = true;
  directory_id = none;
  password = none;
}

abbrev bucket : Ranger
bucket = record hubcap { handle = "Bucket"; email = "desk@example.com" ∷ [] }

abbrev rangers : List Ranger
rangers = hubcap ∷ bucket ∷ []

abbrev operator : Position
operator = record { name = "Operator"; members = "Hubcap" ∷ "Tool" ∷ [] }

abbrev hubcap_user : ImsUser
hubcap_user = record {
  uid = "Hubcap";
  short_names = "Hubcap" ∷ [];
  active = true;
  groups = "Operator" ∷ [];
  hashed_password = none;
}

-- Two Rangers have the desk's address, so no user has it.
abbrev directory : RangerDirectory
directory = record {
  rangers = rangers;
  users_by_handle =
      ("Hubcap", hubcap_user)
      ∷ ("Bucket", record hubcap_user { uid = "Bucket"; short_names = "Bucket" ∷ []; groups = [] })
      ∷ [];
  users_by_email = ("hubcap@example.com", hubcap_user) ∷ [];
}

made : ranger_directory rangers (operator ∷ []) ≡ answer directory
unfolding ranger_directory string_eq add_rangers add_ranger has look add_emails add_email put
    user_of erase user_from_ranger positions_by_handle add_members add_member find_user after
    after_reload reload reload_modified keep_loaded parsed load find nat_eq from_mappings each
    members ranger_from_mapping
made = refl

emails_differ : IsDistinct hubcap.email
unfolding string_eq
emails_differ = (refl, (refl, tt))

members_differ : IsDistinct operator.members
unfolding string_eq
members_differ = (refl, (refl, tt))

lookup_user_finds_example :
    IsDistinct (handles rangers)
    × (lookup_user directory "hubcap@example.com"
        ≡ map_option (ranger_user (operator ∷ [])) (meant "hubcap@example.com" rangers))
lookup_user_finds_example =
    lookup_user_finds rangers (operator ∷ []) directory "hubcap@example.com"
      (emails_differ, ((refl, tt), tt)) (members_differ, tt) made

abbrev digest : String → String
digest s = if s == "saltsecret" then "a1" else "b2"

no_colon : has_code colon (digest ("salt" <> "secret")) ≡ false
unfolding has_code string_eq nat_eq
no_colon = refl

verify-hash_password_example :
    verify digest "other" (hash_password digest "secret" "salt")
    ≡ verified (digest ("salt" <> "other") == digest ("salt" <> "secret"))
verify-hash_password_example = verify-hash_password digest "secret" "other" "salt" no_colon

abbrev yaml : Json
yaml = object (
    field "schema" (number 0) (
      field "rangers"
        (array
          (cons (object (field "handle" (text "Hubcap") (field "enabled" (boolean true) end))) nil))
        (field "positions" (array nil) end)))

abbrev file : File
file = record { mtime = some 5; yaml = some yaml }

abbrev one_user : ImsUser
one_user = record hubcap_user { groups = [] }

found : (find_user "Hubcap" 2000000 file (after [] new_state)).0 ≡ answer (some one_user)
unfolding find_user after string_eq after_reload reload reload_modified keep_loaded parsed load find
    nat_eq from_mappings each members ranger_from_mapping ranger_directory add_rangers add_ranger
    has look lookup_user add_emails build_ranger freeze put user_of user_from_ranger
    positions_by_handle
found = refl

answers_are_current_example :
    (st : State) × ((st ≡ new_state)
      ⊎ LoadedIn ([] ++ record { now = 2000000; file = file } ∷ []) st)
    × IsCurrent 2000000 file st
    × (some one_user ≡ lookup_user st.directory "Hubcap")
answers_are_current_example = answers_are_current [] 2000000 file "Hubcap" (some one_user) found

abbrev failing : ℕ → Try
failing k = record { now = 100; fetch = sql_error; finished = 101 }

abbrev new_clubhouse : Clubhouse.State
new_clubhouse = record {
  personnel = [];
  positions = [];
  last_updated = 0;
  busy = false;
  error_count = 0;
}

personnel_tries_once_example :
    (o : Clubhouse.Outcome) × (Clubhouse.personnel 60 2 failing 0 new_clubhouse ≡ some o)
    × (Clubhouse.personnel 60 5 failing 0 new_clubhouse ≡ some o)
    × (o.1.busy ≡ false)
personnel_tries_once_example = personnel_tries_once 60 0 3 failing failing 0 new_clubhouse refl refl
