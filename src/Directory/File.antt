-- ===== src/Directory/File.antt =====
-- directory/file/_directory.py: a directory that is read from a file. What the library makes of the YAML
-- in the file are values of the kinds that JSON has.
pub mod Current
use ranger_ims_server.Prelude.{
  ℕ, ◌+◌, String, Bool, true, false, ◌&&◌, Option, none, some, List, [], ◌∷◌, string_eq, nat_eq,
  ◌==◌, leb, if◌then◌else◌,
}
use ranger_ims_server.Codec.Json.{
  Json, null, boolean, number, text, array, object, Fields, find, members,
}
use ranger_ims_server.Model.{freeze}
use ranger_ims_server.Model.Ranger.{
  Ranger, RangerStatus, active, inactive, vintage, other, build_ranger,
}
use ranger_ims_server.Auth.Acl.{ImsUser}
use ranger_ims_server.Directory.{
  Position, Answer, answer, directory_error, other_error, ◌>>=◌, RangerDirectory, ranger_directory,
  lookup_user,
}

-- `statusFromID`
unfoldable pub status_from_id : String → RangerStatus
status_from_id s =
    if s == "active"
    then active
    else if s == "inactive"
    then inactive
    else if s == "vintage"
    then vintage
    else other

-- A value that has to be a text
text_in : Option Json → Answer String
text_in (some (text s)) = answer s
text_in v = directory_error

text_or : String → Option Json → Answer String
unfolding text_in
text_or default none = answer default
text_or default (some v) = text_in (some v)

cons_text : Json → Answer (List String) → Answer (List String)
cons_text (text s) (answer rest) = answer (s ∷ rest)
cons_text v rest = directory_error

texts_of : List Json → Answer (List String)
unfolding cons_text
texts_of [] = answer []
texts_of (v ∷ vs) = cons_text v (texts_of vs)

texts_in : Option Json → Answer (List String)
unfolding texts_of
texts_in none = answer []
texts_in (some (array vs)) = texts_of (members vs)
texts_in v = directory_error

emails_in : Option Json → Answer (List String)
unfolding texts_in
emails_in (some (text s)) = answer (s ∷ [])
emails_in v = texts_in v

boolean_in : Option Json → Answer Bool
boolean_in (some (boolean b)) = answer b
boolean_in v = directory_error

password_in : Option Json → Answer (Option String)
password_in none = answer none
password_in (some null) = answer none
password_in (some (text s)) = answer (some s)
password_in v = directory_error

unfoldable pub ranger_from_mapping : Json → Answer Ranger
unfolding text_in text_or texts_of texts_in emails_in boolean_in password_in cons_text
ranger_from_mapping (object fs) = do
  handle ← text_in (find "handle" fs)
  name ← text_or "" (find "name" fs)
  status ← text_or "" (find "status" fs)
  email ← emails_in (find "email" fs)
  enabled ← boolean_in (find "enabled" fs)
  password ← password_in (find "password" fs)
  answer (
      build_ranger (record {
        handle = handle;
        name = name;
        status = status_from_id status;
        email = email;
        enabled = enabled;
        directory_id = none;
        password = password;
      }))
ranger_from_mapping v = directory_error

unfoldable pub position_from_mapping : Json → Answer Position
unfolding text_in texts_of texts_in cons_text
position_from_mapping (object fs) = do
  name ← text_in (find "name" fs)
  handles ← texts_in (find "members" fs)
  answer (record { name = name; members = freeze handles })
position_from_mapping v = directory_error

unfoldable pub each : {A : Type 0} → (Json → Answer A) → List Json → Answer (List A)
each f [] = answer []
each f (v ∷ vs) = do a ← f v; rest ← each f vs; answer (a ∷ rest)

-- `rangersFromMappings` and `positionsFromMappings`. A key that is missing stands for `()`, which is no
-- list either.
unfoldable pub from_mappings : {A : Type 0} → (Json → Answer A) → Option Json → Answer (List A)
from_mappings f (some (array vs)) = each f (members vs)
from_mappings f v = directory_error

-- `schemaVersion == 0`, which Python takes False for
is_zero : Option Json → Bool
is_zero (some (number n)) = n == 0
is_zero (some (boolean b)) = if b then false else true
is_zero v = false

load_parts : Fields → Answer RangerDirectory
load_parts fs = do
  rangers ← from_mappings ranger_from_mapping (find "rangers" fs)
  positions ← from_mappings position_from_mapping (find "positions" fs)
  ranger_directory rangers positions

unfoldable pub load : Json → Answer RangerDirectory
unfolding is_zero load_parts
load (object fs) = if is_zero (find "schema" fs) then load_parts fs else directory_error
load v = other_error

pub record State : Type 0 where
  pub directory : RangerDirectory
  pub last_load_time : ℕ

-- The file at one time: when it was modified, if it is there, and what is in it, if that can be read and
-- parsed
pub record File : Type 0 where
  pub mtime : Option ℕ
  pub yaml : Option Json

abbrev pub empty_directory : RangerDirectory
empty_directory = record { rangers = []; users_by_handle = []; users_by_email = [] }

abbrev pub new_state : State
new_state = record { directory = empty_directory; last_load_time = 0 }

-- `checkInterval`, in the microseconds that times are counted in
abbrev pub check_interval : ℕ
check_interval = 1000000

unfoldable pub parsed : Option Json → Answer RangerDirectory
parsed none = other_error
parsed (some yaml) = load yaml

unfoldable pub keep_loaded : ℕ → State → Answer RangerDirectory → Answer (Unit {0}) × State
keep_loaded now st (answer d) = (answer tt, record { directory = d; last_load_time = now })
keep_loaded now st directory_error = (directory_error, st)
keep_loaded now st other_error = (other_error, st)

unfoldable pub reload_modified : ℕ → File → Option ℕ → State → Answer (Unit {0}) × State
reload_modified now file none st = (other_error, st)
reload_modified now file (some mtime) st =
    if leb st.last_load_time mtime then keep_loaded now st (parsed file.yaml) else (answer tt, st)

unfoldable pub reload : ℕ → File → State → Answer (Unit {0}) × State
reload now file st =
    if leb (st.last_load_time + check_interval) now
    then reload_modified now file file.mtime st
    else (answer tt, st)

unfoldable pub after_reload :
    {A : Type 0} → (RangerDirectory → A) → Answer (Unit {0}) × State → Answer A × State
after_reload f (answer _, st) = (answer (f st.directory), st)
after_reload f (directory_error, st) = (directory_error, st)
after_reload f (other_error, st) = (other_error, st)

unfoldable pub personnel : ℕ → File → State → Answer (List Ranger) × State
personnel now file st = after_reload (λ (d : RangerDirectory). d.rangers) (reload now file st)

-- `lookupUser`
unfoldable pub find_user : String → ℕ → File → State → Answer (Option ImsUser) × State
find_user term now file st = after_reload (λ d. lookup_user d term) (reload now file st)
