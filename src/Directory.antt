-- ===== src/Directory.antt =====
-- directory/_directory.py and model/_position.py: users that are looked up among Rangers.
pub mod Dictionary
pub mod Indexed
pub mod Rangers
pub mod Lookup
pub mod Password
pub mod File
pub mod Clubhouse
use ranger_ims_server.Prelude.{
  String, Bool, false, Option, none, some, List, [], ◌∷◌, ◌++◌, map, elem, string_eq, ◌==◌,
  if◌then◌else◌,
}
use ranger_ims_server.Model.{freeze}
use ranger_ims_server.Model.Ranger.{Ranger}
use ranger_ims_server.Auth.Acl.{ImsUser}
use Dictionary.{look, put, erase, has}

pub record Position : Type 0 where
  pub name : String
  pub members : List String

-- What a directory gives, or the exception that it raises
pub data Answer (A : Type 0) : Type 0 where
  directory_error other_error : Answer A
  answer : A → Answer A

infixl 5 ◌>>=◌
abbrev pub ◌>>=◌ : {A B : Type 0} → Answer A → (A → Answer B) → Answer B
directory_error >>= next = directory_error
other_error >>= next = other_error
answer a >>= next = next a

unfoldable pub user_from_ranger : Ranger → List String → ImsUser
user_from_ranger ranger groups = record {
  uid = ranger.handle;
  short_names = ranger.handle ∷ [];
  active = ranger.enabled;
  groups = groups;
  hashed_password = ranger.password;
}

abbrev pub or_empty : {A : Type 0} → Option (List A) → List A
or_empty none = []
or_empty (some xs) = xs

-- `positionsByHandle.setdefault(handle, []).append(position)`
unfoldable pub add_member :
    Position → List (String × List Position) → String → List (String × List Position)
add_member position d handle = put handle (or_empty (look handle d) ++ position ∷ []) d

unfoldable pub add_members :
    Position → List String → List (String × List Position) → List (String × List Position)
add_members position [] d = d
add_members position (handle ∷ handles) d =
    add_members position handles (add_member position d handle)

unfoldable pub positions_by_handle :
    List Position → List (String × List Position) → List (String × List Position)
positions_by_handle [] d = d
positions_by_handle (position ∷ positions) d =
    positions_by_handle positions (add_members position position.members d)

-- The users that have been found so far
pub record Users : Type 0 where
  pub by_handle : List (String × ImsUser)
  pub by_email : List (String × ImsUser)
  pub duplicate_emails : List String

unfoldable pub add_email : ImsUser → String → Users → Users
add_email user email us =
    if elem email us.duplicate_emails
    then us
    else if has email us.by_email
    then record us {
      duplicate_emails = email ∷ us.duplicate_emails;
      by_email = erase email us.by_email;
    }
    else record us { by_email = put email user us.by_email }

unfoldable pub add_emails : ImsUser → List String → Users → Users
add_emails user [] us = us
add_emails user (email ∷ emails) us = add_emails user emails (add_email user email us)

unfoldable pub user_of : List (String × List Position) → Ranger → ImsUser
user_of positions ranger =
    user_from_ranger ranger
      (map (λ (p : Position). p.name) (or_empty (look ranger.handle positions)))

unfoldable pub add_ranger : List (String × List Position) → Ranger → Users → Answer Users
add_ranger positions ranger us =
    if has ranger.handle us.by_handle
    then directory_error
    else answer (
        add_emails (user_of positions ranger) ranger.email
          (record us { by_handle = put ranger.handle (user_of positions ranger) us.by_handle }))

unfoldable pub add_rangers : List (String × List Position) → List Ranger → Users → Answer Users
add_rangers positions [] us = answer us
add_rangers positions (ranger ∷ rangers) us = do
  more ← add_ranger positions ranger us
  add_rangers positions rangers more

abbrev pub no_users : Users
no_users = record { by_handle = []; by_email = []; duplicate_emails = [] }

pub record RangerDirectory : Type 0 where
  pub rangers : List Ranger
  pub users_by_handle : List (String × ImsUser)
  pub users_by_email : List (String × ImsUser)

abbrev pub directory_from : List Ranger → Users → Answer RangerDirectory
directory_from rangers us =
    answer
      (record { rangers = rangers; users_by_handle = us.by_handle; users_by_email = us.by_email })

-- `RangerDirectory(rangers=…, positions=…)`
unfoldable pub ranger_directory : List Ranger → List Position → Answer RangerDirectory
ranger_directory rangers positions =
    add_rangers (positions_by_handle positions []) rangers no_users >>= directory_from rangers

unfoldable pub or_else : {A : Type 0} → Option A → Option A → Option A
or_else none other = other
or_else (some a) other = some a

unfoldable pub lookup_user : RangerDirectory → String → Option ImsUser
unfolding or_else
lookup_user d term = or_else (look term d.users_by_handle) (look term d.users_by_email)
