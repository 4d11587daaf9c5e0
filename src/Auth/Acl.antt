-- ===== src/Auth/Acl.antt =====
-- Matching a user against the access list of an event.
pub mod Matching
use ranger_ims_server.Prelude.{
  String, ◌<>◌, Bool, true, false, not, ◌&&◌, Option, none, some, List, any, elem, string_eq,
  if◌then◌else◌,
}

-- directory/_directory.py: `class DirectoryUser`
pub record ImsUser : Type 0 where
  pub uid : String
  pub short_names : List String
  pub active : Bool
  pub groups : List String
  pub hashed_password : Option String

-- `requireActive` is a setting of the provider.
unfoldable pub match_acl : Bool → Option ImsUser → List String → Bool
match_acl require_active none acl = elem "**" acl
match_acl require_active (some user) acl =
    if elem "**" acl
    then true
    else if require_active && not user.active
    then false
    else if elem "*" acl
    then true
    else if any (λ short_name. elem ("person:" <> short_name) acl) user.short_names
    then true
    else any (λ group. elem ("position:" <> group) acl) user.groups
