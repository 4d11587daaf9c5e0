-- ===== src/Auth/Provider/Rights.antt =====
-- Which authorizations a user has, flag by flag.
use ranger_ims_server.Prelude.{
  String, Bool, ◌≡◌, refl, true, false, ◌||◌, ◌⊎◌, inl, inr, ◌↔◌, Option, none, some, List, any,
  elem, string_eq, arith,
}
use ranger_ims_server.Auth.Authorization.{Authorization, nothing}
use ranger_ims_server.Auth.Acl.{ImsUser, match_acl}
use ranger_ims_server.Auth.Acl.Matching.{Matches, match_acl_iff}
use ranger_ims_server.Auth.Provider.{
  Settings, AccessLists, global_rights, event_rights, authorizations_for_user,
}

abbrev pub is_admin : Settings → Option ImsUser → Bool
is_admin s none = false
is_admin s (some user) = any (λ name. elem name s.admin_users) user.short_names

abbrev pub is_some {ℓ} : {A : Type ℓ} → Option A → Bool
is_some none = false
is_some (some _) = true

-- The authorizations, each by its own rule.
pub record AreRights (s : Settings) (access : AccessLists) (user : Option ImsUser) (e : String)
    (granted : Authorization) : Type 0 where
  pub admin : granted.ims_admin ≡ is_admin s user
  pub personnel : granted.read_personnel ≡ is_some user
  pub writes : (granted.write_incidents ≡ true) ↔ Matches s.require_active (access.writers e) user
  pub reads : (granted.read_incidents ≡ true) ↔ (
      Matches s.require_active (access.writers e) user
      ⊎ Matches s.require_active (access.readers e) user)
  pub reports : (granted.write_incident_reports ≡ true) ↔ (
      Matches s.require_active (access.writers e) user
      ⊎ Matches s.require_active (access.reporters e) user)

iff_trans : {A B C : Type 0} → A ↔ B → B ↔ C → A ↔ C
iff_trans f g = (λ a. g.0 (f.0 a), λ c. f.1 (g.1 c))

or_iff : {P Q : Type 0} (a b : Bool) → (a ≡ true) ↔ P → (b ≡ true) ↔ Q → ((a || b) ≡ true) ↔ (P ⊎ Q)
or_iff true b f g = (λ _. inl (f.0 refl), λ _. refl)
or_iff false b f g = (λ h. inr (g.0 h), λ x. elim x [ inl p ↦ cc (f.1 p) | inr q ↦ g.1 q ])

eq_iff_of_eq : {a b : Bool} → a ≡ b → (a ≡ true) ↔ (b ≡ true)
eq_iff_of_eq p = (λ h. cc, λ h. cc)

global_flags :
    (s : Settings) (user : Option ImsUser)
    → global_rights s user
      ≡ record nothing { ims_admin = is_admin s user; read_personnel = is_some user }
unfolding global_rights
global_flags s none = refl
global_flags s (some user) = ground arith

module _ (s : Settings) (access : AccessLists) (user : Option ImsUser) (e : String) where
  abbrev rights : Authorization
  rights = authorizations_for_user s access user (some e)

  abbrev passes : List String → Bool
  passes acl = match_acl s.require_active user acl

  -- The flags as Boolean tests.
  flags :
      (rights.ims_admin ≡ is_admin s user)
      × (rights.read_personnel ≡ is_some user)
      × (rights.write_incidents ≡ passes (access.writers e))
      × (rights.read_incidents ≡ (passes (access.writers e) || passes (access.readers e)))
      × (rights.write_incident_reports ≡ (passes (access.writers e) || passes (access.reporters e)))
  unfolding authorizations_for_user event_rights
  flags = simp global_flags (ground arith)

  pub write_incidents_lem : rights.write_incidents ≡ passes (access.writers e)
  write_incidents_lem = flags.2

  -- For an event, a user has each flag exactly by its rule: the administrators' list, being logged in,
  -- the writers' list, the writers' or the readers' list, the writers' or the reporters' list.
  pub authorizations_for_user-AreRights : AreRights s access user e rights
  authorizations_for_user-AreRights =
      let (a, p, w, r, t) = flags in
      let iff = λ (acl : List String). match_acl_iff s.require_active user acl in
      record {
        admin = a;
        personnel = p;
        writes = iff_trans (eq_iff_of_eq w) (iff (access.writers e));
        reads =
            iff_trans (eq_iff_of_eq r)
              (or_iff _ _ (iff (access.writers e)) (iff (access.readers e)));
        reports =
            iff_trans (eq_iff_of_eq t)
              (or_iff _ _ (iff (access.writers e)) (iff (access.reporters e)));
      }

-- A user who is not active has no rights in an event, apart from lists that hold "**", where the
-- provider asks for active users.
pub inactive_no_rights :
    (s : Settings) (access : AccessLists) (user : ImsUser) (e : String)
    → s.require_active ≡ true
    → user.active ≡ false
    → elem "**" (access.writers e) ≡ false
    → elem "**" (access.readers e) ≡ false
    → elem "**" (access.reporters e) ≡ false
    → authorizations_for_user s access (some user) (some e)
      ≡ authorizations_for_user s access (some user) none
unfolding authorizations_for_user event_rights match_acl
inactive_no_rights s access user e req inactive w r t = ground arith
