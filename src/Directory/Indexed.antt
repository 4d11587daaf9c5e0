-- ===== src/Directory/Indexed.antt =====
-- What a directory's dictionaries hold of an e-mail address and of a position's member.
use mathlib.Core.Path.{subst}
use ranger_ims_server.Prelude.{
  String, ◌≡◌, refl, sym, ap, ◌∙◌, Bool, true, false, Option, none, some, List, [], ◌∷◌, ◌++◌,
  append_assoc, append-nil, map, keep, first, elem, All, inl, inr, Bool-cases, string_eq, ◌==◌,
  if◌then◌else◌, arith,
}
use ranger_ims_server.Model.Ranger.{Ranger}
use ranger_ims_server.Auth.Acl.{ImsUser}
use ranger_ims_server.Directory.Dictionary.{look, has, look-put, look-erase}
use ranger_ims_server.Directory.{
  Position, or_empty, add_member, add_members, positions_by_handle, Users, user_from_ranger,
  user_of, add_email, add_emails, or_else,
}

abbrev pub IsDistinct : List String → Type 0
IsDistinct [] = Unit
IsDistinct (x ∷ xs) = (elem x xs ≡ false) × IsDistinct xs

-- The positions of a Ranger, by their lists of members
abbrev pub positions_of : String → List Position → List Position
positions_of handle positions = keep (λ (p : Position). elem handle p.members) positions

abbrev pub ranger_user : List Position → Ranger → ImsUser
ranger_user positions r =
    user_from_ranger r (map (λ (p : Position). p.name) (positions_of r.handle positions))

abbrev pub only : {A : Type 0} → List A → Option A
only [] = none
only (a ∷ []) = some a
only (a ∷ b ∷ rest) = none

abbrev pub owners : String → List Ranger → List Ranger
owners email rangers = keep (λ (r : Ranger). elem email r.email) rangers

abbrev pub named : String → List Ranger → Option Ranger
named term rangers = first (λ (r : Ranger). r.handle == term) rangers

-- The Ranger that a name stands for
abbrev pub meant : String → List Ranger → Option Ranger
meant term rangers = or_else (named term rangers) (only (owners term rangers))

abbrev pub map_option : {A B : Type 0} → (A → B) → Option A → Option B
map_option f none = none
map_option f (some a) = some (f a)

-- More than one
abbrev pub many : {A : Type 0} → List A → Bool
many [] = false
many (a ∷ []) = false
many (a ∷ b ∷ rest) = true

abbrev pub handles : List Ranger → List String
handles rangers = map (λ (r : Ranger). r.handle) rangers

-- What is kept of an e-mail address, for the users that have had it so far
unfoldable pub Keeps : Users → String → List ImsUser → Type 0
Keeps us e users = (elem e us.duplicate_emails ≡ many users) × (look e us.by_email ≡ only users)

abbrev pub one_if : {A : Type 0} → Bool → A → List A
one_if b a = if b then a ∷ [] else []

pub add_email-Keeps :
    (u : ImsUser) (email e : String) (us : Users) (users : List ImsUser)
    → Keeps us e users
    → Keeps (add_email u email us) e (users ++ one_if (email == e) u)
unfolding Keeps add_email has
add_email-Keeps u email e us [] (h, k) =
    ground (arith, look-put email e u us.by_email, look-erase email e us.by_email)
add_email-Keeps u email e us (v ∷ []) (h, k) =
    ground (arith, look-put email e u us.by_email, look-erase email e us.by_email)
add_email-Keeps u email e us (v ∷ w ∷ rest) (h, k) =
    ground (arith, look-put email e u us.by_email, look-erase email e us.by_email)

pub one_if-elem :
    {A : Type 0} (a : A) (as' : List A) (x e : String) (xs : List String)
    → elem x xs ≡ false
    → (as' ++ one_if (x == e) a) ++ one_if (elem e xs) a ≡ as' ++ one_if (elem e (x ∷ xs)) a
one_if-elem a as' x e xs new = elim (Bool-cases (x == e)) [
  | inl same ↦ ground (arith, same, new, append-nil (as' ++ a ∷ []))
  | inr other ↦ ground (arith, other, append-nil as')
]

-- An e-mail address counts once for each Ranger that has it.
pub add_emails-Keeps :
    (u : ImsUser) (emails : List String) (e : String) (us : Users) (users : List ImsUser)
    → IsDistinct emails
    → Keeps us e users
    → Keeps (add_emails u emails us) e (users ++ one_if (elem e emails) u)
unfolding add_emails
add_emails-Keeps u [] e us users d k = rw (append-nil users) k
add_emails-Keeps u (email ∷ emails) e us users (new, d) k =
    subst (Keeps (add_emails u emails (add_email u email us)) e)
      (one_if-elem u users email e emails new)
      (add_emails-Keeps u emails e (add_email u email us) (users ++ one_if (email == e) u) d
        (add_email-Keeps u email e us users k))

add_email-by_handle :
    (u : ImsUser) (email : String) (us : Users) → (add_email u email us).by_handle ≡ us.by_handle
unfolding add_email
add_email-by_handle u email us = ground arith

pub add_emails-by_handle :
    (u : ImsUser) (emails : List String) (us : Users)
    → (add_emails u emails us).by_handle ≡ us.by_handle
unfolding add_emails
add_emails-by_handle u [] us = refl
add_emails-by_handle u (email ∷ emails) us =
    add_emails-by_handle u emails (add_email u email us) ∙ add_email-by_handle u email us

add_member-look :
    (p : Position) (d : List (String × List Position)) (handle h : String)
    → or_empty (look h (add_member p d handle)) ≡ or_empty (look h d) ++ one_if (handle == h) p
unfolding add_member
add_member-look p d handle h = ground (
  arith,
  look-put handle h (or_empty (look handle d) ++ p ∷ []) d,
  append-nil (or_empty (look h d)),
)

add_members-look :
    (p : Position) (handles : List String) (d : List (String × List Position)) (h : String)
    → IsDistinct handles
    → or_empty (look h (add_members p handles d)) ≡ or_empty (look h d) ++ one_if (elem h handles) p
unfolding add_members
add_members-look p [] d h _ = sym (append-nil (or_empty (look h d)))
add_members-look p (handle ∷ handles) d h (new, distinct) =
    add_members-look p handles (add_member p d handle) h distinct
    ∙ ap (λ ps. ps ++ one_if (elem h handles) p) (add_member-look p d handle h)
    ∙ one_if-elem p (or_empty (look h d)) handle h handles new

positions_by_handle-look :
    (ps : List Position) (d : List (String × List Position)) (h : String)
    → All (λ (p : Position). IsDistinct p.members) ps
    → or_empty (look h (positions_by_handle ps d)) ≡ or_empty (look h d) ++ positions_of h ps
unfolding positions_by_handle
positions_by_handle-look [] d h _ = sym (append-nil (or_empty (look h d)))
positions_by_handle-look (p ∷ ps) d h (distinct, all) =
    rw
      (
        positions_by_handle-look ps (add_members p p.members d) h all,
        add_members-look p p.members d h distinct,
      )
      (ground (
        arith,
        append_assoc (or_empty (look h d)) (p ∷ []) (positions_of h ps),
        append-nil (or_empty (look h d)),
      ))

pub user_of_lem :
    (ps : List Position) (r : Ranger)
    → All (λ (p : Position). IsDistinct p.members) ps
    → user_of (positions_by_handle ps []) r ≡ ranger_user ps r
unfolding user_of look
user_of_lem ps r all =
    ap (λ qs. user_from_ranger r (map (λ (p : Position). p.name) qs))
      (positions_by_handle-look ps [] r.handle all)
