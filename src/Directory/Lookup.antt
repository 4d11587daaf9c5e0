-- ===== src/Directory/Lookup.antt =====
-- Which user a name stands for: a Ranger's handle, or an e-mail address that only one Ranger has.
use ranger_ims_server.Prelude.{
  String, ◌≡◌, ◌↔◌, ◌⊎◌, refl, ap, Option, none, some, List, [], ◌∷◌, fun_ext, map, All, inl, inr,
  string_eq, arith,
}
use ranger_ims_server.Model.Ranger.{Ranger}
use ranger_ims_server.Directory.Dictionary.{look, has}
use ranger_ims_server.Directory.{
  Position, Answer, answer, directory_error, other_error, ◌>>=◌, positions_by_handle, Users,
  add_rangers, no_users, RangerDirectory, directory_from, ranger_directory, lookup_user, or_else,
}
use ranger_ims_server.Directory.Indexed.{
  IsDistinct, ranger_user, meant, only, map_option, handles, Keeps, user_of_lem,
}
use ranger_ims_server.Directory.Rangers.{
  user, Indexes, Unused, add_rangers-Indexes, add_rangers_complete, add_rangers_sound,
  no_users-Indexes,
}

pub Answer-cases :
    {A : Type 0} (o : Answer A)
    → ((a : A) × (o ≡ answer a)) ⊎ (o ≡ directory_error) ⊎ (o ≡ other_error)
Answer-cases (answer a) = inl (a, refl)
Answer-cases directory_error = inr (inl refl)
Answer-cases other_error = inr (inr refl)

directory_made :
    (rangers : List Ranger) (positions : List Position) (d : RangerDirectory)
    → ranger_directory rangers positions ≡ answer d
    → (us : Users) × (add_rangers (positions_by_handle positions []) rangers no_users ≡ answer us)
      × (d.users_by_handle ≡ us.by_handle)
      × (d.users_by_email ≡ us.by_email)
unfolding ranger_directory
directory_made rangers positions d h =
    elim (Answer-cases (add_rangers (positions_by_handle positions []) rangers no_users)) [
      | inl (us, made) ↦ (us, made, ground (arith, made), ground (arith, made))
      | inr (inl failed) ↦ ground (arith, failed)
      | inr (inr failed) ↦ ground (arith, failed)
    ]

map-only : {A B : Type 0} (f : A → B) (xs : List A) → only (map f xs) ≡ map_option f (only xs)
map-only f [] = refl
map-only f (x ∷ []) = refl
map-only f (x ∷ y ∷ xs) = refl

or_else-map :
    {A B : Type 0} (f : A → B) (a b : Option A)
    → or_else (map_option f a) (map_option f b) ≡ map_option f (or_else a b)
unfolding or_else
or_else-map f none b = refl
or_else-map f (some a) b = refl

-- The constructor of a directory accepts Rangers exactly if their handles differ.
pub ranger_directory_iff :
    (rangers : List Ranger) (positions : List Position)
    → ((d : RangerDirectory) × (ranger_directory rangers positions ≡ answer d))
      ↔ IsDistinct (handles rangers)
unfolding ranger_directory Unused has look
ranger_directory_iff rangers positions = (
  (λ (d, h).
      let (us, made, _, _) = directory_made rangers positions d h in
      (add_rangers_sound (positions_by_handle positions []) rangers no_users us made).0),
  (λ distinct.
      let (us, made) =
        add_rangers_complete (positions_by_handle positions []) rangers no_users distinct
          (λ h. λ k. refl) in
      (_, ap (λ o. o >>= directory_from rangers) made)),
)

looked_up :
    (positions : List Position) (rangers : List Ranger) (d : RangerDirectory) (us : Users)
    (term : String)
    → All (λ (p : Position). IsDistinct p.members) positions
    → Indexes (positions_by_handle positions []) us rangers
    → d.users_by_handle ≡ us.by_handle
    → d.users_by_email ≡ us.by_email
    → lookup_user d term ≡ map_option (ranger_user positions) (meant term rangers)
unfolding lookup_user Keeps user
looked_up positions rangers d us term members i handles_same emails_same =
    rw (handles_same, emails_same, i.by_handle term, (i.by_email term).1, map-only, or_else-map)
      (ap (λ f. map_option f (meant term rangers)) (fun_ext (λ r. user_of_lem positions r members)))

-- In a directory of Rangers, whose handles then differ, a name is looked up as the Ranger who has it as
-- a handle, or else as the only Ranger who has it as an e-mail address; the user's groups are the names
-- of the positions that the Ranger's handle is a member of, in their order. Lists of members and of
-- addresses are to have no repetitions, as sets have none.
pub lookup_user_finds :
    (rangers : List Ranger) (positions : List Position) (d : RangerDirectory) (term : String)
    → All (λ (r : Ranger). IsDistinct r.email) rangers
    → All (λ (p : Position). IsDistinct p.members) positions
    → ranger_directory rangers positions ≡ answer d
    → IsDistinct (handles rangers)
      × (lookup_user d term ≡ map_option (ranger_user positions) (meant term rangers))
lookup_user_finds rangers positions d term emails members h =
    let ps = positions_by_handle positions [] in
    let (us, made, handles_same, emails_same) = directory_made rangers positions d h in
    let i = add_rangers-Indexes ps rangers no_users us [] emails made (no_users-Indexes ps) in
    (
      (ranger_directory_iff rangers positions).0 (d, h),
      looked_up positions rangers d us term members i handles_same emails_same,
    )
