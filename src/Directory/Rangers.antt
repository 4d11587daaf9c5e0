-- ===== src/Directory/Rangers.antt =====
-- The loop over the Rangers from which a directory makes its dictionaries of users.
use mathlib.Core.Path.{subst}
use ranger_ims_server.Prelude.{
  String, ◌≡◌, refl, sym, ap, ◌∙◌, true, false, ◌||◌, some, List, [], ◌∷◌, ◌++◌, append_assoc,
  append-nil, map, elem, All, inl, inr, Bool-cases, Option-cases, string_eq, ◌==◌, if◌then◌else◌,
  arith,
}
use ranger_ims_server.Model.Ranger.{Ranger}
use ranger_ims_server.Auth.Acl.{ImsUser}
use ranger_ims_server.Directory.Dictionary.{look, put, has, look-put}
use ranger_ims_server.Directory.{
  Position, answer, Users, user_of, add_emails, add_ranger, add_rangers, no_users, or_else,
}
use ranger_ims_server.Directory.Indexed.{
  IsDistinct, named, owners, map_option, handles, Keeps, one_if, add_emails-Keeps,
  add_emails-by_handle,
}

answer_injective : {A : Type 0} (a b : A) → answer a ≡ answer b → a ≡ b
answer_injective a b h = cc

module _ (ps : List (String × List Position)) where
  unfoldable pub user : Ranger → ImsUser
  user r = user_of ps r

  -- The users are those of the Rangers that have been read.
  pub record Indexes (us : Users) (rangers : List Ranger) : Type 0 where
    pub by_email : (e : String) → Keeps us e (map user (owners e rangers))
    pub by_handle : (h : String) → look h us.by_handle ≡ map_option user (named h rangers)

  with_handle : Ranger → Users → Users
  with_handle r us = record us { by_handle = put r.handle (user r) us.by_handle }

  map-owners :
      (e : String) (rangers : List Ranger) (r : Ranger)
      → map user (owners e rangers) ++ one_if (elem e r.email) (user r)
        ≡ map user (owners e (rangers ++ r ∷ []))
  map-owners e [] r = ground arith
  map-owners e (q ∷ rangers) r = ground (arith, map-owners e rangers r)

  named-append :
      (h : String) (rangers : List Ranger) (r : Ranger)
      → named h (rangers ++ r ∷ []) ≡ or_else (named h rangers) (named h (r ∷ []))
  unfolding or_else
  named-append h [] r = refl
  named-append h (q ∷ rangers) r = ground (arith, named-append h rangers r)

  look-new :
      (h : String) (us : Users) (rangers : List Ranger) (r : Ranger)
      → has r.handle us.by_handle ≡ false
      → look h us.by_handle ≡ map_option user (named h rangers)
      → (if r.handle == h then some (user r) else look h us.by_handle)
        ≡ map_option user (or_else (named h rangers) (named h (r ∷ [])))
  unfolding has or_else
  look-new h us rangers r new old = elim (Option-cases (named h rangers)) [
    | inl unnamed ↦ ground (arith, unnamed)
    | inr (q, found) ↦ ground (arith, found)
  ]

  with_handle-Keeps :
      (r : Ranger) (us : Users) (e : String) (users : List ImsUser)
      → Keeps us e users
      → Keeps (with_handle r us) e users
  unfolding Keeps with_handle
  with_handle-Keeps r us e users k = k

  add_ranger-Indexes :
      (r : Ranger) (us : Users) (rangers : List Ranger)
      → IsDistinct r.email
      → has r.handle us.by_handle ≡ false
      → Indexes us rangers
      → Indexes (add_emails (user r) r.email (with_handle r us)) (rangers ++ r ∷ [])
  unfolding with_handle
  add_ranger-Indexes r us rangers distinct new i = record {
    by_email = λ e. subst (Keeps _ e) (map-owners e rangers r) (
        add_emails-Keeps (user r) r.email e (with_handle r us) (map user (owners e rangers))
          distinct (with_handle-Keeps r us e (map user (owners e rangers)) (i.by_email e)));
    by_handle = λ h.
        ap (look h) (add_emails-by_handle (user r) r.email (with_handle r us))
        ∙ look-put r.handle h (user r) us.by_handle
        ∙ look-new h us rangers r new (i.by_handle h)
        ∙ ap (map_option user) (sym (named-append h rangers r));
  }

  -- Rangers whose handles have not been used, and differ, are added.
  pub add_rangers-Indexes :
      (rest : List Ranger) (us us' : Users) (rangers : List Ranger)
      → All (λ (r : Ranger). IsDistinct r.email) rest
      → add_rangers ps rest us ≡ answer us'
      → Indexes us rangers
      → Indexes us' (rangers ++ rest)
  unfolding add_rangers add_ranger with_handle user
  add_rangers-Indexes [] us us' rangers _ h i =
      subst (Indexes us') (sym (append-nil rangers))
        (subst (λ v. Indexes v rangers) (answer_injective us us' h) i)
  add_rangers-Indexes (r ∷ rest) us us' rangers (distinct, all) h i =
      elim (Bool-cases (has r.handle us.by_handle)) [
        | inl used ↦ ground (arith, used)
        | inr new ↦ subst (Indexes us') (append_assoc rangers (r ∷ []) rest) (
            add_rangers-Indexes rest _ us' (rangers ++ r ∷ []) all (ground (arith, new, h))
              (add_ranger-Indexes r us rangers distinct new i))
      ]

  -- The users after one Ranger more
  more : Ranger → Users → Users
  more r us = add_emails (user r) r.email (with_handle r us)

  has-more :
      (r : Ranger) (us : Users) (h : String)
      → has h (more r us).by_handle ≡ (r.handle == h || has h us.by_handle)
  unfolding has more with_handle
  has-more r us h =
      rw
        (
          add_emails-by_handle (user r) r.email (with_handle r us),
          look-put r.handle h (user r) us.by_handle,
        )
        (ground arith)

  -- No Ranger's handle is used already.
  unfoldable pub Unused : List Ranger → Users → Type 0
  Unused rest us = (h : String) → elem h (handles rest) ≡ true → has h us.by_handle ≡ false

  pub add_rangers_complete :
      (rest : List Ranger) (us : Users)
      → IsDistinct (handles rest)
      → Unused rest us
      → (us' : Users) × (add_rangers ps rest us ≡ answer us')
  unfolding add_rangers add_ranger Unused more with_handle user
  add_rangers_complete [] us _ _ = (us, refl)
  add_rangers_complete (r ∷ rest) us (once, distinct) unused =
      let new = unused r.handle (ground arith) in
      let (us', h) =
        add_rangers_complete rest (more r us) distinct
          (λ h. λ k. ground (arith, has-more r us h, unused h)) in
      (us', ground (arith, new, h))

  pub add_rangers_sound :
      (rest : List Ranger) (us us' : Users)
      → add_rangers ps rest us ≡ answer us'
      → IsDistinct (handles rest) × Unused rest us
  unfolding add_rangers add_ranger Unused more with_handle user
  add_rangers_sound [] us us' h = (tt, λ h. λ k. cc)
  add_rangers_sound (r ∷ rest) us us' h = elim (Bool-cases (has r.handle us.by_handle)) [
    | inl used ↦ ground (arith, used)
    | inr new ↦
        let (distinct, unused) = add_rangers_sound rest (more r us) us' (ground (arith, new, h)) in
        (
          (ground (arith, unused r.handle, has-more r us r.handle), distinct),
          λ h. λ k. ground (arith, unused h, has-more r us h),
        )
  ]

pub no_users-Indexes : (ps : List (String × List Position)) → Indexes ps no_users []
unfolding Keeps look
no_users-Indexes ps = record { by_email = λ e. (refl, refl); by_handle = λ h. refl }
