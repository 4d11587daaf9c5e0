-- ===== src/Directory/File/Current.antt =====
-- How current the answers are of a directory that is read from a file.
use mathlib.Core.Path.{subst}
use ranger_ims_server.Prelude.{
  ℕ, ◌+◌, ◌<◌, String, ◌≡◌, refl, sym, ap, ◌∙◌, ◌≢◌, ◌⊎◌, inl, inr, Option, some, List, [], ◌∷◌,
  ◌++◌, leb, arith, Bool-cases, Option-cases, nat_eq,
}
use ranger_ims_server.Auth.Acl.{ImsUser}
use ranger_ims_server.Directory.{
  Answer, answer, directory_error, other_error, RangerDirectory, lookup_user,
}
use ranger_ims_server.Directory.Lookup.{Answer-cases}
use ranger_ims_server.Directory.File.{
  State, File, new_state, check_interval, parsed, keep_loaded, reload_modified, reload,
  after_reload, find_user,
}

-- A call of the directory: the time, and the file then
pub record Call : Type 0 where
  pub now : ℕ
  pub file : File

unfoldable pub after : List Call → State → State
after [] st = st
after (call ∷ calls) st = after calls (reload call.now call.file st).1

-- The file holds the directory.
abbrev pub Holds : File → RangerDirectory → Type 0
Holds file d = parsed file.yaml ≡ answer d

-- The state is that of one of the calls, whose file held the directory.
pub data LoadedIn : List Call → State → Type 0 where
  here :
      {call : Call} {calls : List Call} {st : State}
      → st.last_load_time ≡ call.now
      → Holds call.file st.directory
      → LoadedIn (call ∷ calls) st
  earlier :
      {call : Call} {calls : List Call} {st : State}
      → LoadedIn calls st
      → LoadedIn (call ∷ calls) st

-- The directory was loaded less than the interval ago, or since the file has been modified, or just now.
pub data IsCurrent (now : ℕ) (file : File) (st : State) : Type 0 where
  recent : now < st.last_load_time + check_interval → IsCurrent now file st
  unmodified : (m : ℕ) → file.mtime ≡ some m → m < st.last_load_time → IsCurrent now file st
  loaded : st.last_load_time ≡ now → Holds file st.directory → IsCurrent now file st

-- What a call does to the state, and when
data Branch (now : ℕ) (file : File) (st : State) : Type 0 where
  early :
      now < st.last_load_time + check_interval
      → reload now file st ≡ (answer tt, st)
      → Branch now file st
  old :
      (m : ℕ)
      → file.mtime ≡ some m
      → m < st.last_load_time
      → reload now file st ≡ (answer tt, st)
      → Branch now file st
  held :
      (d : RangerDirectory)
      → Holds file d
      → reload now file st ≡ (answer tt, record { directory = d; last_load_time = now })
      → Branch now file st
  failed : (reload now file st).0 ≢ answer tt → (reload now file st).1 ≡ st → Branch now file st

reload-Branch : (now : ℕ) (file : File) (st : State) → Branch now file st
unfolding reload reload_modified keep_loaded
reload-Branch now file st = elim (Bool-cases (leb (st.last_load_time + check_interval) now)) [
  | inr soon ↦ early (ground arith) (ground arith)
  | inl late ↦ elim (Option-cases file.mtime) [
    | inl gone ↦ failed (ground arith) (ground arith)
    | inr (m, there) ↦ elim (Bool-cases (leb st.last_load_time m)) [
      | inr before ↦ old m there (ground arith) (ground arith)
      | inl since ↦ elim (Answer-cases (parsed file.yaml)) [
        | inl (d, holds) ↦ held d holds (ground arith)
        | inr (inl bad) ↦ failed (ground arith) (ground arith)
        | inr (inr bad) ↦ failed (ground arith) (ground arith)
      ]
    ]
  ]
]

reload-LoadedIn :
    (call : Call) (calls : List Call) (st : State)
    → ((reload call.now call.file st).1 ≡ st)
      ⊎ LoadedIn (call ∷ calls) (reload call.now call.file st).1
reload-LoadedIn call calls st = elim (reload-Branch call.now call.file st) [
  | early _ h ↦ inl (ap (λ (p : Answer (Unit {0}) × State). p.1) h)
  | old _ _ _ h ↦ inl (ap (λ (p : Answer (Unit {0}) × State). p.1) h)
  | held d holds h ↦ inr (rw h (here refl holds))
  | failed _ h ↦ inl h
]

after-LoadedIn :
    (calls : List Call) (st : State) → (after calls st ≡ st) ⊎ LoadedIn calls (after calls st)
unfolding after
after-LoadedIn [] st = inl refl
after-LoadedIn (call ∷ calls) st = elim (after-LoadedIn calls (reload call.now call.file st).1) [
  | inr later ↦ inr (earlier later)
  | inl kept ↦ elim (reload-LoadedIn call calls st) [
    | inl same ↦ inl (kept ∙ same)
    | inr now_loaded ↦ inr (subst (LoadedIn (call ∷ calls)) (sym kept) now_loaded)
  ]
]

reload-IsCurrent :
    (now : ℕ) (file : File) (st : State)
    → (reload now file st).0 ≡ answer tt
    → IsCurrent now file (reload now file st).1
reload-IsCurrent now file st ended = elim (reload-Branch now file st) [
  | early soon h ↦ rw h (recent soon)
  | old m there before h ↦ rw h (unmodified m there before)
  | held d holds h ↦ rw h (loaded refl holds)
  | failed bad h ↦ elim (bad ended) [ ]
]

after_last :
    (calls : List Call) (call : Call) (st : State)
    → after (calls ++ call ∷ []) st ≡ (reload call.now call.file (after calls st)).1
unfolding after
after_last [] call st = refl
after_last (first ∷ calls) call st = after_last calls call (reload first.now first.file st).1

after_reload_lem :
    {A : Type 0} (f : RangerDirectory → A) (p : Answer (Unit {0}) × State) (a : A)
    → (after_reload f p).0 ≡ answer a
    → (p.0 ≡ answer tt) × (a ≡ f p.1.directory)
unfolding after_reload
after_reload_lem f (answer _, st) a h = (refl, cc)
after_reload_lem f (directory_error, st) a h = cc
after_reload_lem f (other_error, st) a h = cc

-- If a lookup is answered, after any calls of a new directory, then it is from the directory that the
-- file held at one of the calls, this one included, or from the initial one; and that was loaded less
-- than the interval ago, or since the file was modified, or just now.
pub answers_are_current :
    (calls : List Call) (now : ℕ) (file : File) (term : String) (found : Option ImsUser)
    → (find_user term now file (after calls new_state)).0 ≡ answer found
    → (st : State) × ((st ≡ new_state)
        ⊎ LoadedIn (calls ++ record { now = now; file = file } ∷ []) st)
      × IsCurrent now file st
      × (found ≡ lookup_user st.directory term)
unfolding find_user
answers_are_current calls now file term found h =
    let st = after calls new_state in
    let (ended, same) = after_reload_lem (λ d. lookup_user d term) (reload now file st) found h in
    let last = after_last calls (record { now = now; file = file }) new_state in
    (
      (reload now file st).1,
      elim (after-LoadedIn (calls ++ record { now = now; file = file } ∷ []) new_state) [
        | inl kept ↦ inl (sym last ∙ kept)
        | inr held_by ↦ inr (subst (LoadedIn _) last held_by)
      ],
      reload-IsCurrent now file st ended,
      same,
    )
