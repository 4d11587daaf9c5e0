-- ===== src/Directory/Clubhouse/Loading.antt =====
-- What a call for the personnel does where the database of the other system fails.
use ranger_ims_server.Prelude.{
  String, ℕ, suc, ◌+◌, ◌<◌, ◌≡◌, refl, sym, true, false, none, some, [], inl, inr, ltb, arith,
  nat_eq, Bool-cases,
}
use ranger_ims_server.Directory.{answer, or_else}
use ranger_ims_server.Directory.Clubhouse.{
  Fetch, fetched, sql_error, cancelled, other_exception, Try, State, failed, set_busy, loaded,
  Outcome, give_up, attempt, personnel, lookup_user, among, chosen, ranger_for,
}

module _ (interval : ℕ) where
  attempt-some :
      (again : Outcome) (t : Try) (st : State) (f : Fetch)
      → t.fetch ≡ f
      → (o : Outcome) × (attempt interval (some again) t st ≡ some o)
  unfolding attempt
  attempt-some again t st (fetched persons titles join) h = (
    (
      answer (loaded persons titles join t.finished st).personnel,
      loaded persons titles join t.finished st,
    ),
    rw h refl,
  )
  attempt-some again t st cancelled h =
      (give_up interval st.last_updated t.now (failed st), rw h refl)
  attempt-some again t st other_exception h =
      (give_up interval st.last_updated t.now (failed st), rw h refl)
  attempt-some again t st sql_error h = elim (Bool-cases (ltb (suc st.error_count) 2)) [
    | inl first ↦ (again, ground (arith, h, first))
    | inr later ↦ (give_up interval st.last_updated t.now (failed st), ground (arith, h, later))
  ]

  personnel-some :
      (fuel : ℕ) (tries : ℕ → Try) (k : ℕ) (st : State)
      → st.busy ≡ false
      → (o : Outcome) × (personnel interval (suc (suc fuel)) tries k st ≡ some o)
        × (o.1.busy ≡ false)
  unfolding personnel
  personnel-some fuel tries k st h =
      elim (Bool-cases (ltb (st.last_updated + interval) (tries k).now)) [
        | inr fresh ↦ ((answer st.personnel, st), ground (arith, h, fresh), h)
        | inl old ↦
            let (o, made) =
              attempt-some (answer st.personnel, failed (set_busy true st)) (tries k)
                (set_busy true st) (tries k).fetch refl in
            ((o.0, set_busy false o.1), rw (h, old, made) refl, refl)
      ]

-- A call for the personnel ends after two tries at most, and leaves the directory not busy; its outcome
-- rests on nothing but its first try, so that the recursive call for a second one reads nothing.
pub personnel_tries_once :
    (interval n m : ℕ) (tries other_tries : ℕ → Try) (k : ℕ) (st : State)
    → st.busy ≡ false
    → tries k ≡ other_tries k
    → (o : Outcome) × (personnel interval (suc (suc n)) tries k st ≡ some o)
      × (personnel interval (suc (suc m)) other_tries k st ≡ some o)
      × (o.1.busy ≡ false)
unfolding personnel
personnel_tries_once interval n m tries other_tries k st h same =
    let (o, made, idle) = personnel-some interval n tries k st h in
    (o, made, rw (sym same) made, idle)

-- At the first database error since a load, a call that finds the personnel expired answers with them as
-- they are, all the same, and does not raise.
pub failed_load_unnoticed :
    (interval n : ℕ) (tries : ℕ → Try) (k : ℕ) (st : State)
    → st.busy ≡ false
    → st.last_updated + interval < (tries k).now
    → (tries k).fetch ≡ sql_error
    → st.error_count ≡ 0
    → personnel interval (suc (suc n)) tries k st
      ≡ some (answer st.personnel, record st { last_updated = 0; error_count = 1 })
unfolding personnel attempt
failed_load_unnoticed interval n tries k st idle old error count =
    ground (arith, idle, error, count)

-- If there has been no load before such an error, then the lookup finds nobody.
pub lookup_after_failure :
    (interval n : ℕ) (term : String) (tries : ℕ → Try) (k : ℕ) (st : State)
    → st.busy ≡ false
    → st.last_updated + interval < (tries k).now
    → (tries k).fetch ≡ sql_error
    → st.error_count ≡ 0
    → st.personnel ≡ []
    → lookup_user interval (suc (suc n)) term tries k st
      ≡ some (answer none, record st { last_updated = 0; error_count = 1 })
unfolding lookup_user among ranger_for chosen or_else
lookup_after_failure interval n term tries k st idle old error count nobody =
    rw (failed_load_unnoticed interval n tries k st idle old error count, nobody) refl
