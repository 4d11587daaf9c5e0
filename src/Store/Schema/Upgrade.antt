-- ===== src/Store/Schema/Upgrade.antt =====
-- An upgrade ends, and where it succeeds the schema is up to date.
use ranger_ims_server.Prelude.{
  ℕ, zero, suc, ◌+◌, ◌≤◌, ◌<◌, String, Bool, ◌≡◌, refl, ap, ◌∙◌, true, false, Option, none, some,
  nat_eq, ◌==◌, ltb, leb, arith, ◌⊎◌, inl, inr, Bool-cases,
}
use ranger_ims_server.Model.Time.{ℤ, pos, negsuc}
use ranger_ims_server.Store.Values.{Error, Result, ok, err, storage_error}
use ranger_ims_server.Store.Schema.{
  SchemaStore, file_id, next_version, latest_version, sql_upgrade, check_version, after_upgrade,
  upgrade_from, from_version, upgrade_schema, upgrade_store,
}

outcome-cases :
    {S : Type 0} (r : Result (Unit {0}) × S)
    → ((e : Error) × (s : S) × (r ≡ (err e, s))) ⊎ ((s : S) × (r ≡ (ok tt, s)))
outcome-cases (err e, s) = inl (e, s, refl)
outcome-cases (ok tt, s) = inr (s, refl)

next_version-bounds :
    (current latest : ℕ)
    → current < latest
    → (current < next_version current latest) × (next_version current latest ≤ latest)
unfolding next_version
next_version-bounds current latest h = ground arith

module _ {S : Type 0} (store : SchemaStore S) where
  abbrev Outcome : Type 0
  Outcome = Result Bool × S

  check_version-ends :
      (current fuel latest : ℕ) (r : Result ℤ) (s : S) (go_on : ℕ → S → Option Outcome)
      → latest ≤ current + suc fuel
      → ((from : ℕ) (s' : S) → latest ≤ from + fuel → (o : Outcome) × (go_on from s' ≡ some o))
      → (o : Outcome) × (check_version store current go_on r s ≡ some o)
  unfolding check_version
  check_version-ends current fuel latest (err e) s go_on enough rest = (_, refl)
  check_version-ends current fuel latest (ok (negsuc k)) s go_on enough rest = (_, refl)
  check_version-ends current fuel latest (ok (pos from)) s go_on enough rest =
      elim (Bool-cases (leb from current)) [
        | inl older ↦ ((err storage_error, s), ground (arith, older))
        | inr newer ↦ let (o, done) = rest from s (ground arith) in (o, ground (arith, newer, done))
      ]

  upgrade_from-ends :
      (fuel latest current : ℕ) (s : S)
      → latest ≤ current + fuel
      → (o : Outcome) × (upgrade_from store fuel latest current s ≡ some o)
  unfolding upgrade_from after_upgrade
  upgrade_from-ends zero latest current s enough = ((ok true, s), ground arith)
  upgrade_from-ends (suc fuel) latest current s enough = elim (Bool-cases (ltb current latest)) [
    | inr done ↦ ((ok true, s), ground (arith, done))
    | inl behind ↦
        elim (outcome-cases (sql_upgrade store current (next_version current latest) s)) [
          | inl (e, s', failed) ↦ ((err e, s'), ground (arith, behind, failed))
          | inr (s', applied) ↦
              let (o, done) =
                check_version-ends current fuel latest (store.db_schema_version s') s'
                  (λ from s'. upgrade_from store fuel latest from s') enough
                  (λ from s' enough'. upgrade_from-ends fuel latest from s' enough') in
              (o, ground (arith, behind, applied, done))
        ]
  ]

  -- The version of the schema is `v`.
  abbrev pub HasVersion : S → ℕ → Type 0
  HasVersion s v = store.db_schema_version s ≡ ok (pos v)

  check_version-done :
      (current : ℕ) (r : Result ℤ) (s s' : S) (b : Bool) (go_on : ℕ → S → Option Outcome)
      → check_version store current go_on r s ≡ some (ok b, s')
      → (from : ℕ) × (r ≡ ok (pos from)) × (go_on from s ≡ some (ok b, s'))
  unfolding check_version
  check_version-done current (err e) s s' b go_on h = ground arith
  check_version-done current (ok (negsuc k)) s s' b go_on h = ground arith
  check_version-done current (ok (pos from)) s s' b go_on h = (from, refl, ground arith)

  upgrade_from-done :
      (fuel latest current : ℕ) (s s' : S) (b : Bool)
      → HasVersion s current
      → upgrade_from store fuel latest current s ≡ some (ok b, s')
      → (b ≡ true) × ((v : ℕ) × HasVersion s' v × (latest ≤ v))
  unfolding upgrade_from after_upgrade
  upgrade_from-done zero latest current s s' b at h = elim (Bool-cases (ltb current latest)) [
    | inl behind ↦ ground arith
    | inr done ↦ (ground arith, (current, ground arith, ground arith))
  ]
  upgrade_from-done (suc fuel) latest current s s' b at h = elim (Bool-cases (ltb current latest)) [
    | inr done ↦ (ground arith, (current, ground arith, ground arith))
    | inl behind ↦
        elim (outcome-cases (sql_upgrade store current (next_version current latest) s)) [
          | inl (e, t, failed) ↦ ground (arith, behind, failed)
          | inr (t, applied) ↦
              let (from, at', rest) =
                check_version-done current (store.db_schema_version t) t s' b
                  (λ from s'. upgrade_from store fuel latest from s')
                  (ground (arith, behind, applied)) in
              upgrade_from-done fuel latest from t s' b at' rest
        ]
  ]

  from_version-ends :
      (latest : ℕ) (r : Result ℤ) (s : S)
      → (o : Outcome) × (from_version store latest latest r s ≡ some o)
  unfolding from_version
  from_version-ends latest (err e) s = (_, refl)
  from_version-ends latest (ok (negsuc k)) s = (_, refl)
  from_version-ends latest (ok (pos v)) s = elim (Bool-cases (v == latest)) [
    | inl same ↦ ((ok false, s), ground (arith, same))
    | inr other ↦ elim (Bool-cases (ltb latest v)) [
      | inl newer ↦ ((err storage_error, s), ground (arith, other, newer))
      | inr older ↦
          let (o, done) = upgrade_from-ends latest latest v s (omega arith) in
          (o, ground (arith, other, older, done))
    ]
  ]

  -- The files of the versions on the way exist, and one that is applied leaves its own version.
  abbrev pub FilesApply : ℕ → Type 0
  FilesApply latest =
      (v : ℕ) (t : S)
      → v < latest
      → HasVersion t v
      → (sql : String) × (store.load_schema (file_id v (next_version v latest)) ≡ some sql)
        × ((t' : S) × (store.apply_schema sql t ≡ (ok tt, t'))
            × HasVersion t' (next_version v latest))

  upgrade_from-succeeds :
      (fuel latest current : ℕ) (s : S)
      → FilesApply latest
      → latest ≤ current + fuel
      → current ≤ latest
      → HasVersion s current
      → (s' : S) × (upgrade_from store fuel latest current s ≡ some (ok true, s'))
        × HasVersion s' latest
  unfolding upgrade_from after_upgrade sql_upgrade check_version
  upgrade_from-succeeds zero latest current s files enough below at =
      (s, ground arith, at ∙ ap (λ v. ok (pos v)) (omega arith))
  upgrade_from-succeeds (suc fuel) latest current s files enough below at =
      elim (Bool-cases (ltb current latest)) [
        | inr done ↦ (s, ground (arith, done), at ∙ ap (λ v. ok (pos v)) (ground arith))
        | inl behind ↦
            let (sql, found, (t, applied, at')) = files current s (ground arith) at in
            let (further, within) = next_version-bounds current latest (ground arith) in
            let (s', done, last) =
              upgrade_from-succeeds fuel latest (next_version current latest) t files (ground arith)
                within at' in
            (s', ground (arith, behind, found, applied, at', further, done), last)
      ]

-- An upgrade ends, whatever the store does: the latest version is fuel enough.
pub upgrade_schema_ends :
    {S : Type 0} (store : SchemaStore S) (target : Option ℕ) (s : S)
    → (outcome : Result Bool × S) × (upgrade_schema store target s ≡ some outcome)
unfolding upgrade_schema
upgrade_schema_ends store target s =
    from_version-ends store (latest_version store.schema_version target) (store.db_schema_version s)
      s

module _ {S : Type 0} (store : SchemaStore S) (latest : ℕ) (s s' : S) (b : Bool) where
  from_version-done :
      (r : Result ℤ)
      → store.db_schema_version s ≡ r
      → from_version store latest latest r s ≡ some (ok b, s')
      → (v : ℕ) × HasVersion store s v
        × (((b ≡ false) × (v ≡ latest) × (s' ≡ s))
            ⊎ ((b ≡ true) × (v < latest) × ((w : ℕ) × HasVersion store s' w × (latest ≤ w))))
  unfolding from_version
  from_version-done (err e) at h = ground arith
  from_version-done (ok (negsuc k)) at h = ground arith
  from_version-done (ok (pos v)) at h = elim (Bool-cases (v == latest)) [
    | inl same ↦ (v, at, inl (ground arith, ground arith, ground arith))
    | inr other ↦ elim (Bool-cases (ltb latest v)) [
      | inl newer ↦ ground (arith, other, newer)
      | inr older ↦
          let (same, (w, at', reached)) =
            upgrade_from-done store latest latest v s s' b at (ground (arith, other, older)) in
          (v, at, inr (same, ground (arith, other, older), (w, at', reached)))
    ]
  ]

-- Where an upgrade returns, the database had a version: either the latest, and then nothing has
-- changed and the upgrade returns false, or an older one, and then it returns true and the database has
-- the latest version now, or a later one.
pub upgrade_schema_result :
    {S : Type 0} (store : SchemaStore S) (target : Option ℕ) (s s' : S) (b : Bool)
    → upgrade_schema store target s ≡ some (ok b, s')
    → let latest = latest_version store.schema_version target in
      (v : ℕ) × HasVersion store s v
      × (((b ≡ false) × (v ≡ latest) × (s' ≡ s))
          ⊎ ((b ≡ true) × (v < latest) × ((w : ℕ) × HasVersion store s' w × (latest ≤ w))))
unfolding upgrade_schema
upgrade_schema_result store target s s' b h =
    from_version-done store (latest_version store.schema_version target) s s' b
      (store.db_schema_version s) refl h

-- An older database is brought to the latest version, and its connection closed, if the files of the
-- versions on the way exist and each leaves its own version.
pub upgrade_store_succeeds :
    {S : Type 0} (store : SchemaStore S) (s : S) (current : ℕ)
    → FilesApply store store.schema_version
    → HasVersion store s current
    → current < store.schema_version
    → (s' : S) × (upgrade_store store none s ≡ some (ok tt, store.disconnect s'))
      × HasVersion store s' store.schema_version
unfolding upgrade_store upgrade_schema from_version latest_version
upgrade_store_succeeds store s current files at older =
    let (s', done, last) =
      upgrade_from-succeeds store store.schema_version store.schema_version current s files
        (omega arith) (omega arith) at in
    (s', ground (arith, at, done), last)
