-- ===== src/Store/Schema.antt =====
-- store/_db.py: `class DatabaseManager`, which brings the schema of a database up to date.
pub mod Upgrade
use ranger_ims_server.Prelude.{
  ℕ, zero, suc, ◌+◌, String, ◌<>◌, Bool, true, false, Option, none, some, nat_eq, ◌==◌, ltb, leb,
  if◌then◌else◌,
}
use ranger_ims_server.Text.{show}
use ranger_ims_server.Model.Time.{ℤ, pos, negsuc}
use ranger_ims_server.Store.Values.{Error, Result, ok, err, storage_error}

-- What the manager uses of a store, whose state is `S`: the version of the schema that the store is
-- for, the schema files, the execution of one of them, the version that the database has, and the end
-- of the connection.
pub record SchemaStore (S : Type 0) : Type 0 where
  pub schema_version : ℕ
  pub load_schema : String → Option String
  pub apply_schema : String → S → Result (Unit {0}) × S
  pub db_schema_version : S → Result ℤ
  pub disconnect : S → S

-- `fileID`
unfoldable pub file_id : ℕ → ℕ → String
file_id zero to = show to
file_id (suc from) to = show to <> ("-from-" <> show (suc from))

unfoldable pub next_version : ℕ → ℕ → ℕ
next_version from latest = if from == 0 then latest else from + 1

-- `targetVersion`, or the store's version
unfoldable pub latest_version : ℕ → Option ℕ → ℕ
latest_version version none = version
latest_version version (some target) = target

module _ {S : Type 0} (store : SchemaStore S) where
  -- `sqlUpgrade`
  unfoldable pub sql_upgrade : ℕ → ℕ → S → Result (Unit {0}) × S
  sql_upgrade from to s = elim (store.load_schema (file_id from to)) [
    | none ↦ (err storage_error, s)
    | some sql ↦ store.apply_schema sql s
  ]

  -- The body of the loop, in its last part: `go_on` is the next round.
  check_version : ℕ → (ℕ → S → Option (Result Bool × S)) → Result ℤ → S → Option (Result Bool × S)
  check_version current go_on (err e) s = some (err e, s)
  check_version current go_on (ok (negsuc k)) s = some (err storage_error, s)
  check_version current go_on (ok (pos from)) s = elim (leb from current) [
    | true ↦ some (err storage_error, s)
    | false ↦ go_on from s
  ]

  after_upgrade :
      ℕ → (ℕ → S → Option (Result Bool × S)) → Result (Unit {0}) × S → Option (Result Bool × S)
  after_upgrade current go_on (err e, s) = some (err e, s)
  after_upgrade current go_on (ok _, s) = check_version current go_on (store.db_schema_version s) s

  -- The loop: `none` if the fuel does not last.
  unfoldable pub upgrade_from : ℕ → ℕ → ℕ → S → Option (Result Bool × S)
  unfolding check_version after_upgrade
  upgrade_from zero latest current s = if ltb current latest then none else some (ok true, s)
  upgrade_from (suc fuel) latest current s = elim (ltb current latest) [
    | false ↦ some (ok true, s)
    | true ↦
        after_upgrade current (λ from s'. upgrade_from fuel latest from s')
          (sql_upgrade current (next_version current latest) s)
  ]

  from_version : ℕ → ℕ → Result ℤ → S → Option (Result Bool × S)
  from_version fuel latest (err e) s = some (err e, s)
  from_version fuel latest (ok (negsuc k)) s = some (err storage_error, s)
  from_version fuel latest (ok (pos current)) s =
      if current == latest
      then some (ok false, s)
      else if ltb latest current
      then some (err storage_error, s)
      else upgrade_from fuel latest current s

  -- `DatabaseManager.upgradeSchema`. A round takes a version to a greater one, so the latest version is
  -- fuel enough.
  unfoldable pub upgrade_schema : Option ℕ → S → Option (Result Bool × S)
  unfolding from_version
  upgrade_schema target s =
      let latest = latest_version store.schema_version target in
      from_version latest latest (store.db_schema_version s) s

  -- `DatabaseStore.upgradeSchema` closes the connection after an upgrade.
  close_if_upgraded : Option (Result Bool × S) → Option (Result (Unit {0}) × S)
  close_if_upgraded none = none
  close_if_upgraded (some (err e, s)) = some (err e, s)
  close_if_upgraded (some (ok true, s)) = some (ok tt, store.disconnect s)
  close_if_upgraded (some (ok false, s)) = some (ok tt, s)

  unfoldable pub upgrade_store : Option ℕ → S → Option (Result (Unit {0}) × S)
  unfolding close_if_upgraded
  upgrade_store target s = close_if_upgraded (upgrade_schema target s)
