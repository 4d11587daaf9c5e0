-- ===== src/Tests/Schema.antt =====
-- A store whose state is the version of its schema.
use ranger_ims_server.Prelude.{
  ℕ, ◌≤◌, ◌<◌, Bool, ◌≡◌, refl, nat_eq, true, false, ◌⊎◌, none, some, arith,
}
use ranger_ims_server.Model.Time.{pos}
use ranger_ims_server.Store.Values.{Result, ok}
use ranger_ims_server.Store.Schema.{
  SchemaStore, next_version, latest_version, upgrade_schema, sql_upgrade, upgrade_from,
}
use ranger_ims_server.Store.Schema.Upgrade.{HasVersion, upgrade_schema_ends, upgrade_schema_result}

-- Both files, "2" and "2-from-1", leave version 2.
abbrev store : SchemaStore ℕ
store = record {
  schema_version = 2;
  load_schema = λ file. some file;
  apply_schema = λ sql v. (ok tt, 2);
  db_schema_version = λ v. ok (pos v);
  disconnect = λ v. v;
}

abbrev one : ℕ
one = 1

abbrev two : ℕ
two = 2

upgrade_schema_ends_example :
    (outcome : Result Bool × ℕ) × (upgrade_schema store none 1 ≡ some outcome)
upgrade_schema_ends_example = upgrade_schema_ends store none 1

upgraded : upgrade_schema store none 1 ≡ some (ok true, 2)
unfolding upgrade_schema latest_version sql_upgrade upgrade_from next_version nat_eq
upgraded = refl

upgrade_schema_result_example :
    (v : ℕ) × HasVersion store 1 v
    × (((true ≡ false) × (v ≡ latest_version 2 none) × (two ≡ one))
        ⊎ ((true ≡ true)
            × (v < latest_version 2 none)
            × ((w : ℕ) × HasVersion store 2 w × (latest_version 2 none ≤ w))))
upgrade_schema_result_example = upgrade_schema_result store none 1 2 true upgraded

leaves_two : (v : ℕ) → v < 2 → next_version v 2 ≡ 2
unfolding next_version
leaves_two v h = ground arith
