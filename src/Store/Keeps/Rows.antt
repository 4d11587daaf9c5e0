-- ===== src/Store/Keeps/Rows.antt =====
-- The databases after the statements that attach a Ranger or an incident type, or hide a type.
use ranger_ims_server.Prelude.{
  ℕ, String, Bool, ◌≡◌, true, List, [], ◌∷◌, ◌++◌, map, any, nat_eq, string_eq, arith, refl,
}
use ranger_ims_server.Store.Values.{ok}
use ranger_ims_server.Store.Tables.{Db, TypeRow}
use ranger_ims_server.Store.Statements.Access.{set_hidden}
use ranger_ims_server.Store.Statements.Incidents.{
  refers, is_type, attach_ranger_handle_to_incident, attach_incident_type_to_incident,
}

-- The databases with one more link
abbrev pub ranger_added : String → ℕ → String → Db → Db
ranger_added e n handle db = record db {
  incident_rangers = db.incident_rangers ++ record { event = e; number = n; item = handle } ∷ [];
}

abbrev pub type_added : String → ℕ → String → Db → Db
type_added e n name db = record db {
  incident_incident_types =
      db.incident_incident_types ++ record { event = e; number = n; item = name } ∷ [];
}

-- Hiding or showing a type keeps the names.
pub any-set_hidden :
    (name n : String) (hidden : Bool) (rows : List TypeRow)
    → any (is_type n) (map (set_hidden name hidden) rows) ≡ any (is_type n) rows
any-set_hidden name n hidden [] = refl
any-set_hidden name n hidden (row ∷ rows) = ground (arith, any-set_hidden name n hidden rows)

module _ (e : String) (n : ℕ) (db : Db) (r : Unit {0} × Db) where
  pub attach_ranger-eq-ok :
      (handle : String)
      → attach_ranger_handle_to_incident e n handle db ≡ ok r
      → (refers e n db ≡ true) × (ranger_added e n handle db ≡ r.1)
  unfolding attach_ranger_handle_to_incident
  attach_ranger-eq-ok handle h = ground arith

  pub attach_type-eq-ok :
      (name : String)
      → attach_incident_type_to_incident e n name db ≡ ok r
      → (refers e n db ≡ true)
        × (any (is_type name) db.incident_types ≡ true)
        × (type_added e n name db ≡ r.1)
  unfolding attach_incident_type_to_incident
  attach_type-eq-ok name h = ground arith
