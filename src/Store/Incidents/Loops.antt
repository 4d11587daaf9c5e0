-- ===== src/Store/Incidents/Loops.antt =====
-- The loops that attach Rangers, incident types and report entries, where nothing stops them.
use ranger_ims_server.Prelude.{
  ℕ, String, Bool, ◌≡◌, refl, ap, ◌∙◌, true, false, not, ◌&&◌, List, [], ◌∷◌, ◌++◌, map, any, elem,
  nat_eq, string_eq, arith, All, append_assoc, append-nil,
}
use ranger_ims_server.Store.Values.{ok}
use ranger_ims_server.Store.Tables.{Db, IncidentRow, Link}
use ranger_ims_server.Store.Statements.Incidents.{
  fits, is_incident, is_type, items, refers, attach_ranger_handle_to_incident,
  attach_incident_type_to_incident,
}
use ranger_ims_server.Store.Keeps.Rows.{ranger_added, type_added}
use ranger_ims_server.Store.Incidents.{attach_ranger_handles, attach_incident_types}
use ranger_ims_server.Store.Incidents.Reading.{items-own}
use ranger_ims_server.Store.Links.{has_incident}

-- No item is repeated, and none is among the old ones.
abbrev pub distinct : List String → List String → Bool
distinct old [] = true
distinct old (x ∷ xs) = not (elem x old) && distinct (old ++ x ∷ []) xs

abbrev pub links : String → ℕ → List String → List (Link String)
links e n xs = map (λ x. record { event = e; number = n; item = x }) xs

module _ (e : String) (n : ℕ) (fit : fits n ≡ true) where
  abbrev pub with_rangers : List String → Db → Db
  with_rangers xs db = record db { incident_rangers = db.incident_rangers ++ links e n xs }

  abbrev pub with_types : List String → Db → Db
  with_types xs db = record db {
    incident_incident_types = db.incident_incident_types ++ links e n xs;
  }

  ranger_step :
      (x : String) (db : Db)
      → refers e n db ≡ true
      → elem x (items e n db.incident_rangers) ≡ false
      → attach_ranger_handle_to_incident e n x db ≡ ok (tt, ranger_added e n x db)
  unfolding attach_ranger_handle_to_incident
  ranger_step x db known new = ground arith

  pub rangers_loop :
      (xs : List String) (db : Db)
      → refers e n db ≡ true
      → distinct (items e n db.incident_rangers) xs ≡ true
      → attach_ranger_handles e n xs db ≡ ok (tt, with_rangers xs db)
  unfolding attach_ranger_handles
  rangers_loop [] db known new = rw append-nil refl
  rangers_loop (x ∷ xs) db known new =
      let first_new : elem x (items e n db.incident_rangers) ≡ false = ground arith in
      let rest_new : distinct (items e n db.incident_rangers ++ x ∷ []) xs ≡ true = ground arith in
      let rest =
        rangers_loop xs (ranger_added e n x db) known
          (ap (λ old. distinct old xs) (items-own e n x db.incident_rangers) ∙ rest_new) in
      ground (
        arith,
        ranger_step x db known first_new,
        rest,
        append_assoc db.incident_rangers (links e n (x ∷ [])) (links e n xs),
      )

  type_step :
      (x : String) (db : Db)
      → refers e n db ≡ true
      → any (is_type x) db.incident_types ≡ true
      → elem x (items e n db.incident_incident_types) ≡ false
      → attach_incident_type_to_incident e n x db ≡ ok (tt, type_added e n x db)
  unfolding attach_incident_type_to_incident
  type_step x db known exists new = ground arith

  pub types_loop :
      (xs : List String) (db : Db)
      → refers e n db ≡ true
      → All (λ x. any (is_type x) db.incident_types ≡ true) xs
      → distinct (items e n db.incident_incident_types) xs ≡ true
      → attach_incident_types e n xs db ≡ ok (tt, with_types xs db)
  unfolding attach_incident_types
  types_loop [] db known exist new = rw append-nil refl
  types_loop (x ∷ xs) db known exist new =
      let first_new : elem x (items e n db.incident_incident_types) ≡ false = ground arith in
      let rest_new : distinct (items e n db.incident_incident_types ++ x ∷ []) xs ≡ true =
        ground arith in
      let rest =
        types_loop xs (type_added e n x db) known exist.1
          (ap (λ old. distinct old xs) (items-own e n x db.incident_incident_types) ∙ rest_new) in
      ground (
        arith,
        type_step x db known exist.0 first_new,
        rest,
        append_assoc db.incident_incident_types (links e n (x ∷ [])) (links e n xs),
      )

  -- The entries and their links are all that changes.
  abbrev pub same_but_entries : Db → Db → Db
  same_but_entries db later = record db {
    report_entries = later.report_entries;
    incident_report_entries = later.incident_report_entries;
  }

-- An incident that does not exist has no items.
pub no-items :
    {A : Type 0} (e : String) (n : ℕ) (rows : List IncidentRow) (xs : List (Link A))
    → any (is_incident e n) rows ≡ false
    → All (λ l. has_incident rows l ≡ true) xs
    → items e n xs ≡ []
no-items e n rows [] new h = refl
no-items e n rows (l ∷ xs) new h = ground (arith, no-items e n rows xs new h.1, h.0)
