-- ===== src/Store/Access/Rights.antt =====
-- The rights that a user has in an event, once its access lists have been set.
use ranger_ims_server.Prelude.{
  String, Bool, ◌≡◌, refl, ap, ◌∙◌, true, false, not, ◌&&◌, Option, some, List, [], ◌∷◌, map, keep,
  elem, string_eq, ◌==◌, arith, if◌then◌else◌,
}
use ranger_ims_server.Auth.Acl.{ImsUser, match_acl}
use ranger_ims_server.Auth.Acl.Matching.{match_acl_congr}
use ranger_ims_server.Auth.Provider.{Settings, authorizations_for_user}
use ranger_ims_server.Auth.Provider.Rights.{write_incidents_lem}
use ranger_ims_server.Store.Values.{Result, ok}
use ranger_ims_server.Store.Tables.{AccessRow}
use ranger_ims_server.Store.Statements.Access.{in_mode, event_access, access_modes}
use ranger_ims_server.Store.Transactions.{Connection, run_query}
use ranger_ims_server.Store.Access.{set_event_access, set_writers, access_lists}
use ranger_ims_server.Store.Access.Effect.{granted, set_event_access_effect}

expressions_lem :
    (e mode y : String) (rows : List AccessRow)
    → elem y (map (λ (row : AccessRow). row.expression) (keep (in_mode e mode) rows))
      ≡ granted e mode y rows
expressions_lem e mode y [] = refl
expressions_lem e mode y (row ∷ rows) = ground (arith, expressions_lem e mode y rows)

elem-writers :
    (e y : String) (c : Connection)
    → elem y ((access_lists c).writers e) ≡ granted e "write" y c.working.access
unfolding access_lists run_query event_access
elem-writers e y c = expressions_lem e "write" y c.working.access

elem-readers :
    (e y : String) (c : Connection)
    → elem y ((access_lists c).readers e) ≡ granted e "read" y c.working.access
unfolding access_lists run_query event_access
elem-readers e y c = expressions_lem e "read" y c.working.access

write-valid : elem "write" access_modes ≡ true
unfolding string_eq
write-valid = refl

abbrev same : String → String → Bool
same a b = a == b

read-same-write : same "read" "write" ≡ false
unfolding string_eq
read-same-write = refl

module _ (e y : String) (xs : List String) (rows : List AccessRow) {b : Bool} where
  new_list :
      (m : String)
      → b ≡ (
          if e == e
          then (if same m m then elem y xs else granted e m y rows && not (elem y xs))
          else granted e m y rows)
      → b ≡ elem y xs
  new_list m h = ground arith

  other_list :
      (m w : String)
      → same m w ≡ false
      → b ≡ (
          if e == e
          then (if same m w then elem y xs else granted e m y rows && not (elem y xs))
          else granted e m y rows)
      → b ≡ (granted e m y rows && not (elem y xs))
  other_list m w ne h = ground arith

-- Once an administrator has set the writers of an event that exists, a user may write its incidents
-- exactly if the new list lets the user pass; and the readers' list has lost what the new list holds.
pub writers_take_effect :
    (s : Settings) (user : Option ImsUser) (e : String) (xs : List String) (c : Connection)
    → elem e c.working.events ≡ true
    → let c' = (set_writers e xs c).1 in
      ((set_writers e xs c).0 ≡ ok tt)
      × ((authorizations_for_user s (access_lists c') user (some e)).write_incidents
          ≡ match_acl s.require_active user xs)
      × ((y : String)
          → elem y ((access_lists c').readers e)
            ≡ (elem y ((access_lists c).readers e) && not (elem y xs)))
unfolding set_writers
writers_take_effect s user e xs c known =
    let (db, done, _, effect) = set_event_access_effect e "write" xs c known write-valid in
    let c' = (set_event_access e "write" xs c).1 in
    let rows : c'.working.access ≡ db.access =
      ap (λ (r : Result (Unit {0}) × Connection). r.1.working.access) done in
    (
      ap (λ (r : Result (Unit {0}) × Connection). r.0) done,
      write_incidents_lem s (access_lists c') user e
          ∙ match_acl_congr s.require_active user _ xs (λ y.
            elem-writers e y c'
            ∙ ap (granted e "write" y) rows
            ∙ new_list e y xs c.working.access "write" (effect e "write" y)),
      λ y.
          elem-readers e y c'
          ∙ ap (granted e "read" y) rows
          ∙ other_list e y xs c.working.access "read" "write" read-same-write (effect e "read" y)
          ∙ rw elem-readers,
    )
