-- ===== src/Store/Access/Effect.antt =====
-- What setting an access list of an event does to all the lists.
use ranger_ims_server.Prelude.{
  String, Bool, ◌≡◌, refl, true, false, not, ◌&&◌, List, [], ◌∷◌, ◌++◌, any, keep, elem, string_eq,
  ◌==◌, arith, if◌then◌else◌, any-append,
}
use ranger_ims_server.Store.Values.{ok, err, storage_error}
use ranger_ims_server.Store.Tables.{Db, AccessRow}
use ranger_ims_server.Store.Statements.Access.{
  in_mode, has_expression, access_modes, clear_event_access_for_mode,
  clear_event_access_for_expression, add_event_access,
}
use ranger_ims_server.Store.Transactions.{Connection, run_interaction}
use ranger_ims_server.Store.Access.{grant_all, set_access, set_event_access}

-- The list of the mode holds the expression.
abbrev pub granted : String → String → String → List AccessRow → Bool
granted e mode x rows = any (λ row. row.expression == x && in_mode e mode row) rows

module _ (e mode : String) where
  abbrev put : String → List AccessRow → List AccessRow
  put x rows =
      keep (λ row. not (has_expression e x row)) rows
      ++ record { event = e; expression = x; mode = mode } ∷ []

  abbrev put_all : List String → List AccessRow → List AccessRow
  put_all [] rows = rows
  put_all (x ∷ xs) rows = put_all xs (put x rows)

  granted-kept :
      (f m y x : String) (rows : List AccessRow)
      → granted f m y (keep (λ row. not (has_expression e x row)) rows)
        ≡ (if f == e && y == x then false else granted f m y rows)
  granted-kept f m y x [] = ground arith
  granted-kept f m y x (row ∷ rows) = ground (arith, granted-kept f m y x rows)

  granted-put :
      (f m y x : String) (rows : List AccessRow)
      → granted f m y (put x rows) ≡ (if f == e && y == x then m == mode else granted f m y rows)
  granted-put f m y x rows =
      rw (any-append (λ row. row.expression == y && in_mode f m row) (keep _ rows) _)
        (rw (granted-kept f m y x rows) (ground arith))

  granted-put_all :
      (f m y : String) (xs : List String) (rows : List AccessRow)
      → granted f m y (put_all xs rows)
        ≡ (if f == e && elem y xs then m == mode else granted f m y rows)
  granted-put_all f m y [] rows = ground arith
  granted-put_all f m y (x ∷ xs) rows =
      rw (granted-put_all f m y xs (put x rows)) (rw (granted-put f m y x rows) (ground arith))

  granted-cleared :
      (f m y : String) (rows : List AccessRow)
      → granted f m y (keep (λ row. not (in_mode e mode row)) rows)
        ≡ (if f == e && m == mode then false else granted f m y rows)
  granted-cleared f m y [] = ground arith
  granted-cleared f m y (row ∷ rows) = ground (arith, granted-cleared f m y rows)

  fresh :
      (x : String) (rows : List AccessRow)
      → any (has_expression e x) (keep (λ row. not (has_expression e x row)) rows) ≡ false
  fresh x [] = refl
  fresh x (row ∷ rows) = ground (arith, fresh x rows)

  grant_all_lem :
      (xs : List String) (db : Db)
      → elem e db.events ≡ true
      → elem mode access_modes ≡ true
      → grant_all e mode xs db ≡ ok (tt, record db { access = put_all xs db.access })
  unfolding grant_all clear_event_access_for_expression add_event_access
  grant_all_lem [] db known valid = refl
  grant_all_lem (x ∷ xs) db known valid = ground (
    arith,
    fresh x db.access,
    grant_all_lem xs (record db { access = put x db.access }) known valid,
  )

  -- All the rows after the call
  abbrev replaced : List String → List AccessRow → List AccessRow
  replaced xs rows = put_all xs (keep (λ row. not (in_mode e mode row)) rows)

  set_event_access_lem :
      (xs : List String) (c : Connection)
      → elem e c.working.events ≡ true
      → elem mode access_modes ≡ true
      → let db = record c.working { access = replaced xs c.working.access } in
        set_event_access e mode xs c ≡ (ok tt, record { committed = db; working = db })
  unfolding set_event_access set_access run_interaction clear_event_access_for_mode
  set_event_access_lem xs c known valid = ground (
    arith,
    grant_all_lem xs
        (record c.working { access = keep (λ row. not (in_mode e mode row)) c.working.access })
        known valid,
  )

-- Setting a list of an event that exists commits a database in which that list holds exactly the new
-- expressions, the other two lists of the event have lost these, and nothing else has changed.
pub set_event_access_effect :
    (e mode : String) (xs : List String) (c : Connection)
    → elem e c.working.events ≡ true
    → elem mode access_modes ≡ true
    → (db : Db) × (set_event_access e mode xs c ≡ (ok tt, record { committed = db; working = db }))
      × (db ≡ record c.working { access = db.access })
      × ((f m y : String)
          → granted f m y db.access ≡ (
              if f == e
              then (if m == mode
                  then elem y xs
                  else granted f m y c.working.access && not (elem y xs))
              else granted f m y c.working.access))
set_event_access_effect e mode xs c known valid = (
  record c.working { access = replaced e mode xs c.working.access },
  set_event_access_lem e mode xs c known valid,
  refl,
  λ f m y.
      let all =
        granted-put_all e mode f m y xs (keep (λ row. not (in_mode e mode row)) c.working.access) in
      let cleared = granted-cleared e mode f m y c.working.access in
      rw all (rw cleared (ground arith)),
)

-- For an event that does not exist the call raises, and the database is as it was last committed.
pub set_event_access_unknown :
    (e mode x : String) (xs : List String) (c : Connection)
    → elem e c.working.events ≡ false
    → set_event_access e mode (x ∷ xs) c
      ≡ (err storage_error, record { committed = c.committed; working = c.committed })
unfolding set_event_access set_access grant_all run_interaction clear_event_access_for_mode
    clear_event_access_for_expression add_event_access
set_event_access_unknown e mode x xs c unknown = ground arith
