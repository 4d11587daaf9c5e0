-- ===== src/Store/Transactions.antt =====
-- store/sqlite/_store.py: running statements on a connection. sqlite3 opens a transaction before the
-- first statement that writes, and leaves it open until a commit or a rollback.
use ranger_ims_server.Prelude.{Bool, true, false}
use ranger_ims_server.Store.Values.{Error, Result, ok, err}
use ranger_ims_server.Store.Tables.{Db}

-- Statements in one transaction. An error ends the transaction, so it leaves no state behind.
abbrev pub Txn : Type 0 → Type 0
Txn A = Db → Result (A × Db)

module _ {A : Type 0} where
  abbrev pub pure : A → Txn A
  pure a db = ok (a, db)

  abbrev pub raise : Error → Txn A
  raise e db = err e

  abbrev pub lift : Result A → Txn A
  lift (ok a) db = ok (a, db)
  lift (err e) db = err e

  abbrev pub gets : (Db → A) → Txn A
  gets f db = ok (f db, db)

infixl 5 ◌>>=◌ ◌>>◌
abbrev pub ◌>>=◌ : {A B : Type 0} → Txn A → (A → Txn B) → Txn B
◌>>=◌ m f db = elim (m db) [ err e ↦ err e | ok (a, db') ↦ f a db' ]

abbrev pub ◌>>◌ : {B : Type 0} → Txn (Unit {0}) → Txn B → Txn B
m >> k = m >>= λ _. k

-- A constraint of the schema, or a test of the code, that fails with the error.
abbrev pub guard : Bool → Error → Txn (Unit {0})
guard true e db = ok (tt, db)
guard false e db = err e

abbrev pub modify : (Db → Db) → Txn (Unit {0})
modify f db = ok (tt, f db)

-- A connection: the database as it was last committed, and as the open transaction has made it.
pub record Connection : Type 0 where
  pub committed : Db
  pub working : Db

-- A method of the store that uses the connection.
abbrev pub Action : Type 0 → Type 0
Action A = Connection → Result A × Connection

module _ {A : Type 0} where
  -- `with self._db as db`: a commit at the end, a rollback on an exception.
  settle : Result (A × Db) → Connection → Result A × Connection
  settle (ok (a, db)) c = (ok a, record { committed = db; working = db })
  settle (err e) c = (err e, record { committed = c.committed; working = c.committed })

  unfoldable pub run_interaction : Txn A → Action A
  unfolding settle
  run_interaction m c = settle (m c.working) c

  -- A statement by itself: no commit follows it, and a failure undoes it alone.
  proceed : Result (A × Db) → Connection → Result A × Connection
  proceed (ok (a, db)) c = (ok a, record c { working = db })
  proceed (err e) c = (err e, c)

  unfoldable pub run_query : Txn A → Action A
  unfolding proceed
  run_query m c = proceed (m c.working) c

unfoldable pub run_operation : Txn (Unit {0}) → Action (Unit {0})
unfolding run_query
run_operation m = run_query m

-- Closing the connection loses what was not committed.
unfoldable pub disconnect : Connection → Connection
disconnect c = record { committed = c.committed; working = c.committed }
