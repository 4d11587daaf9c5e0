-- ===== src/Store/Keeps.antt =====
-- Invariants of the database, one rule for each way to build a transaction. An error ends the
-- transaction, so a rule speaks of those that succeed.
pub mod Reads
pub mod Statements
pub mod Methods
pub mod Rows
pub mod Tables
use mathlib.Core.Path.{subst}
use ranger_ims_server.Prelude.{◌≡◌, refl, ◌⊎◌, inl, inr, Bool, true, false, arith, if◌then◌else◌}
use ranger_ims_server.Store.Values.{Error, Result, ok, err}
use ranger_ims_server.Store.Tables.{Db}
use ranger_ims_server.Store.Transactions.{
  Txn, Connection, Action, pure, raise, lift, gets, guard, modify, run_interaction, run_query,
  run_operation, disconnect, ◌>>=◌, ◌>>◌,
}

pub record Keeps {A : Type 0} (P : Db → Type 0) (m : Txn A) : Type 0 where
  pub at : (db : Db) → P db → (r : A × Db) → m db ≡ ok r → P r.1

pub Result-cases :
    {A : Type 0} (r : Result A) → ((e : Error) × (r ≡ err e)) ⊎ ((a : A) × (r ≡ ok a))
Result-cases (ok a) = inr (a, refl)
Result-cases (err e) = inl (e, refl)

-- Inversion of a block that has succeeded
pub >>=-eq-ok :
    {A B : Type 0} (m : Txn A) (f : A → Txn B) (db : Db) (r : B × Db)
    → (m >>= f) db ≡ ok r
    → (s : A × Db) × (m db ≡ ok s) × (f s.0 s.1 ≡ ok r)
>>=-eq-ok m f db r h = elim (Result-cases (m db)) [
  | inl (e, failed) ↦ ground arith
  | inr (s, done) ↦ (s, done, ground (arith, done))
]

-- The database of a successful result
world :
    {A : Type 0} {a : A} {db : Db} {r : A × Db}
    → ◌≡◌ {A = Result (A × Db)} (ok (a, db)) (ok r)
    → db ≡ r.1
world e = ground arith

module _ {P : Db → Type 0} where
  pub Keeps-pure : {A : Type 0} (a : A) → Keeps P (pure a)
  Keeps-pure a = record { at = λ db h r e. ground arith }

  pub Keeps-lift : {A : Type 0} (x : Result A) → Keeps P (lift x)
  Keeps-lift (ok a) = record { at = λ db h r e. subst P (world e) h }
  Keeps-lift (err e) = record { at = λ db h r e. cc }

  pub Keeps-gets : {A : Type 0} (f : Db → A) → Keeps P (gets f)
  Keeps-gets f = record { at = λ db h r e. subst P (world e) h }

  pub Keeps-guard : (b : Bool) (e : Error) → Keeps P (guard b e)
  Keeps-guard true x = record { at = λ db h r e. subst P (world e) h }
  Keeps-guard false x = record { at = λ db h r e. cc }

  pub Keeps-modify : (f : Db → Db) → ((db : Db) → P db → P (f db)) → Keeps P (modify f)
  Keeps-modify f k = record { at = λ db h r e. subst P (world e) (k db h) }

  pub Keeps-bind :
      {A B : Type 0} (m : Txn A) (f : A → Txn B)
      → Keeps P m
      → ((a : A) → Keeps P (f a))
      → Keeps P (m >>= f)
  Keeps-bind m f km kf = record {
    at = λ db h r e.
        let (s, done, later) = >>=-eq-ok m f db r e in (kf s.0).at s.1 (km.at db h s done) r later;
  }

-- Both databases of a connection
pub record Holds (P : Db → Type 0) (c : Connection) : Type 0 where
  pub committed : P c.committed
  pub working : P c.working

module _ {P : Db → Type 0} {A : Type 0} where
  pub run_interaction-Holds :
      (m : Txn A) (c : Connection) → Keeps P m → Holds P c → Holds P (run_interaction m c).1
  unfolding run_interaction
  run_interaction-Holds m c k h = elim (Result-cases (m c.working)) [
    | inl (e, failed) ↦ rw failed (record { committed = h.committed; working = h.committed })
    | inr (r, done) ↦
        let p = k.at c.working h.working r done in rw done (record { committed = p; working = p })
  ]

  pub run_query-Holds :
      (m : Txn A) (c : Connection) → Keeps P m → Holds P c → Holds P (run_query m c).1
  unfolding run_query
  run_query-Holds m c k h = elim (Result-cases (m c.working)) [
    | inl (e, failed) ↦ rw failed h
    | inr (r, done) ↦
        let p = k.at c.working h.working r done in
        rw done (record { committed = h.committed; working = p })
  ]

pub ruleset keeps_rules =
    (Keeps-pure, Keeps-lift, Keeps-gets, Keeps-guard, Keeps-bind, Keeps-modify)
