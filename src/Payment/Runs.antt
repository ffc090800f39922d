-- ===== src/Payment/Runs.antt =====
-- How a call in the monad runs, given how its first step runs.
use mathlib.Core.Path.{ap}
use fiam_retail_apis.Common.Table.{find}
use fiam_retail_apis.Payment.Entities.{Transaction}
use fiam_retail_apis.Common.{Option, ℕ, ◌≡◌}
use fiam_retail_apis.Payment.Store.{
  find_transaction, M, Result, ok, err, Error, Db, ◌>>=◌, transaction, catch,
}

module _ {A : Type 0} (m : M A) (db db' : Db) where
  pub run-bind : {B : Type 0} (f : A → M B) (a : A) → m db ≡ (ok a, db') → (m >>= f) db ≡ f a db'
  unfolding ◌>>=◌
  run-bind {B} f a e =
      ap {B = Result B × Db} (λ r. elim r.0 [ ok x ↦ f x r.1 | err y ↦ (err y, r.1) ]) e

  pub run-transaction : (a : A) → m db ≡ (ok a, db') → transaction m db ≡ (ok a, db')
  unfolding transaction
  run-transaction a e =
      ap {B = Result A × Db} (λ r. elim r.0 [ ok x ↦ (ok x, r.1) | err y ↦ (err y, db) ]) e

  pub run-rollback : (x : Error) → m db ≡ (err x, db') → transaction m db ≡ (err x, db)
  unfolding transaction
  run-rollback x e =
      ap {B = Result A × Db} (λ r. elim r.0 [ ok a ↦ (ok a, r.1) | err y ↦ (err y, db) ]) e

-- A handler is not called, or is.
module _ {A : Type 0} (m : M A) (h : Error → M A) (db db' : Db) where
  pub run-catch : (a : A) → m db ≡ (ok a, db') → catch m h db ≡ (ok a, db')
  unfolding catch
  run-catch a e = ap {B = Result A × Db} (λ r. elim r.0 [ ok x ↦ (ok x, r.1) | err y ↦ h y r.1 ]) e

  pub run-handled : (x : Error) → m db ≡ (err x, db') → catch m h db ≡ h x db'
  unfolding catch
  run-handled x e =
      ap {B = Result A × Db} (λ r. elim r.0 [ ok a ↦ (ok a, r.1) | err y ↦ h y r.1 ]) e

pub run-find :
    {B : Type 0} (id : ℕ) (o : Option Transaction) (db : Db) (f : Option Transaction → M B)
    → find (λ (t : Transaction). t.id) id db.transactions ≡ o
    → (find_transaction id >>= f) db ≡ f o db
unfolding find_transaction ◌>>=◌
run-find id o db f e = ap (λ x. f x db) e
