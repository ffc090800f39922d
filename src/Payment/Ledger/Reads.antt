-- ===== src/Payment/Ledger/Reads.antt =====
-- The triples of the reads, and of the writes that the books do not see.
use fiam_retail_apis.Common.{none, ℕ, inl, inr, Option, some, arith, Option-cases}
use fiam_retail_apis.Common.Table.{find}
use fiam_retail_apis.Payment.Store.{Db, M, ◌>>=◌, enqueue, notify, Job, Notice, find_transaction}
use fiam_retail_apis.Payment.Entities.{Transaction}
use fiam_retail_apis.Payment.Ledger.Rules.{Triple-weaken}
use fiam_retail_apis.Payment.Ledger.{IsOff, IsBalanced, Triple, Keeps}
use fiam_retail_apis.Payment.Ledger.Moves.{transaction_key}
use fiam_retail_apis.Payment.Ledger.Triples.{Holds}

-- What no row and no balance depends on.
module _ (w : ℕ) where
  pub enqueue-Keeps : (job : Job) → Keeps (IsBalanced w) (enqueue job)
  unfolding enqueue
  enqueue-Keeps job = record { at = λ db p. p }

  pub notify-Keeps : (notice : Notice) → Keeps (IsBalanced w) (notify notice)
  unfolding notify
  notify-Keeps notice = record { at = λ db p. p }

  pub find_transaction-Keeps : (id : ℕ) → Keeps (IsBalanced w) (find_transaction id)
  unfolding find_transaction
  find_transaction-Keeps id = record { at = λ db p. p }

-- Reading a row that stands in the table.
module _ (id : ℕ) (cur : Transaction) {P E : Db → Type 0} {B : Type 0} {Q : B → Db → Type 0} where
  pub find-bind :
      (f : Option Transaction → M B)
      → Triple (λ db. P db × Holds id cur db.transactions) (f (some cur)) Q E
      → Triple (λ db. P db × Holds id cur db.transactions) (find_transaction id >>= f) Q E
  unfolding ◌>>=◌ find_transaction
  find-bind f h = record { at = λ db p. rw p.1 (h.at db p) }

-- Reading a row that may be missing.
pub lookup-bind :
    (id : ℕ) {P E : Db → Type 0} {B : Type 0} {Q : B → Db → Type 0} (f : Option Transaction → M B)
    → Triple P (f none) Q E
    → ((cur : Transaction) → Triple (λ db. P db × Holds id cur db.transactions) (f (some cur)) Q E)
    → Triple P (find_transaction id >>= f) Q E
unfolding ◌>>=◌ find_transaction
lookup-bind id f absent present = record {
  at = λ db p. elim (Option-cases (find transaction_key id db.transactions)) [
    | inl e ↦ rw e (absent.at db p)
    | inr (cur, e) ↦ rw e ((present cur).at db (p, e))
  ];
}

module _ (w : ℕ) {A : Type 0} {m : M A} where
  -- Books that agree, and books that are off by nothing.
  pub IsOff→IsBalanced :
      (R : Db → Type 0)
      → Triple (λ db. IsOff w 0 0 db × R db) m (λ _. IsOff w 0 0) (λ _. Unit)
      → Triple (λ db. IsBalanced w db × R db) m (λ _. IsBalanced w) (λ _. Unit)
  IsOff→IsBalanced R h =
      Triple-weaken (λ db. IsOff w 0 0 db × R db) (λ _. IsOff w 0 0) (λ _. Unit) h
        (λ db p. (omega arith, p.1)) (λ _ db p. omega arith) (λ _ _. tt)

  pub forget :
      (R : Db → Type 0)
      → Keeps (IsBalanced w) m
      → Triple (λ db. IsBalanced w db × R db) m (λ _. IsBalanced w) (IsBalanced w)
  forget R h =
      Triple-weaken (IsBalanced w) (λ _. IsBalanced w) (IsBalanced w) h (λ _ p. p.0) (λ _ _ q. q)
        (λ _ q. q)
