-- ===== src/Payment/Ledger.antt =====
-- The double-entry reading of the payment database, and triples for its monad.
pub mod Rules
pub mod Keeping
pub mod Moves
pub mod Triples
pub mod Reads
pub mod Endings
use fiam_retail_apis.Common.Table.{find}
use fiam_retail_apis.Common.{
  none, ◌≤◌, ℕ, ◌+◌, ◌≡◌, ◌&&◌, if◌then◌else◌, ◌==◌, List, [], ◌∷◌, sum_by, get_or, holds_id,
}
use fiam_retail_apis.Payment.Entities.{Wallet, Transaction, is_debit, is_successful}
use fiam_retail_apis.Payment.Store.{Db, Result, ok, err, M}

-- The balance of a wallet, 0 if there is none.
abbrev pub balance_of : ℕ → List Wallet → ℕ
balance_of w [] = 0
balance_of w (x ∷ xs) = if x.id == w then x.balance else balance_of w xs

-- What a row has taken out of a wallet: a DEBIT takes its amount and fee when it is written,
-- whatever becomes of it, since a reversal is a row of its own.
unfoldable pub spent_of : ℕ → Transaction → ℕ
spent_of w t = if holds_id t.wallet_id w && is_debit t.type then t.amount + get_or t.fee 0 else 0

-- What a row has put into a wallet: a CREDIT that has been applied.
unfoldable pub received_of : ℕ → Transaction → ℕ
received_of w t =
    if holds_id t.wallet_id w && is_debit t.type
    then 0
    else if holds_id t.wallet_id w && is_successful t.status
    then t.amount
    else 0

unfoldable pub spent : ℕ → List Transaction → ℕ
spent w txs = sum_by (spent_of w) txs

unfoldable pub received : ℕ → List Transaction → ℕ
received w txs = sum_by (received_of w) txs

-- The books of wallet `w` with `out` taken and `put` given that no row accounts for yet.
abbrev pub IsOff : ℕ → ℕ → ℕ → Db → Type 0
IsOff w out put db =
    balance_of w db.wallets + spent w db.transactions + out ≡ received w db.transactions + put

-- The books of wallet `w` agree: its balance is what it received less what it spent.
abbrev pub IsBalanced : ℕ → Db → Type 0
IsBalanced w db = balance_of w db.wallets + spent w db.transactions ≡ received w db.transactions

-- The end of a call: a result with its post-condition, or an error with another one.
abbrev pub Ends : {A : Type 0} → (A → Db → Type 0) → (Db → Type 0) → Result A × Db → Type 0
Ends Q E (ok a, db) = Q a db
Ends Q E (err e, db) = E db

-- From a state where `P` holds, `m` ends in `Q` or throws in `E`.
pub record Triple {A : Type 0} (P : Db → Type 0) (m : M A) (Q : A → Db → Type 0) (E : Db → Type 0)
    : Type 0 where
  pub at : (db : Db) → P db → Ends Q E (m db)

-- `m` keeps `P`, also when it throws.
abbrev pub Keeps : {A : Type 0} → (Db → Type 0) → M A → Type 0
Keeps P m = Triple P m (λ _ db. P db) P

-- A primary key that is still to be generated names no row.
abbrev pub IsFresh : Db → Type 0
IsFresh db = (id : ℕ) → db.next_id ≤ id → find (λ (t : Transaction). t.id) id db.transactions ≡ none
