-- ===== src/Payment/Overall.antt =====
-- What several operations of the payment service have in common, from one state: the ways in which
-- a payment ends and the ways in which a deposit is credited.
use fiam_retail_apis.Common.{◌≡◌, true, ℕ}
use fiam_retail_apis.Payment.Entities.{Transaction, is_debit}
use fiam_retail_apis.Payment.Store.{Db}
use fiam_retail_apis.Payment.Provider.{Provider}
use fiam_retail_apis.Payment.Ledger.{IsBalanced}
use fiam_retail_apis.Payment.Ledger.Triples.{Holds}
use fiam_retail_apis.Payment.Payouts.Settle.{sync_payout_status, requery_transaction}
use fiam_retail_apis.Payment.Payouts.Reversal.{reverse_failed_payout, reverse_failed_bill}
use fiam_retail_apis.Payment.Deposits.{process, record_payin, RecordPayinInput}
use fiam_retail_apis.Payment.Internal.{assign, AssignUnmatchedDto}
use fiam_retail_apis.Payment.Books.{
  sync_payout_status-IsBalanced, requery_transaction-IsBalanced, reversals-IsBalanced,
  deposits-IsBalanced, assign-IsBalanced,
}

-- A query of the status of a DEBIT row, the console's re-query of it, and its reversal as a failed
-- payout or as a failed bill payment each keep the books balanced, whatever the provider answers.
pub payment_ends-IsBalanced :
    (w id : ℕ) (t : Transaction) (p : Provider) (db : Db)
    → is_debit t.type ≡ true
    → Holds id t db.transactions
    → IsBalanced w db
    → (IsBalanced w (sync_payout_status p id db).1 × IsBalanced w (requery_transaction p id db).1)
      × (IsBalanced w (reverse_failed_payout id db).1 × IsBalanced w (reverse_failed_bill id db).1)
payment_ends-IsBalanced w id t p db debit stands books = (
  (
    sync_payout_status-IsBalanced w id t p db debit stands books,
    requery_transaction-IsBalanced w id t p db debit stands books,
  ),
  reversals-IsBalanced w id t db debit stands books,
)

-- Recording a deposit, the worker that credits one and the assignment of an unmatched one to a
-- wallet keep the books balanced, whichever rows they name.
pub credits-IsBalanced :
    (w : ℕ) (i : RecordPayinInput) (id : ℕ) (dto : AssignUnmatchedDto) (db : Db)
    → IsBalanced w db
    → IsBalanced w (record_payin i db).1
      × (IsBalanced w (process id db).1 × IsBalanced w (assign id dto db).1)
credits-IsBalanced w i id dto db books =
    let deposits = deposits-IsBalanced w i id db books in
    (deposits.0, (deposits.1, assign-IsBalanced w id dto db books))
