-- ===== src/Payment/Books.antt =====
-- The books of the payment database: what each entry point of the service does to them, and to the
-- balances, from any state and on every path, errors included.
use fiam_retail_apis.Payment.Ledger.Endings.{ends_in}
use fiam_retail_apis.Payment.Bills.PayBooks.{pay_bill-Triple}
use fiam_retail_apis.Payment.Bills.SettleBooks.{run_bill_job-Triple}
use fiam_retail_apis.Payment.Bills.Pay.{pay_bill, PayBillDto, BillsOutside}
use fiam_retail_apis.Payment.Bills.Settle.{run_bill_job}
use fiam_retail_apis.Payment.Store.{JobKind, ok, Db}
use fiam_retail_apis.Payment.Bills.Catalogue.{BillsProvider}
use fiam_retail_apis.Payment.Payouts.Books.{
  reverse_failed_bill-Triple, reverse_failed_payout-Triple,
}
use fiam_retail_apis.Payment.Deposits.Books.{
  handle_failed-Triple, process-Keeps, record_payin-Keeps,
}
use fiam_retail_apis.Payment.Payouts.Limits.{
  reserve-IsWithinCaps, daily_of, IsWithinDaily, IsWithinLimit,
}
use fiam_retail_apis.Payment.Payouts.SettleBooks.{
  requery_transaction-Triple, sync_payout_status-Triple,
}
use fiam_retail_apis.Common.{refl, true, some, false, ◌≡◌, Option, ◌<◌, String, ℕ}
use fiam_retail_apis.Payment.Payouts.Reversal.{reverse_failed_bill, reverse_failed_payout}
use fiam_retail_apis.Payment.Payouts.InitiateBooks.{initiate_payout-Triple}
use fiam_retail_apis.Payment.Payouts.Initiate.{
  reserve, initiate_payout, generate_reference, InitiatePayoutDto, Reservation, Outside,
}
use fiam_retail_apis.Payment.Internal.Books.{post-Keeps, assign-Keeps}
use fiam_retail_apis.Payment.Payouts.Requery.{
  sync_payout_status-KeepsMoney, apply_transfer_result-KeepsMoney, is_failure,
}
use fiam_retail_apis.Payment.Payouts.Settle.{
  requery_transaction, sync_payout_status, apply_transfer_result,
}
use fiam_retail_apis.Payment.Deposits.{handle_failed, process, record_payin, RecordPayinInput}
use fiam_retail_apis.Payment.Ledger.Triples.{Holds}
use fiam_retail_apis.Payment.Internal.{post, assign, CreatePostingDto, AssignUnmatchedDto}
use fiam_retail_apis.Payment.Payouts.References.{generate_reference-Triple, IsUnused}
use fiam_retail_apis.Payment.Ledger.{IsFresh, IsBalanced, Ends}
use fiam_retail_apis.Payment.Entities.{is_successful, is_debit, Transaction}
use fiam_retail_apis.Payment.Provider.{TransferResult, Provider}

-- A payout, from the request to its answer, keeps the books of every wallet balanced: if they are
-- before the call they are after it, whatever auth, the provider and the list of banks answer.
pub initiate_payout-IsBalanced :
    (w : ℕ) (o : Outside) (user : ℕ) (dto : InitiatePayoutDto) (db : Db)
    → IsBalanced w db
    → IsFresh db
    → IsBalanced w (initiate_payout o user dto db).1
initiate_payout-IsBalanced w o user dto db books fresh =
    ends_in (initiate_payout o user dto) db (initiate_payout-Triple w o user dto) (books, fresh)

-- A query of the status of a DEBIT row keeps the books balanced, whatever the provider answers.
pub sync_payout_status-IsBalanced :
    (w id : ℕ) (t : Transaction) (p : Provider) (db : Db)
    → is_debit t.type ≡ true
    → Holds id t db.transactions
    → IsBalanced w db
    → IsBalanced w (sync_payout_status p id db).1
sync_payout_status-IsBalanced w id t p db debit stands books =
    ends_in (sync_payout_status p id) db (sync_payout_status-Triple w id t debit p) (books, stands)

-- The console's re-query of a DEBIT row keeps the books balanced, whatever the provider answers.
pub requery_transaction-IsBalanced :
    (w id : ℕ) (t : Transaction) (p : Provider) (db : Db)
    → is_debit t.type ≡ true
    → Holds id t db.transactions
    → IsBalanced w db
    → IsBalanced w (requery_transaction p id db).1
requery_transaction-IsBalanced w id t p db debit stands books =
    ends_in (requery_transaction p id) db (requery_transaction-Triple w id t debit p)
      (books, stands)

-- The reversal of a failed payout or of a failed bill payment, a DEBIT row, keeps the books
-- balanced.
pub reversals-IsBalanced :
    (w id : ℕ) (t : Transaction) (db : Db)
    → is_debit t.type ≡ true
    → Holds id t db.transactions
    → IsBalanced w db
    → IsBalanced w (reverse_failed_payout id db).1 × IsBalanced w (reverse_failed_bill id db).1
reversals-IsBalanced w id t db debit stands books = (
  ends_in (reverse_failed_payout id) db (reverse_failed_payout-Triple w id t debit) (books, stands),
  ends_in (reverse_failed_bill id) db (reverse_failed_bill-Triple w id t debit) (books, stands),
)

-- Recording a deposit moves no money, and the worker that credits one keeps the books balanced,
-- whichever row the job names.
pub deposits-IsBalanced :
    (w : ℕ) (i : RecordPayinInput) (id : ℕ) (db : Db)
    → IsBalanced w db
    → IsBalanced w (record_payin i db).1 × IsBalanced w (process id db).1
deposits-IsBalanced w i id db books = (
  ends_in (record_payin i) db (record_payin-Keeps w id i) books,
  ends_in (process id) db (process-Keeps w id) books,
)

-- Giving up a deposit that was not credited keeps the books balanced.
pub handle_failed-IsBalanced :
    (w id : ℕ) (t : Transaction) (made most : ℕ) (db : Db)
    → is_successful t.status ≡ false
    → Holds id t db.transactions
    → IsBalanced w db
    → IsBalanced w (handle_failed id made most db).1
handle_failed-IsBalanced w id t made most db uncredited stands books =
    ends_in (handle_failed id made most) db (handle_failed-Triple w id t uncredited made most)
      (books, stands)

-- A staff posting keeps the books balanced, also when a concurrent call commits a state with
-- balanced books between its read and its write.
pub post-IsBalanced :
    (w : ℕ) (dto : CreatePostingDto) (race : Option Db) (db : Db)
    → ((winner : Db) → race ≡ some winner → IsBalanced w winner)
    → IsBalanced w db
    → IsBalanced w (post dto race db).1
post-IsBalanced w dto race db fair books =
    ends_in (post dto race) db (post-Keeps w dto race fair) books

-- Assigning an unmatched deposit to a wallet keeps the books balanced.
pub assign-IsBalanced :
    (w id : ℕ) (dto : AssignUnmatchedDto) (db : Db)
    → IsBalanced w db
    → IsBalanced w (assign id dto db).1
assign-IsBalanced w id dto db books = ends_in (assign id dto) db (assign-Keeps w id dto) books

-- A transfer's answer that is no definite failure changes no balance.
pub apply_transfer_result-wallets :
    (t : Transaction) (result : TransferResult) (db : Db)
    → is_failure result.outcome ≡ false
    → (apply_transfer_result t result db).1.wallets ≡ db.wallets
apply_transfer_result-wallets t result db unfailed =
    ends_in (apply_transfer_result t result) db
      (apply_transfer_result-KeepsMoney t result unfailed db.wallets) refl

-- A query of a payout changes no balance unless the provider answers with a definite failure.
pub sync_payout_status-wallets :
    (p : Provider) (id : ℕ) (db : Db)
    → ((reference : String) (r : TransferResult)
        → p.query_transfer_status reference ≡ ok r
        → is_failure r.outcome ≡ false)
    → (sync_payout_status p id db).1.wallets ≡ db.wallets
sync_payout_status-wallets p id db unfailed =
    ends_in (sync_payout_status p id) db (sync_payout_status-KeepsMoney p unfailed id db.wallets)
      refl

-- A reservation of a positive amount that succeeds leaves the wallet's outflow within the limit of
-- a new device and, where the caps are enforced, within the cap of the Lagos day.
pub reserve-caps :
    (r : Reservation) (db : Db)
    → 0 < r.amount
    → Ends
        (λ _ after.
          IsWithinLimit r.wallet r.limit after
          × IsWithinDaily r.wallet (daily_of r.enforce r.caps) after)
        (λ _. Unit)
        (reserve r db)
reserve-caps r db positive = (reserve-IsWithinCaps r positive).at db tt

-- A reference that is drawn for a payout names no transaction of the provider.
pub generate_reference-IsUnused :
    (o : Outside) (db : Db) → Ends (IsUnused o) (λ _. Unit) (generate_reference o db)
generate_reference-IsUnused o db = (generate_reference-Triple o).at db tt

-- A bill payment, from the request to the row that it returns, keeps the books of every wallet
-- balanced, whatever auth and the bills provider answer.
pub pay_bill-IsBalanced :
    (w : ℕ) (o : BillsOutside) (user : ℕ) (dto : PayBillDto) (db : Db)
    → IsBalanced w db
    → IsFresh db
    → IsBalanced w (pay_bill o user dto db).1
pay_bill-IsBalanced w o user dto db books fresh =
    ends_in (pay_bill o user dto) db (pay_bill-Triple w o user dto) (books, fresh)

-- A job of the bills queue, for a DEBIT row, keeps the books balanced, whatever the provider
-- answers: a query of the status, which may refund the bill, and a fetch of the token.
pub run_bill_job-IsBalanced :
    (w id : ℕ) (t : Transaction) (bills : BillsProvider) (kind : JobKind) (db : Db)
    → is_debit t.type ≡ true
    → Holds id t db.transactions
    → IsBalanced w db
    → IsBalanced w (run_bill_job bills kind id db).1
run_bill_job-IsBalanced w id t bills kind db debit stands books =
    ends_in (run_bill_job bills kind id) db (run_bill_job-Triple w id t debit bills kind)
      (books, stands)
