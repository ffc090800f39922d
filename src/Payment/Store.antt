-- ===== src/Payment/Store.antt =====
-- The state that the payment service keeps (its PostgreSQL tables, its BullMQ queues and the
-- notices that it sends) and the monad of a request: state that survives an error, except inside
-- `dataSource.transaction`, which rolls back.
use fiam_retail_apis.Common.{
  ℕ, ◌+◌, String, Bool, false, ◌&&◌, Option, none, some, List, [], ◌∷◌, ◌++◌, if◌then◌else◌,
  text_eq, any, holds_text, ◌==◌, not,
}
use fiam_retail_apis.Common.Table.{find, update}
use fiam_retail_apis.Payment.Entities.{
  PaymentProviderKey, provider_eq, Wallet, Address, Transaction, Beneficiary, BillBeneficiary,
  WebhookEvent,
}

-- The jobs that BullMQ holds, with the delay before the first attempt and the attempts allowed.
pub data JobKind : Type 0 where
  process_transaction payout_status_query bill_status_query fetch_bill_token : JobKind

pub record Job : Type 0 where
  pub kind : JobKind
  pub transaction_id : ℕ
  pub attempts : ℕ
  pub delay : ℕ

-- Pushes to the customer and reports to the team, in the order in which they are sent.
pub data Notice : Type 0 where
  payout_successful payout_failed credit_received account_credited account_debited : ℕ → Notice
  bill_paid : ℕ → Bool → Notice
  receipt_email : ℕ → Bool → Notice
  hold_report failure_report gave_up_report failure_alert : ℕ → Notice

pub record Db : Type 0 where
  pub wallets : List Wallet
  pub addresses : List Address
  pub beneficiaries : List Beneficiary
  pub bill_beneficiaries : List BillBeneficiary
  pub transactions : List Transaction
  pub webhook_events : List WebhookEvent
  -- the row `free_payouts_enabled` of `app_settings`
  pub free_payouts : Option Bool
  pub jobs : List Job
  pub notices : List Notice
  -- the next generated primary key
  pub next_id : ℕ
  -- `Date.now()` and the database's `now()`
  pub now : ℕ

pub data Error : Type 0 where
  wallet_not_found transaction_not_found beneficiary_not_found insufficient_balance : Error
  recipient_required amount_not_positive no_active_account : Error
  new_device_limit transfer_limit incorrect_pin unavailable : Error
  unique_violation no_unique_reference not_implemented not_awaiting_assignment : Error
  currency_mismatch not_a_payout already_settled unresolved token_not_issued : Error
  unknown_biller unknown_item item_price amount_required customer_not_verified : Error
  phone_required below_minimum provider_error not_a_decimal : Error

pub data Result (A : Type 0) : Type 0 where
  ok : A → Result A
  err : Error → Result A

abbrev pub M : Type 0 → Type 0
M A = Db → Result A × Db

unfoldable pub pure : {A : Type 0} → A → M A
pure a db = (ok a, db)

unfoldable pub raise : {A : Type 0} → Error → M A
raise e db = (err e, db)

unfoldable pub gets : {A : Type 0} → (Db → A) → M A
gets f db = (ok (f db), db)

unfoldable pub modify : (Db → Db) → M (Unit {0})
modify f db = (ok tt, f db)

-- A call to another service that may throw.
unfoldable pub lift : {A : Type 0} → Result A → M A
lift r db = (r, db)

unfoldable pub or_raise : {A : Type 0} → Option A → Error → M A
unfolding pure raise
or_raise none e = raise e
or_raise (some a) e = pure a

unfoldable pub raise_if : Bool → Error → M (Unit {0})
raise_if b e db = (if b then err e else ok tt, db)

-- `dataSource.transaction(m)`: what `m` wrote stays only if it returns.
unfoldable pub transaction : {A : Type 0} → M A → M A
transaction m db = let (r, db') = m db in elim r [ ok a ↦ (ok a, db') | err e ↦ (err e, db) ]

-- `try { … } catch { … }`: what was written before the throw stays.
unfoldable pub catch : {A : Type 0} → M A → (Error → M A) → M A
catch m h db = let (r, db') = m db in elim r [ ok a ↦ (ok a, db') | err e ↦ h e db' ]

infixl 5 ◌>>=◌ ◌>>◌
-- Opening this opens the other combinators too.
unfoldable pub ◌>>=◌ : {A B : Type 0} → M A → (A → M B) → M B
unfolding pure raise gets modify lift or_raise raise_if transaction catch
◌>>=◌ m f db = let (r, db') = m db in elim r [ ok a ↦ f a db' | err e ↦ (err e, db') ]

abbrev pub ◌>>◌ : {A B : Type 0} → M A → M B → M B
m >> k = m >>= λ _. k

-- The unique index on (provider, reference) and the unique column external_id.
abbrev pub same_reference : PaymentProviderKey → String → Transaction → Bool
same_reference p r t = provider_eq t.provider p && text_eq t.reference r

abbrev pub external_taken : Option String → List Transaction → Bool
external_taken none txs = false
external_taken (some e) txs = any (λ t. holds_text t.external_id e) txs

abbrev pub external_clash : ℕ → Option String → List Transaction → Bool
external_clash id none txs = false
external_clash id (some e) txs = any (λ t. holds_text t.external_id e && not (t.id == id)) txs

-- `INSERT` of a row with a generated key; it throws on either unique index.
unfoldable pub insert_transaction : (ℕ → Transaction) → M Transaction
insert_transaction make db =
    let t = make db.next_id in
    if any (same_reference t.provider t.reference) db.transactions
    then (err unique_violation, db)
    else if external_taken t.external_id db.transactions
    then (err unique_violation, db)
    else (ok t, record db { transactions = db.transactions ++ (t ∷ []); next_id = db.next_id + 1 })

unfoldable pub find_transaction : ℕ → M (Option Transaction)
find_transaction id db = (ok (find (λ (t : Transaction). t.id) id db.transactions), db)

unfoldable pub update_transaction : ℕ → (Transaction → Transaction) → M (Unit {0})
update_transaction id f db =
    (ok tt, record db { transactions = update (λ (t : Transaction). t.id) id f db.transactions })

-- An update that writes external_id throws if another row holds the same value.
unfoldable pub update_with_external : ℕ → Option String → (Transaction → Transaction) → M (Unit {0})
unfolding update_transaction
update_with_external id external f db =
    if external_clash id external db.transactions
    then (err unique_violation, db)
    else update_transaction id f db

unfoldable pub find_wallet : ℕ → M (Option Wallet)
find_wallet id db = (ok (find (λ (w : Wallet). w.id) id db.wallets), db)

unfoldable pub set_balance : ℕ → ℕ → M (Unit {0})
set_balance id balance db = (
  ok tt,
  record db {
    wallets = update (λ (w : Wallet). w.id) id (λ w. record w { balance = balance }) db.wallets;
  },
)

unfoldable pub enqueue : Job → M (Unit {0})
enqueue job db = (ok tt, record db { jobs = db.jobs ++ (job ∷ []) })

unfoldable pub notify : Notice → M (Unit {0})
notify notice db = (ok tt, record db { notices = db.notices ++ (notice ∷ []) })
