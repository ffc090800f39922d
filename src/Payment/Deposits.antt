-- ===== src/Payment/Deposits.antt =====
-- apps/payment/src/transactions/transactions.service.ts (`recordPayin`) and the worker
-- apps/payment/src/transactions/transactions.processor.ts.
pub mod Books
pub mod Once
use fiam_retail_apis.Payment.Store.{
  transaction, not_implemented, update_transaction, wallet_not_found, raise_if, JobKind,
  insert_transaction, Notice, catch, or_raise, gets, enqueue, find_wallet, notify, find_transaction,
  M, ◌>>=◌, ◌>>◌, pure,
}
use fiam_retail_apis.Payment.Payouts.Reversal.{mark_failed}
use fiam_retail_apis.Payment.Entities.{
  is_debit, TransactionKind, TransactionStatus, CurrencyCode, TransactionType, is_final, Address,
  Transaction, Wallet, PaymentProviderKey,
}
use fiam_retail_apis.Payment.Wallets.{credit_for_update, find_active_by_provider_account_number}
use fiam_retail_apis.Common.{ℕ, String, Option, none, some, if◌then◌else◌, ltb}

pub record RecordPayinInput : Type 0 where
  pub provider : PaymentProviderKey
  pub currency : CurrencyCode
  pub account_number : String
  pub amount : ℕ
  pub reference : String
  pub external_id : Option String
  pub narration : Option String
  pub occurred_at : Option ℕ
  pub raw_payload : Option String

-- The row of a deposit: PENDING for a wallet, UNMATCHED without one.
unfoldable pub deposit_row : RecordPayinInput → Option ℕ → ℕ → ℕ → Transaction
deposit_row i wallet now id = record {
  id = id;
  wallet_id = wallet;
  currency = i.currency;
  type = TransactionType.credit;
  kind = TransactionKind.deposit;
  bill_type = none;
  status = elim wallet [ some _ ↦ TransactionStatus.pending | none ↦ TransactionStatus.unmatched ];
  provider = i.provider;
  account_number = i.account_number;
  amount = i.amount;
  fee = none;
  fee_vat = none;
  stamp_duty = none;
  beneficiary_id = none;
  balance_after = none;
  reference = i.reference;
  external_id = i.external_id;
  provider_status_code = none;
  bill = none;
  narration = i.narration;
  occurred_at = i.occurred_at;
  verified_at = elim wallet [ some _ ↦ none | none ↦ some now ];
  raw_payload = i.raw_payload;
  created_at = now;
}

-- `INSERT … ON CONFLICT DO NOTHING RETURNING id`
unfoldable pub insert_or_ignore : (ℕ → Transaction) → M (Option Transaction)
insert_or_ignore make = catch (insert_transaction make >>= λ t. pure (some t)) (λ _. pure none)

unfoldable pub wallet_of_address : Option Address → M (Option Wallet)
wallet_of_address none = pure none
wallet_of_address (some a) = find_wallet a.wallet_id

abbrev pub wallet_id_of : Option Wallet → Option ℕ
wallet_id_of none = none
wallet_id_of (some w) = some w.id

unfoldable pub queue_deposit : Option Wallet → Transaction → M (Option Transaction)
queue_deposit none t = pure (some t)
queue_deposit (some w) t = do
  enqueue (record {
    kind = JobKind.process_transaction;
    transaction_id = t.id;
    attempts = 5;
    delay = 0;
  })
  pure (some t)

unfoldable pub record_payin : RecordPayinInput → M (Option Transaction)
unfolding wallet_of_address insert_or_ignore queue_deposit deposit_row
    find_active_by_provider_account_number
record_payin i = do
  address ← find_active_by_provider_account_number i.provider i.account_number
  wallet ← wallet_of_address address
  now ← gets (λ db. db.now)
  inserted ← insert_or_ignore (deposit_row i (wallet_id_of wallet) now)
  elim inserted [ none ↦ pure none | some t ↦ queue_deposit wallet t ]

-- The worker.
abbrev pub mark_processing : Transaction → Transaction
mark_processing t = record t { status = TransactionStatus.processing }

abbrev pub mark_credited : ℕ → ℕ → Transaction → Transaction
mark_credited balance now t = record t {
  status = TransactionStatus.successful;
  balance_after = some balance;
  verified_at = some now;
}

-- The database transaction of the worker, for the row that was read before it.
unfoldable pub apply_credit : ℕ → Transaction → M (Unit {0})
apply_credit id t = do
  wallet_id ← or_raise t.wallet_id wallet_not_found
  wallet ← credit_for_update wallet_id t.amount
  now ← gets (λ db. db.now)
  update_transaction id (mark_credited wallet.balance now)

unfoldable pub process_found : ℕ → Option Transaction → M (Unit {0})
unfolding apply_credit
process_found id none = pure tt
process_found id (some t) = if is_final t.status then pure tt else do
  raise_if (is_debit t.type) not_implemented
  update_transaction id mark_processing
  transaction (apply_credit id t)
  notify (Notice.credit_received t.id)

unfoldable pub process : ℕ → M (Unit {0})
unfolding process_found
process id = do t ← find_transaction id; process_found id t

abbrev pub alert_found : Option Transaction → M (Unit {0})
alert_found none = pure tt
alert_found (some t) = notify (Notice.failure_alert t.id)

-- `handleFailed`: only after the last attempt.
unfoldable pub handle_failed : ℕ → ℕ → ℕ → M (Unit {0})
handle_failed id attempts_made max_attempts = if ltb attempts_made max_attempts then pure tt else do
  failed ← find_transaction id
  alert_found failed
  notify (Notice.failure_report id)
  now ← gets (λ db. db.now)
  update_transaction id (mark_failed now)
