-- ===== src/Payment/Payouts/Reversal.antt =====
-- `reverseFailedPayout` of apps/payment/src/payouts/payouts.service.ts, and its twin
-- `reverseFailedBill` of apps/payment/src/bills/bills.service.ts.
use fiam_retail_apis.Common.{ℕ, ◌+◌, String, Option, none, some, if◌then◌else◌, get_or, join}
use fiam_retail_apis.Payment.Entities.{
  TransactionType, TransactionKind, TransactionStatus, is_final, Transaction,
}
use fiam_retail_apis.Payment.Store.{
  M, ◌>>=◌, ◌>>◌, pure, gets, or_raise, transaction, wallet_not_found, insert_transaction,
  find_transaction, update_transaction, notify, Notice,
}
use fiam_retail_apis.Payment.Wallets.{credit_for_update}

-- amount + fee, a missing fee being zero
abbrev pub refund_amount : Transaction → ℕ
refund_amount t = t.amount + get_or t.fee 0

abbrev pub reversal_reference : Transaction → String
reversal_reference t = join "REV-" t.reference

-- The CREDIT row of a reversal.
unfoldable pub reversal_row : Transaction → String → Option ℕ → ℕ → ℕ → ℕ → Transaction
reversal_row t narration beneficiary balance now id = record {
  id = id;
  wallet_id = t.wallet_id;
  currency = t.currency;
  type = TransactionType.credit;
  kind = TransactionKind.reversal;
  bill_type = none;
  status = TransactionStatus.successful;
  provider = t.provider;
  account_number = t.account_number;
  amount = refund_amount t;
  fee = none;
  fee_vat = none;
  stamp_duty = none;
  beneficiary_id = beneficiary;
  balance_after = some balance;
  reference = reversal_reference t;
  external_id = none;
  provider_status_code = none;
  bill = none;
  narration = some narration;
  occurred_at = none;
  verified_at = some now;
  raw_payload = none;
  created_at = now;
}

abbrev pub mark_failed : ℕ → Transaction → Transaction
mark_failed now t = record t { status = TransactionStatus.failed; verified_at = some now }

-- The writes of a reversal, for the row that was read.
unfoldable pub refund : Transaction → String → Option ℕ → M Transaction
unfolding reversal_row
refund t narration beneficiary = do
  wallet_id ← or_raise t.wallet_id wallet_not_found
  wallet ← credit_for_update wallet_id (refund_amount t)
  now ← gets (λ db. db.now)
  update_transaction t.id (mark_failed now)
  insert_transaction (reversal_row t narration beneficiary wallet.balance now)

-- The body of the database transaction: nothing is done for a row that is already final.
unfoldable pub reverse_found :
    (Transaction → String) → (Transaction → Option ℕ) → Option Transaction → M (Option Transaction)
unfolding refund
reverse_found narration beneficiary none = pure none
reverse_found narration beneficiary (some t) =
    if is_final t.status
    then pure none
    else do refund t (narration t) (beneficiary t); pure (some t)

abbrev pub payout_narration : Transaction → String
payout_narration t = join "Reversal for failed payout " t.reference

abbrev pub bill_narration : Transaction → String
bill_narration t = join "Reversal for failed bill payment " t.reference

-- After the commit: the push to the customer and the report to the team.
unfoldable pub announce_reversal : Option Transaction → M (Unit {0})
announce_reversal none = pure tt
announce_reversal (some t) = do
  notify (Notice.payout_failed t.id)
  notify (Notice.failure_report t.id)

unfoldable pub reverse_failed_payout : ℕ → M (Unit {0})
unfolding reverse_found announce_reversal
reverse_failed_payout id = do
  reversed ←
      transaction
        (do t ← find_transaction id; reverse_found payout_narration (λ t. t.beneficiary_id) t)
  announce_reversal reversed

unfoldable pub reverse_failed_bill : ℕ → M (Unit {0})
unfolding reverse_found announce_reversal
reverse_failed_bill id = do
  reversed ← transaction (do t ← find_transaction id; reverse_found bill_narration (λ _. none) t)
  announce_reversal reversed
