-- ===== src/Payment/Payouts/Settle.antt =====
-- `applyTransferResult`, `syncPayoutStatus` and `holdForReview` of
-- apps/payment/src/payouts/payouts.service.ts, and the re-query worker
-- apps/payment/src/payouts/payout-status-query.processor.ts.
use fiam_retail_apis.Common.{
  ℕ, Option, none, some, if◌then◌else◌, or_else, ltb, Bool, true, false, ◌||◌, not,
}
use fiam_retail_apis.Payment.Entities.{
  TransactionStatus, is_final, is_debit, PaymentProviderKey, provider_eq, Transaction,
}
use fiam_retail_apis.Payment.Store.{
  M, ◌>>=◌, ◌>>◌, pure, raise, gets, lift, or_raise, raise_if, catch, transaction_not_found,
  unresolved, not_a_payout, already_settled, unavailable, provider_error, find_transaction,
  update_transaction, update_with_external, enqueue, notify, Job, JobKind, Notice,
}
use fiam_retail_apis.Payment.Provider.{
  TransferOutcome, successful, failed, hold, requery, TransferResult, Provider,
}
use fiam_retail_apis.Payment.Payouts.Reversal.{reverse_failed_payout}

abbrev pub mark_successful : ℕ → Transaction → Transaction
mark_successful now t = record t { status = TransactionStatus.successful; verified_at = some now }

-- The funds stay held; the team is told.
unfoldable pub hold_for_review : Transaction → M (Unit {0})
hold_for_review t = notify (Notice.hold_report t.id)

-- The job that polls the provider, as it is queued: ten attempts, and no first delay.
abbrev pub status_query_job : ℕ → Job
status_query_job id = record {
  kind = JobKind.payout_status_query;
  transaction_id = id;
  attempts = 10;
  delay = 0;
}

unfoldable pub settle_transfer : Transaction → TransferOutcome → M (Unit {0})
unfolding hold_for_review
settle_transfer t successful = do
  now ← gets (λ db. db.now)
  update_transaction t.id (mark_successful now)
  notify (Notice.payout_successful t.id)
settle_transfer t failed = reverse_failed_payout t.id
settle_transfer t hold = hold_for_review t
settle_transfer t requery = enqueue (status_query_job t.id)

-- What the answer of the provider adds to the row.
abbrev pub record_answer : TransferResult → Transaction → Transaction
record_answer r t = record t {
  external_id = r.external_id;
  provider_status_code = r.provider_status_code;
  raw_payload = r.raw_payload;
}

unfoldable pub apply_transfer_result : Transaction → TransferResult → M Transaction
unfolding settle_transfer
apply_transfer_result t result = do
  update_with_external t.id result.external_id (record_answer result)
  settle_transfer t result.outcome
  found ← find_transaction t.id
  or_raise found transaction_not_found

pub data SyncOutcome : Type 0 where
  not_found already_final sync_successful sync_failed sync_hold sync_unresolved : SyncOutcome

abbrev pub record_requery : TransferResult → Transaction → Transaction → Transaction
record_requery r before t = record t {
  external_id = or_else r.external_id before.external_id;
  provider_status_code = r.provider_status_code;
  raw_payload = or_else r.raw_payload before.raw_payload;
}

unfoldable pub settle_sync : Transaction → TransferOutcome → M SyncOutcome
unfolding hold_for_review
settle_sync t successful = do
  now ← gets (λ db. db.now)
  update_transaction t.id (mark_successful now)
  notify (Notice.payout_successful t.id)
  pure sync_successful
settle_sync t failed = do reverse_failed_payout t.id; pure sync_failed
settle_sync t hold = do hold_for_review t; pure sync_hold
settle_sync t requery = pure sync_unresolved

-- `registry.getProviderByKey`: MANUAL is never registered.
unfoldable pub sync_found : Provider → Option Transaction → M SyncOutcome
unfolding settle_sync
sync_found p none = pure not_found
sync_found p (some t) = if is_final t.status then pure already_final else do
  raise_if (provider_eq t.provider PaymentProviderKey.manual) provider_error
  result ← lift (p.query_transfer_status t.reference)
  update_with_external t.id (or_else result.external_id t.external_id) (record_requery result t)
  settle_sync t result.outcome

unfoldable pub sync_payout_status : Provider → ℕ → M SyncOutcome
unfolding sync_found
sync_payout_status p id = do t ← find_transaction id; sync_found p t

-- The worker: an unresolved payout throws, so that the queue retries.
unfoldable pub run_status_query : Provider → ℕ → M (Unit {0})
unfolding sync_payout_status
run_status_query p id = do
  outcome ← sync_payout_status p id
  elim outcome [ sync_unresolved ↦ raise unresolved | _ ↦ pure tt ]

-- `onFailed`: only once the retries are exhausted, and the row is left as it is.
unfoldable pub status_query_failed : ℕ → ℕ → ℕ → M (Unit {0})
status_query_failed id attempts_made max_attempts =
    if ltb attempts_made max_attempts then pure tt else notify (Notice.gave_up_report id)

-- `requery` of apps/payment/src/internal/internal.controller.ts, the admin console's action.
abbrev pub is_in_flight : TransactionStatus → Bool
is_in_flight TransactionStatus.pending = true
is_in_flight TransactionStatus.processing = true
is_in_flight _ = false

unfoldable pub requery_transaction : Provider → ℕ → M SyncOutcome
unfolding sync_payout_status
requery_transaction p id = do
  found ← find_transaction id
  t ← or_raise found transaction_not_found
  raise_if (not (is_debit t.type) || provider_eq t.provider PaymentProviderKey.manual) not_a_payout
  raise_if (not (is_in_flight t.status)) already_settled
  outcome ← catch (sync_payout_status p id) (λ _. raise unavailable)
  after ← find_transaction id
  or_raise after transaction_not_found
  pure outcome
