-- ===== src/Payment/Bills/Settle.antt =====
-- apps/payment/src/bills/bills.service.ts: applyResult, markSuccessful, fetchTokenAndSendReceipt,
-- sendReceiptWithoutToken, rememberRecipient and syncBillStatus, and the worker of
-- bills/bill-status-query.processor.ts. reverseFailedBill is Payment/Payouts/Reversal.
use fiam_retail_apis.Payment.Store.{
  token_not_issued, transaction_not_found, Notice, raise_if, or_raise, err, enqueue,
  find_transaction, notify, Job, find_wallet, update_transaction, ok, unresolved, JobKind, Result,
  M, ◌>>=◌, ◌>>◌, pure, raise, gets, lift, catch,
}
use fiam_retail_apis.Payment.Entities.{
  is_final, TransactionStatus, BillType, Wallet, BillDetails, Transaction,
}
use fiam_retail_apis.Common.{
  ltb, truthy, not, ◌||◌, ◌&&◌, option_map, lower_is, String, if◌then◌else◌, is_some, or_else,
  Option, ℕ, Bool, List, ◌∷◌, [], none, some, true, false,
}
use fiam_retail_apis.Payment.Payouts.Reversal.{reverse_failed_bill}
use fiam_retail_apis.Payment.Bills.Catalogue.{
  BillsProvider, ProviderBillResult, BillOutcome, bill_successful, bill_failed, bill_requery,
}
use fiam_retail_apis.Payment.Bills.Recipients.{record_success}
use fiam_retail_apis.Payment.Payouts.Settle.{
  SyncOutcome, not_found, already_final, sync_successful, sync_failed, sync_unresolved,
}

-- The first one with entries.
abbrev pub or_list {ℓ} : {A : Type ℓ} → List A → List A → List A
or_list [] ys = ys
or_list (x ∷ xs) ys = x ∷ xs

-- What the provider issued, on the row's bill.
abbrev pub issue : ProviderBillResult → BillDetails → BillDetails
issue r bill = record bill {
  token = or_else r.token bill.token;
  extra_tokens = or_list r.extra_tokens bill.extra_tokens;
  details = or_list r.details bill.details;
}

abbrev pub mark_paid : ℕ → Option BillDetails → Transaction → Transaction
mark_paid now bill t = record t {
  status = TransactionStatus.successful;
  verified_at = some now;
  bill = or_else bill t.bill;
}

abbrev pub is_utility : Option BillType → Bool
is_utility (some BillType.utility) = true
is_utility _ = false

-- `expectsToken`
abbrev pub expects_token : Transaction → Bool
expects_token t = is_utility t.bill_type

-- `!bill?.token`
abbrev pub has_token : Option BillDetails → Bool
has_token none = false
has_token (some bill) = is_some (truthy bill.token)

abbrev pub holds_receipt : Transaction → Option BillDetails → Bool
holds_receipt t bill = expects_token t && not (has_token bill)

abbrev pub fetch_token_job : ℕ → Job
fetch_token_job id = record {
  kind = JobKind.fetch_bill_token;
  transaction_id = id;
  attempts = 6;
  delay = 15000;
}

abbrev pub remember_for : BillDetails → ℕ → Option Wallet → M (Unit {0})
remember_for bill amount none = pure tt
remember_for bill amount (some wallet) = record_success wallet.user_id bill amount

abbrev pub remember_bill : Option BillDetails → Option ℕ → ℕ → M (Unit {0})
remember_bill (some bill) (some wallet) amount = do
  found ← find_wallet wallet
  remember_for bill amount found
remember_bill _ _ amount = pure tt

-- Best effort: an error is logged.
unfoldable pub remember_recipient : Transaction → M (Unit {0})
remember_recipient t = catch (remember_bill t.bill t.wallet_id t.amount) (λ _. pure tt)

-- The push goes out at once; the receipt waits for the token of an electricity bill.
unfoldable pub announce_paid : Transaction → Option BillDetails → M (Unit {0})
announce_paid t bill = do
  notify (Notice.bill_paid t.id (not (holds_receipt t bill)))
  if holds_receipt t bill then enqueue (fetch_token_job t.id) else pure tt

unfoldable pub mark_successful : Transaction → ProviderBillResult → M (Unit {0})
unfolding announce_paid remember_recipient
mark_successful t issued = do
  now ← gets (λ db. db.now)
  let bill = option_map (issue issued) t.bill
  update_transaction t.id (mark_paid now bill)
  announce_paid t bill
  remember_recipient t

abbrev pub is_paid : BillOutcome → Bool
is_paid bill_successful = true
is_paid _ = false

-- `isTokenCategory`
abbrev pub is_token_category : Option BillDetails → Bool
is_token_category none = false
is_token_category (some bill) =
    lower_is bill.category "utility" || lower_is bill.category "cable tv"

abbrev pub if_successful : ProviderBillResult → ProviderBillResult → ProviderBillResult
if_successful initial r = elim r.outcome [ bill_successful ↦ r | _ ↦ initial ]

abbrev pub queried : ProviderBillResult → Result ProviderBillResult → ProviderBillResult
queried initial (ok r) = if_successful initial r
queried initial (err e) = initial

-- The answer to a payment without its token is replaced by that of a status query.
abbrev pub with_token : BillsProvider → Transaction → ProviderBillResult → ProviderBillResult
with_token bills t initial =
    if not (is_some (truthy initial.token)) && is_token_category t.bill
    then queried initial (bills.query_bill_status t.reference)
    else initial

abbrev pub record_result : ProviderBillResult → Option String → Transaction → Transaction
record_result r payload t = record t {
  provider_status_code = r.provider_status_code;
  raw_payload = payload;
}

-- Ten attempts, and a first look after 30 seconds.
abbrev pub bill_query_job : ℕ → Job
bill_query_job id = record {
  kind = JobKind.bill_status_query;
  transaction_id = id;
  attempts = 10;
  delay = 30000;
}

unfoldable pub settle_bill :
    BillsProvider → Transaction → ProviderBillResult → BillOutcome → M (Unit {0})
unfolding mark_successful
settle_bill bills t result bill_successful = mark_successful t (with_token bills t result)
settle_bill bills t result bill_failed = reverse_failed_bill t.id
settle_bill bills t result bill_requery = enqueue (bill_query_job t.id)

unfoldable pub apply_result : BillsProvider → Transaction → ProviderBillResult → M Transaction
unfolding settle_bill
apply_result bills t result = do
  update_transaction t.id (record_result result result.raw_payload)
  settle_bill bills t result result.outcome
  found ← find_transaction t.id
  or_raise found transaction_not_found

unfoldable pub settle_bill_sync : Transaction → ProviderBillResult → BillOutcome → M SyncOutcome
unfolding mark_successful
settle_bill_sync t result bill_successful = do mark_successful t result; pure sync_successful
settle_bill_sync t result bill_failed = do reverse_failed_bill t.id; pure sync_failed
settle_bill_sync t result bill_requery = pure sync_unresolved

unfoldable pub sync_with : BillsProvider → Transaction → Option BillDetails → M SyncOutcome
unfolding settle_bill_sync
sync_with bills t none = pure not_found
sync_with bills t (some bill) = if is_final t.status then pure already_final else do
  result ← lift (bills.query_bill_status t.reference)
  update_transaction t.id (record_result result (or_else result.raw_payload t.raw_payload))
  settle_bill_sync t result result.outcome

abbrev pub sync_bill_found : BillsProvider → Option Transaction → M SyncOutcome
sync_bill_found bills none = pure not_found
sync_bill_found bills (some t) = sync_with bills t t.bill

unfoldable pub sync_bill_status : BillsProvider → ℕ → M SyncOutcome
unfolding sync_with
sync_bill_status bills id = do t ← find_transaction id; sync_bill_found bills t

abbrev pub mail_receipt : ℕ → M Bool
mail_receipt id = do notify (Notice.receipt_email id true); pure true

-- The result is whether a receipt was sent: `SENT` or `NOT_FOUND`.
unfoldable pub fetch_with : BillsProvider → Transaction → Option BillDetails → M Bool
fetch_with bills t none = pure false
fetch_with bills t (some bill) = if has_token (some bill) then mail_receipt t.id else do
  result ← lift (bills.query_bill_status t.reference)
  raise_if (not (is_paid result.outcome && is_some (truthy result.token))) token_not_issued
  update_transaction t.id (λ row. record row { bill = some (issue result bill) })
  mail_receipt t.id

abbrev pub fetch_token_found : BillsProvider → Option Transaction → M Bool
fetch_token_found bills none = pure false
fetch_token_found bills (some t) = fetch_with bills t t.bill

unfoldable pub fetch_token_and_send_receipt : BillsProvider → ℕ → M Bool
unfolding fetch_with
fetch_token_and_send_receipt bills id = do t ← find_transaction id; fetch_token_found bills t

-- The receipt with a note that the token is missing, and the report to the team.
abbrev pub send_with : Transaction → Option BillDetails → M (Unit {0})
send_with t none = pure tt
send_with t (some bill) = do
  notify (Notice.receipt_email t.id false)
  notify (Notice.failure_report t.id)

abbrev pub send_receipt_found : Option Transaction → M (Unit {0})
send_receipt_found none = pure tt
send_receipt_found (some t) = send_with t t.bill

unfoldable pub send_receipt_without_token : ℕ → M (Unit {0})
send_receipt_without_token id = do t ← find_transaction id; send_receipt_found t

abbrev pub job_end : SyncOutcome → M (Unit {0})
job_end sync_unresolved = raise unresolved
job_end _ = pure tt

-- The worker: an attempt at a job, which the queue repeats if it throws.
unfoldable pub run_bill_job : BillsProvider → JobKind → ℕ → M (Unit {0})
unfolding sync_bill_status fetch_token_and_send_receipt
run_bill_job bills JobKind.fetch_bill_token id = do fetch_token_and_send_receipt bills id; pure tt
run_bill_job bills _ id = do outcome ← sync_bill_status bills id; job_end outcome

-- Only once the retries are exhausted.
unfoldable pub bill_job_failed : JobKind → ℕ → ℕ → ℕ → M (Unit {0})
unfolding send_receipt_without_token
bill_job_failed kind id attempts_made max_attempts =
    if ltb attempts_made max_attempts then pure tt else elim kind [
      | JobKind.fetch_bill_token ↦ send_receipt_without_token id
      | _ ↦ notify (Notice.gave_up_report id)
    ]
