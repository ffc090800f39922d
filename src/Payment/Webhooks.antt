-- ===== src/Payment/Webhooks.antt =====
-- apps/payment/src/webhooks/webhooks.service.ts: an inward credit is checked with the provider
-- before a deposit is recorded. The provider, decimal.js (on amounts that are not negative) and the
-- reading and writing of JSON are parameters.
pub mod Confirmed
pub mod Recorded
use fiam_retail_apis.Payment.Provider.{successful, failed}
use fiam_retail_apis.Payment.Provider.{hold, requery, TransferOutcome, TransferResult}
use fiam_retail_apis.Payment.Entities.{
  CurrencyCode, PaymentProviderKey, WebhookEvent, VerificationNote,
}
use fiam_retail_apis.Common.{
  option_bind, or_else, ◌==◌, ◌&&◌, truthy, if◌then◌else◌, text_eq, holds_text, ℕ, ◌+◌, String,
  Bool, Option, none, some, [], ◌∷◌, ◌++◌, true, false,
}
use fiam_retail_apis.Payment.Store.{
  unavailable, raise, modify, not_a_decimal, or_raise, Result, lift, gets, M, ◌>>=◌, ◌>>◌, pure,
}
use fiam_retail_apis.Common.Table.{update}
use fiam_retail_apis.Payment.Deposits.{record_payin, RecordPayinInput}

-- dto/vfd-inward-credit-webhook.dto.ts; the timestamp is a time.
pub record VfdInwardCreditWebhookDto : Type 0 where
  pub reference : String
  pub amount : String
  pub account_number : String
  pub originator_account_number : Option String
  pub originator_narration : Option String
  pub timestamp : Option ℕ
  pub session_id : Option String

-- `data` of a VfdTransactionStatusResponse.
pub record TsqData : Type 0 where
  pub amount : Option String
  pub account_no : Option String
  pub from_account_no : Option String
  pub session_id : Option String

pub record WebhookOutside : Type 0 where
  pub query_transfer_status : String → Result TransferResult
  pub parse_amount : String → Option ℕ
  pub data_of : String → Option TsqData
  pub event_payload : VfdInwardCreditWebhookDto → String
  pub deposit_payload : VfdInwardCreditWebhookDto → TsqData → String

abbrev pub event_key : WebhookEvent → ℕ
event_key e = e.id

abbrev pub new_event : WebhookOutside → VfdInwardCreditWebhookDto → ℕ → WebhookEvent
new_event o dto id = record {
  id = id;
  reference = dto.reference;
  payload = o.event_payload dto;
  verified = false;
  verified_at = none;
  verification_note = none;
  tsq_payload = none;
}

unfoldable pub save_event : WebhookOutside → VfdInwardCreditWebhookDto → M ℕ
save_event o dto = do
  id ← gets (λ db. db.next_id)
  modify (λ db. record db {
    webhook_events = db.webhook_events ++ (new_event o dto db.next_id ∷ []);
    next_id = db.next_id + 1;
  })
  pure id

unfoldable pub update_event : ℕ → (WebhookEvent → WebhookEvent) → M (Unit {0})
update_event id f =
    modify (λ db. record db { webhook_events = update event_key id f db.webhook_events })

abbrev pub note_failure : ℕ → VerificationNote → Option String → M (Unit {0})
note_failure id reason payload =
    update_event id (λ e. record e { verification_note = some reason; tsq_payload = payload })

abbrev pub parse : WebhookOutside → String → M ℕ
parse o text = or_raise (o.parse_amount text) not_a_decimal

-- The amount of the TSQ, if it has one.
abbrev pub tsq_amount : WebhookOutside → Option String → M (Option ℕ)
tsq_amount o none = pure none
tsq_amount o (some text) = do n ← parse o text; pure (some n)

-- `a && b && a !== b`, the other way round.
abbrev pub may_agree : Option String → Option String → Bool
may_agree none t = true
may_agree (some a) none = true
may_agree (some a) (some b) = text_eq a b

abbrev pub accounts_agree : VfdInwardCreditWebhookDto → TsqData → Bool
accounts_agree dto t =
    holds_text (truthy t.account_no) dto.account_number
    && may_agree (truthy t.from_account_no) (truthy dto.originator_account_number)

abbrev pub payin : WebhookOutside → VfdInwardCreditWebhookDto → TsqData → ℕ → RecordPayinInput
payin o dto t amount = record {
  provider = PaymentProviderKey.vfd;
  currency = CurrencyCode.ngn;
  account_number = dto.account_number;
  amount = amount;
  reference = dto.reference;
  external_id = or_else t.session_id dto.session_id;
  narration = dto.originator_narration;
  occurred_at = dto.timestamp;
  raw_payload = some (o.deposit_payload dto t);
}

abbrev pub mark_verified : ℕ → Option String → WebhookEvent → WebhookEvent
mark_verified now payload e = record e {
  verified = true;
  verified_at = some now;
  tsq_payload = payload;
}

-- The TSQ agrees: the delivery is verified, and the deposit is recorded.
unfoldable pub accept :
    WebhookOutside → VfdInwardCreditWebhookDto → ℕ → Option String → TsqData → ℕ → M (Unit {0})
unfolding update_event
accept o dto id payload t amount = do
  now ← gets (λ db. db.now)
  update_event id (mark_verified now payload)
  record_payin (payin o dto t amount)
  pure tt

abbrev pub conclude :
    WebhookOutside
    → VfdInwardCreditWebhookDto
    → ℕ
    → Option String
    → TsqData
    → ℕ
    → Option ℕ
    → M (Unit {0})
conclude o dto id payload t claimed none = note_failure id VerificationNote.mismatch payload
conclude o dto id payload t claimed (some n) =
    if n == claimed && accounts_agree dto t
    then accept o dto id payload t n
    else note_failure id VerificationNote.mismatch payload

unfoldable pub check_tsq :
    WebhookOutside → VfdInwardCreditWebhookDto → ℕ → Option String → Option TsqData → M (Unit {0})
unfolding update_event accept
check_tsq o dto id payload none = do
  parse o dto.amount
  note_failure id VerificationNote.mismatch payload
check_tsq o dto id payload (some t) = do
  claimed ← parse o dto.amount
  found ← tsq_amount o (truthy t.amount)
  conclude o dto id payload t claimed found

unfoldable pub handle_outcome :
    WebhookOutside → VfdInwardCreditWebhookDto → ℕ → TransferResult → TransferOutcome → M (Unit {0})
unfolding check_tsq
handle_outcome o dto id r requery = do
  note_failure id VerificationNote.inconclusive r.raw_payload
  raise unavailable
handle_outcome o dto id r failed = note_failure id VerificationNote.not_confirmed r.raw_payload
handle_outcome o dto id r hold = note_failure id VerificationNote.not_confirmed r.raw_payload
handle_outcome o dto id r successful =
    check_tsq o dto id r.raw_payload (option_bind o.data_of r.raw_payload)

-- Every delivery is kept, whatever becomes of it.
unfoldable pub handle_vfd_inward_credit : WebhookOutside → VfdInwardCreditWebhookDto → M (Unit {0})
unfolding save_event handle_outcome
handle_vfd_inward_credit o dto = do
  id ← save_event o dto
  r ← lift (o.query_transfer_status dto.reference)
  handle_outcome o dto id r r.outcome
