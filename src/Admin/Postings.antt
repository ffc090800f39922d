-- ===== src/Admin/Postings.antt =====
-- apps/admin/src/postings/postings.service.ts: request, approve, reject and cancel. The money moves
-- in the payment service, whose `post` and `assign` an approval calls over HTTP.
pub mod Request
pub mod Lifecycle
pub mod FourEyes
pub mod Guarantee
pub mod Operations
pub mod Again
pub mod Retry
pub mod Refused
use fiam_retail_apis.Admin.Desk.{
  posting_failed, posting_approved, record_audit, is_processing, posting_cancelled, is_pending,
  posting_key, posting_rejected, update_posting, claim, AuditAction, Ctx, Posting, PostingStatus,
  Desk,
}
use fiam_retail_apis.Common.{
  holds_id, ◌&&◌, ◌==◌, join, String, Option, Bool, ℕ, true, false, some, none, if◌then◌else◌,
}
use fiam_retail_apis.Common.Table.{find}
use fiam_retail_apis.Payment.Store.{Error, ok, err, Result, Db}
use fiam_retail_apis.Payment.Internal.{
  post, assign, PostingView, AssignResult, CreatePostingDto as PaymentPosting, AssignUnmatchedDto,
}

pub data Refusal : Type 0 where
  posting_not_found own_request already_decided just_decided not_requester : Refusal
  customer_not_found account_closed no_wallet deposit_not_found not_awaiting : Refusal
  wrong_currency already_pending amount_not_positive insufficient_balance : Refusal
  could_not_post : Error → Refusal
  not_confirmed : Refusal

pub data Reply : Type 0 where
  done : Posting → Reply
  refused : Refusal → Reply

-- The console's tables and the payment service's database.
pub record System : Type 0 where
  pub desk : Desk
  pub payment : Db

-- What becomes of a call over the network.
pub data Delivery : Type 0 where
  answered request_lost answer_lost : Delivery

-- What the caller of the payment service learns: 2xx, 4xx, or nothing definite.
pub data Answer : Type 0 where
  confirmed : ℕ → Option ℕ → Answer
  denied : Error → Answer
  unknown : Answer

-- The exceptions of the payment service that are answered with a 4xx status.
abbrev pub is_client_error : Error → Bool
is_client_error Error.wallet_not_found = true
is_client_error Error.transaction_not_found = true
is_client_error Error.insufficient_balance = true
is_client_error Error.amount_not_positive = true
is_client_error Error.not_awaiting_assignment = true
is_client_error Error.currency_mismatch = true
is_client_error _ = false

abbrev pub deny : Error → Answer
deny e = if is_client_error e then denied e else unknown

abbrev pub answer_of_post : Result PostingView → Answer
answer_of_post (ok v) = confirmed v.transaction_id v.balance_after
answer_of_post (err e) = deny e

abbrev pub answer_of_assign : Result AssignResult → Answer
answer_of_assign (ok r) = confirmed r.transaction.id r.transaction.balance_after
answer_of_assign (err e) = deny e

-- The body of the call. A UUID's text is a parameter.
abbrev pub posting_reference : (ℕ → String) → Posting → String
posting_reference uuid_text p = join "MAN-" (uuid_text p.id)

abbrev pub meta_of : Ctx → Posting → String
meta_of ctx p = join p.reason (join p.requested_by_email ctx.actor.email)

abbrev pub posting_body : (ℕ → String) → Ctx → Posting → PaymentPosting
posting_body uuid_text ctx p = record {
  wallet_id = p.wallet_id;
  type = p.type;
  amount = p.amount;
  reference = posting_reference uuid_text p;
  narration = p.narration;
  meta = meta_of ctx p;
}

abbrev pub assign_body : (ℕ → String) → Ctx → Posting → AssignUnmatchedDto
assign_body uuid_text ctx p = record {
  wallet_id = p.wallet_id;
  reference = posting_reference uuid_text p;
  meta = meta_of ctx p;
}

-- What the payment service does with the call, were it delivered: an unmatched deposit is resolved,
-- everything else is a new posting.
unfoldable pub serve_source : (ℕ → String) → Ctx → Posting → Option ℕ → Db → Answer × Db
serve_source uuid_text ctx p (some id) db =
    let (r, after) = assign id (assign_body uuid_text ctx p) db in (answer_of_assign r, after)
serve_source uuid_text ctx p none db =
    let (r, after) = post (posting_body uuid_text ctx p) none db in (answer_of_post r, after)

unfoldable pub serve : (ℕ → String) → Ctx → Posting → Db → Answer × Db
unfolding serve_source
serve uuid_text ctx p db = serve_source uuid_text ctx p p.source_transaction_id db

unfoldable pub call_payment : (ℕ → String) → Delivery → Ctx → Posting → Db → Answer × Db
unfolding serve
call_payment uuid_text answered ctx p db = serve uuid_text ctx p db
call_payment uuid_text request_lost ctx p db = (unknown, db)
call_payment uuid_text answer_lost ctx p db = (unknown, (serve uuid_text ctx p db).1)

abbrev pub mark_posted : ℕ → Option ℕ → Posting → Posting
mark_posted transaction balance p = record p {
  status = PostingStatus.posted;
  transaction_id = some transaction;
  balance_after = balance;
  failure_reason = none;
}

abbrev pub mark_failed : Error → Posting → Posting
mark_failed e p = record p { status = PostingStatus.failed; failure_reason = some e }

abbrev pub reply_with : Option Posting → Reply
reply_with none = refused posting_not_found
reply_with (some p) = done p

-- What the answer does to the tables.
unfoldable pub settle : ℕ → Ctx → Answer → Desk → Reply × Desk
settle id ctx (confirmed transaction balance) desk =
    let after = update_posting id (mark_posted transaction balance) desk in
    (reply_with (find posting_key id after.postings), record_audit ctx posting_approved id after)
settle id ctx (denied e) desk = (
  refused (could_not_post e),
  record_audit ctx posting_failed id (update_posting id (mark_failed e) desk),
)
settle id ctx unknown desk = (refused not_confirmed, desk)

-- The tables that a concurrent request has committed since the row was read, if there is one.
abbrev pub raced : Option Desk → Desk → Desk
raced none desk = desk
raced (some other) desk = other

-- The right to apply the posting: the claim of a pending one, or a retry by the same approver.
unfoldable pub begin_approval : Ctx → Option String → Posting → Desk → Option Refusal × Desk
begin_approval ctx comment p desk =
    let (claimed, after) = claim p.id PostingStatus.processing ctx comment desk in
    if is_pending p.status
    then (if claimed then (none, after) else (some just_decided, desk))
    else if is_processing p.status && holds_id p.decided_by_id ctx.actor.id
    then (none, desk)
    else (some already_decided, desk)

unfoldable pub apply_posting : (ℕ → String) → Delivery → Ctx → Posting → System → Reply × System
unfolding call_payment settle
apply_posting uuid_text delivery ctx p s =
    let (answer, payment) = call_payment uuid_text delivery ctx p s.payment in
    let (reply, desk) = settle p.id ctx answer s.desk in
    (reply, record { desk = desk; payment = payment })

abbrev pub go_on :
    (ℕ → String) → Delivery → Ctx → Posting → System → Option Refusal × Desk → Reply × System
go_on uuid_text delivery ctx p s (some r, desk) = (refused r, record s { desk = desk })
go_on uuid_text delivery ctx p s (none, desk) =
    apply_posting uuid_text delivery ctx p (record s { desk = desk })

abbrev pub approve_found :
    (ℕ → String)
    → Delivery
    → Ctx
    → Option String
    → Option Desk
    → Option Posting
    → System
    → Reply × System
approve_found uuid_text delivery ctx comment race none s = (refused posting_not_found, s)
approve_found uuid_text delivery ctx comment race (some p) s =
    if p.requested_by_id == ctx.actor.id
    then (refused own_request, s)
    else go_on uuid_text delivery ctx p s (begin_approval ctx comment p (raced race s.desk))

unfoldable pub approve :
    (ℕ → String) → Delivery → ℕ → Ctx → Option String → Option Desk → System → Reply × System
unfolding begin_approval apply_posting
approve uuid_text delivery id ctx comment race s =
    approve_found uuid_text delivery ctx comment race (find posting_key id s.desk.postings) s

-- `reject` and `cancel` differ in who may ask, and in the note.
abbrev pub close : ℕ → PostingStatus → AuditAction → Ctx → Option String → Desk → Reply × Desk
close id to action ctx comment desk =
    let (claimed, after) = claim id to ctx comment desk in
    if claimed
    then (reply_with (find posting_key id after.postings), record_audit ctx action id after)
    else (refused already_decided, desk)

abbrev pub reject_found : ℕ → Ctx → String → Option Desk → Option Posting → Desk → Reply × Desk
reject_found id ctx comment race none desk = (refused posting_not_found, desk)
reject_found id ctx comment race (some p) desk =
    if p.requested_by_id == ctx.actor.id
    then (refused own_request, desk)
    else close id PostingStatus.rejected posting_rejected ctx (some comment) (raced race desk)

unfoldable pub reject : ℕ → Ctx → String → Option Desk → Desk → Reply × Desk
reject id ctx comment race desk =
    reject_found id ctx comment race (find posting_key id desk.postings) desk

abbrev pub cancel_found : ℕ → Ctx → Option Desk → Option Posting → Desk → Reply × Desk
cancel_found id ctx race none desk = (refused posting_not_found, desk)
cancel_found id ctx race (some p) desk =
    if p.requested_by_id == ctx.actor.id
    then close id PostingStatus.cancelled posting_cancelled ctx none (raced race desk)
    else (refused not_requester, desk)

unfoldable pub cancel : ℕ → Ctx → Option Desk → Desk → Reply × Desk
cancel id ctx race desk = cancel_found id ctx race (find posting_key id desk.postings) desk
