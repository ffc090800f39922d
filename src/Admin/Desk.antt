-- ===== src/Admin/Desk.antt =====
-- apps/admin/src/postings/entities/posting.entity.ts, and the tables that the postings service
-- keeps: the postings and the audit log.
use fiam_retail_apis.Common.{
  if◌then◌else◌, List, String, Option, Bool, ℕ, true, false, some, none, [], ◌∷◌, ◌++◌,
}
use fiam_retail_apis.Common.Table.{find, update}
use fiam_retail_apis.Payment.Entities.{TransactionType, CurrencyCode}
use fiam_retail_apis.Payment.Store.{Error}

pub data PostingStatus : Type 0 where
  pending processing posted rejected cancelled failed : PostingStatus

abbrev pub is_pending : PostingStatus → Bool
is_pending PostingStatus.pending = true
is_pending _ = false

abbrev pub is_processing : PostingStatus → Bool
is_processing PostingStatus.processing = true
is_processing _ = false

-- The failure reason is the payment service's error in place of its message.
pub record Posting : Type 0 where
  pub id : ℕ
  pub customer_id : ℕ
  pub wallet_id : ℕ
  pub source_transaction_id : Option ℕ
  pub currency : CurrencyCode
  pub type : TransactionType
  pub amount : ℕ
  pub reason : String
  pub narration : String
  pub status : PostingStatus
  pub requested_by_id : ℕ
  pub requested_by_email : String
  pub decided_by_id : Option ℕ
  pub decided_by_email : Option String
  pub decided_at : Option ℕ
  pub decision_note : Option String
  pub transaction_id : Option ℕ
  pub balance_after : Option ℕ
  pub failure_reason : Option Error
  pub created_at : ℕ

-- A member of staff, as the request's token names them.
pub record Staff : Type 0 where
  pub id : ℕ
  pub email : String

pub record Ctx : Type 0 where
  pub actor : Staff
  pub ip : Option String

pub data AuditAction : Type 0 where
  posting_requested posting_approved posting_failed posting_rejected posting_cancelled : AuditAction

-- The metadata of an entry is not modelled.
pub record AuditEntry : Type 0 where
  pub staff_id : ℕ
  pub staff_email : String
  pub action : AuditAction
  pub resource_id : ℕ
  pub ip : Option String

pub record Desk : Type 0 where
  pub postings : List Posting
  pub audit : List AuditEntry
  -- the next generated primary key
  pub next_id : ℕ
  pub now : ℕ

abbrev pub posting_key : Posting → ℕ
posting_key p = p.id

abbrev pub record_audit : Ctx → AuditAction → ℕ → Desk → Desk
record_audit ctx action id desk = record desk {
  audit =
      desk.audit
      ++ (record {
        staff_id = ctx.actor.id;
        staff_email = ctx.actor.email;
        action = action;
        resource_id = id;
        ip = ctx.ip;
      }
          ∷ []);
}

abbrev pub update_posting : ℕ → (Posting → Posting) → Desk → Desk
update_posting id f desk = record desk { postings = update posting_key id f desk.postings }

-- `id = :id AND status = 'PENDING'`
abbrev pub is_pending_row : Option Posting → Bool
is_pending_row none = false
is_pending_row (some p) = is_pending p.status

abbrev pub decide : PostingStatus → Ctx → Option String → ℕ → Posting → Posting
decide to ctx note now p = record p {
  status = to;
  decided_by_id = some ctx.actor.id;
  decided_by_email = some ctx.actor.email;
  decided_at = some now;
  decision_note = note;
}

-- The conditional UPDATE of `claim`: whether it changed a row, and the tables after it.
unfoldable pub claim : ℕ → PostingStatus → Ctx → Option String → Desk → Bool × Desk
claim id to ctx note desk =
    if is_pending_row (find posting_key id desk.postings)
    then (true, update_posting id (decide to ctx note desk.now) desk)
    else (false, desk)
