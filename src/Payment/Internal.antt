-- ===== src/Payment/Internal.antt =====
-- apps/payment/src/internal: staff postings (postings.service.ts) and unmatched deposits
-- (unmatched.service.ts), as the admin console calls them.
pub mod Books
pub mod Once
pub mod Twice
pub mod Reassign
use fiam_retail_apis.Payment.Store.{
  update_transaction, currency_mismatch, not_awaiting_assignment, same_reference, unique_violation,
  amount_not_positive, insert_transaction, transaction_not_found, or_raise, Notice, raise, gets,
  modify, find_transaction, raise_if, transaction, catch, notify, Error, Db, M, ◌>>=◌, ◌>>◌, pure,
}
use fiam_retail_apis.Common.{
  holds_id, ◌&&◌, ◌==◌, not, get_or, find?, true, Bool, join, false, ℕ, String, Option, none, some,
  is_some, if◌then◌else◌,
}
use fiam_retail_apis.Payment.Entities.{
  is_unmatched, currency_eq, is_successful, PaymentProviderKey, TransactionKind, is_debit, Address,
  Wallet, Transaction, TransactionStatus, TransactionType, CurrencyCode,
}
use fiam_retail_apis.Payment.Wallets.{credit_for_update, debit_for_update, find_active_for_wallet}

pub record CreatePostingDto : Type 0 where
  pub wallet_id : ℕ
  pub type : TransactionType
  pub amount : ℕ
  pub reference : String
  pub narration : String
  pub meta : String

pub record PostingView : Type 0 where
  pub transaction_id : ℕ
  pub status : TransactionStatus
  pub type : TransactionType
  pub amount : ℕ
  pub balance_after : Option ℕ
  pub reference : String
  pub replayed : Bool

abbrev pub view : Transaction → Bool → PostingView
view t replayed = record {
  transaction_id = t.id;
  status = t.status;
  type = t.type;
  amount = t.amount;
  balance_after = t.balance_after;
  reference = t.reference;
  replayed = replayed;
}

unfoldable pub find_existing : String → M (Option Transaction)
find_existing reference =
    gets (λ db. find? (same_reference PaymentProviderKey.manual reference) db.transactions)

unfoldable pub posting_row : CreatePostingDto → CurrencyCode → String → ℕ → ℕ → ℕ → Transaction
posting_row dto currency account balance now id = record {
  id = id;
  wallet_id = some dto.wallet_id;
  currency = currency;
  type = dto.type;
  kind = TransactionKind.adjustment;
  bill_type = none;
  status = TransactionStatus.successful;
  provider = PaymentProviderKey.manual;
  account_number = account;
  amount = dto.amount;
  fee = none;
  fee_vat = none;
  stamp_duty = none;
  beneficiary_id = none;
  balance_after = some balance;
  reference = dto.reference;
  external_id = none;
  provider_status_code = none;
  bill = none;
  narration = some dto.narration;
  occurred_at = some now;
  verified_at = some now;
  raw_payload = some dto.meta;
  created_at = now;
}

-- The balance change of a posting.
unfoldable pub move : CreatePostingDto → M Wallet
move dto =
    if is_debit dto.type
    then debit_for_update dto.wallet_id dto.amount
    else credit_for_update dto.wallet_id dto.amount

-- `account[0]?.n ?? 'MANUAL'`
abbrev pub account_or_manual : Option Address → String
account_or_manual none = "MANUAL"
account_or_manual (some a) = a.provider_account_number

unfoldable pub post_in_transaction : CreatePostingDto → M Transaction
unfolding move posting_row find_active_for_wallet
post_in_transaction dto = do
  wallet ← move dto
  account ← find_active_for_wallet dto.wallet_id
  now ← gets (λ db. db.now)
  insert_transaction
      (posting_row dto wallet.currency (account_or_manual account) wallet.balance now)

abbrev pub posting_notice : TransactionType → ℕ → Notice
posting_notice TransactionType.credit id = Notice.account_credited id
posting_notice TransactionType.debit id = Notice.account_debited id

abbrev pub is_unique_violation : Error → Bool
is_unique_violation unique_violation = true
is_unique_violation _ = false

-- A concurrent call with this reference may commit between the read and the write; the loser's
-- whole database transaction is rolled back by the unique index.
abbrev pub commit_race : Option Db → M (Unit {0})
commit_race none = pure tt
commit_race (some winner) = modify (λ _. winner)

-- The `catch`: a lost race answers with the winner's row.
unfoldable pub replay_or_raise : String → Error → M (Transaction × Bool)
unfolding find_existing
replay_or_raise reference e =
    if is_unique_violation e
    then (do winner ← find_existing reference; t ← or_raise winner e; pure (t, true))
    else raise e

unfoldable pub announce_posting : TransactionType → Transaction × Bool → M PostingView
announce_posting type (t, true) = pure (view t true)
announce_posting type (t, false) = do notify (posting_notice type t.id); pure (view t false)

unfoldable pub post_new : CreatePostingDto → M PostingView
unfolding post_in_transaction replay_or_raise announce_posting
post_new dto = do
  result ←
      catch (transaction (post_in_transaction dto) >>= λ t. pure (t, false))
        (replay_or_raise dto.reference)
  announce_posting dto.type result

-- `race` is the state that a concurrent call has committed after the first read, if there is one.
unfoldable pub post : CreatePostingDto → Option Db → M PostingView
unfolding find_existing post_new
post dto race = do
  raise_if (dto.amount == 0) amount_not_positive
  replay ← find_existing dto.reference
  elim replay [ some t ↦ pure (view t true) | none ↦ commit_race race >> post_new dto ]

pub record AssignUnmatchedDto : Type 0 where
  pub wallet_id : ℕ
  pub reference : String
  pub meta : String

pub record AssignResult : Type 0 where
  pub transaction : Transaction
  pub replayed : Bool

-- Already this wallet's credit: the same approval, retried.
abbrev pub is_replay : Transaction → ℕ → Bool
is_replay t wallet = is_successful t.status && holds_id t.wallet_id wallet

abbrev pub awaits_assignment : Transaction → Bool
awaits_assignment t = not (is_debit t.type) && (is_unmatched t.status && not (is_some t.wallet_id))

abbrev pub mark_assigned : AssignUnmatchedDto → Wallet → ℕ → Transaction → Transaction
mark_assigned dto wallet now t = record t {
  wallet_id = some wallet.id;
  status = TransactionStatus.successful;
  balance_after = some wallet.balance;
  verified_at = some now;
  raw_payload = some (join (get_or t.raw_payload "") (join dto.reference dto.meta));
}

unfoldable pub assign_row : AssignUnmatchedDto → Transaction → M AssignResult
assign_row dto t = do
  raise_if (not (awaits_assignment t)) not_awaiting_assignment
  wallet ← credit_for_update dto.wallet_id t.amount
  raise_if (not (currency_eq wallet.currency t.currency)) currency_mismatch
  now ← gets (λ db. db.now)
  update_transaction t.id (mark_assigned dto wallet now)
  found ← find_transaction t.id
  done ← or_raise found transaction_not_found
  pure (record { transaction = done; replayed = false })

unfoldable pub assign_in_transaction : AssignUnmatchedDto → Option Transaction → M AssignResult
unfolding assign_row
assign_in_transaction dto none = raise transaction_not_found
assign_in_transaction dto (some t) =
    if is_replay t dto.wallet_id
    then pure (record { transaction = t; replayed = true })
    else assign_row dto t

unfoldable pub announce_assignment : AssignResult → M (Unit {0})
announce_assignment r =
    if r.replayed then pure tt else notify (Notice.credit_received r.transaction.id)

unfoldable pub assign : ℕ → AssignUnmatchedDto → M AssignResult
unfolding assign_in_transaction announce_assignment
assign id dto = do
  result ← transaction (do t ← find_transaction id; assign_in_transaction dto t)
  announce_assignment result
  pure result
