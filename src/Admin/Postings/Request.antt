-- ===== src/Admin/Postings/Request.antt =====
-- `request` of apps/admin/src/postings/postings.service.ts: a posting is asked for. The customer's
-- status, from auth's database, is an argument; the wallet and the deposit are read from
-- the payment service's database.
use fiam_retail_apis.Common.{
  trim, any, is_some, not, ltb, ◌||◌, inl, inr, ◌==◌, truthy, ◌⊎◌, ◌+◌, find?, ◌&&◌, get_or, Option,
  holds_id, Bool, String, ℕ, some, none, [], ◌∷◌, ◌++◌, if◌then◌else◌,
}
use fiam_retail_apis.Admin.Postings.{
  already_pending, wrong_currency, not_awaiting, insufficient_balance, account_closed,
  deposit_not_found, amount_not_positive, no_wallet, done, customer_not_found, refused, Refusal,
  Reply, System,
}
use fiam_retail_apis.Payment.Entities.{
  is_unmatched, is_debit, CurrencyCode, currency_eq, Transaction, Wallet, TransactionType,
}
use fiam_retail_apis.Admin.Desk.{
  posting_requested, record_audit, is_processing, is_pending, PostingStatus, Desk, Ctx, Posting,
}
use fiam_retail_apis.Payment.Store.{Db}
use fiam_retail_apis.Common.Table.{find}

pub record CreatePostingDto : Type 0 where
  pub customer_id : ℕ
  pub type : TransactionType
  pub amount : ℕ
  pub source_transaction_id : Option ℕ
  pub reason : String
  pub narration : Option String

-- A customer of auth's database: whether the account is closed.
pub record Customer : Type 0 where
  pub closed : Bool

abbrev pub default_narration : TransactionType → String
default_narration TransactionType.credit = "Account credit adjustment"
default_narration TransactionType.debit = "Account debit adjustment"

-- `walletFor(customerId, 'NGN')`
abbrev pub wallet_for : ℕ → Db → Option Wallet
wallet_for customer db =
    find? (λ (w : Wallet). w.user_id == customer && currency_eq w.currency CurrencyCode.ngn)
      db.wallets

abbrev pub is_open_for : ℕ → Posting → Bool
is_open_for source p =
    holds_id p.source_transaction_id source && (is_pending p.status || is_processing p.status)

-- What a deposit is worth, if it may be assigned.
abbrev pub deposit_amount : Wallet → ℕ → Option Transaction → Desk → Refusal ⊎ ℕ
deposit_amount wallet source none desk = inl deposit_not_found
deposit_amount wallet source (some t) desk =
    if is_debit t.type || (not (is_unmatched t.status) || is_some t.wallet_id)
    then inl not_awaiting
    else if not (currency_eq t.currency wallet.currency)
    then inl wrong_currency
    else if any (is_open_for source) desk.postings
    then inl already_pending
    else inr t.amount

-- The type and the amount of the posting: a deposit's own, or the request's.
abbrev pub worth : CreatePostingDto → Wallet → System → Refusal ⊎ (TransactionType × ℕ)
worth dto wallet s = elim dto.source_transaction_id [
  | none ↦ inr (dto.type, dto.amount)
  | some id ↦
      elim (deposit_amount wallet id (find (λ (t : Transaction). t.id) id s.payment.transactions)
        s.desk) [ inl r ↦ inl r | inr amount ↦ inr (TransactionType.credit, amount) ]
]

abbrev pub narration_of : TransactionType → Option String → String
narration_of type none = default_narration type
narration_of type (some narration) =
    get_or (truthy (some (trim narration))) (default_narration type)

unfoldable pub new_posting : CreatePostingDto → Ctx → Wallet → TransactionType → ℕ → ℕ → ℕ → Posting
new_posting dto ctx wallet type amount now id = record {
  id = id;
  customer_id = dto.customer_id;
  wallet_id = wallet.id;
  source_transaction_id = dto.source_transaction_id;
  currency = wallet.currency;
  type = type;
  amount = amount;
  reason = dto.reason;
  narration = narration_of type dto.narration;
  status = PostingStatus.pending;
  requested_by_id = ctx.actor.id;
  requested_by_email = ctx.actor.email;
  decided_by_id = none;
  decided_by_email = none;
  decided_at = none;
  decision_note = none;
  transaction_id = none;
  balance_after = none;
  failure_reason = none;
  created_at = now;
}

abbrev pub insert_posting : (ℕ → Posting) → Ctx → Desk → Reply × Desk
insert_posting make ctx desk =
    let p = make desk.next_id in
    let after = record desk { postings = desk.postings ++ (p ∷ []); next_id = desk.next_id + 1 } in
    (done p, record_audit ctx posting_requested p.id after)

abbrev pub request_worth :
    CreatePostingDto → Ctx → Wallet → Refusal ⊎ (TransactionType × ℕ) → Desk → Reply × Desk
request_worth dto ctx wallet (inl r) desk = (refused r, desk)
request_worth dto ctx wallet (inr (type, amount)) desk =
    if amount == 0
    then (refused amount_not_positive, desk)
    else if is_debit type && ltb wallet.balance amount
    then (refused insufficient_balance, desk)
    else insert_posting (new_posting dto ctx wallet type amount desk.now) ctx desk

abbrev pub request_wallet : CreatePostingDto → Ctx → Option Wallet → System → Reply × Desk
request_wallet dto ctx none s = (refused no_wallet, s.desk)
request_wallet dto ctx (some wallet) s = request_worth dto ctx wallet (worth dto wallet s) s.desk

unfoldable pub request : CreatePostingDto → Option Customer → Ctx → System → Reply × Desk
unfolding new_posting
request dto none ctx s = (refused customer_not_found, s.desk)
request dto (some customer) ctx s =
    if customer.closed
    then (refused account_closed, s.desk)
    else request_wallet dto ctx (wallet_for dto.customer_id s.payment) s
