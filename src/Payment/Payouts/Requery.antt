-- ===== src/Payment/Payouts/Requery.antt =====
-- What a re-query may not do: only a confirmed failure gives money back.
use fiam_retail_apis.Common.{
  none, some, inr, inl, Bool-cases, String, false, true, ◌≡◌, Option, ℕ, Bool, List,
}
use fiam_retail_apis.Payment.Payouts.Settle.{
  record_requery, sync_found, record_answer, hold_for_review, apply_transfer_result,
  sync_payout_status, settle_transfer, settle_sync,
}
use fiam_retail_apis.Payment.Ledger.Rules.{lift-bind}
use fiam_retail_apis.Payment.Ledger.Keeping.{
  Keeps-raise_if, Keeps-pure, Keeps-if, Keeps-bind, keeps_rules,
}
use fiam_retail_apis.Payment.Store.{
  ok, external_clash, Notice, Job, M, update_transaction, enqueue, update_with_external, notify,
  find_transaction,
}
use fiam_retail_apis.Payment.Provider.{
  TransferOutcome, successful, failed, hold, requery, TransferResult, Provider,
}
use fiam_retail_apis.Payment.Entities.{Wallet, Transaction}
use fiam_retail_apis.Payment.Ledger.{Keeps}

-- A call after which every wallet holds what it held.
abbrev pub KeepsMoney : {A : Type 0} → M A → Type 0
KeepsMoney m = (ws : List Wallet) → Keeps (λ db. db.wallets ≡ ws) m

enqueue-KeepsMoney : (job : Job) → KeepsMoney (enqueue job)
unfolding enqueue
enqueue-KeepsMoney job ws = record { at = λ db p. p }

notify-KeepsMoney : (notice : Notice) → KeepsMoney (notify notice)
unfolding notify
notify-KeepsMoney notice ws = record { at = λ db p. p }

update-KeepsMoney : (id : ℕ) (f : Transaction → Transaction) → KeepsMoney (update_transaction id f)
unfolding update_transaction
update-KeepsMoney id f ws = record { at = λ db p. p }

find-KeepsMoney : (id : ℕ) → KeepsMoney (find_transaction id)
unfolding find_transaction
find-KeepsMoney id ws = record { at = λ db p. p }

external-KeepsMoney :
    (id : ℕ) (external : Option String) (f : Transaction → Transaction)
    → KeepsMoney (update_with_external id external f)
unfolding update_with_external
external-KeepsMoney id external f ws = record {
  at = λ db p. elim (Bool-cases (external_clash id external db.transactions)) [
    | inl clash ↦ rw clash p
    | inr free ↦ rw free p
  ];
}

ruleset money_rules = (
  keeps_rules, enqueue-KeepsMoney, notify-KeepsMoney, update-KeepsMoney, find-KeepsMoney,
  external-KeepsMoney,
)

abbrev pub is_failure : TransferOutcome → Bool
is_failure failed = true
is_failure _ = false

settle_transfer-KeepsMoney :
    (t : Transaction) (o : TransferOutcome)
    → is_failure o ≡ false
    → KeepsMoney (settle_transfer t o)
unfolding settle_transfer hold_for_review
settle_transfer-KeepsMoney t successful e ws = search money_rules
settle_transfer-KeepsMoney t failed e ws = cc
settle_transfer-KeepsMoney t hold e ws = search money_rules
settle_transfer-KeepsMoney t requery e ws = search money_rules

-- An answer other than a definite failure, as the transfer's own response.
pub apply_transfer_result-KeepsMoney :
    (t : Transaction) (result : TransferResult)
    → is_failure result.outcome ≡ false
    → KeepsMoney (apply_transfer_result t result)
unfolding apply_transfer_result
apply_transfer_result-KeepsMoney t result e ws =
    Keeps-bind _ _ (external-KeepsMoney t.id result.external_id (record_answer result) ws)
      λ _. Keeps-bind _ _ (settle_transfer-KeepsMoney t result.outcome e ws) λ _. search money_rules

module _ (p : Provider)
    (unfailed : (reference : String) (r : TransferResult)
      → p.query_transfer_status reference ≡ ok r
      → is_failure r.outcome ≡ false) where
  settle_sync-KeepsMoney :
      (t : Transaction) (o : TransferOutcome) → is_failure o ≡ false → KeepsMoney (settle_sync t o)
  unfolding settle_sync hold_for_review
  settle_sync-KeepsMoney t successful e ws = search money_rules
  settle_sync-KeepsMoney t failed e ws = cc
  settle_sync-KeepsMoney t hold e ws = search money_rules
  settle_sync-KeepsMoney t requery e ws = search money_rules

  sync_found-KeepsMoney : (found : Option Transaction) → KeepsMoney (sync_found p found)
  unfolding sync_found
  sync_found-KeepsMoney none ws = search money_rules
  sync_found-KeepsMoney (some t) ws = Keeps-if _ _ _ (Keeps-pure _) (
      Keeps-bind _ _ (Keeps-raise_if _ _) λ _.
        lift-bind (p.query_transfer_status t.reference) (λ _ q. q)
          λ r e.
            Keeps-bind _ _ (external-KeepsMoney t.id _ (record_requery r t) ws)
              λ _. settle_sync-KeepsMoney t r.outcome (unfailed t.reference r e) ws)

  -- A query that never answers with a definite failure.
  pub sync_payout_status-KeepsMoney : (id : ℕ) → KeepsMoney (sync_payout_status p id)
  unfolding sync_payout_status
  sync_payout_status-KeepsMoney id ws =
      Keeps-bind _ _ (find-KeepsMoney id ws) λ t. sync_found-KeepsMoney t ws
