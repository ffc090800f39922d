-- ===== src/Payment/Payouts/SettleBooks.antt =====
-- The books of every wallet stay balanced while the provider's answers are applied to a payout.
use fiam_retail_apis.Payment.Ledger.Rules.{
  Triple-catch, or_raise-bind, assuming, raise_if-bind, Triple-bind, gets-bind,
}
use fiam_retail_apis.Payment.Ledger.Keeping.{keeps_rules}
use fiam_retail_apis.Payment.Payouts.Settle.{
  requery_transaction, settle_transfer, settle_sync, apply_transfer_result, sync_found,
  sync_payout_status, mark_successful, record_answer, record_requery,
}
use fiam_retail_apis.Payment.Store.{
  err, ok, ◌>>◌, ◌>>=◌, update_with_external, update_transaction, Db, lift, Result,
}
use fiam_retail_apis.Payment.Ledger.Triples.{
  Holds-self, Holds, update-IsBalanced, update_with_external-IsBalanced,
}
use fiam_retail_apis.Payment.Ledger.Reads.{
  forget, notify-Keeps, enqueue-Keeps, find_transaction-Keeps, find-bind,
}
use fiam_retail_apis.Common.{ℕ, ◌≡◌, true, refl, arith, some, inl, inr, Bool-cases, or_else}
use fiam_retail_apis.Payment.Entities.{Transaction, is_debit, is_final}
use fiam_retail_apis.Payment.Ledger.{IsBalanced, Triple, spent_of, received_of}
use fiam_retail_apis.Payment.Provider.{
  TransferResult, TransferOutcome, successful, failed, hold, requery, Provider,
}
use fiam_retail_apis.Payment.Payouts.Books.{reverse_failed_payout-Triple}

-- A row as it stands in the table, and the books.
abbrev Standing : ℕ → ℕ → Transaction → Db → Type 0
Standing w id cur db = IsBalanced w db × Holds id cur db.transactions

-- What the books see of a DEBIT row does not depend on its status or on the provider's answers.
module _ (w : ℕ) (cur : Transaction) (was_debit : is_debit cur.type ≡ true) where
  abbrev SameShare : Transaction → Type 0
  SameShare t = (spent_of w t ≡ spent_of w cur) × (received_of w t ≡ received_of w cur)

  mark_successful_share : (now : ℕ) → SameShare (mark_successful now cur)
  unfolding spent_of received_of
  mark_successful_share now = ground arith

  record_answer_share : (r : TransferResult) → SameShare (record_answer r cur)
  unfolding spent_of received_of
  record_answer_share r = ground arith

  record_requery_share : (r : TransferResult) (t : Transaction) → SameShare (record_requery r t cur)
  unfolding spent_of received_of
  record_requery_share r t = ground arith

module _ (w : ℕ) (t cur : Transaction) (was_debit : is_debit cur.type ≡ true) where
  mark_successful-Triple :
      (now : ℕ)
      → Triple
          (Standing w t.id cur)
          (update_transaction t.id (mark_successful now))
          (λ _. IsBalanced w)
          (IsBalanced w)
  mark_successful-Triple now =
      let same = mark_successful_share w cur was_debit now in
      update-IsBalanced w t.id cur (mark_successful now) same.0 same.1

  settle_transfer-Triple :
      (o : TransferOutcome)
      → Triple (Standing w t.id cur) (settle_transfer t o) (λ _. IsBalanced w) (IsBalanced w)
  unfolding settle_transfer
  settle_transfer-Triple successful =
      gets-bind _
        λ now. Triple-bind (λ _. IsBalanced w) (mark_successful-Triple now) λ _. notify-Keeps w _
  settle_transfer-Triple failed = reverse_failed_payout-Triple w t.id cur was_debit
  settle_transfer-Triple hold = forget w _ (notify-Keeps w _)
  settle_transfer-Triple requery = forget w _ (enqueue-Keeps w _)

  settle_sync-Triple :
      (o : TransferOutcome)
      → Triple (Standing w t.id cur) (settle_sync t o) (λ _. IsBalanced w) (IsBalanced w)
  unfolding settle_sync
  settle_sync-Triple successful = gets-bind _ λ now.
      Triple-bind (λ _. IsBalanced w) (mark_successful-Triple now)
        λ _. search (keeps_rules, notify-Keeps)
  settle_sync-Triple failed =
      Triple-bind (λ _. IsBalanced w) (reverse_failed_payout-Triple w t.id cur was_debit)
        λ _. search keeps_rules
  settle_sync-Triple hold =
      forget w (λ db. Holds t.id cur db.transactions) search (keeps_rules, notify-Keeps)
  settle_sync-Triple requery = forget w (λ db. Holds t.id cur db.transactions) search keeps_rules

-- The provider's answers, applied to a new payout or to one that is asked about again.
module _ (w : ℕ) (t cur : Transaction) (was_debit : is_debit cur.type ≡ true) where
  pub apply_transfer_result-Triple :
      (r : TransferResult)
      → Triple (Standing w t.id cur) (apply_transfer_result t r) (λ _. IsBalanced w) (IsBalanced w)
  unfolding apply_transfer_result
  apply_transfer_result-Triple r =
      let same = record_answer_share w cur was_debit r in
      Triple-bind _
        (update_with_external-IsBalanced w t.id cur (record_answer r) same.0 same.1 r.external_id
          refl)
        λ _.
          Triple-bind (λ _. IsBalanced w)
            (settle_transfer-Triple w t (record_answer r cur) was_debit r.outcome)
            λ _. search (keeps_rules, find_transaction-Keeps)

  settle_requery-Triple :
      (r : TransferResult)
      → Triple
          (Standing w t.id cur)
          (update_with_external t.id (or_else r.external_id t.external_id) (record_requery r t)
            >> settle_sync t r.outcome)
          (λ _. IsBalanced w)
          (IsBalanced w)
  settle_requery-Triple r =
      let same = record_requery_share w cur was_debit r t in
      Triple-bind _
        (update_with_external-IsBalanced w t.id cur (record_requery r t) same.0 same.1 _ refl)
        λ _. settle_sync-Triple w t (record_requery r t cur) was_debit r.outcome

module _ (w id : ℕ) (cur : Transaction) (was_debit : is_debit cur.type ≡ true) (p : Provider) where
  sync_open-Triple :
      (r : Result TransferResult)
      → Triple
          (Standing w cur.id cur)
          (lift r >>= λ result.
            update_with_external cur.id
              (or_else result.external_id cur.external_id)
              (record_requery result cur)
            >> settle_sync cur result.outcome)
          (λ _. IsBalanced w)
          (IsBalanced w)
  unfolding ◌>>=◌
  sync_open-Triple (ok r) = record { at = (settle_requery-Triple w cur cur was_debit r).at }
  sync_open-Triple (err e) = record { at = λ db q. q.0 }

  sync_found-Triple :
      Triple (Standing w id cur) (sync_found p (some cur)) (λ _. IsBalanced w) (IsBalanced w)
  unfolding sync_found
  sync_found-Triple = elim (Bool-cases (is_final cur.status)) [
    | inl final ↦ rw final (forget w (λ db. Holds id cur db.transactions) search keeps_rules)
    | inr open_row ↦ rw open_row (
        raise_if-bind _ _ _ (λ db q. q.0)
          λ _.
            assuming (Standing w cur.id cur) (λ db q. (q.0, Holds-self id cur db.transactions q.1))
              (sync_open-Triple (p.query_transfer_status cur.reference)))
  ]

  -- Asking the provider about a payout, by the worker or by the console.
  pub sync_payout_status-Triple :
      Triple (Standing w id cur) (sync_payout_status p id) (λ _. IsBalanced w) (IsBalanced w)
  unfolding sync_payout_status
  sync_payout_status-Triple = find-bind id cur _ sync_found-Triple

  -- The console's re-query.
  pub requery_transaction-Triple :
      Triple (Standing w id cur) (requery_transaction p id) (λ _. IsBalanced w) (IsBalanced w)
  unfolding requery_transaction
  requery_transaction-Triple = find-bind id cur _ (
      or_raise-bind _ _ (λ db q. q.0)
        λ t e.
          raise_if-bind _ _ _ (λ db q. q.0)
            λ _.
              raise_if-bind _ _ _ (λ db q. q.0)
                λ _.
                  Triple-bind (λ _. IsBalanced w)
                    (Triple-catch (IsBalanced w) sync_payout_status-Triple λ _. search keeps_rules)
                    λ _. search (keeps_rules, find_transaction-Keeps))
