-- ===== src/Payment/Payouts/Books.antt =====
-- The books of every wallet stay balanced under a reversal.
use fiam_retail_apis.Payment.Payouts.Reversal.{
  bill_narration, reverse_failed_bill, payout_narration, announce_reversal, reverse_failed_payout,
  reverse_found, refund, reversal_row, refund_amount, mark_failed,
}
use fiam_retail_apis.Payment.Ledger.Triples.{
  credit-Triple, insert-Triple, update-Triple, Holds, share, Holds-self,
}
use fiam_retail_apis.Payment.Ledger.Reads.{notify-Keeps, find-bind, forget, IsOff→IsBalanced}
use fiam_retail_apis.Payment.Ledger.{Keeps, IsBalanced, IsOff, Triple, spent_of, received_of}
use fiam_retail_apis.Payment.Ledger.Rules.{
  Keeps-relax, Triple-transaction, assuming, Triple-bind, relax, or_raise-bind, gets-bind,
}
use fiam_retail_apis.Payment.Ledger.Keeping.{keeps_rules}
use fiam_retail_apis.Common.{
  none, some, inr, inl, Bool-cases, ℕ, ◌+◌, ◌≡◌, true, String, Option, arith,
}
use fiam_retail_apis.Payment.Store.{Db, wallet_not_found}
use fiam_retail_apis.Payment.Entities.{Transaction, is_debit, is_final}

module _ (w : ℕ) (t cur : Transaction) (narration : String) (beneficiary : Option ℕ)
    (was_debit : is_debit cur.type ≡ true) where
  reversal_row-share :
      (wallet_id balance now id : ℕ)
      → t.wallet_id ≡ some wallet_id
      → (spent_of w (reversal_row t narration beneficiary balance now id) ≡ 0)
        × (received_of w (reversal_row t narration beneficiary balance now id)
            ≡ share w wallet_id (refund_amount t))
  unfolding reversal_row spent_of received_of
  reversal_row-share wallet_id balance now id e = ground arith

  mark_failed_share :
      (now : ℕ)
      → (spent_of w (mark_failed now cur) ≡ spent_of w cur)
        × (received_of w (mark_failed now cur) ≡ received_of w cur)
  unfolding spent_of received_of
  mark_failed_share now = ground arith

  refund-Triple :
      Triple
        (λ db. IsOff w 0 0 db × Holds t.id cur db.transactions)
        (refund t narration beneficiary)
        (λ _ db. IsOff w 0 0 db)
        (λ _. Unit)
  unfolding refund
  refund-Triple =
      or_raise-bind t.wallet_id wallet_not_found (λ _ _. tt)
        λ id e.
          let put = 0 + share w id (refund_amount t) in
          Triple-bind _
            (relax (
              credit-Triple w (λ db. Holds t.id cur db.transactions) (λ _ _ h. h) 0 0 id
                (refund_amount t)))
            λ x. gets-bind _ λ now.
              Triple-bind (λ _. IsOff w 0 put)
                (relax (
                  update-Triple w t.id cur (mark_failed now) 0 put 0 put
                    (omega (arith, mark_failed_share now))))
                λ _.
                  insert-Triple w 0 0 0 (share w id (refund_amount t)) _
                    (λ i. reversal_row-share id x.balance now i e)

-- A reversal keeps the books, whether it finds the row final, refunds it or throws.
module _ (w id : ℕ) (cur : Transaction) (was_debit : is_debit cur.type ≡ true) where
  abbrev Standing : Db → Type 0
  Standing db = IsBalanced w db × Holds id cur db.transactions

  reverse_found-Triple :
      (narration : Transaction → String) (beneficiary : Transaction → Option ℕ)
      → Triple Standing
          (reverse_found narration beneficiary (some cur))
          (λ _. IsBalanced w)
          (λ _. Unit)
  unfolding reverse_found
  reverse_found-Triple narration beneficiary = elim (Bool-cases (is_final cur.status)) [
    | inl final ↦
        rw final (relax (forget w (λ db. Holds id cur db.transactions) search keeps_rules))
    | inr open_row ↦ rw open_row (
        Triple-bind (λ _. IsBalanced w)
          (assuming (λ db. IsBalanced w db × Holds cur.id cur db.transactions)
            (λ db p. (p.0, Holds-self id cur db.transactions p.1))
            (IsOff→IsBalanced w (λ db. Holds cur.id cur db.transactions)
              (refund-Triple w cur cur (narration cur) (beneficiary cur) was_debit)))
          λ _. Keeps-relax search keeps_rules)
  ]

announce_reversal-Keeps :
    (w : ℕ) (o : Option Transaction) → Keeps (IsBalanced w) (announce_reversal o)
unfolding announce_reversal
announce_reversal-Keeps w none = search keeps_rules
announce_reversal-Keeps w (some t) = search (keeps_rules, notify-Keeps)

-- Both reversals keep the books of every wallet, for a row that is a DEBIT.
module _ (w id : ℕ) (cur : Transaction) (was_debit : is_debit cur.type ≡ true) where
  pub reverse_failed_payout-Triple :
      Triple
        (λ db. IsBalanced w db × Holds id cur db.transactions)
        (reverse_failed_payout id)
        (λ _. IsBalanced w)
        (IsBalanced w)
  unfolding reverse_failed_payout
  reverse_failed_payout-Triple =
      Triple-bind (λ _. IsBalanced w)
        (Triple-transaction (λ db p. p.0)
          (find-bind id cur _
            (reverse_found-Triple w id cur was_debit payout_narration (λ t. t.beneficiary_id))))
        (announce_reversal-Keeps w)

  pub reverse_failed_bill-Triple :
      Triple
        (λ db. IsBalanced w db × Holds id cur db.transactions)
        (reverse_failed_bill id)
        (λ _. IsBalanced w)
        (IsBalanced w)
  unfolding reverse_failed_bill
  reverse_failed_bill-Triple =
      Triple-bind (λ _. IsBalanced w)
        (Triple-transaction (λ db p. p.0)
          (find-bind id cur _ (reverse_found-Triple w id cur was_debit bill_narration (λ _. none))))
        (announce_reversal-Keeps w)
