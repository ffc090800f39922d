-- ===== src/Payment/Payouts/ReversalOnce.antt =====
-- What a reversal does to the row and the wallet, and that it is done at most once.
use fiam_retail_apis.Payment.Payouts.Reversal.{
  refund_amount, mark_failed, reversal_reference, reversal_row, refund,
}
use fiam_retail_apis.Common.{
  [], ◌∷◌, refl, inr, inl, Option-cases, true, ◌≡◌, Option, any, Bool, String, List, ℕ, ◌∙◌, arith,
}
use fiam_retail_apis.Payment.Ledger.Rules.{gets-bind, assuming, Triple-transaction, or_raise-bind}
use fiam_retail_apis.Payment.Ledger.Keeping.{after}
use fiam_retail_apis.Payment.Ledger.Moves.{wallet_key, transaction_key}
use fiam_retail_apis.Common.Table.{find, update}
use fiam_retail_apis.Payment.Store.{
  wallet_not_found, same_reference, Db, ◌>>=◌, find_wallet, set_balance, update_transaction,
  insert_transaction, transaction,
}
use fiam_retail_apis.Payment.Ledger.{Keeps, Triple, Ends}
use fiam_retail_apis.Payment.Entities.{Transaction}
use fiam_retail_apis.Payment.Wallets.{credit_for_update}

-- The reversal row of another run stands in the table.
abbrev pub is_reversed : Transaction → List Transaction → Bool
is_reversed t txs = any (same_reference t.provider (reversal_reference t)) txs

-- A second run that read the row before the first one committed.
same_reference-failed :
    (t : Transaction) (id now : ℕ) (txs : List Transaction)
    → is_reversed t (update transaction_key id (mark_failed now) txs) ≡ is_reversed t txs
same_reference-failed t id now [] = refl
same_reference-failed t id now (x ∷ xs) = ground (arith, same_reference-failed t id now xs)

module _ (t : Transaction) where
  abbrev Reversed : Db → Type 0
  Reversed db = is_reversed t db.transactions ≡ true

  credit-Reversed : (id amount : ℕ) → Keeps Reversed (credit_for_update id amount)
  unfolding credit_for_update find_wallet set_balance ◌>>=◌
  credit-Reversed id amount = record {
    at = λ db p. elim (Option-cases (find wallet_key id db.wallets)) [
      | inl missing ↦ rw missing p
      | inr (x, found) ↦ rw found p
    ];
  }

  failed-Reversed : (now : ℕ) → Keeps Reversed (update_transaction t.id (mark_failed now))
  unfolding update_transaction
  failed-Reversed now = record { at = λ db p. same_reference-failed t t.id now db.transactions ∙ p }

  insert-refused :
      (narration : String) (beneficiary : Option ℕ) (balance now : ℕ)
      → Triple Reversed
          (insert_transaction (reversal_row t narration beneficiary balance now))
          (λ _ _. ⊥)
          (λ _. Unit)
  unfolding insert_transaction reversal_row
  insert-refused narration beneficiary balance now = record { at = λ db p. rw p tt }

  refund-refused :
      (narration : String) (beneficiary : Option ℕ)
      → Triple Reversed (refund t narration beneficiary) (λ _ _. ⊥) (λ _. Unit)
  unfolding refund
  refund-refused narration beneficiary =
      or_raise-bind t.wallet_id wallet_not_found (λ _ _. tt)
        λ id _.
          after _ (λ _ _. tt) (credit-Reversed id (refund_amount t))
            λ wallet. gets-bind _ λ now.
              after _ (λ _ _. tt) (failed-Reversed now)
                λ _. insert-refused narration beneficiary wallet.balance now

  -- A refund of a row whose reversal row stands in the table already, as in a second run that read
  -- the row before the first one committed, fails and changes nothing.
  pub refund_once :
      (narration : String) (beneficiary : Option ℕ) (db : Db)
      → is_reversed t db.transactions ≡ true
      → Ends {A = Transaction}
          (λ _ _. ⊥)
          (λ db'. db' ≡ db)
          (transaction (refund t narration beneficiary) db)
  refund_once narration beneficiary db done =
      (Triple-transaction {P = λ d. (d ≡ db) × Reversed d} (λ _ p. p.0)
          (assuming Reversed (λ _ p. p.1) (refund-refused narration beneficiary))).at
        db (refl, done)
