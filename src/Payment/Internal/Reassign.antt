-- ===== src/Payment/Internal/Reassign.antt =====
-- An assignment of an unmatched deposit that is asked for again after its answer was lost.
use fiam_retail_apis.Payment.Runs.{run-transaction, run-bind, run-find}
use fiam_retail_apis.Common.{
  ◌∙◌, some, sym, arith, false, refl, inr, true, inl, Bool-cases, Option-cases, ◌≡◌, ℕ,
}
use fiam_retail_apis.Payment.Ledger.Moves.{transaction_key}
use fiam_retail_apis.Payment.Ledger.{Ends, Triple}
use fiam_retail_apis.Common.Table.{update, key-find, find-update_self, find}
use fiam_retail_apis.Payment.Ledger.Rules.{
  gets-bind, Triple-transaction, fact-bind, raise_if-bind, Triple-bind,
}
use fiam_retail_apis.Payment.Store.{
  ◌>>◌, transaction, ok, transaction_not_found, set_balance, update_transaction, or_raise,
  find_wallet, ◌>>=◌, pure, notify, find_transaction, Db,
}
use fiam_retail_apis.Payment.Internal.{
  is_replay, mark_assigned, assign_row, AssignResult, announce_assignment, assign,
  assign_in_transaction, AssignUnmatchedDto,
}
use fiam_retail_apis.Payment.Ledger.Triples.{Holds}
use fiam_retail_apis.Payment.Entities.{Wallet, Transaction}
use fiam_retail_apis.Payment.Wallets.{credit_for_update}
use mathlib.Core.Path.{subst}

-- The row of the answer stands in the table, as this wallet's credit.
abbrev pub IsAssigned : ℕ → AssignUnmatchedDto → AssignResult → Db → Type 0
IsAssigned id dto r db =
    Holds id r.transaction db.transactions × (is_replay r.transaction dto.wallet_id ≡ true)

module _ (id : ℕ) (dto : AssignUnmatchedDto) (t : Transaction) where
  abbrev Stands : Db → Type 0
  Stands db = Holds id t db.transactions

  credit-Stands :
      Triple Stands
        (credit_for_update dto.wallet_id t.amount)
        (λ w db. Stands db × (w.id ≡ dto.wallet_id))
        (λ _. Unit)
  unfolding credit_for_update find_wallet set_balance ◌>>=◌ or_raise pure
  credit-Stands = record {
    at = λ db p. elim (Option-cases (find (λ (w : Wallet). w.id) dto.wallet_id db.wallets)) [
      | inl missing ↦ rw missing tt
      | inr (w, found) ↦
          rw found (p, key-find (λ (w : Wallet). w.id) dto.wallet_id w db.wallets found)
    ];
  }

  module _ (wallet : Wallet) (now : ℕ) (same : wallet.id ≡ dto.wallet_id) where
    abbrev assigned : Transaction
    assigned = mark_assigned dto wallet now t

    abbrev IsMarked : Db → Type 0
    IsMarked db = Holds id assigned db.transactions

    mark-IsMarked :
        t.id ≡ id
        → Triple Stands
            (update_transaction t.id (mark_assigned dto wallet now))
            (λ _. IsMarked)
            (λ _. Unit)
    unfolding update_transaction
    mark-IsMarked key = record {
      at = λ db p.
          subst
            (λ k.
              Holds id assigned
                (update transaction_key k (mark_assigned dto wallet now) db.transactions))
            (sym key)
            (find-update_self transaction_key id (mark_assigned dto wallet now) t db.transactions p
              refl);
    }

    answer-IsAssigned :
        t.id ≡ id
        → Triple IsMarked
            (do
              found ← find_transaction t.id
              done ← or_raise found transaction_not_found
              pure (record { transaction = done; replayed = false }))
            (IsAssigned id dto)
            (λ _. Unit)
    unfolding find_transaction or_raise pure ◌>>=◌
    answer-IsAssigned key = record { at = λ db p. rw (key, p) (p, ground arith) }

  row-IsAssigned : t.id ≡ id → Triple Stands (assign_row dto t) (IsAssigned id dto) (λ _. Unit)
  unfolding assign_row
  row-IsAssigned key =
      raise_if-bind _ _ _ (λ _ _. tt)
        λ awaits. Triple-bind _ credit-Stands λ wallet. fact-bind λ same.
          raise_if-bind _ _ _ (λ _ _. tt)
            λ matches. gets-bind _ λ now.
              Triple-bind _ (mark-IsMarked wallet now same key)
                λ _. answer-IsAssigned wallet now same key

module _ (id : ℕ) (dto : AssignUnmatchedDto) where
  inner-IsAssigned :
      Triple
        (λ _. Unit {0})
        (do t ← find_transaction id; assign_in_transaction dto t)
        (IsAssigned id dto)
        (λ _. Unit)
  unfolding assign_in_transaction find_transaction ◌>>=◌ pure
  inner-IsAssigned = record {
    at = λ db _. elim (Option-cases (find (λ (t : Transaction). t.id) id db.transactions)) [
      | inl missing ↦ rw missing tt
      | inr (t, found) ↦ elim (Bool-cases (is_replay t dto.wallet_id)) [
        | inl replay ↦ rw (found, replay) (found, replay)
        | inr first ↦
            rw (found, first)
              ((row-IsAssigned id dto t
                  (key-find (λ (t : Transaction). t.id) id t db.transactions found)).at
                db found)
      ]
    ];
  }

  announce-IsAssigned :
      (r : AssignResult)
      → Triple (IsAssigned id dto r) (announce_assignment r) (λ _. IsAssigned id dto r) (λ _. Unit)
  unfolding announce_assignment notify pure
  announce-IsAssigned r = record {
    at = λ db p. elim (Bool-cases r.replayed) [ inl replay ↦ rw replay p | inr first ↦ rw first p ];
  }

  assign-IsAssigned : Triple (λ _. Unit {0}) (assign id dto) (IsAssigned id dto) (λ _. Unit)
  unfolding assign pure
  assign-IsAssigned =
      Triple-bind _ (Triple-transaction (λ _ _. tt) inner-IsAssigned)
        λ r. Triple-bind _ (announce-IsAssigned r) λ _. record { at = λ db p. p }

  abbrev replay_of : AssignResult → AssignResult
  replay_of r = record r { replayed = true }

  inner-replay :
      (r : AssignResult) (db : Db)
      → IsAssigned id dto r db
      → (do t ← find_transaction id; assign_in_transaction dto t) db ≡ (ok (replay_of r), db)
  unfolding assign_in_transaction pure
  inner-replay r db (found, replay) =
      run-find id (some r.transaction) db (assign_in_transaction dto) found ∙ rw replay refl

  -- An assignment of an unmatched deposit that succeeded and is asked for again answers with the same
  -- row, as a replay, and changes nothing: the wallet is credited once.
  pub assign_twice :
      (r : AssignResult) (db after : Db)
      → assign id dto db ≡ (ok r, after)
      → assign id dto after ≡ (ok (replay_of r), after)
  unfolding assign announce_assignment pure ◌>>=◌
  assign_twice r db after e =
      run-bind (transaction (do t ← find_transaction id; assign_in_transaction dto t)) after after
        (λ result. do announce_assignment result; pure result) (replay_of r)
        (run-transaction (do t ← find_transaction id; assign_in_transaction dto t) after after
          (replay_of r)
          (inner-replay r after
            (subst (Ends (IsAssigned id dto) (λ _. Unit)) e (assign-IsAssigned.at db tt))))
