-- ===== src/Payment/Deposits/Once.antt =====
-- A deposit is recorded once.
use fiam_retail_apis.Payment.Ledger.Rules.{Triple-catch, Triple-bind, gets-bind}
use fiam_retail_apis.Payment.Deposits.{
  wallet_id_of, queue_deposit, deposit_row, insert_or_ignore, wallet_of_address, RecordPayinInput,
  record_payin,
}
use fiam_retail_apis.Payment.Entities.{Address, Wallet, Transaction}
use fiam_retail_apis.Payment.Store.{
  pure, insert_transaction, find_wallet, same_reference, Db, ◌>>=◌,
}
use fiam_retail_apis.Payment.Ledger.{Triple, Ends}
use fiam_retail_apis.Common.{refl, none, some, Option, true, ◌≡◌, any, ℕ}
use fiam_retail_apis.Payment.Wallets.{find_active_by_provider_account_number}

module _ (i : RecordPayinInput) (db : Db)
    (seen : any (same_reference i.provider i.reference) db.transactions ≡ true) where
  abbrev Untouched : Db → Type 0
  Untouched d = d ≡ db

  wallet_of_address-Untouched :
      (a : Option Address) → Triple Untouched (wallet_of_address a) (λ _. Untouched) (λ _. ⊥)
  unfolding wallet_of_address find_wallet ◌>>=◌
  wallet_of_address-Untouched none = record { at = λ d p. p }
  wallet_of_address-Untouched (some a) = record { at = λ d p. p }

  insert-refused :
      (wallet : Option ℕ) (now : ℕ)
      → Triple Untouched (insert_transaction (deposit_row i wallet now)) (λ _ _. ⊥) Untouched
  unfolding insert_transaction deposit_row
  insert-refused wallet now = record { at = λ d p. rw (p, seen) refl }

  insert_or_ignore-seen :
      (wallet : Option ℕ) (now : ℕ)
      → Triple Untouched
          (insert_or_ignore (deposit_row i wallet now))
          (λ o d. (o ≡ none) × Untouched d)
          (λ _. ⊥)
  unfolding insert_or_ignore pure
  insert_or_ignore-seen wallet now =
      Triple-catch Untouched
        (Triple-bind _ (insert-refused wallet now) λ t. record { at = λ d never. elim never [ ] })
        λ e. record { at = λ d p. (refl, p) }

  nothing_queued :
      (wallet : Option Wallet) (inserted : Option Transaction)
      → Triple {A = Option Transaction}
          (λ d. (inserted ≡ none) × Untouched d)
          (elim inserted [ none ↦ pure none | some t ↦ queue_deposit wallet t ])
          (λ o d. (o ≡ none) × Untouched d)
          (λ _. ⊥)
  unfolding pure
  nothing_queued wallet none = record { at = λ d p. (refl, p.1) }
  nothing_queued wallet (some t) = record { at = λ d p. cc (p.0) }

  record_payin-Triple : Triple Untouched (record_payin i) (λ o d. (o ≡ none) × Untouched d) (λ _. ⊥)
  unfolding record_payin find_active_by_provider_account_number
  record_payin-Triple = gets-bind _ λ address.
      Triple-bind _ (wallet_of_address-Untouched address) λ wallet. gets-bind _ λ now.
        Triple-bind _ (insert_or_ignore-seen (wallet_id_of wallet) now)
          λ inserted. nothing_queued wallet inserted

  -- A deposit whose provider and reference stand in the table already is not recorded again: nothing
  -- changes, and the answer is null.
  pub record_payin-seen : Ends (λ o d. (o ≡ none) × (d ≡ db)) (λ _. ⊥) (record_payin i db)
  record_payin-seen = record_payin-Triple.at db refl
