-- ===== src/Payment/Payouts/InitiateBooks.antt =====
-- The books of every wallet stay balanced when a payout is initiated.
use fiam_retail_apis.Payment.Store.{err, ok, lift, Result, ◌>>=◌, insert_transaction, Db}
use fiam_retail_apis.Payment.Payouts.SettleBooks.{apply_transfer_result-Triple}
use fiam_retail_apis.Payment.Payouts.Settle.{apply_transfer_result}
use fiam_retail_apis.Payment.Provider.{
  TransferResult, TransferRecipient, TransferLimit, TransferCaps,
}
use fiam_retail_apis.Common.{
  pad_start, join, any, Bool-cases, inr, zero, inl, suc, Option-cases, String, refl, Bool, ℕ, ◌≡◌,
  ◌+◌, true, arith, Option, some, none,
}
use fiam_retail_apis.Payment.Ledger.Rules.{
  Triple-and, Triple-weaken, assuming, Triple-transaction, relax, Triple-bind, Keeps-relax,
  gets-bind,
}
use fiam_retail_apis.Payment.Ledger.Keeping.{
  Keeps-or_raise, Keeps-lift, after, Keeps-pure, Keeps-if, Keeps-gets, Keeps-bind, modify-Triple,
  keeps_rules,
}
use fiam_retail_apis.Payment.Beneficiaries.{same_recipient, UpsertInput, find_owned_by_id, upsert}
use fiam_retail_apis.Payment.Payouts.Initiate.{
  generate_reference, initiate_payout, InitiatePayoutDto, Outside, recipient_of, generate_from,
  save_beneficiary, Reservation, reserve_in_transaction, reserve, payout_row,
}
use fiam_retail_apis.Payment.Wallets.{find_active_for_wallet, find_by_user_and_currency}
use fiam_retail_apis.Payment.Entities.{PaymentProviderKey, Transaction, is_debit}
use fiam_retail_apis.Payment.Ledger.Triples.{
  insert-Holds, share, debit-Triple, insert-Triple, Holds,
}
use mathlib.Core.Bool.{false}
use fiam_retail_apis.Payment.Ledger.{
  IsFresh, IsBalanced, IsOff, Triple, Keeps, spent_of, received_of,
}
use fiam_retail_apis.Payment.Payouts.Charges.{
  assert_within_caps, Charges, assert_within_transfer_limit, assert_within_daily, check_caps,
}

-- The caps only read.
module _ {P : Db → Type 0} (wallet amount : ℕ) where
  transfer_limit-Keeps :
      (limit : Option TransferLimit) → Keeps P (assert_within_transfer_limit wallet amount limit)
  unfolding assert_within_transfer_limit
  transfer_limit-Keeps none = search keeps_rules
  transfer_limit-Keeps (some limit) = search keeps_rules

  daily-Keeps : (daily : Option ℕ) → Keeps P (assert_within_daily wallet amount daily)
  unfolding assert_within_daily
  daily-Keeps none = search keeps_rules
  daily-Keeps (some daily) = search keeps_rules

  pub check_caps-Keeps :
      (enforce : Bool) (caps : Option TransferCaps)
      → Keeps P (check_caps enforce wallet amount caps)
  unfolding check_caps assert_within_caps
  check_caps-Keeps enforce none = search keeps_rules
  check_caps-Keeps true (some caps) = search (keeps_rules, daily-Keeps)
  check_caps-Keeps false (some caps) = search keeps_rules

-- A new row that stands in the table, and is a DEBIT.
abbrev pub IsReserved : ℕ → Transaction → Db → Type 0
IsReserved w t db =
    IsBalanced w db × Holds t.id t db.transactions × (is_debit t.type ≡ true) × IsFresh db

module _ (w : ℕ) (r : Reservation) where
  payout_row-share :
      (charges : Charges) (balance now id : ℕ)
      → let row =
          payout_row r.provider_key r.wallet r.account r.amount charges balance r.reference
            r.beneficiary r.narration now id in
        (spent_of w row ≡ share w r.wallet r.amount + share w r.wallet charges.total)
        × (received_of w row ≡ 0)
  unfolding payout_row spent_of received_of
  payout_row-share charges balance now id = ground arith

  -- What is taken for the payout, as wallet `w` sees it.
  abbrev taken : ℕ → ℕ
  taken total = share w r.wallet r.amount + share w r.wallet total

  payout_row_debit :
      (charges : Charges) (balance now : ℕ) (t : Transaction)
      → (id : ℕ) × (t
          ≡ payout_row r.provider_key r.wallet r.account r.amount charges balance r.reference
              r.beneficiary r.narration now id)
      → is_debit t.type ≡ true
  unfolding payout_row
  payout_row_debit charges balance now t e = rw e.1

  insert_row-Triple :
      (charges : Charges) (balance now : ℕ)
      → Triple
          (λ db. IsOff w (0 + taken charges.total) 0 db × IsFresh db)
          (insert_transaction (
            payout_row r.provider_key r.wallet r.account r.amount charges balance r.reference
              r.beneficiary r.narration now))
          (IsReserved w)
          (λ _. Unit)
  unfolding payout_row
  insert_row-Triple charges balance now =
      Triple-weaken _ _ _
        (Triple-and
          (insert-Triple w 0 0 (taken charges.total) 0 _ (payout_row-share charges balance now))
          (insert-Holds
            (payout_row r.provider_key r.wallet r.account r.amount charges balance r.reference
              r.beneficiary r.narration now)
            (λ id. refl)))
        (λ db p. (omega arith, p.1))
        (λ t db q. (omega arith, q.1.1, payout_row_debit charges balance now t q.1.0, q.1.2))
        (λ _ _. tt)

  debits-Triple :
      Triple
        (λ db. IsOff w 0 0 db × IsFresh db)
        (reserve_in_transaction r)
        (IsReserved w)
        (λ _. Unit)
  unfolding reserve_in_transaction
  debits-Triple =
      Triple-bind _ (relax (debit-Triple w IsFresh (λ _ _ f. f) 0 0 r.wallet r.amount)) λ _.
        gets-bind _ λ charges.
          Triple-bind _
            (relax (
              debit-Triple w IsFresh (λ _ _ f. f) (0 + share w r.wallet r.amount) 0 r.wallet
                charges.total))
            λ debited.
              Triple-bind _ (Keeps-relax (transfer_limit-Keeps r.wallet r.amount r.limit)) λ _.
                Triple-bind _ (Keeps-relax (check_caps-Keeps r.wallet r.amount r.enforce r.caps))
                  λ _. gets-bind _ λ now.
                    assuming (λ db. IsOff w (0 + taken charges.total) 0 db × IsFresh db)
                      (λ db p. (omega arith, p.1)) (insert_row-Triple charges debited.balance now)

  -- The database transaction of a payout.
  pub reserve-Triple :
      Triple (λ db. IsBalanced w db × IsFresh db) (reserve r) (IsReserved w) (IsBalanced w)
  unfolding reserve
  reserve-Triple =
      Triple-transaction (λ _ p. p.0)
        (assuming (λ db. IsOff w 0 0 db × IsFresh db) (λ db p. (omega arith, p.1)) debits-Triple)

-- Drawing a reference only reads.
module _ {P : Db → Type 0} where
  pub generate_from-Keeps :
      (name : ℕ → String) (key : PaymentProviderKey) (left attempt : ℕ)
      → Keeps P (generate_from name key left attempt)
  unfolding generate_from
  generate_from-Keeps name key zero attempt = search keeps_rules
  generate_from-Keeps name key (suc left) attempt =
      Keeps-bind _ _ (Keeps-gets _)
        λ clash. Keeps-if clash _ _ (generate_from-Keeps name key left (suc attempt)) (Keeps-pure _)

-- The calls before the reservation change neither wallets nor transactions.
module _ (w : ℕ) where
  abbrev pub IsReady : Db → Type 0
  IsReady db = IsBalanced w db × IsFresh db

  upsert-Keeps : (i : UpsertInput) → Keeps IsReady (upsert i)
  unfolding upsert
  upsert-Keeps i =
      Triple-bind (λ _. IsReady)
        (modify-Triple IsReady _ λ db p.
          elim (Bool-cases (any (same_recipient i) db.beneficiaries)) [
            | inl known ↦ rw known p
            | inr new ↦ rw new (p.0, λ id later. p.1 id (omega arith))
          ])
        λ _. search keeps_rules

  save_beneficiary-Keeps :
      (o : Outside) (user : ℕ) (code : String) (to : TransferRecipient)
      → Keeps IsReady (save_beneficiary o user code to)
  unfolding save_beneficiary
  save_beneficiary-Keeps o user code to = search (keeps_rules, upsert-Keeps)

  recipient_of-Keeps : (user : ℕ) (dto : InitiatePayoutDto) → Keeps IsReady (recipient_of user dto)
  unfolding recipient_of find_owned_by_id
  recipient_of-Keeps user dto = elim (Option-cases dto.beneficiary_id) [
    | inl e ↦ rw e search keeps_rules
    | inr (id, e) ↦ rw e search keeps_rules
  ]

  generate_reference-Keeps : (o : Outside) → Keeps IsReady (generate_reference o)
  unfolding generate_reference
  generate_reference-Keeps o =
      generate_from-Keeps (λ attempt. join o.wallet_name (pad_start 9 (o.random_int attempt)))
        o.provider.key 10 0

  transfer-Triple :
      (t : Transaction) (answer : Result TransferResult)
      → Triple
          (IsReserved w t)
          (lift answer >>= λ result. apply_transfer_result t result)
          (λ _. IsBalanced w)
          (IsBalanced w)
  unfolding ◌>>=◌
  transfer-Triple t (ok result) = record {
    at = λ db q. (apply_transfer_result-Triple w t t q.2 result).at db (q.0, q.1);
  }
  transfer-Triple t (err e) = record { at = λ db q. q.0 }

  -- A payout from the request to the row that is returned, whatever the provider answers.
  pub initiate_payout-Triple :
      (o : Outside) (user : ℕ) (dto : InitiatePayoutDto)
      → Triple IsReady (initiate_payout o user dto) (λ _. IsBalanced w) (IsBalanced w)
  unfolding initiate_payout find_by_user_and_currency find_active_for_wallet
  initiate_payout-Triple o user dto = after _ done (Keeps-lift _) λ grant.
      after _ done (recipient_of-Keeps user dto) λ recipient.
        after _ done (Keeps-or_raise _ _) λ amount. after _ done (Keeps-gets _) λ found.
          after _ done (Keeps-or_raise _ _) λ wallet. after _ done (Keeps-gets _) λ active.
            after _ done (Keeps-or_raise _ _) λ address. after _ done (Keeps-lift _) λ from.
              after _ done (Keeps-lift _) λ sender. after _ done (Keeps-lift _) λ to.
                after _ done (save_beneficiary-Keeps o user _ to) λ beneficiary.
                  after _ done (generate_reference-Keeps o)
                    λ reference. Triple-bind _ (reserve-Triple w _) λ t. transfer-Triple t _
    where
      done : (db : Db) → IsReady db → IsBalanced w db
      done db p = p.0
