-- ===== src/Payment/Payouts/Limits.antt =====
-- The caps on what a wallet may send hold of the rows that a reservation leaves behind.
use fiam_retail_apis.Payment.Store.{transfer_limit, raise_if, ◌>>=◌, Db, insert_transaction}
use fiam_retail_apis.Common.{
  inr, inl, true, Bool-cases, [], ◌∷◌, sum_by-append, refl, none, ◌+◌, if◌then◌else◌, arith, false,
  some, ◌≡◌, ◌≤◌, ◌<◌, Option, List, ℕ, Bool,
}
use fiam_retail_apis.Payment.Provider.{TransferCaps, TransferLimit}
use fiam_retail_apis.Payment.Ledger.Rules.{
  gets-bind, Triple-any, Triple-bind, Triple-and, relax, Triple-transaction, assuming,
}
use fiam_retail_apis.Payment.Ledger.Keeping.{keeps_rules}
use fiam_retail_apis.Payment.Payouts.Charges.{
  over_cap, assert_within_caps, assert_within_transfer_limit, check_caps, assert_within_daily,
  start_of_lagos_day, Charges, exceeds, outflow_since, outflow_of,
}
use fiam_retail_apis.Payment.Wallets.{debit_for_update}
use fiam_retail_apis.Payment.Ledger.{Keeps, Triple}
use fiam_retail_apis.Payment.Payouts.Initiate.{
  reserve_in_transaction, payout_row, Reservation, reserve,
}
use fiam_retail_apis.Payment.Entities.{Transaction}

-- What one row adds is at most its amount.
outflow_of-le : (w since : ℕ) (t : Transaction) → outflow_of w since t ≤ t.amount
unfolding outflow_of
outflow_of-le w since t = ground arith

-- The outflow of a wallet since a time stays within a cap.
abbrev IsWithin : ℕ → ℕ → ℕ → List Transaction → Type 0
IsWithin w since cap txs = outflow_since w since txs ≤ cap

insert-IsWithin :
    (w since amount cap : ℕ) (make : ℕ → Transaction)
    → ((id : ℕ) → (make id).amount ≡ amount)
    → Triple
        (λ db. outflow_since w since db.transactions + amount ≤ cap)
        (insert_transaction make)
        (λ _ db. IsWithin w since cap db.transactions)
        (λ _. Unit)
unfolding insert_transaction outflow_since
insert-IsWithin w since amount cap make same = record {
  at = λ db p.
      let t = make db.next_id in
      ground (
        arith,
        same db.next_id,
        outflow_of-le w since t,
        sum_by-append (outflow_of w since) db.transactions (t ∷ []),
      );
}

-- A cap on the cumulative outflow of a new device's window.
abbrev pub IsWithinLimit : ℕ → Option TransferLimit → Db → Type 0
IsWithinLimit w none db = Unit
IsWithinLimit w (some limit) db = IsWithin w limit.since limit.amount db.transactions

-- The daily cap, where it is enforced: the outflow of the Lagos day.
abbrev pub daily_of : Bool → Option TransferCaps → Option ℕ
daily_of enforce none = none
daily_of enforce (some caps) = if enforce then caps.daily else none

abbrev pub IsWithinDaily : ℕ → Option ℕ → Db → Type 0
IsWithinDaily w none db = Unit
IsWithinDaily w (some daily) db = IsWithin w (start_of_lagos_day db.now) daily db.transactions

module _ (r : Reservation) (positive : 0 < r.amount) where
  fits : (cap used : ℕ) → exceeds cap used r.amount ≡ false → used + r.amount ≤ cap
  unfolding exceeds
  fits cap used h = ground arith

  abbrev HasLimitRoom : Option TransferLimit → Db → Type 0
  HasLimitRoom none db = Unit
  HasLimitRoom (some limit) db =
      outflow_since r.wallet limit.since db.transactions + r.amount ≤ limit.amount

  abbrev HasDailyRoom : Option ℕ → Db → Type 0
  HasDailyRoom none db = Unit
  HasDailyRoom (some daily) db =
      outflow_since r.wallet (start_of_lagos_day db.now) db.transactions + r.amount ≤ daily

  insert-limit :
      (limit : Option TransferLimit) (make : ℕ → Transaction)
      → ((id : ℕ) → (make id).amount ≡ r.amount)
      → Triple
          (HasLimitRoom limit)
          (insert_transaction make)
          (λ _. IsWithinLimit r.wallet limit)
          (λ _. Unit)
  insert-limit none make same =
      assuming (λ _. Unit {0}) (λ _ p. p) (Triple-any (insert_transaction make))
  insert-limit (some limit) make same =
      insert-IsWithin r.wallet limit.since r.amount limit.amount make same

  insert-daily :
      (daily : Option ℕ) (make : ℕ → Transaction)
      → ((id : ℕ) → (make id).amount ≡ r.amount)
      → Triple
          (HasDailyRoom daily)
          (insert_transaction make)
          (λ _. IsWithinDaily r.wallet daily)
          (λ _. Unit)
  unfolding insert_transaction outflow_since
  insert-daily none make same = record { at = λ db _. ground arith }
  insert-daily (some daily) make same = record {
    at = λ db p.
        let since = start_of_lagos_day db.now in
        let t = make db.next_id in
        ground (
          arith,
          same db.next_id,
          outflow_of-le r.wallet since t,
          sum_by-append (outflow_of r.wallet since) db.transactions (t ∷ []),
        );
  }

  row_amount :
      (charges : Charges) (balance now id : ℕ)
      → (payout_row r.provider_key r.wallet r.account r.amount charges balance r.reference
          r.beneficiary r.narration now id).amount
        ≡ r.amount
  unfolding payout_row
  row_amount charges balance now id = refl

  -- What the tests leave room for.
  abbrev HasRoom : Option TransferLimit → Option ℕ → Db → Type 0
  HasRoom limit daily db = HasLimitRoom limit db × HasDailyRoom daily db

  limit-HasRoom :
      (limit : Option TransferLimit)
      → Triple
          (λ _. Unit {0})
          (assert_within_transfer_limit r.wallet r.amount limit)
          (λ _. HasLimitRoom limit)
          (λ _. Unit)
  unfolding assert_within_transfer_limit ◌>>=◌
  limit-HasRoom none = record { at = λ db _. tt }
  limit-HasRoom (some limit) = record {
    at = λ db _.
        let used = outflow_since r.wallet limit.since db.transactions in
        elim (Bool-cases (exceeds limit.amount used r.amount)) [
          | inl over ↦ rw over tt
          | inr within ↦ rw within (fits limit.amount used within)
        ];
  }

  daily-HasRoom :
      (daily : Option ℕ)
      → Triple
          (λ _. Unit {0})
          (assert_within_daily r.wallet r.amount daily)
          (λ _. HasDailyRoom daily)
          (λ _. Unit)
  unfolding assert_within_daily ◌>>=◌
  daily-HasRoom none = record { at = λ db _. tt }
  daily-HasRoom (some daily) = record {
    at = λ db _.
        let used = outflow_since r.wallet (start_of_lagos_day db.now) db.transactions in
        elim (Bool-cases (exceeds daily used r.amount)) [
          | inl over ↦ rw over tt
          | inr within ↦ rw within (fits daily used within)
        ];
  }

  daily-Keeps :
      (P : Db → Type 0) (daily : Option ℕ) → Keeps P (assert_within_daily r.wallet r.amount daily)
  unfolding assert_within_daily
  daily-Keeps P none = search keeps_rules
  daily-Keeps P (some daily) = search keeps_rules

  caps-Keeps :
      (P : Db → Type 0) (enforce : Bool) (caps : Option TransferCaps)
      → Keeps P (check_caps enforce r.wallet r.amount caps)
  unfolding check_caps assert_within_caps
  caps-Keeps P enforce none = search keeps_rules
  caps-Keeps P true (some caps) = search (keeps_rules, daily-Keeps)
  caps-Keeps P false (some caps) = search keeps_rules

  caps-HasRoom :
      (enforce : Bool) (caps : Option TransferCaps)
      → Triple
          (λ _. Unit {0})
          (check_caps enforce r.wallet r.amount caps)
          (λ _. HasDailyRoom (daily_of enforce caps))
          (λ _. Unit)
  unfolding check_caps assert_within_caps ◌>>=◌
  caps-HasRoom enforce none = record { at = λ db _. tt }
  caps-HasRoom true (some caps) =
      Triple-bind _ (Triple-any (raise_if (over_cap caps.per_transfer r.amount) transfer_limit))
        λ _. daily-HasRoom caps.daily
  caps-HasRoom false (some caps) = record { at = λ db _. tt }

  insert-IsWithinCaps :
      (limit : Option TransferLimit) (daily : Option ℕ) (make : ℕ → Transaction)
      → ((id : ℕ) → (make id).amount ≡ r.amount)
      → Triple
          (HasRoom limit daily)
          (insert_transaction make)
          (λ _ db. IsWithinLimit r.wallet limit db × IsWithinDaily r.wallet daily db)
          (λ _. Unit)
  insert-IsWithinCaps limit daily make same =
      relax (Triple-and (insert-limit limit make same) (insert-daily daily make same))

  -- A reservation that succeeds leaves the wallet within both cumulative caps.
  pub reserve-IsWithinCaps :
      Triple
        (λ _. Unit {0})
        (reserve r)
        (λ _ db.
          IsWithinLimit r.wallet r.limit db × IsWithinDaily r.wallet (daily_of r.enforce r.caps) db)
        (λ _. Unit)
  unfolding reserve reserve_in_transaction
  reserve-IsWithinCaps =
      Triple-transaction (λ _ _. tt)
        (Triple-bind _ (Triple-any (debit_for_update r.wallet r.amount)) λ _. gets-bind _ λ charges.
          Triple-bind _ (Triple-any (debit_for_update r.wallet charges.total)) λ debited.
            Triple-bind _ (limit-HasRoom r.limit) λ _.
              Triple-bind (λ _. HasRoom r.limit (daily_of r.enforce r.caps))
                (relax (
                  assuming (λ db. HasLimitRoom r.limit db × Unit {0}) (λ _ p. (p, tt))
                    (Triple-and (caps-Keeps (HasLimitRoom r.limit) r.enforce r.caps)
                      (caps-HasRoom r.enforce r.caps))))
                λ _. gets-bind _ λ now.
                  insert-IsWithinCaps r.limit (daily_of r.enforce r.caps) _
                    (row_amount charges debited.balance now))
