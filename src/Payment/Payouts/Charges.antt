-- ===== src/Payment/Payouts/Charges.antt =====
-- apps/payment/src/payouts/payouts.service.ts: what a payout costs, and the caps on what a wallet
-- may send. All of it reads the database under the lock of the wallet's row.
use fiam_retail_apis.Common.{
  ℕ, ◌+◌, ◌-◌, ◌*◌, ◌/◌, Bool, true, false, ◌&&◌, not, Option, none, some, List, ltb, leb,
  if◌then◌else◌, holds_id, sum_by, count_where,
}
use fiam_retail_apis.Payment.Entities.{
  Transaction, is_debit, is_payout, is_failed, is_outgoing, PaymentProviderKey, provider_eq,
}
use fiam_retail_apis.Payment.Store.{
  Db, M, ◌>>=◌, ◌>>◌, pure, raise_if, gets, modify, new_device_limit, transfer_limit,
}
use fiam_retail_apis.Payment.Fees.{
  calculate_transfer_fee, free_payouts_per_day, with_vat, stamp_duty,
}
use fiam_retail_apis.Payment.Provider.{TransferLimit, TransferCaps}

pub record Charges : Type 0 where
  pub fee : ℕ
  pub vat : ℕ
  pub stamp_duty : ℕ
  pub total : ℕ

-- The closure `done` of `payoutCharges`.
unfoldable pub charges_of : ℕ → ℕ → Charges
charges_of duty fee =
    let vat = with_vat fee - fee in
    record { fee = fee; vat = vat; stamp_duty = duty; total = fee + vat + duty }

-- Midnight in Lagos (UTC+1), in milliseconds. `now` is after 1970, so nothing is cut off at 0.
unfoldable pub start_of_lagos_day : ℕ → ℕ
start_of_lagos_day now = (now + 3600000) / 86400000 * 86400000 - 3600000

-- `rows[0]?.value !== false`
unfoldable pub free_payouts_enabled : Db → Bool
free_payouts_enabled db = elim db.free_payouts [ none ↦ true | some value ↦ value ]

unfoldable pub set_free_payouts_enabled : Bool → M Bool
set_free_payouts_enabled enabled = do
  modify (λ db. record db { free_payouts = some enabled })
  pure enabled

-- The rows that use up a free payout.
unfoldable pub uses_free_payout : ℕ → ℕ → Transaction → Bool
uses_free_payout wallet since t =
    holds_id t.wallet_id wallet
    && (is_payout t.kind && (not (is_failed t.status) && leb since t.created_at))

-- The charges while the first payouts of the day are free.
unfoldable pub charges_after : ℕ → ℕ → Charges
unfolding charges_of
charges_after used amount =
    let duty = stamp_duty amount in
    if ltb used free_payouts_per_day
    then charges_of duty 0
    else charges_of duty (calculate_transfer_fee amount)

unfoldable pub payout_charges : Option ℕ → ℕ → Db → Charges
unfolding charges_of charges_after free_payouts_enabled uses_free_payout
payout_charges none amount db = charges_of (stamp_duty amount) (calculate_transfer_fee amount)
payout_charges (some wallet) amount db =
    if free_payouts_enabled db
    then charges_after
        (count_where (uses_free_payout wallet (start_of_lagos_day db.now)) db.transactions) amount
    else charges_of (stamp_duty amount) (calculate_transfer_fee amount)

-- What one row adds to the outflow of a wallet since a time.
unfoldable pub outflow_of : ℕ → ℕ → Transaction → ℕ
outflow_of wallet since t =
    if holds_id t.wallet_id wallet
      && (is_debit t.type
          && (not (provider_eq t.provider PaymentProviderKey.manual)
              && (is_outgoing t.status && leb since t.created_at)))
    then t.amount
    else 0

unfoldable pub outflow_since : ℕ → ℕ → List Transaction → ℕ
outflow_since wallet since txs = sum_by (outflow_of wallet since) txs

-- `amount > max(cap - used, 0)`: on ℕ the subtraction stops at 0.
unfoldable pub exceeds : ℕ → ℕ → ℕ → Bool
exceeds cap used amount = ltb (cap - used) amount

unfoldable pub assert_within_transfer_limit : ℕ → ℕ → Option TransferLimit → M (Unit {0})
unfolding exceeds
assert_within_transfer_limit wallet amount none = pure tt
assert_within_transfer_limit wallet amount (some limit) = do
  used ← gets (λ db. outflow_since wallet limit.since db.transactions)
  raise_if (exceeds limit.amount used amount) new_device_limit

unfoldable pub assert_within_daily : ℕ → ℕ → Option ℕ → M (Unit {0})
unfolding exceeds
assert_within_daily wallet amount none = pure tt
assert_within_daily wallet amount (some daily) = do
  used ← gets (λ db. outflow_since wallet (start_of_lagos_day db.now) db.transactions)
  raise_if (exceeds daily used amount) transfer_limit

-- `cap && amount.greaterThan(cap)`
unfoldable pub over_cap : Option ℕ → ℕ → Bool
over_cap none amount = false
over_cap (some cap) amount = ltb cap amount

unfoldable pub assert_within_caps : ℕ → ℕ → TransferCaps → M (Unit {0})
unfolding over_cap assert_within_daily
assert_within_caps wallet amount caps = do
  raise_if (over_cap caps.per_transfer amount) transfer_limit
  assert_within_daily wallet amount caps.daily

-- `enforce` is the configuration's `transferCaps.enforce`.
unfoldable pub check_caps : Bool → ℕ → ℕ → Option TransferCaps → M (Unit {0})
unfolding assert_within_caps
check_caps enforce wallet amount none = pure tt
check_caps enforce wallet amount (some caps) =
    if enforce then assert_within_caps wallet amount caps else pure tt
