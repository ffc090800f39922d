-- ===== src/Auth/Caps.antt =====
-- `transferCapsFor`, `setTransferCaps` and `transferLimitFor` of
-- apps/auth/src/users/users.service.ts, with the ceilings of tier-limits.ts. Amounts are in
-- 1/10000 naira; the request allows two decimals, so that `toFixed(2)` loses nothing.
pub mod Ceilings
use fiam_retail_apis.Common.{
  get_or, ltb, false, leb, Bool, ◌+◌, Option, ℕ, or_else, none, some, if◌then◌else◌, ◌-◌, ◌*◌,
}
use fiam_retail_apis.Payment.Entities.{naira}
use fiam_retail_apis.Payment.Provider.{TransferLimit}

pub data CustomerTier : Type 0 where
  tier_1 tier_2 tier_3 : CustomerTier

pub record TierLimit : Type 0 where
  pub max_single_deposit : Option ℕ
  pub max_cumulative_balance : Option ℕ
  pub max_per_transfer : Option ℕ
  pub max_daily_transfer : Option ℕ

abbrev pub tier_limits : CustomerTier → TierLimit
tier_limits tier_1 = record {
  max_single_deposit = some (naira 50000);
  max_cumulative_balance = some (naira 300000);
  max_per_transfer = some (naira 200000);
  max_daily_transfer = some (naira 200000);
}
tier_limits tier_2 = record {
  max_single_deposit = some (naira 200000);
  max_cumulative_balance = some (naira 500000);
  max_per_transfer = some (naira 5000000);
  max_daily_transfer = some (naira 5000000);
}
tier_limits tier_3 = record {
  max_single_deposit = none;
  max_cumulative_balance = none;
  max_per_transfer = some (naira 5000000);
  max_daily_transfer = some (naira 10000000);
}

-- The columns of a user that the caps and the new-device limit read.
pub record User : Type 0 where
  pub tier : CustomerTier
  pub transfer_limit_per_txn : Option ℕ
  pub transfer_limit_daily : Option ℕ
  pub device_limit_until : Option ℕ

pub record Caps : Type 0 where
  pub per_transfer : Option ℕ
  pub daily : Option ℕ
  pub tier_per_transfer : Option ℕ
  pub tier_daily : Option ℕ

unfoldable pub transfer_caps_for : User → Caps
transfer_caps_for u =
    let t = tier_limits u.tier in
    record {
      per_transfer = or_else u.transfer_limit_per_txn t.max_per_transfer;
      daily = or_else u.transfer_limit_daily t.max_daily_transfer;
      tier_per_transfer = t.max_per_transfer;
      tier_daily = t.max_daily_transfer;
    }

-- `value !== null && ceiling !== null && value > ceiling`
abbrev pub is_above : Option ℕ → Option ℕ → Bool
is_above (some value) (some ceiling) = ltb ceiling value
is_above _ _ = false

-- `daily !== null && Number(perTransfer) > Number(daily)`: `Number(null)` is 0.
abbrev pub exceeds_daily : Option ℕ → Option ℕ → Bool
exceeds_daily per_transfer none = false
exceeds_daily per_transfer (some daily) = ltb daily (get_or per_transfer 0)

-- The user as the UPDATE leaves it, or none for a 400, which writes nothing.
unfoldable pub set_transfer_caps : User → Option ℕ → Option ℕ → Option User
unfolding transfer_caps_for
set_transfer_caps u per_transfer daily =
    let t = tier_limits u.tier in
    let changed = record u {
      transfer_limit_per_txn = per_transfer;
      transfer_limit_daily = daily;
    } in
    let effective = transfer_caps_for changed in
    if is_above per_transfer t.max_per_transfer
    then none
    else if is_above daily t.max_daily_transfer
    then none
    else if exceeds_daily effective.per_transfer effective.daily
    then none
    else some changed

-- The configuration of the new-device limit: `amountNgn` and `hours`.
pub record DeviceLimit : Type 0 where
  pub amount : ℕ
  pub hours : ℕ

abbrev pub limit_until : DeviceLimit → ℕ → Option ℕ → Option TransferLimit
limit_until config now none = none
limit_until config now (some until) =
    if leb until now
    then none
    else some
        (record { amount = config.amount; since = until - config.hours * 3600000; until = until })

unfoldable pub transfer_limit_for : DeviceLimit → ℕ → User → Option TransferLimit
transfer_limit_for config now u = limit_until config now u.device_limit_until

-- `startDeviceLimit`
unfoldable pub start_device_limit : DeviceLimit → ℕ → User → User
start_device_limit config now u = record u {
  device_limit_until = some (now + config.hours * 3600000);
}
