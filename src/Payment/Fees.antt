-- ===== src/Payment/Fees.antt =====
-- apps/payment/src/payouts/fee.util.ts: the tiered transfer fee, VAT and stamp duty.
-- Amounts are in 1/10000 naira.
use fiam_retail_apis.Common.{ℕ, ◌+◌, ◌*◌, ◌/◌, leb, if◌then◌else◌}
use fiam_retail_apis.Payment.Entities.{naira}

abbrev pub tier_1_max : ℕ
tier_1_max = naira 5000

abbrev pub tier_2_max : ℕ
tier_2_max = naira 50000

unfoldable pub calculate_transfer_fee : ℕ → ℕ
calculate_transfer_fee amount =
    if leb amount tier_1_max then naira 10 else if leb amount tier_2_max then naira 25 else naira 50

abbrev pub free_payouts_per_day : ℕ
free_payouts_per_day = 2

-- `toDecimalPlaces(2)` of an amount given in 1/10000000 naira, half up.
abbrev pub to_kobo : ℕ → ℕ
to_kobo n = (n + 50000) / 100000 * 100

-- `fee + fee * 0.075` is `fee * 1075` in 1/10000000 naira.
unfoldable pub with_vat : ℕ → ℕ
with_vat fee = to_kobo (fee * 1075)

abbrev pub stamp_duty_threshold : ℕ
stamp_duty_threshold = naira 10000

unfoldable pub stamp_duty : ℕ → ℕ
stamp_duty amount = if leb stamp_duty_threshold amount then naira 50 else 0

-- `amount.toFixed(2)` of an amount in 1/10000 naira, half up: what is sent to the provider.
unfoldable pub to_fixed_2 : ℕ → ℕ
to_fixed_2 amount = (amount + 50) / 100 * 100
