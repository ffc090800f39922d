-- ===== src/Payment/Payouts/References.antt =====
-- What a payout is charged, and the reference that it is sent under.
use fiam_retail_apis.Common.{
  pad_start, join, ◌<◌, arith, inr, ◌≤◌, count_where, false, inl, true, Option, any, Bool-cases,
  ◌+◌, String, ◌≡◌, ℕ, zero, suc, none, some, refl,
}
use fiam_retail_apis.Payment.Fees.{
  stamp_duty, free_payouts_per_day, calculate_transfer_fee, with_vat,
}
use fiam_retail_apis.Payment.Payouts.Charges.{
  start_of_lagos_day, uses_free_payout, free_payouts_enabled, charges_after, charges_of,
  payout_charges,
}
use fiam_retail_apis.Payment.Store.{same_reference, ◌>>=◌, Db}
use fiam_retail_apis.Payment.Payouts.Initiate.{generate_from, Outside, generate_reference}
use fiam_retail_apis.Payment.Ledger.{Triple}

module _ (o : Outside) where
  abbrev pub IsUnused : String → Db → Type 0
  IsUnused reference db = any (same_reference o.provider.key reference) db.transactions ≡ false

  generate_from-IsUnused :
      (name : ℕ → String) (left attempt : ℕ)
      → Triple (λ _. Unit {0}) (generate_from name o.provider.key left attempt) IsUnused (λ _. Unit)
  unfolding generate_from ◌>>=◌
  generate_from-IsUnused name zero attempt = record { at = λ db p. tt }
  generate_from-IsUnused name (suc left) attempt = record {
    at = λ db p.
        elim (Bool-cases (any (same_reference o.provider.key (name attempt)) db.transactions)) [
          | inl taken ↦ rw taken ((generate_from-IsUnused name left (suc attempt)).at db tt)
          | inr unused ↦ rw unused unused
        ];
  }

  -- A reference that is returned names no transaction of the provider.
  pub generate_reference-Triple : Triple (λ _. Unit {0}) (generate_reference o) IsUnused (λ _. Unit)
  unfolding generate_reference
  generate_reference-Triple =
      generate_from-IsUnused (λ attempt. join o.wallet_name (pad_start 9 (o.random_int attempt))) 10
        0

charges_of-sum :
    (duty fee : ℕ)
    → (charges_of duty fee).total
      ≡ (charges_of duty fee).fee + (charges_of duty fee).vat + (charges_of duty fee).stamp_duty
unfolding charges_of
charges_of-sum duty fee = refl

abbrev pub most : ℕ
most = 1037500

-- The fee, its VAT and the stamp duty of the amount make up the charges of a payout, which are
-- never above ₦103.75.
pub payout_charges-total :
    (wallet : Option ℕ) (amount : ℕ) (db : Db)
    → let c = payout_charges wallet amount db in
      (c.total ≡ c.fee + c.vat + c.stamp_duty)
      × ((c.total ≤ most) × (c.stamp_duty ≡ stamp_duty amount))
unfolding payout_charges charges_of charges_after calculate_transfer_fee with_vat stamp_duty
payout_charges-total none amount db = ground arith
payout_charges-total (some wallet) amount db = ground arith

free_total :
    (used amount : ℕ)
    → used < free_payouts_per_day
    → (charges_after used amount).total ≡ stamp_duty amount
unfolding charges_of charges_after with_vat
free_total used amount few = ground arith

-- The first payouts of a day, while they are free, cost the stamp duty alone.
pub payout_charges-free :
    (wallet amount : ℕ) (db : Db)
    → free_payouts_enabled db ≡ true
    → count_where (uses_free_payout wallet (start_of_lagos_day db.now)) db.transactions
      < free_payouts_per_day
    → (payout_charges (some wallet) amount db).total ≡ stamp_duty amount
unfolding payout_charges
payout_charges-free wallet amount db enabled few = rw enabled (free_total _ amount few)
