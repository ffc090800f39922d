-- ===== src/Auth/Caps/Ceilings.antt =====
-- The caps in force never pass the ceilings of the tier.
use fiam_retail_apis.Common.{
  Bool, if◌then◌else◌, true, false, refl, arith, or_else, ◌≡◌, ◌≤◌, ℕ, Option, none, some,
}
use fiam_retail_apis.Auth.Caps.{
  CustomerTier, tier_1, tier_2, tier_3, is_above, tier_limits, exceeds_daily, User,
  set_transfer_caps, transfer_caps_for,
}
use mathlib.Core.Path.{subst}

-- A cap in force that is no more than another.
abbrev pub IsAtMost : Option ℕ → Option ℕ → Type 0
IsAtMost (some a) (some b) = a ≤ b
IsAtMost _ _ = ⊥

IsAtMost-default :
    (value : Option ℕ) (ceiling : ℕ)
    → is_above value (some ceiling) ≡ false
    → IsAtMost (or_else value (some ceiling)) (some ceiling)
IsAtMost-default none ceiling h = omega arith
IsAtMost-default (some value) ceiling h = ground arith

IsAtMost-daily :
    (value daily : Option ℕ) (ceiling per_ceiling : ℕ)
    → exceeds_daily (or_else value (some per_ceiling)) (or_else daily (some ceiling)) ≡ false
    → IsAtMost (or_else value (some per_ceiling)) (or_else daily (some ceiling))
IsAtMost-daily none none ceiling per h = ground arith
IsAtMost-daily none (some d) ceiling per h = ground arith
IsAtMost-daily (some v) none ceiling per h = ground arith
IsAtMost-daily (some v) (some d) ceiling per h = ground arith

-- What the caps in force promise.
abbrev pub AreInOrder : User → Type 0
AreInOrder u =
    let c = transfer_caps_for u in
    IsAtMost c.per_transfer c.tier_per_transfer
    × (IsAtMost c.daily c.tier_daily × IsAtMost c.per_transfer c.daily)

caps_in_order :
    (u : User)
    → (per_ceiling ceiling : ℕ) → (tier_limits u.tier).max_per_transfer ≡ some per_ceiling
    → (tier_limits u.tier).max_daily_transfer ≡ some ceiling
    → is_above u.transfer_limit_per_txn (some per_ceiling) ≡ false
    → is_above u.transfer_limit_daily (some ceiling) ≡ false
    → exceeds_daily
        (or_else u.transfer_limit_per_txn (some per_ceiling))
        (or_else u.transfer_limit_daily (some ceiling))
      ≡ false
    → AreInOrder u
unfolding transfer_caps_for
caps_in_order u per_ceiling ceiling e e' a b c =
    rw (e, e')
      (
        IsAtMost-default u.transfer_limit_per_txn per_ceiling a,
        (
          IsAtMost-default u.transfer_limit_daily ceiling b,
          IsAtMost-daily u.transfer_limit_per_txn u.transfer_limit_daily ceiling per_ceiling c,
        ),
      )

if-accepted :
    (a b c : Bool) (x y : User)
    → (if a then none else if b then none else if c then none else some x) ≡ some y
    → ((a ≡ false) × ((b ≡ false) × (c ≡ false))) × (x ≡ y)
if-accepted true b c x y h = cc
if-accepted false true c x y h = cc
if-accepted false false true x y h = cc
if-accepted false false false x y h = ((refl, (refl, refl)), cc)

ceilings :
    (tier : CustomerTier)
    → (p : ℕ) × ((d : ℕ) × (((tier_limits tier).max_per_transfer ≡ some p)
          × ((tier_limits tier).max_daily_transfer ≡ some d)))
ceilings tier_1 = (_, (_, (refl, refl)))
ceilings tier_2 = (_, (_, (refl, refl)))
ceilings tier_3 = (_, (_, (refl, refl)))

-- A change that is accepted leaves caps in force within the ceilings of the tier, a transfer's
-- within the day's.
pub set_transfer_caps-AreInOrder :
    (u changed : User) (per_transfer daily : Option ℕ)
    → set_transfer_caps u per_transfer daily ≡ some changed
    → AreInOrder changed
unfolding set_transfer_caps transfer_caps_for
set_transfer_caps-AreInOrder u changed per_transfer daily h =
    let (p, (d, (e, e'))) = ceilings u.tier in
    let ((a, (b, c)), same) = if-accepted _ _ _ _ changed h in
    subst AreInOrder same (
      caps_in_order
        (record u { transfer_limit_per_txn = per_transfer; transfer_limit_daily = daily }) p d e e'
        (subst (λ x. is_above per_transfer x ≡ false) e a)
        (subst (λ x. is_above daily x ≡ false) e' b)
        (subst (λ x. exceeds_daily (or_else per_transfer x) (or_else daily (some d)) ≡ false) e
          (subst
            (λ x.
              exceeds_daily (or_else per_transfer (tier_limits u.tier).max_per_transfer)
                (or_else daily x)
              ≡ false)
            e' c)))
