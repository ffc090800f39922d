-- ===== src/Auth/Otp/Guesses.antt =====
-- A code is good once, and for a bounded number of guesses.
use fiam_retail_apis.Common.{
  inr, inl, Bool-cases, is_some, not, text_eq, text_eq_refl, arith, ◌+◌, ◌≤◌, ◌≡◌, ◌<◌, String,
  List, ℕ, some, true, false, [], ◌∷◌, if◌then◌else◌, refl,
}
use fiam_retail_apis.Auth.Otp.{is_spent, new_otp, Otp, OtpConfig, verify, generate, check_otp}
use mathlib.Core.Path.{subst}

module _ (config : OtpConfig) (now later : ℕ) (code_hash : String) (otps after : List Otp) where
  verified_new :
      0 < config.max_attempts
      → now ≤ later
      → later ≤ now + config.ttl
      → verify config later code_hash (new_otp config now code_hash ∷ otps)
        ≡ (true, record (new_otp config now code_hash) { consumed_at = some later } ∷ otps)
  unfolding verify check_otp
  verified_new some_attempts order in_time = ground (arith, text_eq_refl code_hash)

  generated :
      generate config now code_hash otps ≡ some after → new_otp config now code_hash ∷ otps ≡ after
  unfolding generate
  generated h = ground arith

  -- A code that was generated is accepted until it expires, and is consumed by that.
  pub generate-verify :
      0 < config.max_attempts
      → now ≤ later
      → later ≤ now + config.ttl
      → generate config now code_hash otps ≡ some after
      → verify config later code_hash after
        ≡ (true, record (new_otp config now code_hash) { consumed_at = some later } ∷ otps)
  generate-verify some_attempts order in_time h =
      subst
        (λ x.
          verify config later code_hash x
          ≡ (true, record (new_otp config now code_hash) { consumed_at = some later } ∷ otps))
        (generated h) (verified_new some_attempts order in_time)

-- Whether a guess has a chance at this moment: the code itself would be accepted in its place.
abbrev pub chance : OtpConfig → String → ℕ → List Otp → ℕ
chance config code_hash now otps = if (verify config now code_hash otps).0 then 1 else 0

-- Guesses with their times, one after the other: how many of them have a chance.
abbrev pub chances : OtpConfig → String → List (ℕ × String) → List Otp → ℕ
chances config code_hash [] otps = 0
chances config code_hash (g ∷ more) otps =
    chance config code_hash g.0 otps + chances config code_hash more (verify config g.0 g.1 otps).1

abbrev pub AreWrong : String → List (ℕ × String) → Type 0
AreWrong code_hash [] = Unit
AreWrong code_hash (g ∷ more) = (text_eq g.1 code_hash ≡ false) × AreWrong code_hash more

module _ (config : OtpConfig) (o : Otp) (older : List Otp)
    (current : is_some o.consumed_at ≡ false) where
  abbrev after_wrong : ℕ → ℕ → Otp
  after_wrong now attempts =
      let x = record o { attempts = attempts } in
      if is_spent config now x then x else record o { attempts = attempts + 1 }

  verify-wrong :
      (now attempts : ℕ) (given : String)
      → text_eq given o.code_hash ≡ false
      → (verify config now given (record o { attempts = attempts } ∷ older)).1
        ≡ after_wrong now attempts ∷ older
  unfolding verify check_otp
  verify-wrong now attempts given wrong =
      elim (Bool-cases (is_spent config now (record o { attempts = attempts }))) [
        | inl spent ↦ rw (current, wrong, spent) refl
        | inr open_ ↦ rw (current, wrong, open_) refl
      ]

  verify-right :
      (now attempts : ℕ)
      → (verify config now o.code_hash (record o { attempts = attempts } ∷ older)).0
        ≡ not (is_spent config now (record o { attempts = attempts }))
  unfolding verify check_otp
  verify-right now attempts =
      elim (Bool-cases (is_spent config now (record o { attempts = attempts }))) [
        | inl spent ↦ rw (current, spent) refl
        | inr open_ ↦ rw (current, open_, text_eq_refl o.code_hash) refl
      ]

  room :
      (now attempts : ℕ)
      → is_spent config now (record o { attempts = attempts }) ≡ false
      → attempts + 1 ≤ config.max_attempts
  room now attempts open_ = ground arith

  chances-le :
      (guesses : List (ℕ × String)) (attempts : ℕ)
      → AreWrong o.code_hash guesses
      → attempts ≤ config.max_attempts
      → chances config o.code_hash guesses (record o { attempts = attempts } ∷ older) + attempts
        ≤ config.max_attempts
  chances-le [] attempts wrong few = omega arith
  chances-le (g ∷ more) attempts wrong few =
      let right = verify-right g.0 attempts in
      let next = verify-wrong g.0 attempts g.1 wrong.0 in
      elim (Bool-cases (is_spent config g.0 (record o { attempts = attempts }))) [
        | inl spent ↦ rw (right, next, spent) (omega (arith, chances-le more attempts wrong.1 few))
        | inr open_ ↦
            rw (right, next, open_)
              (omega (arith, chances-le more (attempts + 1) wrong.1 (room g.0 attempts open_)))
      ]

  -- Of wrong guesses made one after the other at any times, no more than the configuration's limit
  -- have a chance, where a guess has one if the newest code itself would be accepted in its place.
  pub verify-bound :
      (guesses : List (ℕ × String))
      → AreWrong o.code_hash guesses
      → o.attempts ≤ config.max_attempts
      → chances config o.code_hash guesses (o ∷ older) + o.attempts ≤ config.max_attempts
  verify-bound guesses wrong few = chances-le guesses o.attempts wrong few
