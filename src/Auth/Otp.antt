-- ===== src/Auth/Otp.antt =====
-- apps/auth/src/otp/otp.service.ts: the one-time codes of one user and purpose, newest first, one
-- call at a time. The hash of a code is a parameter; times are in milliseconds.
pub mod Guesses
use fiam_retail_apis.Common.{
  leb, ◌||◌, is_some, any, text_eq, ltb, List, Bool, Option, ◌+◌, ℕ, String, none, some, true,
  false, [], ◌∷◌, if◌then◌else◌,
}

pub record Otp : Type 0 where
  pub code_hash : String
  pub expires_at : ℕ
  pub created_at : ℕ
  pub attempts : ℕ
  pub consumed_at : Option ℕ

-- The configuration: `otp.ttlSeconds`, `otp.resendCooldownSeconds` and `otp.maxAttempts`.
pub record OtpConfig : Type 0 where
  pub ttl : ℕ
  pub resend_cooldown : ℕ
  pub max_attempts : ℕ

abbrev pub new_otp : OtpConfig → ℕ → String → Otp
new_otp config now code_hash = record {
  code_hash = code_hash;
  expires_at = now + config.ttl;
  created_at = now;
  attempts = 0;
  consumed_at = none;
}

-- The codes after the call, or none for a 429. `createdAt > now - cooldown`, without subtraction.
unfoldable pub generate : OtpConfig → ℕ → String → List Otp → Option (List Otp)
generate config now code_hash otps =
    if any (λ (o : Otp). ltb now (o.created_at + config.resend_cooldown)) otps
    then none
    else some (new_otp config now code_hash ∷ otps)

-- `expiresAt < now || attempts >= maxAttempts`
abbrev pub is_spent : OtpConfig → ℕ → Otp → Bool
is_spent config now o = ltb o.expires_at now || leb config.max_attempts o.attempts

-- The newest code that is not consumed, checked against a hash.
unfoldable pub check_otp : OtpConfig → ℕ → String → Otp → Bool × Otp
check_otp config now given o =
    if is_spent config now o
    then (false, o)
    else if text_eq given o.code_hash
    then (true, record o { consumed_at = some now })
    else (false, record o { attempts = o.attempts + 1 })

unfoldable pub verify : OtpConfig → ℕ → String → List Otp → Bool × List Otp
verify config now given [] = (false, [])
verify config now given (o ∷ older) =
    let rest = verify config now given older in
    let checked = check_otp config now given o in
    if is_some o.consumed_at then (rest.0, o ∷ rest.1) else (checked.0, checked.1 ∷ older)
