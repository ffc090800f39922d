-- ===== src/Auth/Lockout.antt =====
-- `guardedVerify` and `clearLockouts` of apps/auth/src/users/users.service.ts: the limit on wrong
-- passwords and PINs. Times are in milliseconds.
pub mod Bound
use fiam_retail_apis.Common.{
  ◌||◌, not, leb, is_some, Option, ◌+◌, ℕ, Bool, none, some, true, false, ◌∷◌, if◌then◌else◌,
}

abbrev pub max_failed_attempts : ℕ
max_failed_attempts = 5

-- LOCKOUT_SECONDS, 15 minutes
abbrev pub lockout : ℕ
lockout = 900000

-- The two columns of one secret: `…_failed_attempts` and `…_locked_until`.
pub record Lock : Type 0 where
  pub failed_attempts : ℕ
  pub locked_until : Option ℕ

-- `locked_until IS NOT NULL AND locked_until <= now()`
abbrev pub is_expired : ℕ → Option ℕ → Bool
is_expired now none = false
is_expired now (some until) = leb until now

abbrev pub next_attempts : ℕ → Lock → ℕ
next_attempts now l = if is_expired now l.locked_until then 1 else l.failed_attempts + 1

-- The UPDATE that reserves an attempt: no row where the secret is locked, else the new row.
unfoldable pub reserve_attempt : ℕ → Lock → Option Lock
reserve_attempt now l =
    if not (is_some l.locked_until) || is_expired now l.locked_until
    then some (record {
      failed_attempts = next_attempts now l;
      locked_until =
          if leb max_failed_attempts (next_attempts now l) then some (now + lockout) else none;
    })
    else none

-- The answer: 429 without a check, or what the check said and whether `onLockout` ran.
pub data Verdict : Type 0 where
  too_many_requests : Verdict
  checked : Bool → Bool → Verdict

abbrev pub cleared : Lock
cleared = record { failed_attempts = 0; locked_until = none }

unfoldable pub verify_reserved : Bool → Lock → Option Lock → Lock × Verdict
verify_reserved correct l none = (l, too_many_requests)
verify_reserved true l (some reserved) = (cleared, checked true false)
verify_reserved false l (some reserved) = (reserved, checked false (is_some reserved.locked_until))

-- `correct` is what `check` answers, were it run.
unfoldable pub guarded_verify : ℕ → Bool → Lock → Lock × Verdict
unfolding reserve_attempt verify_reserved
guarded_verify now correct l = verify_reserved correct l (reserve_attempt now l)

-- The two secrets of a user.
pub record Locks : Type 0 where
  pub password : Lock
  pub pin : Lock

unfoldable pub clear_lockouts : Locks → Locks
clear_lockouts l = record { password = cleared; pin = cleared }
