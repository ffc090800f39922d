-- ===== src/Admin/Console/Factors.antt =====
-- `reserveAttempt`, `resetAttempts`, `checkSecondFactor` and `clearTwoFactor` of
-- apps/admin/src/auth/auth.service.ts. Each UPDATE is one step on the rows as they are then, while
-- the secret is the one that was read before.
use fiam_retail_apis.Common.{
  ◌∷◌, inr, inl, Option, List, some, true, [], String, none, Bool, ℕ, if◌then◌else◌, is_some, ltb,
  any, text_eq, trim,
}
use fiam_retail_apis.Admin.Console.{locked, ConsoleConfig, StaffUser, find_staff, update_staff}
use fiam_retail_apis.Auth.Lockout.{Lock, reserve_attempt, cleared}
use fiam_retail_apis.Admin.Console.Act.{Act, update_staff_where, pure, modify, ◌>>=◌}
use fiam_retail_apis.Admin.Console.Totp.{verify_totp, hash_recovery, is_six_digits}

abbrev pub set_lock : Lock → StaffUser → StaffUser
set_lock l u = record u { lock = l }

-- The lock after the attempt, where the UPDATE finds the row.
abbrev pub lock_after : ℕ → Option StaffUser → Option Lock
lock_after now none = none
lock_after now (some u) = reserve_attempt now u.lock

abbrev pub reserve_as : ℕ → Option Lock → Act Bool
reserve_as id none s = (inl locked, s)
reserve_as id (some l) s = (inr (is_some l.locked_until), update_staff id (set_lock l) s)

-- The same UPDATE as the auth service's, with the same five attempts and fifteen minutes; a 429
-- where it changes no row, else whether this attempt locked the account.
unfoldable pub reserve_staff_attempt : ℕ → Act Bool
reserve_staff_attempt id s = reserve_as id (lock_after s.now (find_staff id s)) s

unfoldable pub reset_attempts : ℕ → Act (Unit {0})
unfolding modify
reset_attempts id = modify (update_staff id (set_lock cleared))

pub data Method : Type 0 where
  totp recovery : Method

-- `totp_last_step IS NULL OR totp_last_step < $2`
abbrev pub is_later : ℕ → StaffUser → Bool
is_later step u = elim u.totp_last_step [ none ↦ true | some last ↦ ltb last step ]

abbrev pub set_last_step : ℕ → StaffUser → StaffUser
set_last_step step u = record u { totp_last_step = some step }

-- `recovery_code_hashes ? $2`
abbrev pub has_recovery : String → StaffUser → Bool
has_recovery h u = any (text_eq h) u.recovery_code_hashes

abbrev pub without : String → List String → List String
without h [] = []
without h (x ∷ xs) = if text_eq h x then without h xs else x ∷ without h xs

-- `recovery_code_hashes - $2`
abbrev pub spend_recovery : String → StaffUser → StaffUser
spend_recovery h u = record u { recovery_code_hashes = without h u.recovery_code_hashes }

abbrev pub accepted_if : Method → Bool → Act (Option Method)
accepted_if m b = pure (if b then some m else none)

abbrev pub claim_step : ℕ → Option ℕ → Act (Option Method)
claim_step id none = pure none
claim_step id (some step) = do
  claimed ← update_staff_where id (is_later step) (set_last_step step)
  accepted_if totp claimed

abbrev pub claim_recovery : ℕ → String → Act (Option Method)
claim_recovery id h = do
  spent ← update_staff_where id (has_recovery h) (spend_recovery h)
  accepted_if recovery spent

-- How the code was accepted, or none.
unfoldable pub check_second_factor : ConsoleConfig → ℕ → String → String → Act (Option Method)
unfolding ◌>>=◌
check_second_factor c id secret given s =
    if is_six_digits (trim given)
    then claim_step id (verify_totp c secret (trim given) s.now) s
    else claim_recovery id (hash_recovery c (trim given)) s

abbrev pub without_totp : StaffUser → StaffUser
without_totp u = record u {
  totp_secret_enc = none;
  totp_enabled_at = none;
  totp_last_step = none;
  recovery_code_hashes = [];
}

unfoldable pub clear_two_factor : ℕ → Act (Unit {0})
unfolding modify
clear_two_factor id = modify (update_staff id without_totp)
