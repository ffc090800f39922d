-- ===== src/Admin/Console/Enrolment.antt =====
-- Setting two-factor authentication up and turning it off, in
-- apps/admin/src/auth/auth.service.ts. The encrypted secret and the recovery codes that are drawn
-- are parameters.
use fiam_retail_apis.Admin.Console.{
  mfa_disabled, mfa_enrolled, recovery_codes_regenerated, invalid_code, incorrect, not_on,
  setup_first, already_on, required_for_all, enroll, ConsoleConfig, StaffUser, update_staff,
}
use fiam_retail_apis.Common.{
  true, false, none, Bool, List, some, String, ℕ, Option, if◌then◌else◌, not, is_some,
}
use fiam_retail_apis.Admin.Console.Factors.{
  Method, reserve_staff_attempt, reset_attempts, check_second_factor, clear_two_factor, totp,
  recovery,
}
use fiam_retail_apis.Admin.Console.Act.{
  Act, pure, modify, gets, raise_if, or_raise, ◌>>=◌, ◌>>◌, get_staff, audit_own,
}
use fiam_retail_apis.Admin.Console.Totp.{verify_totp, new_recovery_codes}
use fiam_retail_apis.Admin.Console.SignIn.{
  Answer, complete_login, read_mfa_token, enabled_secret, pending_secret,
}

abbrev pub pending_totp : String → StaffUser → StaffUser
pending_totp encrypted u = record u { totp_secret_enc = some encrypted; totp_last_step = none }

unfoldable pub start_enrolment : ℕ → String → Act (Unit {0})
unfolding ◌>>=◌ get_staff
start_enrolment id encrypted = do
  u ← get_staff id
  raise_if (is_some u.totp_enabled_at) already_on
  modify (update_staff u.id (pending_totp encrypted))

abbrev pub enabled_totp : ℕ → ℕ → List String → StaffUser → StaffUser
enabled_totp now step hashes u = record u {
  totp_enabled_at = some now;
  totp_last_step = some step;
  recovery_code_hashes = hashes;
}

-- The recovery codes that are shown.
unfoldable pub confirm_enrolment :
    ConsoleConfig → ℕ → String → Option String → List String → Act (List String)
unfolding ◌>>=◌ get_staff reserve_staff_attempt reset_attempts
confirm_enrolment c id given ip drawn = do
  u ← get_staff id
  secret ← or_raise (pending_secret u) setup_first
  reserve_staff_attempt u.id
  now ← gets (λ s. s.now)
  step ← or_raise (verify_totp c secret given now) invalid_code
  reset_attempts u.id
  modify (update_staff u.id (enabled_totp now step (new_recovery_codes c drawn).1))
  audit_own u mfa_enrolled ip
  pure (new_recovery_codes c drawn).0

unfoldable pub start_enrolment_with_token : ConsoleConfig → String → String → Act (Unit {0})
unfolding ◌>>=◌ read_mfa_token start_enrolment
start_enrolment_with_token c token encrypted = do
  u ← read_mfa_token c token enroll
  start_enrolment u.id encrypted

unfoldable pub confirm_enrolment_with_token :
    ConsoleConfig
    → String
    → String
    → Option String
    → List String
    → String
    → Act (Answer × List String)
unfolding ◌>>=◌ read_mfa_token confirm_enrolment complete_login
confirm_enrolment_with_token c token given ip drawn fresh = do
  u ← read_mfa_token c token enroll
  shown ← confirm_enrolment c u.id given ip drawn
  now_on ← get_staff u.id
  answer ← complete_login c now_on ip fresh
  pure (answer, shown)

-- The password is checked first, and the code only where it is right.
abbrev pub check_both : ConsoleConfig → StaffUser → String → String → String → Act (Option Method)
check_both c u secret password given =
    if c.argon2_verify u.password_hash password
    then check_second_factor c u.id secret given
    else pure none

unfoldable pub disable_two_factor :
    ConsoleConfig → ℕ → String → String → Option String → Act (Unit {0})
unfolding ◌>>=◌ get_staff reserve_staff_attempt reset_attempts check_second_factor clear_two_factor
disable_two_factor c id password given ip = do
  raise_if c.totp_required required_for_all
  u ← get_staff id
  secret ← or_raise (enabled_secret u) not_on
  reserve_staff_attempt u.id
  accepted ← check_both c u secret password given
  or_raise accepted incorrect
  reset_attempts u.id
  clear_two_factor u.id
  audit_own u mfa_disabled ip

abbrev pub is_totp : Option Method → Bool
is_totp m = elim m [ none ↦ false | some totp ↦ true | some recovery ↦ false ]

unfoldable pub regenerate_recovery_codes :
    ConsoleConfig → ℕ → String → Option String → List String → Act (List String)
unfolding ◌>>=◌ get_staff reserve_staff_attempt reset_attempts check_second_factor
regenerate_recovery_codes c id given ip drawn = do
  u ← get_staff id
  secret ← or_raise (enabled_secret u) not_on
  reserve_staff_attempt u.id
  accepted ← check_second_factor c u.id secret given
  raise_if (not (is_totp accepted)) invalid_code
  reset_attempts u.id
  modify
      (update_staff u.id (λ r. record r { recovery_code_hashes = (new_recovery_codes c drawn).1 }))
  audit_own u recovery_codes_regenerated ip
  pure (new_recovery_codes c drawn).0
