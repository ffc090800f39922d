-- ===== src/Admin/Console/SignIn.antt =====
-- The sign-in of apps/admin/src/auth/auth.service.ts: password, second factor, device, and
-- enrolment. An MFA token is what the signature of one step vouches for.
use fiam_retail_apis.Admin.Console.{
  invalid_code, account_locked, invalid_login, login_failed, ConsoleError, enroll, mfa_failed,
  device, sign_in_expired, ConsoleAction, record_entry, verify, DeviceStatus, ConsoleEntry, login,
  MfaStep, Console, ConsoleConfig, StaffUser, find_staff, update_staff, StaffDevice,
}
use fiam_retail_apis.Common.{
  false, true, truthy, none, some, String, Bool, ℕ, Option, inr, if◌then◌else◌, is_some, text_eq,
  find?, trim, to_lower,
}
use fiam_retail_apis.Admin.Console.Factors.{Method, reserve_staff_attempt, check_second_factor}
use fiam_retail_apis.Auth.Lockout.{cleared}
use fiam_retail_apis.Admin.Console.Act.{
  Act, pure, modify, gets, raise, or_raise, ◌>>=◌, ◌>>◌, get_staff, audit_own,
}
use fiam_retail_apis.Admin.Console.Sessions.{StaffSession, issue_tokens, fresh_id, active_staff}
use fiam_retail_apis.Admin.Console.Devices.{
  DeviceState, device_state, authenticate, register_device,
}

-- What a step answers: a token for the next one, or a session.
pub data Answer : Type 0 where
  mfa : MfaStep → String → Answer
  mfa_device : String → DeviceState → Answer
  signed_in : StaffSession → Answer

abbrev pub step_eq : MfaStep → MfaStep → Bool
step_eq verify verify = true
step_eq enroll enroll = true
step_eq device device = true
step_eq _ _ = false

abbrev pub staff_of : MfaStep → Option (ℕ × MfaStep) → Console → Option StaffUser
staff_of expected none s = none
staff_of expected (some (sub, step)) s =
    if step_eq step expected then active_staff (find_staff sub s) else none

unfoldable pub read_mfa_token : ConsoleConfig → String → MfaStep → Act StaffUser
unfolding or_raise
read_mfa_token c token expected s =
    or_raise (staff_of expected (c.verify_mfa_token token s.now) s) sign_in_expired s

abbrev pub required_mfa_step : ConsoleConfig → StaffUser → Option MfaStep
required_mfa_step c u =
    if is_some u.totp_enabled_at then some verify else if c.totp_required then some enroll else none

abbrev pub has_logged_in : ℕ → StaffUser → StaffUser
has_logged_in now u = record u { lock = cleared; last_login_at = some now }

-- `fresh` is the refresh token that is drawn.
unfoldable pub finish_login :
    ConsoleConfig → StaffUser → Option String → Option ℕ → String → Act StaffSession
unfolding ◌>>=◌ issue_tokens fresh_id
finish_login c u ip from fresh = do
  now ← gets (λ s. s.now)
  modify (update_staff u.id (has_logged_in now))
  audit_own u login ip
  family ← fresh_id
  issue_tokens c u family from fresh

abbrev pub ask_device : ConsoleConfig → StaffUser → Act Answer
ask_device c u s = (inr (mfa_device (c.sign_mfa u.id device s.now) (device_state u.id s)), s)

abbrev pub open_session : ConsoleConfig → StaffUser → Option String → String → Act Answer
open_session c u ip fresh = do session ← finish_login c u ip none fresh; pure (signed_in session)

unfoldable pub complete_login : ConsoleConfig → StaffUser → Option String → String → Act Answer
unfolding ◌>>=◌ finish_login
complete_login c u ip fresh s =
    if c.device_required then ask_device c u s else open_session c u ip fresh s

abbrev pub ask_factor : ConsoleConfig → StaffUser → MfaStep → Act Answer
ask_factor c u step s = (inr (mfa step (c.sign_mfa u.id step s.now)), s)

abbrev pub next_step :
    ConsoleConfig → StaffUser → Option String → String → Option MfaStep → Act Answer
next_step c u ip fresh none = complete_login c u ip fresh
next_step c u ip fresh (some step) = ask_factor c u step

-- A wrong secret: the entry says whether this attempt locked the account.
abbrev pub refuse_attempt :
    {A : Type 0} → StaffUser → Bool → ConsoleAction → ConsoleError → Option String → Act A
refuse_attempt u just_locked action e ip = do
  audit_own u (if just_locked then account_locked else action) ip
  raise e

abbrev pub after_password :
    ConsoleConfig → StaffUser → Bool → Option String → String → Bool → Act Answer
after_password c u just_locked ip fresh true = next_step c u ip fresh (required_mfa_step c u)
after_password c u just_locked ip fresh false =
    refuse_attempt u just_locked login_failed invalid_login ip

abbrev pub check_password : ConsoleConfig → StaffUser → String → Option String → String → Act Answer
check_password c u password ip fresh = do
  just_locked ← reserve_staff_attempt u.id
  after_password c u just_locked ip fresh (c.argon2_verify u.password_hash password)

abbrev pub unknown_entry : String → Option String → ConsoleEntry
unknown_entry email ip = record {
  staff_id = none;
  staff_email = email;
  action = login_failed;
  resource_id = none;
  ip = ip;
}

abbrev pub log_in_as :
    ConsoleConfig → String → String → Option String → String → Option StaffUser → Act Answer
log_in_as c email password ip fresh none = do
  modify (record_entry (unknown_entry email ip))
  raise invalid_login
log_in_as c email password ip fresh (some u) = check_password c u password ip fresh

unfoldable pub log_in : ConsoleConfig → String → String → Option String → String → Act Answer
unfolding ◌>>=◌ reserve_staff_attempt complete_login
log_in c email password ip fresh = do
  found ← gets (λ s. find? (λ (u : StaffUser). text_eq u.email (to_lower (trim email))) s.staff)
  log_in_as c email password ip fresh (active_staff found)

-- `totpEnabledAt && totpSecretEnc`
abbrev pub enabled_secret : StaffUser → Option String
enabled_secret u = if is_some u.totp_enabled_at then truthy u.totp_secret_enc else none

-- `!totpEnabledAt && totpSecretEnc`
abbrev pub pending_secret : StaffUser → Option String
pending_secret u = if is_some u.totp_enabled_at then none else truthy u.totp_secret_enc

abbrev pub settle_factor :
    ConsoleConfig → StaffUser → Bool → Option String → String → Option Method → Act Answer
settle_factor c u just_locked ip fresh none =
    refuse_attempt u just_locked mfa_failed invalid_code ip
settle_factor c u just_locked ip fresh (some m) = complete_login c u ip fresh

unfoldable pub verify_mfa : ConsoleConfig → String → String → Option String → String → Act Answer
unfolding ◌>>=◌ read_mfa_token reserve_staff_attempt check_second_factor complete_login
verify_mfa c token given ip fresh = do
  u ← read_mfa_token c token verify
  secret ← or_raise (enabled_secret u) sign_in_expired
  just_locked ← reserve_staff_attempt u.id
  accepted ← check_second_factor c u.id secret given
  settle_factor c u just_locked ip fresh accepted

unfoldable pub device_assert :
    ConsoleConfig → String → String → String → String → Option String → String → Act StaffSession
unfolding ◌>>=◌ read_mfa_token authenticate finish_login
device_assert c token challenge credential response ip fresh = do
  u ← read_mfa_token c token device
  d ← authenticate c u.id challenge credential response
  finish_login c u ip (some d.id) fresh

unfoldable pub device_register :
    ConsoleConfig → String → String → String → String → Option String → Act StaffDevice
unfolding ◌>>=◌ read_mfa_token register_device
device_register c token challenge response label ip = do
  u ← read_mfa_token c token device
  register_device c u challenge response label DeviceStatus.pending ip

unfoldable pub add_device :
    ConsoleConfig → ℕ → String → String → String → Option String → Act StaffDevice
unfolding ◌>>=◌ get_staff register_device
add_device c id challenge response label ip = do
  u ← get_staff id
  register_device c u challenge response label DeviceStatus.active ip
