-- ===== src/Admin/Console.antt =====
-- apps/admin/src/staff/entities/staff-user.entity.ts and apps/admin/src/auth/entities: the tables
-- behind the sign-in to the console, the services that the source only calls (JWT, argon2,
-- otpauth, WebAuthn, sha256) as the fields of a configuration, and the answers. Times are in
-- milliseconds.
pub mod Act
pub mod Totp
pub mod Factors
pub mod Sessions
pub mod Devices
pub mod SignIn
pub mod Enrolment
pub mod Guesses
pub mod Guards
pub mod Holding
use fiam_retail_apis.Common.{List, String, Option, Bool, ℕ, true, false, some, none, [], ◌∷◌, ◌++◌}
use fiam_retail_apis.Common.Table.{find, update}
use fiam_retail_apis.Auth.Lockout.{Lock}

pub data StaffRole : Type 0 where
  super_admin compliance support finance : StaffRole

pub data StaffStatus : Type 0 where
  active disabled : StaffStatus

pub data DeviceStatus : Type 0 where
  pending active revoked : DeviceStatus

-- `lock` is the pair of `failed_login_attempts` and `locked_until`.
pub record StaffUser : Type 0 where
  pub id : ℕ
  pub full_name : String
  pub email : String
  pub password_hash : String
  pub role : StaffRole
  pub status : StaffStatus
  pub must_change_password : Bool
  pub lock : Lock
  pub totp_secret_enc : Option String
  pub totp_enabled_at : Option ℕ
  pub totp_last_step : Option ℕ
  pub recovery_code_hashes : List String
  pub last_login_at : Option ℕ

-- The transports of a passkey are not modelled.
pub record StaffDevice : Type 0 where
  pub id : ℕ
  pub staff_id : ℕ
  pub label : String
  pub credential_id : String
  pub public_key : String
  pub counter : ℕ
  pub status : DeviceStatus
  pub approved_by : Option ℕ
  pub approved_at : Option ℕ
  pub last_used_at : Option ℕ

pub record StaffRefreshToken : Type 0 where
  pub id : ℕ
  pub staff_id : ℕ
  pub token_hash : String
  pub family_id : ℕ
  pub device_id : Option ℕ
  pub expires_at : ℕ
  pub revoked_at : Option ℕ

pub data ConsoleAction : Type 0 where
  login_failed account_locked mfa_failed login mfa_enrolled mfa_disabled : ConsoleAction
  recovery_codes_regenerated password_changed : ConsoleAction
  device_added device_requested device_approved device_revoked : ConsoleAction
  staff_created staff_updated staff_mfa_reset staff_password_reset : ConsoleAction
  staff_unlocked staff_deleted : ConsoleAction

-- The metadata of an entry is not modelled.
pub record ConsoleEntry : Type 0 where
  pub staff_id : Option ℕ
  pub staff_email : String
  pub action : ConsoleAction
  pub resource_id : Option ℕ
  pub ip : Option String

pub record Console : Type 0 where
  pub staff : List StaffUser
  pub devices : List StaffDevice
  pub refresh_tokens : List StaffRefreshToken
  pub audit : List ConsoleEntry
  -- the next generated identifier
  pub next_id : ℕ
  pub now : ℕ

pub data MfaStep : Type 0 where
  verify enroll device : MfaStep

-- The drift of the clock that otpauth's `validate` reports within a window of one step.
pub data Drift : Type 0 where
  behind exact ahead : Drift

pub data ChallengeKind : Type 0 where
  registering authenticating : ChallengeKind

-- What a verified registration of a passkey holds.
pub record Credential : Type 0 where
  pub id : String
  pub public_key : String
  pub counter : ℕ

-- The settings, and what the services answer. A token that was not signed with the secret of its
-- kind, or whose five minutes are over, is read as none; so is a passkey that is not verified.
pub record ConsoleConfig : Type 0 where
  pub totp_required : Bool
  pub device_required : Bool
  pub refresh_ttl_days : ℕ
  pub sha256 : String → String
  pub argon2_verify : String → String → Bool
  pub argon2_hash : String → String
  -- otpauth, for the secret that is stored encrypted, at a time
  pub validate_totp : String → String → ℕ → Option Drift
  pub sign_access : ℕ → Option ℕ → String
  pub verify_access : String → ℕ → Option (ℕ × Option ℕ)
  pub sign_mfa : ℕ → MfaStep → ℕ → String
  pub verify_mfa_token : String → ℕ → Option (ℕ × MfaStep)
  pub verify_challenge_token : String → ℕ → Option (ℕ × (ChallengeKind × String))
  -- a response and the challenge that is expected
  pub verify_registration : String → String → Option Credential
  pub verify_authentication : StaffDevice → String → String → Option ℕ

pub data ConsoleError : Type 0 where
  invalid_login locked sign_in_expired invalid_code : ConsoleError
  already_on setup_first not_on required_for_all incorrect : ConsoleError
  unauthorized current_incorrect must_differ not_found : ConsoleError
  check_expired not_verified device_limit device_exists not_approved no_approved_device :
      ConsoleError
  email_exists own_account last_super_admin disable_first : ConsoleError
  insufficient_role password_change_required : ConsoleError

abbrev pub staff_key : StaffUser → ℕ
staff_key u = u.id

abbrev pub device_key : StaffDevice → ℕ
device_key d = d.id

abbrev pub staff_token_key : StaffRefreshToken → ℕ
staff_token_key t = t.id

abbrev pub is_active_status : StaffStatus → Bool
is_active_status st = elim st [ StaffStatus.active ↦ true | StaffStatus.disabled ↦ false ]

abbrev pub is_active_staff : StaffUser → Bool
is_active_staff u = is_active_status u.status

abbrev pub find_staff : ℕ → Console → Option StaffUser
find_staff id s = find staff_key id s.staff

abbrev pub update_staff : ℕ → (StaffUser → StaffUser) → Console → Console
update_staff id f s = record s { staff = update staff_key id f s.staff }

abbrev pub row_passes : (StaffUser → Bool) → Option StaffUser → Bool
row_passes p none = false
row_passes p (some u) = p u

abbrev pub record_entry : ConsoleEntry → Console → Console
record_entry e s = record s { audit = s.audit ++ (e ∷ []) }

-- `recordSafe` about the member of staff who acts.
abbrev pub record_own : StaffUser → ConsoleAction → Option String → Console → Console
record_own u action ip s =
    record_entry
      (record {
        staff_id = some u.id;
        staff_email = u.email;
        action = action;
        resource_id = none;
        ip = ip;
      })
      s
