-- ===== src/Admin/Requests/Tests.antt =====
-- The console's theorems and operations at two members of staff, each with a device.
use fiam_retail_apis.Admin.Requests.{
  post_login, post_device_register, post_refresh, post_mfa_verify, patch_staff, Request, run,
}
use fiam_retail_apis.Common.{
  to_lower, trim, ◌∷◌, true, false, none, some, ◌≤◌, ℕ, ◌≡◌, refl, arith, List, String, text_eq,
  if◌then◌else◌, [], inl, inr,
}
use fiam_retail_apis.Admin.Console.Totp.{hash_recovery, verify_totp}
use fiam_retail_apis.Admin.Console.Act.{update_staff_where, ◌>>=◌}
use fiam_retail_apis.Admin.Console.{
  unauthorized, registering, Console, ConsoleConfig, StaffRefreshToken, StaffUser, StaffDevice,
  StaffRole, StaffStatus, DeviceStatus, Drift, MfaStep,
}
use fiam_retail_apis.Admin.Console.Sessions.{
  StaffSession, issue_tokens, refresh_staff, session_of, is_active,
}
use fiam_retail_apis.Admin.Console.Factors.{check_second_factor}
use fiam_retail_apis.Auth.Lockout.{cleared}
use fiam_retail_apis.Admin.Console.Guesses.{Guess, accepted, AreDistinct, by_step, by_code}
use fiam_retail_apis.Admin.Console.Guesses.Once.{accepted-AreDistinct}
use fiam_retail_apis.Admin.Requests.Reused.{refresh_twice}
use fiam_retail_apis.Admin.Console.Sessions.Reuse.{live_in_family}
use fiam_retail_apis.Admin.Console.Devices.{Actor, revoke_device}
use fiam_retail_apis.Admin.Requests.Devices.{IsWithinLimit, run-IsWithinLimit}
use fiam_retail_apis.Admin.Requests.Revoked.{revoke_device-final, open_from}
use fiam_retail_apis.Admin.Requests.Supers.{HasSuper}
use fiam_retail_apis.Admin.Requests.Supers.Kept.{run-HasSuper}
use fiam_retail_apis.Admin.Requests.Locked.{open_sessions, run-open_sessions}

-- Access tokens that name the member of staff and the device; a code that is right at any time.
abbrev config : ConsoleConfig
config = record {
  totp_required = true;
  device_required = true;
  refresh_ttl_days = 7;
  sha256 = λ s. s;
  argon2_verify = λ h p. text_eq h p;
  argon2_hash = λ p. p;
  validate_totp = λ secret code now. if text_eq code "123456" then some Drift.exact else none;
  sign_access = λ id from. "access";
  verify_access = λ bearer now. if text_eq bearer "ada" then some (1, some 6) else none;
  sign_mfa = λ id step now. "mfa";
  verify_mfa_token = λ token now. if text_eq token "mfa" then some (2, MfaStep.verify) else none;
  verify_challenge_token = λ token now. some (2, (registering, "challenge"));
  verify_registration =
      λ response challenge. some (record { id = response; public_key = "key"; counter = 0 });
  verify_authentication = λ d response challenge. some 1;
}

abbrev person : ℕ → String → StaffRole → StaffUser
person id email role = record {
  id = id;
  full_name = email;
  email = email;
  password_hash = "secret";
  role = role;
  status = StaffStatus.active;
  must_change_password = false;
  lock = cleared;
  totp_secret_enc = some "enc";
  totp_enabled_at = some 5;
  totp_last_step = none;
  recovery_code_hashes = "abcdefghij" ∷ "klmnopqrst" ∷ [];
  last_login_at = none;
}

abbrev passkey : ℕ → ℕ → String → StaffDevice
passkey id owner credential = record {
  id = id;
  staff_id = owner;
  label = "laptop";
  credential_id = credential;
  public_key = "key";
  counter = 0;
  status = DeviceStatus.active;
  approved_by = some 1;
  approved_at = some 4;
  last_used_at = none;
}

abbrev grace_token : StaffRefreshToken
grace_token = record {
  id = 8;
  staff_id = 2;
  token_hash = "first";
  family_id = 9;
  device_id = some 7;
  expires_at = 900000;
  revoked_at = none;
}

abbrev console : Console
console = record {
  staff =
      person 1 "ada@fiam.ng" StaffRole.super_admin
      ∷ person 2 "grace@fiam.ng" StaffRole.finance
      ∷ [];
  devices = passkey 6 1 "a" ∷ passkey 7 2 "g" ∷ [];
  refresh_tokens = grace_token ∷ [];
  audit = [];
  next_id = 10;
  now = 600000;
}

abbrev ada : Actor
ada = record { staff_id = 1; email = "ada@fiam.ng" }

-- Ada tries to disable herself; Grace refreshes, brings a code and asks for another device.
abbrev requests : List (ℕ × Request)
requests =
    (601000, patch_staff "ada" 1 (record { role = none; status = some StaffStatus.disabled }) none)
    ∷ (602000, post_refresh "first" "second")
    ∷ (603000, post_mfa_verify "mfa" "123456" none "third")
    ∷ (604000, post_device_register "mfa" "ch" "new" "phone" none)
    ∷ []

abbrev guesses : List Guess
guesses =
    record { secret = "enc"; given = "123456"; now = 600000 }
    ∷ record { secret = "enc"; given = "123456"; now = 610000 }
    ∷ record { secret = "enc"; given = " ABCDE-fghij"; now = 611000 }
    ∷ record { secret = "enc"; given = "abcdefghij"; now = 612000 }
    ∷ record { secret = "enc"; given = "123456"; now = 630000 }
    ∷ []

guesses-accepted :
    accepted config 2 guesses console ≡ by_step 20 ∷ by_code "abcdefghij" ∷ by_step 21 ∷ []
unfolding check_second_factor ◌>>=◌ update_staff_where verify_totp hash_recovery trim to_lower
guesses-accepted = refl

accepted-AreDistinct_example : AreDistinct (accepted config 2 guesses console)
accepted-AreDistinct_example = accepted-AreDistinct config 2 guesses console

console-IsWithinLimit : IsWithinLimit console
console-IsWithinLimit owner = ground arith

run-IsWithinLimit_example : IsWithinLimit (run config requests console)
run-IsWithinLimit_example = run-IsWithinLimit config requests console console-IsWithinLimit

run-HasSuper_example : HasSuper (run config requests console)
run-HasSuper_example = run-HasSuper config requests console (omega arith)

revoke_device-final_example :
    let later = run config requests (revoke_device 2 7 ada none console).1 in
    (is_active 7 2 later ≡ false) × (open_from 2 7 later ≡ 0)
revoke_device-final_example =
    revoke_device-final config 2 7 ada none console requests refl (omega arith) refl

-- A password, then a second factor.
abbrev without_device : List (ℕ × Request)
without_device =
    (2000, post_login "grace@fiam.ng" "secret" none "second")
    ∷ (3000, post_mfa_verify "mfa" "123456" none "third")
    ∷ []

run-open_sessions_example :
    open_sessions (run config without_device console) ≤ open_sessions console
run-open_sessions_example = run-open_sessions config without_device console refl (tt, (tt, tt))

abbrev after_first : Console
after_first = (refresh_staff config "first" "second" none console).1

abbrev first_session : StaffSession
first_session = session_of config (person 2 "grace@fiam.ng" StaffRole.finance) (some 7) "second"

first_refresh :
    refresh_staff config "first" "second" none console ≡ (inr first_session, after_first)
unfolding refresh_staff ◌>>=◌ issue_tokens is_active
first_refresh = refl

-- What is served before the first token comes back: the new one is used, and somebody signs in.
abbrev served_between : List (ℕ × Request)
served_between =
    (2000, post_refresh "second" "fourth")
    ∷ (3000, post_login "grace@fiam.ng" "secret" none "fifth")
    ∷ []

refresh_twice_example :
    let later = record (run config served_between after_first) { now = 4000 } in
    let again = refresh_staff config "first" "third" none later in
    (again.0 ≡ inl unauthorized) × (live_in_family 9 again.1 ≡ 0)
refresh_twice_example =
    refresh_twice config "first" "second" "third" console grace_token first_session after_first
      served_between 4000 none refl refl first_refresh (tt, (tt, tt))

-- Two requests that both read the token before either has written: both are answered with a new
-- token, and the family then has two that are live.
two_refreshes :
    let second = refresh_staff config "first" "third" (some after_first) console in
    (second.0
      ≡ inr (session_of config (person 2 "grace@fiam.ng" StaffRole.finance) (some 7) "third"))
    × (live_in_family 9 second.1 ≡ 2)
unfolding refresh_staff ◌>>=◌ issue_tokens is_active
two_refreshes = (refl, refl)
