-- ===== src/Auth/Tests.antt =====
-- The theorems at concrete states.
use fiam_retail_apis.Common.{
  inr, inl, trim, String, true, ◌+◌, ℕ, ◌≡◌, List, none, some, [], ◌∷◌, refl, arith, ◌≤◌,
}
use fiam_retail_apis.Auth.SignIn.Only.{sign_in-only, pass, live_of, entry}
use fiam_retail_apis.Auth.SignIn.{sign_in, Access}
use fiam_retail_apis.Auth.Tokens.Comeback.{rotate_twice, TokenCall, calls}
use fiam_retail_apis.Auth.Tokens.Rotation.{rotate-live, live}
use fiam_retail_apis.Auth.Tokens.{
  reuse_detected, TokenStore, rotate_refresh_token, duration, TokenConfig, RefreshToken,
}
use fiam_retail_apis.Auth.Sessions.Exclusive.{only, active_of}
use fiam_retail_apis.Auth.Sessions.{new_session, CreateSessionInput, SessionStore}
use fiam_retail_apis.Auth.Otp.Guesses.{verify-bound, chances, generate-verify, AreWrong}
use fiam_retail_apis.Auth.Otp.{new_otp, OtpConfig, Otp, generate, verify}
use fiam_retail_apis.Auth.Caps.Ceilings.{set_transfer_caps-AreInOrder, AreInOrder}
use fiam_retail_apis.Payment.Entities.{naira}
use fiam_retail_apis.Auth.Lockout.Bound.{guarded_verify-bound, evaluated, AreWithin}
use fiam_retail_apis.Auth.Lockout.{guarded_verify, Lock}
use fiam_retail_apis.Auth.Caps.{set_transfer_caps, User, tier_2}

abbrev fresh : Lock
fresh = record { failed_attempts = 0; locked_until = none }

abbrev guesses : List ℕ
guesses = 1000 ∷ 2000 ∷ 3000 ∷ 4000 ∷ 5000 ∷ 6000 ∷ 7000 ∷ []

guesses-AreWithin : AreWithin 1000 guesses
guesses-AreWithin = ground arith

guarded_verify-bound_example : evaluated guesses fresh ≤ 5
guarded_verify-bound_example = guarded_verify-bound 1000 guesses fresh guesses-AreWithin

-- The bound is met.
evaluated-fresh : evaluated guesses fresh ≡ 5
unfolding guarded_verify
evaluated-fresh = refl

abbrev customer : User
customer = record {
  tier = tier_2;
  transfer_limit_per_txn = none;
  transfer_limit_daily = none;
  device_limit_until = none;
}

abbrev capped : User
capped = record customer {
  transfer_limit_per_txn = some (naira 1000);
  transfer_limit_daily = some (naira 3000);
}

set_transfer_caps-AreInOrder_example : AreInOrder capped
unfolding set_transfer_caps
set_transfer_caps-AreInOrder_example =
    set_transfer_caps-AreInOrder customer capped (some (naira 1000)) (some (naira 3000)) refl

abbrev otp_config : OtpConfig
otp_config = record { ttl = 600000; resend_cooldown = 60000; max_attempts = 3 }

abbrev sent : Otp
sent = new_otp otp_config 1000 "hash-1"

generate-verify_example :
    verify otp_config 5000 "hash-1" (sent ∷ [])
    ≡ (true, record sent { consumed_at = some 5000 } ∷ [])
unfolding generate
generate-verify_example =
    generate-verify otp_config 1000 5000 "hash-1" [] (sent ∷ []) (omega arith) (omega arith)
      (omega arith) refl

abbrev wrong_codes : List (ℕ × String)
wrong_codes = (2000, "a") ∷ (3000, "b") ∷ (4000, "c") ∷ (5000, "d") ∷ []

wrong_codes-AreWrong : AreWrong "hash-1" wrong_codes
wrong_codes-AreWrong = (refl, (refl, (refl, (refl, tt))))

verify-bound_example : chances otp_config sent.code_hash wrong_codes (sent ∷ []) + 0 ≤ 3
verify-bound_example =
    verify-bound otp_config sent [] refl wrong_codes wrong_codes-AreWrong (omega arith)

abbrev keys : TokenConfig
keys = record { hash = λ raw. raw; sign = λ user session. "jwt"; refresh_ttl = "30d" }

abbrev current : RefreshToken
current = record {
  id = 1;
  user_id = 7;
  session_id = 3;
  token_hash = "t1";
  revoked_at = none;
  replaced_by_token_id = none;
  expires_at = 2000;
}

abbrev signed_in : TokenStore
signed_in = record { refresh_tokens = current ∷ []; reset_tokens = []; next_id = 2; now = 1000 }

rotate-live_example :
    live 3 (rotate_refresh_token keys "t1" "t2" none signed_in).1 ≤ live 3 signed_in
rotate-live_example = rotate-live keys "t1" "t2" none signed_in 3

-- The token that was rotated is presented again.
-- What the thief and the customer do meanwhile.
abbrev meanwhile : List (ℕ × TokenCall)
meanwhile = (2000, TokenCall.rotate "t2" "t4") ∷ (3000, TokenCall.issue 7 8 "t5") ∷ []

first_rotation : rotate_refresh_token keys "t1" "t2" none signed_in ≡ (
  inr (record { access_token = "jwt"; refresh_token = "t2" }),
  (rotate_refresh_token keys "t1" "t2" none signed_in).1,
)
unfolding rotate_refresh_token duration trim
first_rotation = refl

rotate_twice_example :
    let after = (rotate_refresh_token keys "t1" "t2" none signed_in).1 in
    let later = record (calls keys meanwhile after) { now = 4000 } in
    let again = rotate_refresh_token keys "t1" "t3" none later in
    (again.0 ≡ inl reuse_detected) × (live 3 again.1 ≡ 0)
rotate_twice_example =
    rotate_twice keys "t1" "t2" signed_in current refl refl
      (record { access_token = "jwt"; refresh_token = "t2" })
      (rotate_refresh_token keys "t1" "t2" none signed_in).1 meanwhile 4000 "t3" none first_rotation

thirty_days : duration " 30d" ≡ some 2592000000
unfolding duration trim
thirty_days = refl

abbrev phone : CreateSessionInput
phone = record {
  user_id = 7;
  device_id = some "phone";
  device_name = none;
  user_agent = none;
  ip_address = none;
}

abbrev sessions : SessionStore
sessions = record {
  sessions = new_session phone 500 1 ∷ new_session (record phone { user_id = 8 }) 600 2 ∷ [];
  next_id = 3;
  now = 1000;
}

abbrev access : Access
access = record { tokens = signed_in; sessions = sessions }

month : duration keys.refresh_ttl ≡ some 2592000000
unfolding duration trim
month = refl

sign_in-only_example :
    (active_of 7 (sign_in keys phone "t9" access).1.sessions.sessions
      ≡ only 7
          (entry keys phone "t9" access 2592000000 month)
          (λ v. active_of v sessions.sessions)
          7)
    × (live_of 7 (sign_in keys phone "t9" access).1.tokens.refresh_tokens
        ≡ only 7
            (pass keys phone "t9" access 2592000000 month)
            (λ v. live_of v signed_in.refresh_tokens)
            7)
sign_in-only_example = sign_in-only keys phone "t9" access 2592000000 month 7
