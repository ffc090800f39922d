-- ===== src/Admin/Requests/Steady.antt =====
-- What an invariant of the console must survive, one law per kind of write, and what then keeps it:
-- the requests of sign-in and enrolment that neither register a device nor open a session from one.
use fiam_retail_apis.Admin.Console.Act.{audit_own, modify, update_staff_where}
use fiam_retail_apis.Admin.Console.{
  ConsoleAction, sign_in_expired, MfaStep, Console, ConsoleConfig, StaffUser, update_staff,
  record_entry, ConsoleEntry, StaffRefreshToken, find_staff, row_passes,
}
use fiam_retail_apis.Common.{
  trim, ◌+◌, Option, ℕ, String, true, false, ◌≡◌, refl, none, some, Bool, Bool-cases, inl, inr,
}
use fiam_retail_apis.Admin.Console.Totp.{is_six_digits}
use fiam_retail_apis.Admin.Console.Factors.{
  Method, reserve_staff_attempt, reserve_as, lock_after, reset_attempts, check_second_factor,
  claim_step, claim_recovery, clear_two_factor,
}
use fiam_retail_apis.Auth.Lockout.{Lock}
use fiam_retail_apis.Admin.Console.Holding.{
  Keeps, bind-Keeps, modify-Keeps, console_rules, or_raise-Keeps,
}
use fiam_retail_apis.Admin.Console.Sessions.{
  issue_tokens, fresh_id, revoke_tokens_where, revoke_one,
}
use fiam_retail_apis.Admin.Console.SignIn.{
  log_in, verify_mfa, complete_login, finish_login, has_logged_in, read_mfa_token, staff_of,
  log_in_as, after_password, next_step, settle_factor, open_session,
}
use fiam_retail_apis.Admin.Staff.{is_active_super}

-- A change of one's own columns: neither the key, nor who is an active super admin.
abbrev pub IsOwn : (StaffUser → StaffUser) → Type 0
IsOwn f = (u : StaffUser) → ((f u).id ≡ u.id) × (is_active_super (f u) ≡ is_active_super u)

pub record Steady (c : ConsoleConfig) (P : Console → Type 0) : Type 0 where
  pub entry : (e : ConsoleEntry) (s : Console) → P s → P (record_entry e s)
  pub own :
      (id : ℕ) (f : StaffUser → StaffUser) (s : Console) → IsOwn f → P s → P (update_staff id f s)
  pub drawn : (s : Console) → P s → P (record s { next_id = s.next_id + 1 })
  pub revoked : (p : StaffRefreshToken → Bool) (s : Console) → P s → P (revoke_tokens_where p s)
  pub spent : (id : ℕ) (s : Console) → P s → P (revoke_one id s)
  -- a session that comes from no device, which only opens where the device lock is off
  pub issued :
      (u : StaffUser) (family : ℕ) (fresh : String)
      → c.device_required ≡ false
      → Keeps P (issue_tokens c u family none fresh)
  pub timed : (now : ℕ) (s : Console) → P s → P (record s { now = now })

module _ {c : ConsoleConfig} {P : Console → Type 0} (h : Steady c P) where
  pub own-Keeps :
      (id : ℕ) (f : StaffUser → StaffUser) → IsOwn f → Keeps P (modify (update_staff id f))
  own-Keeps id f same = modify-Keeps _ (λ s. h.own id f s same)

  pub entry-Keeps : (e : ConsoleEntry) → Keeps P (modify (record_entry e))
  entry-Keeps e = modify-Keeps _ (h.entry e)

  pub audit-Keeps :
      (u : StaffUser) (action : ConsoleAction) (ip : Option String)
      → Keeps P (audit_own u action ip)
  audit-Keeps u action ip = entry-Keeps (record {
    staff_id = some u.id;
    staff_email = u.email;
    action = action;
    resource_id = none;
    ip = ip;
  })

  pub revoked-Keeps : (p : StaffRefreshToken → Bool) → Keeps P (modify (revoke_tokens_where p))
  revoked-Keeps p = modify-Keeps _ (h.revoked p)

  pub fresh_id-Keeps : Keeps P fresh_id
  unfolding fresh_id
  fresh_id-Keeps = record { at = λ s p. (h.drawn s p, tt) }

  reserve_as-Keeps : (id : ℕ) (l : Option Lock) → Keeps P (reserve_as id l)
  reserve_as-Keeps id none = record { at = λ s p. (p, tt) }
  reserve_as-Keeps id (some l) = record { at = λ s p. (h.own id _ s (λ u. (refl, refl)) p, tt) }

  pub reserve-Keeps : (id : ℕ) → Keeps P (reserve_staff_attempt id)
  unfolding reserve_staff_attempt
  reserve-Keeps id = record {
    at = λ s. (reserve_as-Keeps id (lock_after s.now (find_staff id s))).at s;
  }

  pub reset-Keeps : (id : ℕ) → Keeps P (reset_attempts id)
  unfolding reset_attempts
  reset-Keeps id = own-Keeps id _ (λ u. (refl, refl))

  where-Keeps :
      (id : ℕ) (p : StaffUser → Bool) (f : StaffUser → StaffUser)
      → IsOwn f
      → Keeps P (update_staff_where id p f)
  unfolding update_staff_where
  where-Keeps id p f same = record {
    at = λ s hs. elim (Bool-cases (row_passes p (find_staff id s))) [
      | inl passes ↦ rw passes (h.own id f s same hs, tt)
      | inr not_one ↦ rw not_one (hs, tt)
    ];
  }

  claim_step-Keeps : (id : ℕ) (step : Option ℕ) → Keeps P (claim_step id step)
  claim_step-Keeps id none = search console_rules
  claim_step-Keeps id (some step) =
      bind-Keeps _ _ (where-Keeps id _ _ (λ u. (refl, refl))) (λ b. search console_rules)

  claim_recovery-Keeps : (id : ℕ) (hash : String) → Keeps P (claim_recovery id hash)
  claim_recovery-Keeps id hash =
      bind-Keeps _ _ (where-Keeps id _ _ (λ u. (refl, refl))) (λ b. search console_rules)

  pub check-Keeps :
      (id : ℕ) (secret given : String) → Keeps P (check_second_factor c id secret given)
  unfolding check_second_factor
  check-Keeps id secret given = record {
    at = λ s. elim (Bool-cases (is_six_digits (trim given))) [
      | inl six ↦ rw six ((claim_step-Keeps id _).at s)
      | inr other ↦ rw other ((claim_recovery-Keeps id _).at s)
    ];
  }

  pub clear-Keeps : (id : ℕ) → Keeps P (clear_two_factor id)
  unfolding clear_two_factor
  clear-Keeps id = own-Keeps id _ (λ u. (refl, refl))

  pub read-Keeps : (token : String) (step : MfaStep) → Keeps P (read_mfa_token c token step)
  unfolding read_mfa_token
  read-Keeps token step = record {
    at = λ s.
        (or_raise-Keeps {P = P} (staff_of step (c.verify_mfa_token token s.now) s)
            sign_in_expired).at
          s;
  }

  pub logged-Keeps : (id now : ℕ) → Keeps P (modify (update_staff id (has_logged_in now)))
  logged-Keeps id now = own-Keeps id _ (λ u. (refl, refl))

  module _ (unlocked : c.device_required ≡ false) where
    issued-Keeps :
        (u : StaffUser) (family : ℕ) (fresh : String) → Keeps P (issue_tokens c u family none fresh)
    issued-Keeps u family fresh = h.issued u family fresh unlocked

    finish-Keeps :
        (u : StaffUser) (ip : Option String) (fresh : String)
        → Keeps P (finish_login c u ip none fresh)
    unfolding finish_login
    finish-Keeps u ip fresh =
        search (console_rules, logged-Keeps, entry-Keeps, fresh_id-Keeps, issued-Keeps)

    open-Keeps :
        (u : StaffUser) (ip : Option String) (fresh : String) → Keeps P (open_session c u ip fresh)
    open-Keeps u ip fresh = search (console_rules, finish-Keeps)

  pub complete-Keeps :
      (u : StaffUser) (ip : Option String) (fresh : String) → Keeps P (complete_login c u ip fresh)
  unfolding complete_login
  complete-Keeps u ip fresh = record {
    at = λ s. elim (Bool-cases c.device_required) [
      | inl locked_in ↦ rw locked_in (λ p. (p, tt))
      | inr unlocked ↦ rw unlocked ((open-Keeps unlocked u ip fresh).at s)
    ];
  }

  next-Keeps :
      (u : StaffUser) (ip : Option String) (fresh : String) (step : Option MfaStep)
      → Keeps P (next_step c u ip fresh step)
  next-Keeps u ip fresh none = complete-Keeps u ip fresh
  next-Keeps u ip fresh (some step) = record { at = λ s p. (p, tt) }

  password-Keeps :
      (u : StaffUser) (just_locked : Bool) (ip : Option String) (fresh : String) (ok : Bool)
      → Keeps P (after_password c u just_locked ip fresh ok)
  password-Keeps u just_locked ip fresh true = next-Keeps u ip fresh _
  password-Keeps u just_locked ip fresh false = search (console_rules, entry-Keeps)

  log_in_as-Keeps :
      (email password : String) (ip : Option String) (fresh : String) (u : Option StaffUser)
      → Keeps P (log_in_as c email password ip fresh u)
  log_in_as-Keeps email password ip fresh none = search (console_rules, entry-Keeps)
  log_in_as-Keeps email password ip fresh (some u) =
      search (console_rules, reserve-Keeps, password-Keeps)

  pub log_in-Keeps :
      (email password : String) (ip : Option String) (fresh : String)
      → Keeps P (log_in c email password ip fresh)
  unfolding log_in
  log_in-Keeps email password ip fresh = search (console_rules, log_in_as-Keeps)

  settle-Keeps :
      (u : StaffUser) (just_locked : Bool) (ip : Option String) (fresh : String) (m : Option Method)
      → Keeps P (settle_factor c u just_locked ip fresh m)
  settle-Keeps u just_locked ip fresh none = search (console_rules, entry-Keeps)
  settle-Keeps u just_locked ip fresh (some m) = complete-Keeps u ip fresh

  pub verify_mfa-Keeps :
      (token given : String) (ip : Option String) (fresh : String)
      → Keeps P (verify_mfa c token given ip fresh)
  unfolding verify_mfa
  verify_mfa-Keeps token given ip fresh =
      search (console_rules, read-Keeps, reserve-Keeps, check-Keeps, settle-Keeps)
