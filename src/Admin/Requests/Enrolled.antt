-- ===== src/Admin/Requests/Enrolled.antt =====
-- The invariants of the console through enrolment, the end of sessions and the resets by a super
-- admin.
use fiam_retail_apis.Admin.Console.Devices.{Actor}
use fiam_retail_apis.Common.{List, Option, String, ℕ, false, refl, none, some, Bool-cases, inl, inr}
use fiam_retail_apis.Admin.Console.{
  Console, ConsoleConfig, StaffUser, update_staff, StaffRefreshToken,
}
use fiam_retail_apis.Admin.Console.Act.{modify}
use fiam_retail_apis.Admin.Console.Holding.{Keeps, console_rules}
use fiam_retail_apis.Admin.Console.Factors.{without_totp, set_lock}
use fiam_retail_apis.Auth.Lockout.{cleared}
use fiam_retail_apis.Admin.Console.Sessions.{
  revoke_family, end_family, logout_staff, set_password, find_token,
}
use fiam_retail_apis.Admin.Console.Enrolment.{
  start_enrolment, confirm_enrolment, start_enrolment_with_token, confirm_enrolment_with_token,
  disable_two_factor, regenerate_recovery_codes, check_both, pending_totp, enabled_totp,
}
use fiam_retail_apis.Admin.Staff.{
  reset_two_factor, reset_staff_password, temporary_password, unlock, get_detail,
}
use fiam_retail_apis.Admin.Requests.Steady.{
  Steady, own-Keeps, entry-Keeps, revoked-Keeps, reserve-Keeps, reset-Keeps, check-Keeps,
  clear-Keeps, read-Keeps, complete-Keeps,
}

module _ {c : ConsoleConfig} {P : Console → Type 0} (h : Steady c P) where
  pending-Keeps : (id : ℕ) (e : String) → Keeps P (modify (update_staff id (pending_totp e)))
  pending-Keeps id e = own-Keeps h id _ (λ u. (refl, refl))

  enabled-Keeps :
      (id now step : ℕ) (hashes : List String)
      → Keeps P (modify (update_staff id (enabled_totp now step hashes)))
  enabled-Keeps id now step hashes = own-Keeps h id _ (λ u. (refl, refl))

  codes-Keeps :
      (id : ℕ) (hashes : List String)
      → Keeps P (modify (update_staff id (λ r. record r { recovery_code_hashes = hashes })))
  codes-Keeps id hashes = own-Keeps h id _ (λ u. (refl, refl))

  cleared-Keeps : (id : ℕ) → Keeps P (modify (update_staff id without_totp))
  cleared-Keeps id = own-Keeps h id _ (λ u. (refl, refl))

  unlocked-Keeps : (id : ℕ) → Keeps P (modify (update_staff id (set_lock cleared)))
  unlocked-Keeps id = own-Keeps h id _ (λ u. (refl, refl))

  temporary-Keeps :
      (id : ℕ) (hash : String) → Keeps P (modify (update_staff id (temporary_password hash)))
  temporary-Keeps id hash = own-Keeps h id _ (λ u. (refl, refl))

  pub password_set-Keeps :
      (id : ℕ) (hash : String) → Keeps P (modify (update_staff id (set_password hash false)))
  password_set-Keeps id hash = own-Keeps h id _ (λ u. (refl, refl))

  pub start-Keeps : (id : ℕ) (e : String) → Keeps P (start_enrolment id e)
  unfolding start_enrolment
  start-Keeps id e = search (console_rules, pending-Keeps)

  pub confirm-Keeps :
      (id : ℕ) (given : String) (ip : Option String) (drawn : List String)
      → Keeps P (confirm_enrolment c id given ip drawn)
  unfolding confirm_enrolment
  confirm-Keeps id given ip drawn =
      search (console_rules, reserve-Keeps h, reset-Keeps h, enabled-Keeps, entry-Keeps h) depth 12

  pub start_with_token-Keeps : (token e : String) → Keeps P (start_enrolment_with_token c token e)
  unfolding start_enrolment_with_token
  start_with_token-Keeps token e = search (console_rules, read-Keeps h, start-Keeps)

  pub confirm_with_token-Keeps :
      (token given : String) (ip : Option String) (drawn : List String) (fresh : String)
      → Keeps P (confirm_enrolment_with_token c token given ip drawn fresh)
  unfolding confirm_enrolment_with_token
  confirm_with_token-Keeps token given ip drawn fresh =
      search (console_rules, read-Keeps h, confirm-Keeps, complete-Keeps h)

  check_both-Keeps :
      (u : StaffUser) (secret password given : String)
      → Keeps P (check_both c u secret password given)
  check_both-Keeps u secret password given =
      elim (Bool-cases (c.argon2_verify u.password_hash password)) [
        | inl right ↦ rw right (check-Keeps h u.id secret given)
        | inr wrong ↦ rw wrong (search console_rules)
      ]

  pub disable-Keeps :
      (id : ℕ) (password given : String) (ip : Option String)
      → Keeps P (disable_two_factor c id password given ip)
  unfolding disable_two_factor
  disable-Keeps id password given ip =
      search
        (
          console_rules,
          reserve-Keeps h,
          reset-Keeps h,
          check_both-Keeps,
          clear-Keeps h,
          entry-Keeps h,
        )
        depth 12

  pub regenerate-Keeps :
      (id : ℕ) (given : String) (ip : Option String) (drawn : List String)
      → Keeps P (regenerate_recovery_codes c id given ip drawn)
  unfolding regenerate_recovery_codes
  regenerate-Keeps id given ip drawn =
      search
        (console_rules, reserve-Keeps h, reset-Keeps h, check-Keeps h, codes-Keeps, entry-Keeps h)
        depth 12

  end_family-Keeps : (t : Option StaffRefreshToken) → Keeps P (end_family t)
  unfolding revoke_family
  end_family-Keeps none = search console_rules
  end_family-Keeps (some t) = revoked-Keeps h _

  pub logout-Keeps : (raw : String) → Keeps P (logout_staff c raw)
  unfolding logout_staff
  logout-Keeps raw = record { at = λ s. (end_family-Keeps (find_token (c.sha256 raw) s)).at s }

  pub reset_two_factor-Keeps :
      (id : ℕ) (by : Actor) (ip : Option String) → Keeps P (reset_two_factor id by ip)
  unfolding reset_two_factor
  reset_two_factor-Keeps id by ip =
      search (console_rules, cleared-Keeps, revoked-Keeps h, entry-Keeps h)

  pub reset_password-Keeps :
      (id : ℕ) (temporary : String) (by : Actor) (ip : Option String)
      → Keeps P (reset_staff_password c id temporary by ip)
  unfolding reset_staff_password
  reset_password-Keeps id temporary by ip =
      search (console_rules, temporary-Keeps, revoked-Keeps h, entry-Keeps h)

  get_detail-Keeps : (id : ℕ) → Keeps P (get_detail id)
  unfolding get_detail
  get_detail-Keeps id = search console_rules

  pub unlock-Keeps : (id : ℕ) (by : Actor) (ip : Option String) → Keeps P (unlock id by ip)
  unfolding unlock
  unlock-Keeps id by ip = search (console_rules, unlocked-Keeps, entry-Keeps h, get_detail-Keeps)
