-- ===== src/Admin/Requests/Always.antt =====
-- An invariant of the console through every request, and through any list of them.
use fiam_retail_apis.Admin.Console.{
  check_expired, ChallengeKind, DeviceStatus, Console, ConsoleConfig, StaffUser, StaffRole,
}
use fiam_retail_apis.Admin.Console.Devices.{
  challenge_of, read_challenge, Actor, approve_device, revoke_device, register_device,
}
use fiam_retail_apis.Admin.Console.Holding.{or_raise-Keeps, Keeps, console_rules}
use fiam_retail_apis.Admin.Requests.{
  delete_staff, post_unlock, post_reset_2fa, post_reset_password, delete_staff_device,
  post_staff_device_approve, patch_staff, post_staff, post_logout, post_refresh,
  post_2fa_recovery_codes, post_2fa_disable, post_2fa_enable, post_2fa_setup, delete_device,
  post_devices, post_device_register, post_device_assert, post_mfa_enroll_confirm,
  post_change_password, post_mfa_enroll_start, post_mfa_verify, post_login, Request, serve, run,
  own, staff_page, actor_of,
}
use fiam_retail_apis.Common.{[], Option, List, ℕ, String, ◌∷◌, true, false, none, Bool}
use fiam_retail_apis.Admin.Console.Act.{Act}
use fiam_retail_apis.Admin.Console.Guards.{AuthenticatedStaff, authorise, validate}
use fiam_retail_apis.Admin.Console.Sessions.{refresh_staff}
use fiam_retail_apis.Admin.Console.SignIn.{device_assert, device_register, add_device}
use fiam_retail_apis.Admin.Staff.{
  CreateStaffDto, UpdateStaffDto, create_staff, update_staff_member, remove_staff,
}
use fiam_retail_apis.Admin.Requests.Steady.{Steady, log_in-Keeps, verify_mfa-Keeps, read-Keeps}
use fiam_retail_apis.Admin.Requests.Enrolled.{
  start-Keeps, confirm-Keeps, start_with_token-Keeps, confirm_with_token-Keeps, disable-Keeps,
  regenerate-Keeps, logout-Keeps, reset_two_factor-Keeps, reset_password-Keeps, unlock-Keeps,
}

-- The writes of `Steady`, and the operations that touch devices, their sessions and the roles, of the
-- requests that are allowed.
pub record Always (c : ConsoleConfig) (P : Console → Type 0) (Allowed : Request → Type 0)
    : Type 0 where
  pub steady : Steady c P
  pub renews :
      (raw fresh : String)
      → Allowed (post_refresh raw fresh)
      → Keeps P (refresh_staff c raw fresh none)
  pub asserts :
      (token challenge credential response : String) (ip : Option String) (fresh : String)
      → Allowed (post_device_assert token challenge credential response ip fresh)
      → Keeps P (device_assert c token challenge credential response ip fresh)
  pub changes :
      (bearer current new : String) (ip : Option String) (fresh : String)
      → Allowed (post_change_password bearer current new ip fresh)
      → Keeps P (serve c (post_change_password bearer current new ip fresh))
  pub registers :
      (u : StaffUser) (challenge response label : String) (status : DeviceStatus)
      (ip : Option String)
      → Keeps P (register_device c u challenge response label status ip)
  pub approves :
      (owner device : ℕ) (by : Actor) (ip : Option String)
      → Keeps P (approve_device owner device by ip)
  pub revokes :
      (owner device : ℕ) (by : Actor) (ip : Option String)
      → Keeps P (revoke_device owner device by ip)
  pub creates :
      (dto : CreateStaffDto) (temporary : String) (by : Actor) (ip : Option String)
      → Keeps P (create_staff c dto temporary by ip)
  pub updates :
      (id : ℕ) (dto : UpdateStaffDto) (by : Actor) (ip : Option String)
      → Keeps P (update_staff_member id dto by ip)
  pub removes :
      (bearer : String) (id : ℕ) (by : Actor) (ip : Option String)
      → Allowed (delete_staff bearer id ip)
      → Keeps P (remove_staff id by ip)

-- Every request of a list is allowed.
abbrev pub Along : (Request → Type 0) → List (ℕ × Request) → Type 0
Along Allowed [] = Unit
Along Allowed (r ∷ rs) = Allowed r.1 × Along Allowed rs

-- All of them are.
abbrev pub Whatever : Request → Type 0
Whatever r = Unit

pub Along-Whatever : (rs : List (ℕ × Request)) → Along Whatever rs
Along-Whatever [] = tt
Along-Whatever (r ∷ rs) = (tt, Along-Whatever rs)

pub authorise-Keeps :
    {P : Console → Type 0} (c : ConsoleConfig) (required : List StaffRole) (allow : Bool)
    (bearer : String)
    → Keeps P (authorise c required allow bearer)
unfolding authorise validate
authorise-Keeps c required allow bearer = search console_rules depth 16

pub challenge-Keeps :
    {P : Console → Type 0} (c : ConsoleConfig) (token : String) (owner : ℕ) (kind : ChallengeKind)
    → Keeps P (read_challenge c token owner kind)
unfolding read_challenge
challenge-Keeps {P} c token owner kind = record {
  at = λ s.
      (or_raise-Keeps {P = P} (challenge_of owner kind (c.verify_challenge_token token s.now))
          check_expired).at
        s;
}

module _ {c : ConsoleConfig} {P : Console → Type 0} {Allowed : Request → Type 0}
    (h : Always c P Allowed) where
  own-Keeps :
      {A : Type 0} (allow : Bool) (bearer : String) (f : AuthenticatedStaff → Act A)
      → ((me : AuthenticatedStaff) → Keeps P (f me))
      → Keeps P (own c allow bearer f)
  own-Keeps allow bearer f k = search (console_rules, authorise-Keeps, k)

  page-Keeps :
      {A : Type 0} (bearer : String) (f : Actor → Act A)
      → ((by : Actor) → Keeps P (f by))
      → Keeps P (staff_page c bearer f)
  page-Keeps bearer f k = search (console_rules, authorise-Keeps, k)

  device_register-Keeps :
      (token challenge response label : String) (ip : Option String)
      → Keeps P (device_register c token challenge response label ip)
  unfolding device_register
  device_register-Keeps token challenge response label ip =
      search (console_rules, read-Keeps h.steady, h.registers)

  add_device-Keeps :
      (id : ℕ) (challenge response label : String) (ip : Option String)
      → Keeps P (add_device c id challenge response label ip)
  unfolding add_device
  add_device-Keeps id challenge response label ip = search (console_rules, h.registers)

  serve-Keeps : (r : Request) → Allowed r → Keeps P (serve c r)
  unfolding serve
  serve-Keeps (post_login email password ip fresh) ok =
      search (console_rules, log_in-Keeps h.steady)
  serve-Keeps (post_mfa_verify token given ip fresh) ok =
      search (console_rules, verify_mfa-Keeps h.steady)
  serve-Keeps (post_mfa_enroll_start token encrypted) ok =
      start_with_token-Keeps h.steady token encrypted
  serve-Keeps (post_mfa_enroll_confirm token given ip drawn fresh) ok =
      search (console_rules, confirm_with_token-Keeps h.steady)
  serve-Keeps (post_device_assert token challenge credential response ip fresh) ok =
      search (console_rules, h.asserts token challenge credential response ip fresh ok)
  serve-Keeps (post_device_register token challenge response label ip) ok =
      search (console_rules, device_register-Keeps)
  serve-Keeps (post_devices bearer challenge response label ip) ok =
      own-Keeps false bearer _ (λ me. add_device-Keeps me.staff_id challenge response label ip)
  serve-Keeps (delete_device bearer id ip) ok =
      own-Keeps false bearer _ (λ me. h.revokes me.staff_id id (actor_of me) ip)
  serve-Keeps (post_2fa_setup bearer encrypted) ok =
      own-Keeps true bearer _ (λ me. start-Keeps h.steady me.staff_id encrypted)
  serve-Keeps (post_2fa_enable bearer given ip drawn) ok =
      own-Keeps true bearer _ (λ me. confirm-Keeps h.steady me.staff_id given ip drawn)
  serve-Keeps (post_2fa_disable bearer password given ip) ok =
      own-Keeps false bearer _ (λ me. disable-Keeps h.steady me.staff_id password given ip)
  serve-Keeps (post_2fa_recovery_codes bearer given ip drawn) ok =
      own-Keeps false bearer _ (λ me. regenerate-Keeps h.steady me.staff_id given ip drawn)
  serve-Keeps (post_refresh raw fresh) ok = search (console_rules, h.renews raw fresh ok)
  serve-Keeps (post_logout raw) ok = logout-Keeps h.steady raw
  serve-Keeps (post_change_password bearer current new ip fresh) ok =
      h.changes bearer current new ip fresh ok
  serve-Keeps (post_staff bearer dto temporary ip) ok =
      page-Keeps bearer _ (λ by. h.creates dto temporary by ip)
  serve-Keeps (patch_staff bearer id dto ip) ok = page-Keeps bearer _ (λ by. h.updates id dto by ip)
  serve-Keeps (post_staff_device_approve bearer owner id ip) ok =
      page-Keeps bearer _ (λ by. h.approves owner id by ip)
  serve-Keeps (delete_staff_device bearer owner id ip) ok =
      page-Keeps bearer _ (λ by. h.revokes owner id by ip)
  serve-Keeps (post_reset_password bearer id temporary ip) ok =
      page-Keeps bearer _ (λ by. reset_password-Keeps h.steady id temporary by ip)
  serve-Keeps (post_reset_2fa bearer id ip) ok =
      page-Keeps bearer _ (λ by. reset_two_factor-Keeps h.steady id by ip)
  serve-Keeps (post_unlock bearer id ip) ok =
      page-Keeps bearer _ (λ by. unlock-Keeps h.steady id by ip)
  serve-Keeps (delete_staff bearer id ip) ok =
      page-Keeps bearer _ (λ by. h.removes bearer id by ip ok)

  pub run-keeps : (rs : List (ℕ × Request)) (s : Console) → Along Allowed rs → P s → P (run c rs s)
  run-keeps [] s all p = p
  run-keeps (r ∷ rs) s (ok, all) p =
      run-keeps rs _ all ((serve-Keeps r.1 ok).at _ (h.steady.timed r.0 s p)).0
