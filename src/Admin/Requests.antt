-- ===== src/Admin/Requests.antt =====
-- The routes of apps/admin/src/auth/auth.controller.ts and apps/admin/src/staff/staff.controller.ts
-- that change state: the guards of the route, then the service. Each request runs at its own time,
-- and one after the other. What is drawn at random comes with the request.
pub mod Tests
pub mod Steady
pub mod Enrolled
pub mod Always
pub mod Tokenless
pub mod Staffless
pub mod Deviceless
pub mod Devices
pub mod Reused
pub mod Cut
pub mod Revoked
pub mod Locked
pub mod Supers
use fiam_retail_apis.Common.{[], ℕ, Bool, none, String, Option, List, ◌∷◌, true, false}
use fiam_retail_apis.Admin.Console.{Console, ConsoleConfig, StaffRole}
use fiam_retail_apis.Admin.Console.Act.{Act, pure, ◌>>=◌, ◌>>◌}
use fiam_retail_apis.Admin.Console.Guards.{AuthenticatedStaff, authorise}
use fiam_retail_apis.Admin.Console.Sessions.{refresh_staff, logout_staff, change_staff_password}
use fiam_retail_apis.Admin.Console.Devices.{Actor, approve_device, revoke_device}
use fiam_retail_apis.Admin.Console.SignIn.{
  log_in, verify_mfa, device_assert, device_register, add_device,
}
use fiam_retail_apis.Admin.Console.Enrolment.{
  start_enrolment, confirm_enrolment, start_enrolment_with_token, confirm_enrolment_with_token,
  disable_two_factor, regenerate_recovery_codes,
}
use fiam_retail_apis.Admin.Staff.{
  CreateStaffDto, UpdateStaffDto, create_staff, update_staff_member, reset_two_factor,
  reset_staff_password, unlock, remove_staff,
}

abbrev pub actor_of : AuthenticatedStaff → Actor
actor_of me = record { staff_id = me.staff_id; email = me.email }

abbrev done : {A : Type 0} → Act A → Act (Unit {0})
done m = do m; pure tt

abbrev pub Ip : Type 0
Ip = Option String

-- The first text of a route behind the guards is its access token.
pub data Request : Type 0 where
  post_login : String → String → Ip → String → Request
  post_mfa_verify : String → String → Ip → String → Request
  post_mfa_enroll_start : String → String → Request
  post_mfa_enroll_confirm : String → String → Ip → List String → String → Request
  post_device_assert : String → String → String → String → Ip → String → Request
  post_device_register : String → String → String → String → Ip → Request
  post_devices : String → String → String → String → Ip → Request
  delete_device : String → ℕ → Ip → Request
  post_2fa_setup : String → String → Request
  post_2fa_enable : String → String → Ip → List String → Request
  post_2fa_disable : String → String → String → Ip → Request
  post_2fa_recovery_codes : String → String → Ip → List String → Request
  post_refresh : String → String → Request
  post_logout : String → Request
  post_change_password : String → String → String → Ip → String → Request
  post_staff : String → CreateStaffDto → String → Ip → Request
  patch_staff : String → ℕ → UpdateStaffDto → Ip → Request
  post_staff_device_approve : String → ℕ → ℕ → Ip → Request
  delete_staff_device : String → ℕ → ℕ → Ip → Request
  post_reset_password : String → ℕ → String → Ip → Request
  post_reset_2fa : String → ℕ → Ip → Request
  post_unlock : String → ℕ → Ip → Request
  delete_staff : String → ℕ → Ip → Request

module _ (c : ConsoleConfig) where
  -- A route of one's own account, and one of the staff pages.
  abbrev pub own : {A : Type 0} → Bool → String → (AuthenticatedStaff → Act A) → Act (Unit {0})
  own allow_pending bearer f = do me ← authorise c [] allow_pending bearer; f me; pure tt

  abbrev pub staff_page : {A : Type 0} → String → (Actor → Act A) → Act (Unit {0})
  staff_page bearer f = do
    me ← authorise c (StaffRole.super_admin ∷ []) false bearer
    f (actor_of me)
    pure tt

  unfoldable pub serve : Request → Act (Unit {0})
  serve (post_login email password ip fresh) = done (log_in c email password ip fresh)
  serve (post_mfa_verify token given ip fresh) = done (verify_mfa c token given ip fresh)
  serve (post_mfa_enroll_start token encrypted) = start_enrolment_with_token c token encrypted
  serve (post_mfa_enroll_confirm token given ip drawn fresh) =
      done (confirm_enrolment_with_token c token given ip drawn fresh)
  serve (post_device_assert token challenge credential response ip fresh) =
      done (device_assert c token challenge credential response ip fresh)
  serve (post_device_register token challenge response label ip) =
      done (device_register c token challenge response label ip)
  serve (post_devices bearer challenge response label ip) =
      own false bearer (λ me. add_device c me.staff_id challenge response label ip)
  serve (delete_device bearer id ip) =
      own false bearer (λ me. revoke_device me.staff_id id (actor_of me) ip)
  serve (post_2fa_setup bearer encrypted) =
      own true bearer (λ me. start_enrolment me.staff_id encrypted)
  serve (post_2fa_enable bearer given ip drawn) =
      own true bearer (λ me. confirm_enrolment c me.staff_id given ip drawn)
  serve (post_2fa_disable bearer password given ip) =
      own false bearer (λ me. disable_two_factor c me.staff_id password given ip)
  serve (post_2fa_recovery_codes bearer given ip drawn) =
      own false bearer (λ me. regenerate_recovery_codes c me.staff_id given ip drawn)
  serve (post_refresh raw fresh) = done (refresh_staff c raw fresh none)
  serve (post_logout raw) = logout_staff c raw
  serve (post_change_password bearer current new ip fresh) =
      own true bearer (λ me. change_staff_password c me.staff_id current new ip me.device_id fresh)
  serve (post_staff bearer dto temporary ip) =
      staff_page bearer (λ by. create_staff c dto temporary by ip)
  serve (patch_staff bearer id dto ip) = staff_page bearer (λ by. update_staff_member id dto by ip)
  serve (post_staff_device_approve bearer owner id ip) =
      staff_page bearer (λ by. approve_device owner id by ip)
  serve (delete_staff_device bearer owner id ip) =
      staff_page bearer (λ by. revoke_device owner id by ip)
  serve (post_reset_password bearer id temporary ip) =
      staff_page bearer (λ by. reset_staff_password c id temporary by ip)
  serve (post_reset_2fa bearer id ip) = staff_page bearer (λ by. reset_two_factor id by ip)
  serve (post_unlock bearer id ip) = staff_page bearer (λ by. unlock id by ip)
  serve (delete_staff bearer id ip) = staff_page bearer (λ by. remove_staff id by ip)

  -- The console after requests that come at these times.
  abbrev pub run : List (ℕ × Request) → Console → Console
  run [] s = s
  run (r ∷ rs) s = run rs (serve r.1 (record s { now = r.0 })).1
