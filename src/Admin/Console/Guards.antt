-- ===== src/Admin/Console/Guards.antt =====
-- What stands before a console request: apps/admin/src/auth/jwt.strategy.ts, jwt-auth.guard.ts and
-- roles.guard.ts, in the order in which the controllers name them.
use fiam_retail_apis.Admin.Console.{
  insufficient_role, password_change_required, unauthorized, ConsoleConfig, StaffUser, find_staff,
  StaffRole,
}
use fiam_retail_apis.Common.{
  [], false, String, true, List, Bool, ℕ, Option, ◌∷◌, not, is_some, ◌||◌, ◌&&◌, any,
}
use fiam_retail_apis.Admin.Console.Act.{Act, pure, gets, raise_if, or_raise, ◌>>=◌, ◌>>◌}
use fiam_retail_apis.Admin.Console.Sessions.{active_staff, device_serves}

pub record AuthenticatedStaff : Type 0 where
  pub staff_id : ℕ
  pub device_id : Option ℕ
  pub email : String
  pub role : StaffRole
  pub must_change_password : Bool
  pub two_factor_enabled : Bool

abbrev pub staff_view : StaffUser → Option ℕ → AuthenticatedStaff
staff_view u did = record {
  staff_id = u.id;
  device_id = did;
  email = u.email;
  role = u.role;
  must_change_password = u.must_change_password;
  two_factor_enabled = is_some u.totp_enabled_at;
}

-- `validate` of the payload, the member of staff and the device: the row is read at every request.
unfoldable pub validate : ConsoleConfig → ℕ → Option ℕ → Act AuthenticatedStaff
unfolding ◌>>=◌
validate c sub did = do
  found ← gets (find_staff sub)
  u ← or_raise (active_staff found) unauthorized
  serves ← gets (device_serves did u.id)
  raise_if (c.device_required && not serves) unauthorized
  pure (staff_view u did)

abbrev pub role_eq : StaffRole → StaffRole → Bool
role_eq StaffRole.super_admin StaffRole.super_admin = true
role_eq StaffRole.compliance StaffRole.compliance = true
role_eq StaffRole.support StaffRole.support = true
role_eq StaffRole.finance StaffRole.finance = true
role_eq _ _ = false

-- `canActivate`, for the roles that the route names
unfoldable pub can_activate : List StaffRole → StaffRole → Bool
can_activate [] r = true
can_activate (q ∷ qs) r = role_eq r StaffRole.super_admin || any (role_eq r) (q ∷ qs)

-- A request that brings an access token: the signature, the account, the pending password change,
-- the role.
unfoldable pub authorise : ConsoleConfig → List StaffRole → Bool → String → Act AuthenticatedStaff
unfolding ◌>>=◌ validate
authorise c required allow_pending bearer = do
  read ← gets (λ s. c.verify_access bearer s.now)
  payload ← or_raise read unauthorized
  me ← validate c payload.0 payload.1
  raise_if (not allow_pending && me.must_change_password) password_change_required
  raise_if (not (can_activate required me.role)) insufficient_role
  pure me
