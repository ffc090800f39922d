-- ===== src/Admin/Console/Sessions.antt =====
-- The sessions of apps/admin/src/auth/auth.service.ts: `issueTokens`, `refresh`, `logout`,
-- `revokeFamily`, `changePassword`, and `isActive` of devices.service.ts. Random identifiers are
-- generated ones; the random token is a parameter, and so is what other requests commit between the
-- reads of `refresh` and its first write.
use fiam_retail_apis.Admin.Console.{
  password_changed, is_active_staff, must_differ, current_incorrect, unauthorized, StaffDevice,
  StaffRole, DeviceStatus, Console, ConsoleConfig, StaffUser, find_staff, update_staff,
  StaffRefreshToken, staff_token_key,
}
pub mod Reuse
use fiam_retail_apis.Common.{
  [], ◌*◌, none, ◌++◌, some, false, inr, true, inl, ◌+◌, Option, ℕ, Bool, String, ◌∷◌,
  if◌then◌else◌, not, is_some, ltb, any, text_eq, ◌&&◌, ◌==◌, update_where, find?,
}
use fiam_retail_apis.Common.Table.{update}
use fiam_retail_apis.Admin.Console.Act.{
  Act, pure, modify, gets, raise_if, ◌>>=◌, ◌>>◌, get_staff, audit_own,
}

pub record StaffSession : Type 0 where
  pub access_token : String
  pub refresh_token : String
  pub staff_id : ℕ
  pub role : StaffRole
  pub must_change_password : Bool
  pub two_factor_enabled : Bool

abbrev pub day_ms : ℕ
day_ms = 86400000

abbrev pub insert_staff_token : (ℕ → StaffRefreshToken) → Console → Console
insert_staff_token make s = record s {
  refresh_tokens = s.refresh_tokens ++ (make s.next_id ∷ []);
  next_id = s.next_id + 1;
}

abbrev pub staff_token :
    ConsoleConfig → StaffUser → ℕ → Option ℕ → String → ℕ → ℕ → StaffRefreshToken
staff_token c u family device fresh now id = record {
  id = id;
  staff_id = u.id;
  token_hash = c.sha256 fresh;
  family_id = family;
  device_id = device;
  expires_at = now + c.refresh_ttl_days * day_ms;
  revoked_at = none;
}

abbrev pub session_of : ConsoleConfig → StaffUser → Option ℕ → String → StaffSession
session_of c u device fresh = record {
  access_token = c.sign_access u.id device;
  refresh_token = fresh;
  staff_id = u.id;
  role = u.role;
  must_change_password = u.must_change_password;
  two_factor_enabled = is_some u.totp_enabled_at;
}

unfoldable pub issue_tokens : ConsoleConfig → StaffUser → ℕ → Option ℕ → String → Act StaffSession
issue_tokens c u family device fresh s = (
  inr (session_of c u device fresh),
  insert_staff_token (staff_token c u family device fresh s.now) s,
)

-- `randomUUID()`
unfoldable pub fresh_id : Act ℕ
fresh_id s = (inr s.next_id, record s { next_id = s.next_id + 1 })

abbrev pub is_live_staff_token : StaffRefreshToken → Bool
is_live_staff_token t = not (is_some t.revoked_at)

abbrev pub revoke_staff_token : ℕ → StaffRefreshToken → StaffRefreshToken
revoke_staff_token now t = record t { revoked_at = some now }

-- `UPDATE staff_refresh_tokens SET revoked_at = now() WHERE p AND revoked_at IS NULL`
abbrev pub revoke_tokens_where : (StaffRefreshToken → Bool) → Console → Console
revoke_tokens_where p s = record s {
  refresh_tokens =
      update_where (λ t. p t && is_live_staff_token t) (revoke_staff_token s.now) s.refresh_tokens;
}

abbrev pub in_family : ℕ → StaffRefreshToken → Bool
in_family family t = t.family_id == family

abbrev pub of_staff : ℕ → StaffRefreshToken → Bool
of_staff id t = t.staff_id == id

unfoldable pub revoke_family : ℕ → Act (Unit {0})
unfolding modify
revoke_family family = modify (revoke_tokens_where (in_family family))

abbrev pub has_token_hash : String → StaffRefreshToken → Bool
has_token_hash h t = text_eq t.token_hash h

abbrev pub find_token : String → Console → Option StaffRefreshToken
find_token h s = find? (has_token_hash h) s.refresh_tokens

abbrev pub is_active_device : DeviceStatus → Bool
is_active_device d = elim d [ DeviceStatus.active ↦ true | _ ↦ false ]

-- `existsBy({ id, staffId, status: ACTIVE })`
unfoldable pub is_active : ℕ → ℕ → Console → Bool
is_active device id s =
    any (λ (d : StaffDevice). d.id == device && (d.staff_id == id && is_active_device d.status))
      s.devices

abbrev pub device_serves : Option ℕ → ℕ → Console → Bool
device_serves none id s = false
device_serves (some device) id s = is_active device id s

-- `!staff || staff.status !== ACTIVE`
abbrev pub active_staff : Option StaffUser → Option StaffUser
active_staff none = none
active_staff (some u) = if is_active_staff u then some u else none

abbrev pub raced : Option Console → Console → Console
raced none s = s
raced (some other) s = other

abbrev pub revoke_one : ℕ → Console → Console
revoke_one id s = record s {
  refresh_tokens = update staff_token_key id (revoke_staff_token s.now) s.refresh_tokens;
}

-- From the write on: the token is spent, the device is looked up, and a new token is issued.
abbrev pub renew : ConsoleConfig → String → StaffRefreshToken → StaffUser → Act StaffSession
renew c fresh t u = do
  modify (revoke_one t.id)
  serves ← gets (device_serves t.device_id u.id)
  raise_if (c.device_required && not serves) unauthorized
  issue_tokens c u t.family_id t.device_id fresh

abbrev pub renew_for :
    ConsoleConfig
    → String
    → Option Console
    → StaffRefreshToken
    → Option StaffUser
    → Act StaffSession
renew_for c fresh race t none s = (inl unauthorized, raced race s)
renew_for c fresh race t (some u) s = renew c fresh t u (raced race s)

abbrev pub refresh_found :
    ConsoleConfig → String → Option Console → Option StaffRefreshToken → Act StaffSession
refresh_found c fresh race none s = (inl unauthorized, raced race s)
refresh_found c fresh race (some t) s =
    if not (is_live_staff_token t)
    then (inl unauthorized, revoke_tokens_where (in_family t.family_id) (raced race s))
    else if ltb t.expires_at s.now
    then (inl unauthorized, raced race s)
    else renew_for c fresh race t (active_staff (find_staff t.staff_id s)) s

unfoldable pub refresh_staff : ConsoleConfig → String → String → Option Console → Act StaffSession
unfolding ◌>>=◌
refresh_staff c raw fresh race s = refresh_found c fresh race (find_token (c.sha256 raw) s) s

abbrev pub end_family : Option StaffRefreshToken → Act (Unit {0})
end_family none = pure tt
end_family (some t) = revoke_family t.family_id

unfoldable pub logout_staff : ConsoleConfig → String → Act (Unit {0})
unfolding ◌>>=◌ revoke_family
logout_staff c raw s = end_family (find_token (c.sha256 raw) s) s

abbrev pub set_password : String → Bool → StaffUser → StaffUser
set_password h temporary u = record u { password_hash = h; must_change_password = temporary }

unfoldable pub change_staff_password :
    ConsoleConfig → ℕ → String → String → Option String → Option ℕ → String → Act StaffSession
unfolding ◌>>=◌ get_staff issue_tokens fresh_id
change_staff_password c id current new ip device fresh = do
  u ← get_staff id
  raise_if (not (c.argon2_verify u.password_hash current)) current_incorrect
  raise_if (text_eq current new) must_differ
  modify (update_staff u.id (set_password (c.argon2_hash new) false))
  modify (revoke_tokens_where (of_staff u.id))
  audit_own u password_changed ip
  family ← fresh_id
  issue_tokens c (record u { must_change_password = false }) family device fresh
