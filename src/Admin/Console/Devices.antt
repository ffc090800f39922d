-- ===== src/Admin/Console/Devices.antt =====
-- apps/admin/src/auth/devices.service.ts: the passkeys that a member of staff signs in with. The
-- options for the browser are left out, but for the checks that refuse them.
use fiam_retail_apis.Common.{
  update_where, ◌+◌, [], ◌++◌, false, none, inl, some, Option, inr, true, ℕ, Bool, String, ◌∷◌,
  if◌then◌else◌, not, ltb, leb, any, text_eq, ◌&&◌, ◌==◌, holds_id, find?, trim, slice, count_where,
}
use fiam_retail_apis.Admin.Console.{
  not_verified, not_found, device_requested, device_approved, device_added, device_exists,
  device_revoked, registering, not_approved, check_expired, authenticating, no_approved_device,
  StaffRefreshToken, device_limit, ConsoleAction, Credential, ChallengeKind, DeviceStatus, Console,
  ConsoleConfig, StaffUser, StaffDevice, device_key, record_entry,
}
use fiam_retail_apis.Common.Table.{update}
use fiam_retail_apis.Admin.Console.Act.{Act, pure, modify, gets, raise_if, or_raise, ◌>>=◌, ◌>>◌}
use fiam_retail_apis.Admin.Console.Sessions.{is_active_device, revoke_tokens_where}

abbrev pub max_devices_per_staff : ℕ
max_devices_per_staff = 3

abbrev pub is_revoked_device : DeviceStatus → Bool
is_revoked_device d = elim d [ DeviceStatus.revoked ↦ true | _ ↦ false ]

abbrev pub is_pending_device : DeviceStatus → Bool
is_pending_device d = elim d [ DeviceStatus.pending ↦ true | _ ↦ false ]

-- `staffId, status: Not(REVOKED)`
abbrev pub is_counted : ℕ → StaffDevice → Bool
is_counted owner d = d.staff_id == owner && not (is_revoked_device d.status)

abbrev pub device_count : ℕ → Console → ℕ
device_count owner s = count_where (is_counted owner) s.devices

pub record DeviceState : Type 0 where
  pub has_active : Bool
  pub has_pending : Bool
  pub can_register : Bool

unfoldable pub device_state : ℕ → Console → DeviceState
device_state owner s = record {
  has_active = any (λ (d : StaffDevice). is_counted owner d && is_active_device d.status) s.devices;
  has_pending =
      any (λ (d : StaffDevice). is_counted owner d && is_pending_device d.status) s.devices;
  can_register = ltb (device_count owner s) max_devices_per_staff;
}

abbrev pub kind_eq : ChallengeKind → ChallengeKind → Bool
kind_eq registering registering = true
kind_eq authenticating authenticating = true
kind_eq _ _ = false

abbrev pub challenge_of : ℕ → ChallengeKind → Option (ℕ × (ChallengeKind × String)) → Option String
challenge_of owner kind none = none
challenge_of owner kind (some (sub, (k, ch))) =
    if sub == owner && kind_eq k kind then some ch else none

unfoldable pub read_challenge : ConsoleConfig → String → ℕ → ChallengeKind → Act String
unfolding or_raise
read_challenge c token owner kind s =
    or_raise (challenge_of owner kind (c.verify_challenge_token token s.now)) check_expired s

-- Whether `registrationOptions` and `authenticationOptions` answer at all.
unfoldable pub registration_options : ℕ → Act (Unit {0})
unfolding raise_if
registration_options owner s =
    raise_if (leb max_devices_per_staff (device_count owner s)) device_limit s

unfoldable pub authentication_options : ℕ → Act (Unit {0})
unfolding raise_if
authentication_options owner s =
    raise_if (not (device_state owner s).has_active) no_approved_device s

abbrev pub label_or : String → String
label_or l = if text_eq l "" then "Unnamed device" else l

-- `status === ACTIVE ? x : null`
abbrev pub when_active : DeviceStatus → ℕ → Option ℕ
when_active d x = if is_active_device d then some x else none

abbrev pub new_device : ℕ → Credential → String → DeviceStatus → ℕ → ℕ → StaffDevice
new_device owner cred label status now id = record {
  id = id;
  staff_id = owner;
  label = label_or (slice 60 (trim label));
  credential_id = cred.id;
  public_key = cred.public_key;
  counter = cred.counter;
  status = status;
  approved_by = when_active status owner;
  approved_at = when_active status now;
  last_used_at = none;
}

abbrev pub has_credential : String → StaffDevice → Bool
has_credential credential d = text_eq d.credential_id credential

abbrev pub insert_device : (ℕ → StaffDevice) → Act StaffDevice
insert_device make s = (
  inr (make s.next_id),
  record s { devices = s.devices ++ (make s.next_id ∷ []); next_id = s.next_id + 1 },
)

-- The transaction that holds the lock on the staff row: nothing is written before it throws.
unfoldable pub save_device : ℕ → Credential → String → DeviceStatus → Act StaffDevice
unfolding ◌>>=◌
save_device owner cred label status = do
  count ← gets (device_count owner)
  raise_if (leb max_devices_per_staff count) device_limit
  taken ← gets (λ s. any (has_credential cred.id) s.devices)
  raise_if taken device_exists
  now ← gets (λ s. s.now)
  insert_device (new_device owner cred label status now)

abbrev pub device_entry : ℕ → String → ConsoleAction → ℕ → Option String → Act (Unit {0})
device_entry id email action device ip = modify (
    record_entry (record {
      staff_id = some id;
      staff_email = email;
      action = action;
      resource_id = some device;
      ip = ip;
    }))

abbrev pub added_action : DeviceStatus → ConsoleAction
added_action d = if is_active_device d then device_added else device_requested

unfoldable pub register_device :
    ConsoleConfig
    → StaffUser
    → String
    → String
    → String
    → DeviceStatus
    → Option String
    → Act StaffDevice
unfolding ◌>>=◌ read_challenge save_device
register_device c u challenge response label status ip = do
  expected ← read_challenge c challenge u.id registering
  cred ← or_raise (c.verify_registration response expected) not_verified
  saved ← save_device u.id cred label status
  device_entry u.id u.email (added_action status) saved.id ip
  pure saved

-- `findOne({ credentialId, staffId, status: ACTIVE })`
abbrev pub is_approved : String → ℕ → StaffDevice → Bool
is_approved credential owner d =
    has_credential credential d && (d.staff_id == owner && is_active_device d.status)

abbrev pub use_device : ℕ → ℕ → StaffDevice → StaffDevice
use_device counter now d = record d { counter = counter; last_used_at = some now }

abbrev pub update_device : ℕ → (StaffDevice → StaffDevice) → Console → Console
update_device id f s = record s { devices = update device_key id f s.devices }

-- `credential` is the response's `id`.
unfoldable pub authenticate : ConsoleConfig → ℕ → String → String → String → Act StaffDevice
unfolding ◌>>=◌ read_challenge
authenticate c owner challenge credential response = do
  expected ← read_challenge c challenge owner authenticating
  found ← gets (λ s. find? (is_approved credential owner) s.devices)
  d ← or_raise found not_approved
  counter ← or_raise (c.verify_authentication d response expected) not_approved
  now ← gets (λ s. s.now)
  modify (update_device d.id (use_device counter now))
  pure d

-- The member of staff who acts on another's account.
pub record Actor : Type 0 where
  pub staff_id : ℕ
  pub email : String

-- `UPDATE … WHERE id AND staffId AND status …`, a 404 where `affected` is 0.
abbrev pub is_device : ℕ → (StaffDevice → Bool) → StaffDevice → Bool
is_device id p d = d.id == id && p d

abbrev pub update_device_where :
    (StaffDevice → Bool) → ℕ → (StaffDevice → StaffDevice) → Act (Unit {0})
update_device_where p id f s =
    if any (is_device id p) s.devices
    then (inr tt, record s { devices = update_where (is_device id p) f s.devices })
    else (inl not_found, s)

abbrev pub approve_row : ℕ → ℕ → StaffDevice → StaffDevice
approve_row actor now d = record d {
  status = DeviceStatus.active;
  approved_by = some actor;
  approved_at = some now;
}

abbrev pub is_pending_of : ℕ → StaffDevice → Bool
is_pending_of owner d = d.staff_id == owner && is_pending_device d.status

unfoldable pub approve_device : ℕ → ℕ → Actor → Option String → Act (Unit {0})
unfolding ◌>>=◌
approve_device owner device actor ip = do
  now ← gets (λ s. s.now)
  update_device_where (is_pending_of owner) device (approve_row actor.staff_id now)
  device_entry actor.staff_id actor.email device_approved device ip

abbrev pub from_device : ℕ → StaffRefreshToken → Bool
from_device device t = holds_id t.device_id device

abbrev pub revoke_row : StaffDevice → StaffDevice
revoke_row d = record d { status = DeviceStatus.revoked }

unfoldable pub revoke_device : ℕ → ℕ → Actor → Option String → Act (Unit {0})
unfolding ◌>>=◌
revoke_device owner device actor ip = do
  update_device_where (is_counted owner) device revoke_row
  modify (revoke_tokens_where (from_device device))
  device_entry actor.staff_id actor.email device_revoked device ip
