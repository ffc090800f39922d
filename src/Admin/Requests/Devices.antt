-- ===== src/Admin/Requests/Devices.antt =====
-- The limit on devices, through every request.
use fiam_retail_apis.Admin.Requests.Always.{
  challenge-Keeps, Always, Whatever, Along-Whatever, run-keeps,
}
use fiam_retail_apis.Admin.Console.{
  record_entry, StaffRefreshToken, ConsoleEntry, StaffUser, DeviceStatus, Credential, Console,
  ConsoleConfig, StaffDevice, device_key,
}
use fiam_retail_apis.Admin.Console.Devices.{
  is_revoked_device, is_pending_device, Actor, max_devices_per_staff, device_count, is_counted,
  save_device, register_device, approve_device, revoke_device, update_device_where, is_pending_of,
  use_device, revoke_row, approve_row, new_device, has_credential, is_device,
}
use fiam_retail_apis.Admin.Requests.{Request, run}
use fiam_retail_apis.Common.{
  Option, List, [], ◌++◌, String, ◌∷◌, true, false, Bool, Bool-cases, inl, inr, leb, ◌≤◌, ℕ, ◌≡◌,
  refl, count_where, count_where-append, count_where-update_where, arith, any,
}
use fiam_retail_apis.Common.Table.{count_where-update}
use fiam_retail_apis.Admin.Console.Act.{modify}
use fiam_retail_apis.Admin.Console.Holding.{Keeps, console_rules, modify-Keeps}
use fiam_retail_apis.Admin.Console.Sessions.{revoke_tokens_where}
use fiam_retail_apis.Admin.Requests.Tokenless.{Tokenless}
use fiam_retail_apis.Admin.Requests.Tokenless
use fiam_retail_apis.Admin.Requests.Staffless
use fiam_retail_apis.Admin.Requests.Staffless.{Staffless}

-- No member of staff has more than three devices that are not revoked.
abbrev pub IsWithinLimit : Console → Type 0
IsWithinLimit s = (owner : ℕ) → device_count owner s ≤ max_devices_per_staff

tokenless : Tokenless IsWithinLimit
tokenless = record {
  saved = λ t s p. p;
  revoked = λ q s p. p;
  spent = λ id s p. p;
  entry = λ e s p. p;
  drawn = λ s p. p;
  own = λ id f s same p. p;
  used = λ id counter now s p owner.
      rw
        (count_where-update device_key (is_counted owner) id (use_device counter now) s.devices
          (λ d. refl))
        (p owner);
  timed = λ now s p. p;
}

staffless : Staffless IsWithinLimit
staffless = record {
  rows = λ us s p. p;
  entry = λ e s p. p;
  drawn = λ s p. p;
  revoked = λ q s p. p;
}

saved-IsWithinLimit :
    (owner : ℕ) (cred : Credential) (label : String) (status : DeviceStatus) (s : Console)
    → leb max_devices_per_staff (device_count owner s) ≡ false
    → IsWithinLimit s
    → (other : ℕ)
    → count_where
        (is_counted other)
        (s.devices ++ (new_device owner cred label status s.now s.next_id ∷ []))
      ≤ max_devices_per_staff
saved-IsWithinLimit owner cred label status s room p other = ground (
  arith,
  count_where-append (is_counted other) s.devices
      (new_device owner cred label status s.now s.next_id ∷ []),
  p other,
)

save-Keeps :
    (owner : ℕ) (cred : Credential) (label : String) (status : DeviceStatus)
    → Keeps IsWithinLimit (save_device owner cred label status)
unfolding save_device
save-Keeps owner cred label status = record {
  at = λ s p. elim (Bool-cases (leb max_devices_per_staff (device_count owner s))) [
    | inl full ↦ rw full (p, tt)
    | inr room ↦ elim (Bool-cases (any (has_credential cred.id) s.devices)) [
      | inl taken ↦ rw (room, taken) (p, tt)
      | inr new ↦ rw (room, new) (saved-IsWithinLimit owner cred label status s room p, tt)
    ]
  ];
}

where-Keeps :
    (q : StaffDevice → Bool) (id : ℕ) (f : StaffDevice → StaffDevice)
    → ((owner : ℕ) (d : StaffDevice)
        → is_device id q d ≡ true
        → is_counted owner (f d) ≡ true
        → is_counted owner d ≡ true)
    → Keeps IsWithinLimit (update_device_where q id f)
where-Keeps q id f keeps = record {
  at = λ s p. elim (Bool-cases (any (is_device id q) s.devices)) [
    | inl found ↦ rw found (
      λ owner. omega (
        arith,
        count_where-update_where (is_counted owner) (is_device id q) f s.devices (keeps owner),
        p owner,
      ),
      tt,
    )
    | inr missing ↦ rw missing (p, tt)
  ];
}

pending-counted : (st : DeviceStatus) → is_pending_device st ≡ true → is_revoked_device st ≡ false
pending-counted DeviceStatus.pending e = refl
pending-counted DeviceStatus.active e = refl
pending-counted DeviceStatus.revoked e = cc

approved-Keeps :
    (owner id actor now : ℕ)
    → Keeps IsWithinLimit (update_device_where (is_pending_of owner) id (approve_row actor now))
approved-Keeps owner id actor now =
    where-Keeps (is_pending_of owner) id (approve_row actor now)
      (λ o d q p. ground (arith, pending-counted d.status))

revoked-Keeps :
    (owner id : ℕ) → Keeps IsWithinLimit (update_device_where (is_counted owner) id revoke_row)
revoked-Keeps owner id = where-Keeps (is_counted owner) id revoke_row (λ o d q p. ground arith)

entry-Keeps : (e : ConsoleEntry) → Keeps IsWithinLimit (modify (record_entry e))
entry-Keeps e = modify-Keeps _ (λ s p. p)

tokens-Keeps : (p : StaffRefreshToken → Bool) → Keeps IsWithinLimit (modify (revoke_tokens_where p))
tokens-Keeps p = modify-Keeps _ (λ s q. q)

registers-Keeps :
    (c : ConsoleConfig) (u : StaffUser) (challenge response label : String) (status : DeviceStatus)
    (ip : Option String)
    → Keeps IsWithinLimit (register_device c u challenge response label status ip)
unfolding register_device
registers-Keeps c u challenge response label status ip =
    search (console_rules, challenge-Keeps, save-Keeps, entry-Keeps) depth 12

approves-Keeps :
    (owner id : ℕ) (by : Actor) (ip : Option String)
    → Keeps IsWithinLimit (approve_device owner id by ip)
unfolding approve_device
approves-Keeps owner id by ip = search (console_rules, approved-Keeps, entry-Keeps)

revokes-Keeps :
    (owner id : ℕ) (by : Actor) (ip : Option String)
    → Keeps IsWithinLimit (revoke_device owner id by ip)
unfolding revoke_device
revokes-Keeps owner id by ip = search (console_rules, revoked-Keeps, tokens-Keeps, entry-Keeps)

always : (c : ConsoleConfig) → Always c IsWithinLimit Whatever
always c = record {
  steady = Tokenless.steady c tokenless;
  renews = λ raw fresh _. Tokenless.renews c tokenless raw fresh;
  asserts = λ t k d r ip fresh _. Tokenless.asserts c tokenless t k d r ip fresh;
  changes = λ b old new ip fresh _. Tokenless.changes c tokenless b old new ip fresh;
  registers = registers-Keeps c;
  approves = approves-Keeps;
  revokes = revokes-Keeps;
  creates = Staffless.creates staffless c;
  updates = Staffless.updates staffless;
  removes = λ bearer id by ip _. Staffless.removes staffless (λ q s p. p) id by ip;
}

-- Whatever requests the console serves, in whatever order and at whatever times, no member of
-- staff has more than three devices that are not revoked, where none had before.
pub run-IsWithinLimit :
    (c : ConsoleConfig) (rs : List (ℕ × Request)) (s : Console)
    → IsWithinLimit s
    → IsWithinLimit (run c rs s)
run-IsWithinLimit c rs s within = run-keeps (always c) rs s (Along-Whatever rs) within
