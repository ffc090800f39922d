-- ===== src/Admin/Requests/Revoked.antt =====
-- A device that was revoked never serves again, whatever requests follow.
use fiam_retail_apis.Common.{
  inr, [], ◌∷◌, true, false, ◌<◌, ℕ, ◌≡◌, refl, every, arith, any, ◌&&◌, update_where, count_where,
  Option, List, String,
}
use fiam_retail_apis.Admin.Console.Devices.{
  update_device_where, revoke_device, is_counted, revoke_row, is_device, Actor, from_device,
}
use fiam_retail_apis.Admin.Requests.{Request, run}
use fiam_retail_apis.Admin.Console.Act.{◌>>=◌}
use fiam_retail_apis.Admin.Console.{Console, ConsoleConfig, StaffDevice, StaffRefreshToken}
use fiam_retail_apis.Admin.Console.Sessions.{is_live_staff_token, is_active, revoke_staff_token}
use fiam_retail_apis.Admin.Requests.Cut.{
  is_from, is_gone, is_closed, IsCut, steady, staffless, deleted,
}
use fiam_retail_apis.Admin.Requests.Cut.Sessions.{renews, asserts}
use fiam_retail_apis.Admin.Requests.Cut.Passwords.{changes}
use fiam_retail_apis.Admin.Requests.Cut.Devices.{
  closed-count, gone-serves, registers-Keeps, approves-Keeps, revokes-Keeps,
}
use fiam_retail_apis.Admin.Requests.Always.{Always, Whatever, Along-Whatever, run-keeps}
use fiam_retail_apis.Admin.Requests.Staffless

-- The sessions of a member of staff that are open and come from a device.
abbrev pub open_from : ℕ → ℕ → Console → ℕ
open_from owner device s =
    count_where
      (λ (t : StaffRefreshToken).
        is_from owner device t.staff_id t.device_id && is_live_staff_token t)
      s.refresh_tokens

module _ (owner device : ℕ) where
  always : (c : ConsoleConfig) → c.device_required ≡ true → Always c (IsCut owner device) Whatever
  always c required = record {
    steady = steady owner device c;
    renews = λ raw fresh _. renews owner device c raw fresh;
    asserts = λ t k d r ip fresh _. asserts owner device c t k d r ip fresh;
    changes = λ b old new ip fresh _. changes owner device c required b old new ip fresh;
    registers = registers-Keeps owner device c;
    approves = approves-Keeps owner device c;
    revokes = revokes-Keeps owner device c;
    creates = Staffless.creates (staffless owner device) c;
    updates = Staffless.updates (staffless owner device);
    removes = λ bearer id by ip _.
        Staffless.removes (staffless owner device) (deleted owner device) id by ip;
  }

  all-gone :
      (ds : List StaffDevice)
      → every
          (is_gone owner device)
          (update_where (is_device device (is_counted owner)) revoke_row ds)
        ≡ true
  all-gone [] = refl
  all-gone (d ∷ ds) = ground (arith, all-gone ds)

  all-closed :
      (now : ℕ) (ts : List StaffRefreshToken)
      → every (is_closed owner device) (
          update_where
            (λ t. from_device device t && is_live_staff_token t)
            (revoke_staff_token now)
            ts)
        ≡ true
  all-closed now [] = refl
  all-closed now (t ∷ ts) = ground (arith, all-closed now ts)

  revoked_row :
      (s : Console)
      → any (is_device device (is_counted owner)) s.devices ≡ true
      → update_device_where (is_counted owner) device revoke_row s ≡ (
        inr tt,
        record s {
          devices = update_where (is_device device (is_counted owner)) revoke_row s.devices;
        },
      )
  revoked_row s found = rw found refl

  revoke-IsCut :
      (by : Actor) (ip : Option String) (s : Console)
      → device < s.next_id
      → any (is_device device (is_counted owner)) s.devices ≡ true
      → IsCut owner device (revoke_device owner device by ip s).1
  unfolding revoke_device
  revoke-IsCut by ip s key found =
      rw (◌>>=◌, revoked_row s found, revoked_row s found)
        (all-gone s.devices, all-closed s.now s.refresh_tokens, key)

-- Where the device lock is on: once a device has been revoked, whatever requests the console serves
-- after that and at whatever times, the device is not active, and no session from it is open.
pub revoke_device-final :
    (c : ConsoleConfig) (owner device : ℕ) (by : Actor) (ip : Option String) (s : Console)
    (rs : List (ℕ × Request))
    → c.device_required ≡ true
    → device < s.next_id
    → any (is_device device (is_counted owner)) s.devices ≡ true
    → let later = run c rs (revoke_device owner device by ip s).1 in
      (is_active device owner later ≡ false) × (open_from owner device later ≡ 0)
unfolding is_active
revoke_device-final c owner device by ip s rs required key found =
    let cut =
      run-keeps (always owner device c required) rs (revoke_device owner device by ip s).1
        (Along-Whatever rs) (revoke-IsCut owner device by ip s key found) in
    (
      gone-serves owner device device owner _ cut.0 (ground arith),
      closed-count owner device _ cut.1,
    )
