-- ===== src/Admin/Requests/Deviceless.antt =====
-- The invariants that do not read the devices: registrations, approvals and revocations of devices
-- keep them.
use fiam_retail_apis.Common.{inr, inl, any, Bool-cases, Option, String, Bool, ℕ, List, ◌+◌}
use fiam_retail_apis.Admin.Console.Devices.{
  is_device, update_device_where, insert_device, Actor, register_device, approve_device,
  revoke_device, save_device,
}
use fiam_retail_apis.Admin.Requests.Always.{challenge-Keeps}
use fiam_retail_apis.Admin.Console.{
  DeviceStatus, StaffUser, ConsoleConfig, record_entry, Credential, ConsoleEntry, StaffRefreshToken,
  StaffDevice, Console,
}
use fiam_retail_apis.Admin.Console.Holding.{console_rules, modify-Keeps, Keeps}
use fiam_retail_apis.Admin.Console.Sessions.{revoke_tokens_where}
use fiam_retail_apis.Admin.Console.Act.{modify}

pub record Deviceless (P : Console → Type 0) : Type 0 where
  pub rows : (ds : List StaffDevice) (s : Console) → P s → P (record s { devices = ds })
  pub entry : (e : ConsoleEntry) (s : Console) → P s → P (record_entry e s)
  pub drawn : (s : Console) → P s → P (record s { next_id = s.next_id + 1 })
  pub revoked : (q : StaffRefreshToken → Bool) (s : Console) → P s → P (revoke_tokens_where q s)

module _ {P : Console → Type 0} (h : Deviceless P) where
  entry-Keeps : (e : ConsoleEntry) → Keeps P (modify (record_entry e))
  entry-Keeps e = modify-Keeps _ (h.entry e)

  tokens-Keeps : (q : StaffRefreshToken → Bool) → Keeps P (modify (revoke_tokens_where q))
  tokens-Keeps q = modify-Keeps _ (h.revoked q)

  devices-Keeps :
      (q : StaffDevice → Bool) (id : ℕ) (f : StaffDevice → StaffDevice)
      → Keeps P (update_device_where q id f)
  devices-Keeps q id f = record {
    at = λ s p. elim (Bool-cases (any (is_device id q) s.devices)) [
      | inl found ↦ rw found (h.rows _ s p, tt)
      | inr missing ↦ rw missing (p, tt)
    ];
  }

  pub approves :
      (owner id : ℕ) (by : Actor) (ip : Option String) → Keeps P (approve_device owner id by ip)
  unfolding approve_device
  approves owner id by ip = search (console_rules, devices-Keeps, entry-Keeps)

  pub revokes :
      (owner id : ℕ) (by : Actor) (ip : Option String) → Keeps P (revoke_device owner id by ip)
  unfolding revoke_device
  revokes owner id by ip = search (console_rules, devices-Keeps, tokens-Keeps, entry-Keeps)

  device_inserted-Keeps : (make : ℕ → StaffDevice) → Keeps P (insert_device make)
  device_inserted-Keeps make = record { at = λ s p. (h.rows _ _ (h.drawn s p), tt) }

  save-Keeps :
      (owner : ℕ) (cred : Credential) (label : String) (status : DeviceStatus)
      → Keeps P (save_device owner cred label status)
  unfolding save_device
  save-Keeps owner cred label status = search (console_rules, device_inserted-Keeps) depth 12

  pub registers :
      (c : ConsoleConfig) (u : StaffUser) (challenge response label : String)
      (status : DeviceStatus) (ip : Option String)
      → Keeps P (register_device c u challenge response label status ip)
  unfolding register_device
  registers c u challenge response label status ip =
      search (console_rules, challenge-Keeps, save-Keeps, entry-Keeps) depth 12
