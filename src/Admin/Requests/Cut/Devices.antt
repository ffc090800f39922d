-- ===== src/Admin/Requests/Cut/Devices.antt =====
-- A device that was revoked serves nobody: what registers, approves and revokes devices keeps it so.
use fiam_retail_apis.Admin.Requests.Always.{challenge-Keeps}
use fiam_retail_apis.Admin.Console.{
  record_entry, ConsoleEntry, Credential, DeviceStatus, Console, ConsoleConfig, StaffDevice,
  device_key, StaffRefreshToken, StaffUser,
}
use fiam_retail_apis.Admin.Console.Devices.{
  Actor, device_count, max_devices_per_staff, is_revoked_device, is_pending_device, register_device,
  save_device, approve_device, revoke_device, update_device_where, is_pending_of, is_counted,
  revoke_row, approve_row, new_device, has_credential, is_device,
}
use fiam_retail_apis.Common.{
  leb, ◌++◌, String, [], Option, List, ◌∷◌, true, false, none, some, Bool, Bool-cases, inl, inr, ℕ,
  ◌≡◌, refl, every, arith, any, ◌&&◌, ◌==◌, every-update_where, count_where,
}
use fiam_retail_apis.Admin.Console.Sessions.{
  is_active_device, revoke_tokens_where, is_live_staff_token, device_serves, is_active,
}
use fiam_retail_apis.Common.Table.{every-append}
use fiam_retail_apis.Admin.Console.Act.{modify}
use fiam_retail_apis.Admin.Console.Holding.{Keeps, console_rules}
use fiam_retail_apis.Admin.Requests.Cut.{is_from, is_gone, is_closed, IsCut, steady}
use fiam_retail_apis.Admin.Requests.Cut.Sessions.{active-not_revoked}
use fiam_retail_apis.Admin.Requests.Steady.{entry-Keeps, revoked-Keeps}

clash : {b : Bool} → b ≡ true → b ≡ false → ⊥
clash h k = cc

module _ (owner device : ℕ) where
  -- A device that is gone does not serve its owner.
  pub gone-serves :
      (id staff : ℕ) (ds : List StaffDevice)
      → every (is_gone owner device) ds ≡ true
      → is_from owner device staff (some id) ≡ true
      → any
          (λ (d : StaffDevice). d.id == id && (d.staff_id == staff && is_active_device d.status))
          ds
        ≡ false
  gone-serves id staff [] gone same = refl
  gone-serves id staff (d ∷ ds) gone same =
      ground (arith, gone-serves id staff ds, active-not_revoked d.status)

  abbrev pub ServesOther : Option ℕ → ℕ → Bool → Type 0
  ServesOther did staff b = b ≡ true → is_from owner device staff did ≡ false

  pub device_serves-ServesOther :
      (did : Option ℕ) (staff : ℕ) (s : Console)
      → IsCut owner device s
      → ServesOther did staff (device_serves did staff s)
  unfolding is_active
  device_serves-ServesOther none staff s p serves = cc
  device_serves-ServesOther (some id) staff s p serves =
      elim (Bool-cases (is_from owner device staff (some id))) [
        | inr other ↦ other
        | inl same ↦ absurd (clash serves (gone-serves id staff s.devices p.0 same))
      ]

  pub closed-count :
      (ts : List StaffRefreshToken)
      → every (is_closed owner device) ts ≡ true
      → count_where
          (λ (t : StaffRefreshToken).
            is_from owner device t.staff_id t.device_id && is_live_staff_token t)
          ts
        ≡ 0
  closed-count [] closed = refl
  closed-count (t ∷ ts) closed = ground (arith, closed-count ts)

  module _ (c : ConsoleConfig) where
    insert-IsCut :
        (u : ℕ) (cred : Credential) (label : String) (status : DeviceStatus) (s : Console)
        → IsCut owner device s
        → every
            (is_gone owner device)
            (s.devices ++ (new_device u cred label status s.now s.next_id ∷ []))
          ≡ true
    insert-IsCut u cred label status s p =
        every-append device_key (is_gone owner device) s.devices
          (new_device u cred label status s.now s.next_id) p.0 (ground (arith, p.2))

    save-Keeps :
        (u : ℕ) (cred : Credential) (label : String) (status : DeviceStatus)
        → Keeps (IsCut owner device) (save_device u cred label status)
    unfolding save_device
    save-Keeps u cred label status = record {
      at = λ s p. elim (Bool-cases (leb max_devices_per_staff (device_count u s))) [
        | inl full ↦ rw full (p, tt)
        | inr room ↦ elim (Bool-cases (any (has_credential cred.id) s.devices)) [
          | inl taken ↦ rw (room, taken) (p, tt)
          | inr new ↦
              rw (room, new) ((insert-IsCut u cred label status s p, p.1, omega (arith, p.2)), tt)
        ]
      ];
    }

    where-Keeps :
        (q : StaffDevice → Bool) (id : ℕ) (f : StaffDevice → StaffDevice)
        → ((d : StaffDevice)
            → is_device id q d ≡ true
            → is_gone owner device d ≡ true
            → is_gone owner device (f d) ≡ true)
        → Keeps (IsCut owner device) (update_device_where q id f)
    where-Keeps q id f keeps = record {
      at = λ s p. elim (Bool-cases (any (is_device id q) s.devices)) [
        | inl found ↦ rw found (
          (
            every-update_where (is_gone owner device) (is_device id q) f s.devices keeps p.0,
            p.1,
            p.2,
          ),
          tt,
        )
        | inr missing ↦ rw missing (p, tt)
      ];
    }

    pending-kept : (st : DeviceStatus) → is_pending_device st ≡ true → is_revoked_device st ≡ false
    pending-kept DeviceStatus.pending e = refl
    pending-kept DeviceStatus.active e = refl
    pending-kept DeviceStatus.revoked e = cc

    approved-Keeps :
        (by id actor now : ℕ)
        → Keeps
            (IsCut owner device)
            (update_device_where (is_pending_of by) id (approve_row actor now))
    approved-Keeps by id actor now =
        where-Keeps (is_pending_of by) id (approve_row actor now)
          (λ d q gone. ground (arith, pending-kept d.status))

    gone_row-Keeps :
        (by id : ℕ) → Keeps (IsCut owner device) (update_device_where (is_counted by) id revoke_row)
    gone_row-Keeps by id = where-Keeps (is_counted by) id revoke_row (λ d q gone. ground arith)

    entry_of : (e : ConsoleEntry) → Keeps (IsCut owner device) (modify (record_entry e))
    entry_of e = entry-Keeps (steady owner device c) e

    tokens_of :
        (q : StaffRefreshToken → Bool) → Keeps (IsCut owner device) (modify (revoke_tokens_where q))
    tokens_of q = revoked-Keeps (steady owner device c) q

    pub registers-Keeps :
        (u : StaffUser) (challenge response label : String) (status : DeviceStatus)
        (ip : Option String)
        → Keeps (IsCut owner device) (register_device c u challenge response label status ip)
    unfolding register_device
    registers-Keeps u challenge response label status ip =
        search (console_rules, challenge-Keeps, save-Keeps, entry_of) depth 12

    pub approves-Keeps :
        (by id : ℕ) (actor : Actor) (ip : Option String)
        → Keeps (IsCut owner device) (approve_device by id actor ip)
    unfolding approve_device
    approves-Keeps by id actor ip = search (console_rules, approved-Keeps, entry_of)

    pub revokes-Keeps :
        (by id : ℕ) (actor : Actor) (ip : Option String)
        → Keeps (IsCut owner device) (revoke_device by id actor ip)
    unfolding revoke_device
    revokes-Keeps by id actor ip = search (console_rules, gone_row-Keeps, tokens_of, entry_of)
