-- ===== src/Admin/Requests/Cut/Sessions.antt =====
-- A device that was revoked opens no session: refreshes, device sign-ins and password changes.
use fiam_retail_apis.Admin.Requests.Always.{challenge-Keeps}
use fiam_retail_apis.Admin.Console.Holding.{
  Answers-Any, bind-Keeps, gets-Keeps, Holds, Keeps, Any, console_rules, modify-Keeps,
  or_raise-Keeps, or_raise-Holds, gets-Holds, bind-Holds, pure-Holds,
}
use fiam_retail_apis.Admin.Requests.Steady.{fresh_id-Keeps, entry-Keeps, logged-Keeps, read-Keeps}
use fiam_retail_apis.Admin.Console.Sessions.{
  fresh_id, is_active_device, is_live_staff_token, issue_tokens, renew, renew_for, refresh_found,
  revoke_one, active_staff, refresh_staff, find_token, has_token_hash,
}
use fiam_retail_apis.Admin.Console.{
  login, MfaStep, update_staff, not_approved, DeviceStatus, authenticating, Console, ConsoleConfig,
  StaffDevice, device_key, StaffRefreshToken, staff_key, StaffUser, find_staff,
}
use fiam_retail_apis.Admin.Console.Act.{audit_own, pure, gets, or_raise, ◌>>=◌, ◌>>◌, modify}
use fiam_retail_apis.Admin.Console.SignIn.{has_logged_in, device_assert, finish_login}
use fiam_retail_apis.Admin.Console.Devices.{
  is_revoked_device, authenticate, is_approved, use_device, update_device,
}
use fiam_retail_apis.Common.{
  Option, String, true, false, none, some, Bool-cases, inl, inr, ℕ, ◌≡◌, refl, every-find?, arith,
  find?, ltb,
}
use fiam_retail_apis.Common.Table.{find?-holds, every-update, key-find}
use fiam_retail_apis.Admin.Requests.Cut.{
  is_from, is_gone, is_closed, IsCut, issued-Keeps, steady, revoked-IsCut,
}

pub active-not_revoked :
    (st : DeviceStatus) → is_active_device st ≡ true → is_revoked_device st ≡ false
active-not_revoked DeviceStatus.pending e = cc
active-not_revoked DeviceStatus.active e = refl
active-not_revoked DeviceStatus.revoked e = cc

module _ (owner device : ℕ) (c : ConsoleConfig) where
  spend-Keeps : (id : ℕ) → Keeps (IsCut owner device) (modify (revoke_one id))
  spend-Keeps id = modify-Keeps _ ((steady owner device c).spent id)

  renew_issued :
      (fresh : String) (t : StaffRefreshToken) (u : StaffUser)
      → Keeps (IsCut owner device) (issue_tokens c u t.family_id t.device_id fresh)
      → Keeps (IsCut owner device) (renew c fresh t u)
  renew_issued fresh t u issued = search (console_rules, spend-Keeps)

  renew-Keeps :
      (fresh : String) (t : StaffRefreshToken) (u : StaffUser)
      → is_from owner device u.id t.device_id ≡ false
      → Keeps (IsCut owner device) (renew c fresh t u)
  renew-Keeps fresh t u other =
      renew_issued fresh t u (issued-Keeps owner device c u t.family_id t.device_id fresh other)

  renew_for-Keeps :
      (fresh : String) (t : StaffRefreshToken) (u : Option StaffUser)
      → ((v : StaffUser) → u ≡ some v → is_from owner device v.id t.device_id ≡ false)
      → Keeps (IsCut owner device) (renew_for c fresh none t u)
  renew_for-Keeps fresh t none other = record { at = λ s p. (p, tt) }
  renew_for-Keeps fresh t (some u) other = record { at = (renew-Keeps fresh t u (other u refl)).at }

  active-key :
      (id : ℕ) (o : Option StaffUser) (v : StaffUser)
      → ((u : StaffUser) → o ≡ some u → u.id ≡ id)
      → active_staff o ≡ some v
      → v.id ≡ id
  active-key id none v named e = cc
  active-key id (some u) v named e = ground (arith, named u refl)

  found-Keeps :
      (fresh : String) (t : Option StaffRefreshToken) (s : Console)
      → ((r : StaffRefreshToken) → t ≡ some r → is_closed owner device r ≡ true)
      → IsCut owner device s
      → IsCut owner device (refresh_found c fresh none t s).1
  found-Keeps fresh none s closed p = p
  found-Keeps fresh (some t) s closed p = elim (Bool-cases (is_live_staff_token t)) [
    | inr dead ↦ rw dead (revoked-IsCut owner device _ s p)
    | inl alive ↦ elim (Bool-cases (ltb t.expires_at s.now)) [
      | inl late ↦ rw (alive, late) p
      | inr valid ↦
          rw (alive, valid)
            ((renew_for-Keeps fresh t (active_staff (find_staff t.staff_id s)) (other alive)).at s
              p).0
    ]
  ]
    where
      other :
          is_live_staff_token t ≡ true
          → (v : StaffUser) → active_staff (find_staff t.staff_id s) ≡ some v
          → is_from owner device v.id t.device_id ≡ false
      other alive v e = ground (
        arith,
        active-key t.staff_id (find_staff t.staff_id s) v
            (λ u found. key-find staff_key t.staff_id u s.staff found) e,
        closed t refl,
      )

  pub renews : (raw fresh : String) → Keeps (IsCut owner device) (refresh_staff c raw fresh none)
  unfolding refresh_staff
  renews raw fresh = record {
    at = λ s p. (
      found-Keeps fresh (find_token (c.sha256 raw) s) s
          (λ r found.
            every-find? (is_closed owner device) (has_token_hash (c.sha256 raw)) r s.refresh_tokens
              found p.1)
          p,
      Answers-Any (refresh_found c fresh none (find_token (c.sha256 raw) s) s).0,
    );
  }

  use-Keeps :
      (id counter now : ℕ)
      → Keeps (IsCut owner device) (modify (update_device id (use_device counter now)))
  use-Keeps id counter now = modify-Keeps _ (λ s p. (
    every-update device_key (is_gone owner device) id (use_device counter now) s.devices
        (λ d _ gone. gone) p.0,
    p.1,
    p.2,
  ))

  -- The device that has signed is another one.
  abbrev IsOther : ℕ → StaffDevice → Type 0
  IsOther who d = is_from owner device who (some d.id) ≡ false

  abbrev AllOther : ℕ → Option StaffDevice → Type 0
  AllOther who o = (d : StaffDevice) → o ≡ some d → IsOther who d

  approved-AllOther :
      (credential : String) (who : ℕ) (s : Console)
      → IsCut owner device s
      → AllOther who (find? (is_approved credential who) s.devices)
  approved-AllOther credential who s p d found = ground (
    arith,
    every-find? (is_gone owner device) (is_approved credential who) d s.devices found p.0,
    find?-holds device_key (is_approved credential who) d s.devices found,
    active-not_revoked d.status,
  )

  signed-IsOther :
      (who : ℕ) (d : StaffDevice) (response expected : String)
      → IsOther who d
      → Holds (IsCut owner device) (IsOther who) (do
        counter ← or_raise (c.verify_authentication d response expected) not_approved
        now ← gets (λ s. s.now)
        modify (update_device d.id (use_device counter now))
        pure d)
  signed-IsOther who d response expected other =
      bind-Holds Any (or_raise (c.verify_authentication d response expected) not_approved) _
        (or_raise-Keeps (c.verify_authentication d response expected) not_approved)
        (λ counter _. bind-Holds Any (gets (λ s. s.now)) _ (gets-Keeps (λ s. s.now)) (λ now _.
          bind-Holds Any (modify (update_device d.id (use_device counter now))) _
            (use-Keeps d.id counter now) (λ _ _. pure-Holds d other)))

  authenticate-IsOther :
      (who : ℕ) (challenge credential response : String)
      → Holds (IsCut owner device) (IsOther who) (authenticate c who challenge credential response)
  unfolding authenticate
  authenticate-IsOther who challenge credential response =
      bind-Holds Any _ _ (challenge-Keeps c challenge who authenticating) (λ expected _.
        bind-Holds (AllOther who) _ _
          (gets-Holds (AllOther who) _ (λ s p. approved-AllOther credential who s p))
          (λ found all.
            bind-Holds (IsOther who) _ _ (or_raise-Holds (IsOther who) found not_approved all)
              (λ d other. signed-IsOther who d response expected other)))

  finish-Keeps :
      (u : StaffUser) (ip : Option String) (d : StaffDevice) (fresh : String)
      → IsOther u.id d
      → Keeps (IsCut owner device) (finish_login c u ip (some d.id) fresh)
  unfolding finish_login
  finish-Keeps u ip d fresh other = bind-Keeps (gets (λ s. s.now)) _ (gets-Keeps _) (λ now.
      bind-Keeps (modify (update_staff u.id (has_logged_in now))) _
        (logged-Keeps (steady owner device c) u.id now)
        (λ _. bind-Keeps (audit_own u login ip) _ (entry-Keeps (steady owner device c) _) (λ _.
          bind-Keeps fresh_id _ (fresh_id-Keeps (steady owner device c))
            (λ family. issued-Keeps owner device c u family (some d.id) fresh other))))

  pub asserts :
      (token challenge credential response : String) (ip : Option String) (fresh : String)
      → Keeps (IsCut owner device) (device_assert c token challenge credential response ip fresh)
  unfolding device_assert
  asserts token challenge credential response ip fresh =
      bind-Keeps _ _ (read-Keeps (steady owner device c) token MfaStep.device) (λ u.
        bind-Holds (IsOther u.id) _ _ (authenticate-IsOther u.id challenge credential response)
          (λ d other. finish-Keeps u ip d fresh other))
