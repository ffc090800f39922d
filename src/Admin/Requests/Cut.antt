-- ===== src/Admin/Requests/Cut.antt =====
-- A device that was revoked: what stays so, and the writes that keep it.
pub mod Sessions
pub mod Devices
pub mod Passwords
use fiam_retail_apis.Common.{
  [], String, Option, List, ◌∷◌, true, false, none, Bool, ◌<◌, ℕ, ◌≡◌, refl, every,
  every-update_where, arith, ◌&&◌, ◌||◌, not, holds_id, ◌==◌,
}
use fiam_retail_apis.Common.Table.{every-update, every-append}
use fiam_retail_apis.Admin.Console.{
  Console, ConsoleConfig, StaffDevice, StaffRefreshToken, staff_token_key, StaffUser,
}
use fiam_retail_apis.Admin.Console.Holding.{Keeps}
use fiam_retail_apis.Admin.Console.Devices.{is_revoked_device}
use fiam_retail_apis.Admin.Console.Sessions.{
  revoke_tokens_where, is_live_staff_token, issue_tokens, revoke_staff_token, staff_token,
}
use fiam_retail_apis.Admin.Requests.Steady.{Steady}
use fiam_retail_apis.Admin.Requests.Staffless.{Staffless, Deleted}
use fiam_retail_apis.Admin.Staff.{delete_where}

module _ (owner device : ℕ) where
  -- The member of staff and the device of a session.
  abbrev pub is_from : ℕ → Option ℕ → Bool
  is_from staff id = holds_id id device && staff == owner

  abbrev pub is_gone : StaffDevice → Bool
  is_gone d = not (d.id == device && d.staff_id == owner) || is_revoked_device d.status

  abbrev pub is_closed : StaffRefreshToken → Bool
  is_closed t = not (is_from t.staff_id t.device_id) || not (is_live_staff_token t)

  -- The device is revoked, no session from it is open, and no other device will have its key.
  abbrev pub IsCut : Console → Type 0
  IsCut s =
      (every is_gone s.devices ≡ true)
      × (every is_closed s.refresh_tokens ≡ true)
      × (device < s.next_id)

  pub revoked-IsCut :
      (q : StaffRefreshToken → Bool) (s : Console) → IsCut s → IsCut (revoke_tokens_where q s)
  revoked-IsCut q s (gone, closed, key) = (
    gone,
    every-update_where is_closed (λ t. q t && is_live_staff_token t) (revoke_staff_token s.now)
        s.refresh_tokens (λ t _ _. ground arith) closed,
    key,
  )

  every-delete :
      (q : StaffRefreshToken → Bool) (ts : List StaffRefreshToken)
      → every is_closed ts ≡ true
      → every is_closed (delete_where q ts) ≡ true
  every-delete q [] all = refl
  every-delete q (t ∷ ts) all = ground (arith, every-delete q ts)

  pub issued-Keeps :
      (c : ConsoleConfig) (u : StaffUser) (family : ℕ) (from : Option ℕ) (fresh : String)
      → is_from u.id from ≡ false
      → Keeps IsCut (issue_tokens c u family from fresh)
  unfolding issue_tokens
  issued-Keeps c u family from fresh other = record {
    at = λ s (gone, closed, key). (
      (
        gone,
        every-append staff_token_key is_closed s.refresh_tokens
            (staff_token c u family from fresh s.now s.next_id) closed (rw other refl),
        omega arith,
      ),
      tt,
    );
  }

  pub steady : (c : ConsoleConfig) → Steady c IsCut
  steady c = record {
    entry = λ e s p. p;
    own = λ id f s same p. p;
    drawn = λ s (gone, closed, key). (gone, closed, omega arith);
    revoked = revoked-IsCut;
    spent = λ id s (gone, closed, key). (
      gone,
      every-update staff_token_key is_closed id (revoke_staff_token s.now) s.refresh_tokens
          (λ t _ _. ground arith) closed,
      key,
    );
    issued = λ u family fresh _. issued-Keeps c u family none fresh refl;
    timed = λ now s p. p;
  }

  pub staffless : Staffless IsCut
  staffless = record {
    rows = λ us s p. p;
    entry = λ e s p. p;
    drawn = λ s (gone, closed, key). (gone, closed, omega arith);
    revoked = revoked-IsCut;
  }

  pub deleted : Deleted IsCut
  deleted q s (gone, closed, key) = (gone, every-delete q s.refresh_tokens closed, key)
