-- ===== src/Admin/Requests/Locked.antt =====
-- With the device lock, password and second factor open no session.
use fiam_retail_apis.Admin.Requests.{
  post_change_password, post_refresh, post_device_assert, run, Request,
}
use fiam_retail_apis.Common.{
  Bool, ◌&&◌, [], ◌∷◌, true, false, ◌≤◌, ℕ, ◌≡◌, arith, count_where, count_where-update_where, List,
}
use fiam_retail_apis.Admin.Requests.Always.{Always, Along, run-keeps}
use fiam_retail_apis.Admin.Requests.Staffless
use fiam_retail_apis.Admin.Requests.Deviceless
use fiam_retail_apis.Admin.Requests.Staffless.{Staffless}
use fiam_retail_apis.Admin.Requests.Deviceless.{Deviceless}
use fiam_retail_apis.Admin.Staff.{delete_where}
use fiam_retail_apis.Common.Table.{update}
use fiam_retail_apis.Admin.Console.{Console, ConsoleConfig, StaffRefreshToken, staff_token_key}
use fiam_retail_apis.Admin.Console.Sessions.{is_live_staff_token, revoke_staff_token}
use fiam_retail_apis.Admin.Requests.Steady.{Steady}

-- The sessions that are open.
abbrev pub open_sessions : Console → ℕ
open_sessions s = count_where is_live_staff_token s.refresh_tokens

-- The requests that are neither the sign-in of a device, nor a refresh, nor a change of password.
abbrev pub IsOther : Request → Type 0
IsOther (post_device_assert _ _ _ _ _ _) = ⊥
IsOther (post_refresh _ _) = ⊥
IsOther (post_change_password _ _ _ _ _) = ⊥
IsOther _ = Unit

delete-open :
    (q : StaffRefreshToken → Bool) (ts : List StaffRefreshToken)
    → count_where is_live_staff_token (delete_where q ts) ≤ count_where is_live_staff_token ts
delete-open q [] = omega arith
delete-open q (t ∷ ts) = ground (arith, delete-open q ts)

update-open :
    (id now : ℕ) (ts : List StaffRefreshToken)
    → count_where is_live_staff_token (update staff_token_key id (revoke_staff_token now) ts)
      ≤ count_where is_live_staff_token ts
update-open id now [] = omega arith
update-open id now (t ∷ ts) = ground (arith, update-open id now ts)

module _ (c : ConsoleConfig) (required : c.device_required ≡ true) (n : ℕ) where
  abbrev IsBelow : Console → Type 0
  IsBelow s = open_sessions s ≤ n

  clash : {A : Type 0} → c.device_required ≡ false → A
  clash off = cc

  steady : Steady c IsBelow
  steady = record {
    entry = λ e s p. p;
    own = λ id f s same p. p;
    drawn = λ s p. p;
    revoked = λ q s p. omega (
      arith,
      count_where-update_where is_live_staff_token (λ t. q t && is_live_staff_token t)
          (revoke_staff_token s.now) s.refresh_tokens (λ t _ e. ground arith),
    );
    spent = λ id s p. omega (arith, update-open id s.now s.refresh_tokens);
    issued = λ u family fresh off. clash off;
    timed = λ now s p. p;
  }

  staffless : Staffless IsBelow
  staffless = record {
    rows = λ us s p. p;
    entry = λ e s p. p;
    drawn = λ s p. p;
    revoked = steady.revoked;
  }

  deviceless : Deviceless IsBelow
  deviceless = record {
    rows = λ ds s p. p;
    entry = λ e s p. p;
    drawn = λ s p. p;
    revoked = steady.revoked;
  }

  always : Always c IsBelow IsOther
  always = record {
    steady = steady;
    renews = λ raw fresh other. absurd other;
    asserts = λ t k d r ip fresh other. absurd other;
    changes = λ b old new ip fresh other. absurd other;
    registers = Deviceless.registers deviceless c;
    approves = Deviceless.approves deviceless;
    revokes = Deviceless.revokes deviceless;
    creates = Staffless.creates staffless c;
    updates = Staffless.updates staffless;
    removes = λ bearer id by ip _.
        Staffless.removes staffless (λ q s p. omega (arith, delete-open q s.refresh_tokens)) id by
          ip;
  }

-- Where the device lock is on, requests that are neither the sign-in of a device, nor a refresh, nor
-- a change of password open no session: after any of them, in any order and at any times, whatever
-- password or second factor they carry, no more sessions are open than before.
pub run-open_sessions :
    (c : ConsoleConfig) (rs : List (ℕ × Request)) (s : Console)
    → c.device_required ≡ true
    → Along IsOther rs
    → open_sessions (run c rs s) ≤ open_sessions s
run-open_sessions c rs s required others =
    run-keeps (always c required (open_sessions s)) rs s others (omega arith)
