-- ===== src/Admin/Requests/Reused.antt =====
-- A refresh token of the console that comes back kills its family, whatever requests came in between.
use fiam_retail_apis.Admin.Console.Sessions.Reuse.{rotated, killed, live_in_family}
use fiam_retail_apis.Common.Table.{
  found-first_passes, first_passes-found, first_passes-update, find, first_passes-update_where,
  first_passes, first_passes-append,
}
use fiam_retail_apis.Admin.Requests.{run, delete_staff, Request}
use fiam_retail_apis.Common.{
  inr, refl, none, false, arith, some, true, ◌&&◌, inl, not, ◌≡◌, List, Bool, Option, ℕ, String,
}
use fiam_retail_apis.Admin.Console.{
  staff_token_key, unauthorized, StaffRefreshToken, Console, ConsoleConfig,
}
use fiam_retail_apis.Admin.Console.Sessions.{
  in_family, revoke_staff_token, find_token, is_live_staff_token, StaffSession, has_token_hash,
  refresh_staff,
}
use fiam_retail_apis.Admin.Requests.Tokenless
use fiam_retail_apis.Admin.Requests.Staffless
use fiam_retail_apis.Admin.Requests.Deviceless
use fiam_retail_apis.Admin.Requests.Tokenless.{Tokenless}
use fiam_retail_apis.Admin.Requests.Deviceless.{Deviceless}
use fiam_retail_apis.Admin.Requests.Always.{Always, Along, run-keeps}
use fiam_retail_apis.Admin.Requests.Staffless.{Staffless}

-- The requests that are not the removal of an account, with which its tokens go.
abbrev pub IsNoRemoval : Request → Type 0
IsNoRemoval (delete_staff _ _ _) = ⊥
IsNoRemoval _ = Unit

module _ (h : String) (family : ℕ) where
  abbrev is_spent : StaffRefreshToken → Bool
  is_spent t = not (is_live_staff_token t) && in_family family t

  -- The token of this hash is revoked, and is one of the family.
  abbrev pub IsSpent : Console → Type 0
  IsSpent s = first_passes (has_token_hash h) is_spent s.refresh_tokens ≡ true

  tokenless : Tokenless IsSpent
  tokenless = record {
    saved = λ t s u. first_passes-append (has_token_hash h) is_spent s.refresh_tokens _ u;
    revoked = λ q s u.
        first_passes-update_where (has_token_hash h) is_spent (λ t. q t && is_live_staff_token t)
          (revoke_staff_token s.now) s.refresh_tokens (λ t. refl) (λ t v. ground arith) u;
    spent = λ id s u.
        first_passes-update (has_token_hash h) is_spent staff_token_key id
          (revoke_staff_token s.now) s.refresh_tokens (λ t. refl) (λ t v. ground arith) u;
    entry = λ e s u. u;
    drawn = λ s u. u;
    own = λ id f s same u. u;
    used = λ id counter now s u. u;
    timed = λ now s u. u;
  }

  deviceless : Deviceless IsSpent
  deviceless = record {
    rows = λ ds s u. u;
    entry = λ e s u. u;
    drawn = λ s u. u;
    revoked = tokenless.revoked;
  }

  staffless : Staffless IsSpent
  staffless = record {
    rows = λ us s u. u;
    entry = λ e s u. u;
    drawn = λ s u. u;
    revoked = tokenless.revoked;
  }

  always : (c : ConsoleConfig) → Always c IsSpent IsNoRemoval
  always c = record {
    steady = Tokenless.steady c tokenless;
    renews = λ raw fresh _. Tokenless.renews c tokenless raw fresh;
    asserts = λ t k d r ip fresh _. Tokenless.asserts c tokenless t k d r ip fresh;
    changes = λ b old new ip fresh _. Tokenless.changes c tokenless b old new ip fresh;
    registers = Deviceless.registers deviceless c;
    approves = Deviceless.approves deviceless;
    revokes = Deviceless.revokes deviceless;
    creates = Staffless.creates staffless c;
    updates = Staffless.updates staffless;
    removes = λ bearer id by ip allowed. absurd allowed;
  }

  -- What happens when it comes back.
  comes_back :
      (c : ConsoleConfig) (raw fresh : String) (race : Option Console) (s : Console)
      → c.sha256 raw ≡ h
      → IsSpent s
      → let again = refresh_staff c raw fresh race s in
        (again.0 ≡ inl unauthorized) × (live_in_family family again.1 ≡ 0)
  unfolding refresh_staff
  comes_back c raw fresh race s same u =
      let (k, found, spent) = first_passes-found (has_token_hash h) is_spent s.refresh_tokens u in
      rw (same, found, dead k spent, own k spent) (refl, killed family _ _)
    where
      dead : (k : StaffRefreshToken) → is_spent k ≡ true → is_live_staff_token k ≡ false
      dead k spent = ground arith

      own : (k : StaffRefreshToken) → is_spent k ≡ true → k.family_id ≡ family
      own k spent = ground arith

-- A refresh token of the console that was used, by a request that met no race, and comes back is
-- refused, whatever requests were served in between, one after the other and at whatever times, if
-- none of them removes an account, and whatever is committed while it is served; and after that no
-- token of its family is live: none of those that had replaced it either.
pub refresh_twice :
    (c : ConsoleConfig) (raw fresh other : String) (s : Console) (t : StaffRefreshToken)
    (a : StaffSession) (after : Console) (rs : List (ℕ × Request)) (now : ℕ) (race : Option Console)
    → find_token (c.sha256 raw) s ≡ some t
    → find staff_token_key t.id s.refresh_tokens ≡ some t
    → refresh_staff c raw fresh none s ≡ (inr a, after)
    → Along IsNoRemoval rs
    → let again = refresh_staff c raw other race (record (run c rs after) { now = now }) in
      (again.0 ≡ inl unauthorized) × (live_in_family t.family_id again.1 ≡ 0)
refresh_twice c raw fresh other s t a after rs now race found named first kept =
    let spent =
      found-first_passes (has_token_hash (c.sha256 raw)) (is_spent (c.sha256 raw) t.family_id)
        (revoke_staff_token s.now t) after.refresh_tokens
        (rotated c raw fresh s t found named a after first) (ground arith) in
    comes_back (c.sha256 raw) t.family_id c raw other race _ refl
      (run-keeps (always (c.sha256 raw) t.family_id c) rs after kept spent)
