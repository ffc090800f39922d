-- ===== src/Admin/Requests/Tokenless.antt =====
-- The invariants that survive a new refresh token and a revocation, such as those that do not read
-- the tokens: refreshes, sign-ins from a device and password changes keep them.
use fiam_retail_apis.Admin.Console.Sessions.{
  revoke_tokens_where, fresh_id, refresh_staff, change_staff_password, issue_tokens, renew,
  renew_for, refresh_found, revoke_one, is_live_staff_token, find_token, active_staff,
}
use fiam_retail_apis.Common.{
  Bool, [], ◌++◌, ◌∷◌, ◌+◌, Option, ℕ, String, none, some, Bool-cases, inl, inr, ltb,
}
use fiam_retail_apis.Admin.Requests.{post_change_password, serve}
use fiam_retail_apis.Admin.Requests.Always.{challenge-Keeps, authorise-Keeps}
use fiam_retail_apis.Admin.Console.{
  Console, ConsoleConfig, StaffUser, StaffRefreshToken, record_entry, ConsoleEntry, update_staff,
  find_staff,
}
use fiam_retail_apis.Admin.Console.Devices.{authenticate, update_device, use_device}
use fiam_retail_apis.Admin.Console.Act.{modify}
use fiam_retail_apis.Admin.Console.Holding.{Keeps, console_rules, modify-Keeps}
use fiam_retail_apis.Admin.Console.SignIn.{device_assert, finish_login}
use fiam_retail_apis.Admin.Requests.Steady.{
  Steady, IsOwn, read-Keeps, entry-Keeps, fresh_id-Keeps, logged-Keeps, revoked-Keeps,
}
use fiam_retail_apis.Admin.Requests.Enrolled.{password_set-Keeps}

pub record Tokenless (P : Console → Type 0) : Type 0 where
  pub saved :
      (t : StaffRefreshToken) (s : Console)
      → P s
      → P (record s { refresh_tokens = s.refresh_tokens ++ (t ∷ []) })
  pub revoked : (q : StaffRefreshToken → Bool) (s : Console) → P s → P (revoke_tokens_where q s)
  pub spent : (id : ℕ) (s : Console) → P s → P (revoke_one id s)
  pub entry : (e : ConsoleEntry) (s : Console) → P s → P (record_entry e s)
  pub drawn : (s : Console) → P s → P (record s { next_id = s.next_id + 1 })
  pub own :
      (id : ℕ) (f : StaffUser → StaffUser) (s : Console) → IsOwn f → P s → P (update_staff id f s)
  pub used :
      (id counter now : ℕ) (s : Console) → P s → P (update_device id (use_device counter now) s)
  pub timed : (now : ℕ) (s : Console) → P s → P (record s { now = now })

module _ (c : ConsoleConfig) {P : Console → Type 0} (h : Tokenless P) where
  issue-Keeps :
      (u : StaffUser) (family : ℕ) (from : Option ℕ) (fresh : String)
      → Keeps P (issue_tokens c u family from fresh)
  unfolding issue_tokens
  issue-Keeps u family from fresh = record { at = λ s p. (h.saved _ _ (h.drawn s p), tt) }

  pub steady : Steady c P
  steady = record {
    entry = h.entry;
    own = h.own;
    drawn = h.drawn;
    revoked = h.revoked;
    spent = h.spent;
    issued = λ u family fresh _. issue-Keeps u family none fresh;
    timed = h.timed;
  }

  spend-Keeps : (id : ℕ) → Keeps P (modify (revoke_one id))
  spend-Keeps id = modify-Keeps _ (h.spent id)

  renew_for-Keeps :
      (fresh : String) (t : StaffRefreshToken) (u : Option StaffUser)
      → Keeps P (renew_for c fresh none t u)
  renew_for-Keeps fresh t none = record { at = λ s p. (p, tt) }
  renew_for-Keeps fresh t (some u) = record { at = (renew-Keeps u).at }
    where
      renew-Keeps : (u : StaffUser) → Keeps P (renew c fresh t u)
      renew-Keeps u = search (console_rules, spend-Keeps, issue-Keeps)

  found-Keeps :
      (fresh : String) (t : Option StaffRefreshToken) → Keeps P (refresh_found c fresh none t)
  found-Keeps fresh none = record { at = λ s p. (p, tt) }
  found-Keeps fresh (some t) = record {
    at = λ s. elim (Bool-cases (is_live_staff_token t)) [
      | inr dead ↦ rw dead (λ p. (h.revoked _ s p, tt))
      | inl alive ↦ elim (Bool-cases (ltb t.expires_at s.now)) [
        | inl late ↦ rw (alive, late) (λ p. (p, tt))
        | inr valid ↦
            rw (alive, valid)
              ((renew_for-Keeps fresh t (active_staff (find_staff t.staff_id s))).at s)
      ]
    ];
  }

  pub renews : (raw fresh : String) → Keeps P (refresh_staff c raw fresh none)
  unfolding refresh_staff
  renews raw fresh = record { at = λ s. (found-Keeps fresh (find_token (c.sha256 raw) s)).at s }

  use-Keeps : (id counter now : ℕ) → Keeps P (modify (update_device id (use_device counter now)))
  use-Keeps id counter now = modify-Keeps _ (h.used id counter now)

  authenticate-Keeps :
      (owner : ℕ) (challenge credential response : String)
      → Keeps P (authenticate c owner challenge credential response)
  unfolding authenticate
  authenticate-Keeps owner challenge credential response =
      search (console_rules, challenge-Keeps, use-Keeps) depth 16

  drawn-Keeps : Keeps P fresh_id
  drawn-Keeps = fresh_id-Keeps steady

  finish-Keeps :
      (u : StaffUser) (ip : Option String) (from : Option ℕ) (fresh : String)
      → Keeps P (finish_login c u ip from fresh)
  unfolding finish_login
  finish-Keeps u ip from fresh =
      search (console_rules, logged-Keeps steady, entry-Keeps steady, drawn-Keeps, issue-Keeps)

  pub asserts :
      (token challenge credential response : String) (ip : Option String) (fresh : String)
      → Keeps P (device_assert c token challenge credential response ip fresh)
  unfolding device_assert
  asserts token challenge credential response ip fresh =
      search (console_rules, read-Keeps steady, authenticate-Keeps, finish-Keeps)

  change-Keeps :
      (id : ℕ) (current new : String) (ip : Option String) (from : Option ℕ) (fresh : String)
      → Keeps P (change_staff_password c id current new ip from fresh)
  unfolding change_staff_password
  change-Keeps id current new ip from fresh =
      search
        (
          console_rules,
          password_set-Keeps steady,
          revoked-Keeps steady,
          entry-Keeps steady,
          drawn-Keeps,
          issue-Keeps,
        )
        depth 16

  pub changes :
      (bearer current new : String) (ip : Option String) (fresh : String)
      → Keeps P (serve c (post_change_password bearer current new ip fresh))
  unfolding serve
  changes bearer current new ip fresh = search (console_rules, authorise-Keeps, change-Keeps)
