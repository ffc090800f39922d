-- ===== src/Admin/Console/Sessions/Reuse.antt =====
-- What a refresh leaves of the token that it used.
use fiam_retail_apis.Admin.Console.Sessions.{
  insert_staff_token, session_of, is_active, refresh_staff, find_token, has_token_hash,
  is_live_staff_token, revoke_staff_token, in_family, renew, renew_for, active_staff, device_serves,
  revoke_tokens_where, revoke_one, issue_tokens, StaffSession, staff_token,
}
use fiam_retail_apis.Admin.Console.{
  unauthorized, Console, ConsoleConfig, ConsoleError, StaffRefreshToken, StaffUser, staff_token_key,
  find_staff,
}
use mathlib.Core.Path.{subst}
use fiam_retail_apis.Common.{
  ◌∷◌, true, false, none, some, Bool, Bool-cases, inl, inr, ◌⊎◌, ℕ, ◌≡◌, refl, sym, ap, ◌∙◌, arith,
  count_where, update_where, find?, ltb, not, ◌&&◌, Option, List, String, ◌++◌, [],
}
use fiam_retail_apis.Common.Table.{find, update, find?-update, find?-holds, find?-append}
use fiam_retail_apis.Admin.Console.Act.{◌>>=◌}

-- The tokens of a family that are live.
abbrev pub live_in_family : ℕ → Console → ℕ
live_in_family family s =
    count_where (λ (t : StaffRefreshToken). in_family family t && is_live_staff_token t)
      s.refresh_tokens

pub killed :
    (family now : ℕ) (ts : List StaffRefreshToken)
    → count_where
        (λ (t : StaffRefreshToken). in_family family t && is_live_staff_token t)
        (update_where
          (λ t. in_family family t && is_live_staff_token t)
          (revoke_staff_token now)
          ts)
      ≡ 0
killed family now [] = refl
killed family now (t ∷ ts) = ground (arith, killed family now ts)

module _ (c : ConsoleConfig) (raw fresh : String) (s : Console) (t : StaffRefreshToken)
    (found : find_token (c.sha256 raw) s ≡ some t)
    (named : find staff_token_key t.id s.refresh_tokens ≡ some t) where
  abbrev p : StaffRefreshToken → Bool
  p = has_token_hash (c.sha256 raw)

  -- The row after its first use.
  spent_row :
      (new : StaffRefreshToken)
      → find? p
          (update staff_token_key t.id (revoke_staff_token s.now) s.refresh_tokens ++ (new ∷ []))
        ≡ some (revoke_staff_token s.now t)
  spent_row new =
      find?-append staff_token_key p (revoke_staff_token s.now t)
        (update staff_token_key t.id (revoke_staff_token s.now) s.refresh_tokens) (new ∷ [])
        (find?-update staff_token_key p (revoke_staff_token s.now) t s.refresh_tokens
          (find?-holds staff_token_key p t s.refresh_tokens found)
          (find?-holds staff_token_key p t s.refresh_tokens found) found named)

  clash :
      {e : ConsoleError} {a : StaffSession} {m : (ConsoleError ⊎ StaffSession) × Console}
      {d after : Console}
      → m ≡ (inl e, d)
      → m ≡ (inr a, after)
      → ⊥
  clash h k = cc

  refused-as :
      (u : StaffUser)
      → (c.device_required && not (device_serves t.device_id u.id (revoke_one t.id s))) ≡ true
      → renew c fresh t u s ≡ (inl unauthorized, revoke_one t.id s)
  unfolding ◌>>=◌ is_active
  refused-as u refused = rw (◌>>=◌, refused) refl

  served-as :
      (u : StaffUser)
      → (c.device_required && not (device_serves t.device_id u.id (revoke_one t.id s))) ≡ false
      → renew c fresh t u s ≡ (
        inr (session_of c u t.device_id fresh),
        insert_staff_token
            (staff_token c u t.family_id t.device_id fresh s.now)
            (revoke_one t.id s),
      )
  unfolding ◌>>=◌ issue_tokens is_active
  served-as u served = rw (◌>>=◌, served) refl

  abbrev pub IsRotated : Console → Type 0
  IsRotated after = find_token (c.sha256 raw) after ≡ some (revoke_staff_token s.now t)

  renewed :
      (u : StaffUser) (a : StaffSession) (after : Console)
      → renew c fresh t u s ≡ (inr a, after)
      → IsRotated after
  renewed u a after e =
      elim (Bool-cases
        (c.device_required && not (device_serves t.device_id u.id (revoke_one t.id s)))) [
          | inl refused ↦ absurd (clash (refused-as u refused) e)
          | inr served ↦
              subst IsRotated (ap (λ r. r.1) (sym (served-as u served) ∙ e)) (spent_row _)
        ]

  renewed_for :
      (o : Option StaffUser) (a : StaffSession) (after : Console)
      → renew_for c fresh none t o s ≡ (inr a, after)
      → IsRotated after
  renewed_for none a after e = absurd (clash refl e)
  renewed_for (some u) a after e = renewed u a after e

  pub rotated :
      (a : StaffSession) (after : Console)
      → refresh_staff c raw fresh none s ≡ (inr a, after)
      → IsRotated after
  unfolding refresh_staff
  rotated a after e = elim (Bool-cases (is_live_staff_token t)) [
    | inr revoked ↦ absurd (clash (dead revoked) e)
    | inl alive ↦ elim (Bool-cases (ltb t.expires_at s.now)) [
      | inl expired ↦ absurd (clash (late alive expired) e)
      | inr valid ↦
          renewed_for (active_staff (find_staff t.staff_id s)) a after (sym (goes alive valid) ∙ e)
    ]
  ]
    where
      dead :
          is_live_staff_token t ≡ false
          → refresh_staff c raw fresh none s
            ≡ (inl unauthorized, revoke_tokens_where (in_family t.family_id) s)
      dead revoked = rw (found, revoked) refl

      late :
          is_live_staff_token t ≡ true
          → ltb t.expires_at s.now ≡ true
          → refresh_staff c raw fresh none s ≡ (inl unauthorized, s)
      late alive expired = rw (found, alive, expired) refl

      goes :
          is_live_staff_token t ≡ true
          → ltb t.expires_at s.now ≡ false
          → refresh_staff c raw fresh none s
            ≡ renew_for c fresh none t (active_staff (find_staff t.staff_id s)) s
      goes alive valid = rw (found, alive, valid) refl
