-- ===== src/Auth/Tokens/Comeback.antt =====
-- A refresh token that was rotated and comes back kills its session, whatever calls came in between.
use fiam_retail_apis.Common.Table.{
  first_passes-update_where, first_passes-update, first_passes-append, first_passes-found,
  first_passes, found-first_passes, find-append, find?-append, find?-holds, find?-update, find,
}
use fiam_retail_apis.Common.{
  ◌&&◌, not, [], ◌∷◌, ◌∙◌, ◌+◌, sym, ap, ◌⊎◌, refl, ltb, arith, inr, ◌++◌, Bool-cases, update_where,
  some, none, false, true, inl, ◌≡◌, find?, Bool, List, Option, ℕ, String,
}
use fiam_retail_apis.Auth.Tokens.{
  token_expired, in_session, revoke_where, new_token, rotate_row, TokenPair, TokenError, replace_by,
  mark_revoked, token_key, duration, reuse_detected, is_live,
  revoke_all_refresh_tokens_for_user_except, revoke_all_refresh_tokens_for_user, has_hash,
  rotate_found, revoke_session, issue_for, rotate_for, rotate_locked, TokenStore, issue_token_pair,
  rotate_refresh_token, RefreshToken, TokenConfig,
}
use fiam_retail_apis.Auth.Tokens.Rotation.{killed, live}
use mathlib.Core.Path.{subst}

-- The calls on refresh tokens.
pub data TokenCall : Type 0 where
  issue : ℕ → ℕ → String → TokenCall
  rotate : String → String → TokenCall
  end_session : ℕ → TokenCall
  end_all : ℕ → TokenCall
  end_others : ℕ → ℕ → TokenCall

module _ (c : TokenConfig) where
  unfoldable pub serve_call : TokenCall → TokenStore → TokenStore
  unfolding issue_token_pair rotate_refresh_token revoke_session revoke_all_refresh_tokens_for_user
      revoke_all_refresh_tokens_for_user_except
  serve_call (issue user session fresh) s = (issue_token_pair c user session fresh s).1
  serve_call (rotate raw fresh) s = (rotate_refresh_token c raw fresh none s).1
  serve_call (end_session session) s = revoke_session session s
  serve_call (end_all user) s = revoke_all_refresh_tokens_for_user user s
  serve_call (end_others user except) s = revoke_all_refresh_tokens_for_user_except user except s

  -- The tokens after calls that come at these times.
  abbrev pub calls : List (ℕ × TokenCall) → TokenStore → TokenStore
  calls [] s = s
  calls (k ∷ ks) s = calls ks (serve_call k.1 (record s { now = k.0 }))

module _ (h : String) (session : ℕ) where
  abbrev is_used : RefreshToken → Bool
  is_used t = not (is_live t) && in_session session t

  used-revoke :
      (q : RefreshToken → Bool) (now : ℕ) (xs : List RefreshToken)
      → first_passes (has_hash h) is_used xs ≡ true
      → first_passes (has_hash h) is_used (update_where q (mark_revoked now) xs) ≡ true
  used-revoke q now xs =
      first_passes-update_where (has_hash h) is_used q (mark_revoked now) xs (λ t. refl)
        (λ t u. ground arith)

  -- The token of this hash is revoked, and is one of the session.
  abbrev pub IsUsed : TokenStore → Type 0
  IsUsed s = first_passes (has_hash h) is_used s.refresh_tokens ≡ true

  module _ (c : TokenConfig) where
    issue-IsUsed :
        (user own : ℕ) (fresh : String) (ttl : Option ℕ) (s : TokenStore)
        → IsUsed s
        → IsUsed (issue_for c user own fresh ttl s).1
    issue-IsUsed user own fresh none s u = u
    issue-IsUsed user own fresh (some ttl) s u =
        first_passes-append (has_hash h) is_used s.refresh_tokens _ u

    rotate-IsUsed :
        (fresh : String) (ttl : Option ℕ) (locked : RefreshToken) (s : TokenStore)
        → IsUsed s
        → IsUsed (rotate_for c fresh locked ttl s).1
    rotate-IsUsed fresh none locked s u = u
    rotate-IsUsed fresh (some ttl) locked s u =
        first_passes-update (has_hash h) is_used token_key locked.id (replace_by s.now s.next_id) _
          (λ t. refl) (λ t v. ground arith)
          (first_passes-append (has_hash h) is_used s.refresh_tokens _ u)

    locked-IsUsed :
        (fresh : String) (o : Option RefreshToken) (s : TokenStore)
        → IsUsed s
        → IsUsed (rotate_locked c fresh o s).1
    locked-IsUsed fresh none s u = u
    locked-IsUsed fresh (some locked) s u = elim (Bool-cases (is_live locked)) [
      | inl alive ↦ rw alive (rotate-IsUsed fresh (duration c.refresh_ttl) locked s u)
      | inr dead ↦ rw dead u
    ]

    found-IsUsed :
        (fresh : String) (o : Option RefreshToken) (s : TokenStore)
        → IsUsed s
        → IsUsed (rotate_found c fresh none o s).1
    found-IsUsed fresh none s u = u
    found-IsUsed fresh (some t) s u = elim (Bool-cases (is_live t)) [
      | inr dead ↦ rw dead (used-revoke _ s.now s.refresh_tokens u)
      | inl alive ↦ elim (Bool-cases (ltb t.expires_at s.now)) [
        | inl late ↦ rw (alive, late) u
        | inr valid ↦ rw (alive, valid) (locked-IsUsed fresh _ s u)
      ]
    ]

    serve-IsUsed : (k : TokenCall) (s : TokenStore) → IsUsed s → IsUsed (serve_call c k s)
    unfolding serve_call issue_token_pair rotate_refresh_token revoke_session
        revoke_all_refresh_tokens_for_user revoke_all_refresh_tokens_for_user_except
    serve-IsUsed (issue user own fresh) s u =
        issue-IsUsed user own fresh (duration c.refresh_ttl) s u
    serve-IsUsed (rotate raw fresh) s u = found-IsUsed fresh _ s u
    serve-IsUsed (end_session own) s u = used-revoke _ s.now s.refresh_tokens u
    serve-IsUsed (end_all user) s u = used-revoke _ s.now s.refresh_tokens u
    serve-IsUsed (end_others user except) s u = used-revoke _ s.now s.refresh_tokens u

    calls-IsUsed : (ks : List (ℕ × TokenCall)) (s : TokenStore) → IsUsed s → IsUsed (calls c ks s)
    calls-IsUsed [] s u = u
    calls-IsUsed (k ∷ ks) s u = calls-IsUsed ks _ (serve-IsUsed k.1 (record s { now = k.0 }) u)

  -- What happens when it comes back.
  comes_back :
      (c : TokenConfig) (raw fresh : String) (race : Option TokenStore) (s : TokenStore)
      → c.hash raw ≡ h
      → IsUsed s
      → let again = rotate_refresh_token c raw fresh race s in
        (again.0 ≡ inl reuse_detected) × (live session again.1 ≡ 0)
  unfolding rotate_refresh_token
  comes_back c raw fresh race s same u =
      let (k, found, used) = first_passes-found (has_hash h) is_used s.refresh_tokens u in
      rw (same, found, dead k used, own k used) (refl, killed session _ _)
    where
      dead : (k : RefreshToken) → is_used k ≡ true → is_live k ≡ false
      dead k used = ground arith

      own : (k : RefreshToken) → is_used k ≡ true → k.session_id ≡ session
      own k used = ground arith

module _ (c : TokenConfig) (raw fresh : String) (s : TokenStore) (t : RefreshToken)
    (found : find? (has_hash (c.hash raw)) s.refresh_tokens ≡ some t)
    (named : find token_key t.id s.refresh_tokens ≡ some t) where
  -- The row after the rotation.
  marked :
      (ttl : ℕ)
      → find? (has_hash (c.hash raw)) (rotate_row c fresh ttl t s).refresh_tokens
        ≡ some (replace_by s.now s.next_id t)
  marked ttl =
      let new = new_token c t.user_id t.session_id fresh (s.now + ttl) s.next_id in
      let p = has_hash (c.hash raw) in
      find?-update token_key p (replace_by s.now s.next_id) t (s.refresh_tokens ++ (new ∷ []))
        (find?-holds token_key p t s.refresh_tokens found)
        (find?-holds token_key p t s.refresh_tokens found)
        (find?-append token_key p t s.refresh_tokens (new ∷ []) found)
        (find-append token_key t.id t s.refresh_tokens (new ∷ []) named)

  clash :
      {r : TokenError} {pair : TokenPair} {m : (TokenError ⊎ TokenPair) × TokenStore}
      {d after : TokenStore}
      → m ≡ (inl r, d)
      → m ≡ (inr pair, after)
      → ⊥
  clash h k = cc

  rotated_for :
      (ttl : Option ℕ) (pair : TokenPair) (after : TokenStore)
      → rotate_for c fresh t ttl s ≡ (inr pair, after)
      → (n : ℕ) × (after ≡ rotate_row c fresh n t s)
  rotated_for none pair after e = absurd (clash refl e)
  rotated_for (some ttl) pair after e = (ttl, ap (λ r. r.1) (sym e))

  rotated :
      (pair : TokenPair) (after : TokenStore)
      → rotate_refresh_token c raw fresh none s ≡ (inr pair, after)
      → (n : ℕ) × (after ≡ rotate_row c fresh n t s)
  unfolding rotate_refresh_token
  rotated pair after e = elim (Bool-cases (is_live t)) [
    | inr revoked ↦ absurd (clash (refused revoked) e)
    | inl alive ↦ elim (Bool-cases (ltb t.expires_at s.now)) [
      | inl expired ↦ absurd (clash (late alive expired) e)
      | inr valid ↦ rotated_for (duration c.refresh_ttl) pair after (sym (goes alive valid) ∙ e)
    ]
  ]
    where
      refused :
          is_live t ≡ false
          → rotate_refresh_token c raw fresh none s
            ≡ (inl reuse_detected, revoke_where (in_session t.session_id) s)
      refused revoked = rw (found, revoked) refl

      late :
          is_live t ≡ true
          → ltb t.expires_at s.now ≡ true
          → rotate_refresh_token c raw fresh none s ≡ (inl token_expired, s)
      late alive expired = rw (found, alive, expired) refl

      goes :
          is_live t ≡ true
          → ltb t.expires_at s.now ≡ false
          → rotate_refresh_token c raw fresh none s
            ≡ rotate_for c fresh t (duration c.refresh_ttl) s
      goes alive valid = rw (found, alive, valid, named, alive) refl

  -- A token that was rotated, by a call that met no race, and comes back is refused, whatever calls
  -- on refresh tokens were served in between, one after the other and at whatever times, and whatever
  -- is committed between its read and its write; and after that no token of its session is live:
  -- none of those that had replaced it either.
  pub rotate_twice :
      (pair : TokenPair) (after : TokenStore) (ks : List (ℕ × TokenCall)) (now : ℕ) (other : String)
      (race : Option TokenStore)
      → rotate_refresh_token c raw fresh none s ≡ (inr pair, after)
      → let again =
          rotate_refresh_token c raw other race (record (calls c ks after) { now = now }) in
        (again.0 ≡ inl reuse_detected) × (live t.session_id again.1 ≡ 0)
  rotate_twice pair after ks now other race first =
      let (n, same) = rotated pair after first in
      let used =
        found-first_passes (has_hash (c.hash raw)) (is_used (c.hash raw) t.session_id)
          (replace_by s.now s.next_id t) _ (marked n) (ground arith) in
      comes_back (c.hash raw) t.session_id c raw other race _ refl (
        calls-IsUsed (c.hash raw) t.session_id c ks after
          (subst (IsUsed (c.hash raw) t.session_id) (sym same) used))
