-- ===== src/Auth/Tokens/Rotation.antt =====
-- A session never gains a token that is live.
use fiam_retail_apis.Common.Table.{key-find, find-append, sum_by-update, find}
use fiam_retail_apis.Common.{
  sym, ltb, inr, inl, Bool-cases, sum_by-append, ◌+◌, none, some, find?, ◌&&◌, update_where, Option,
  Bool, String, sum_by, List, ℕ, ◌≡◌, ◌≤◌, refl, arith, if◌then◌else◌, true, ◌++◌, [], ◌∷◌,
}
use fiam_retail_apis.Auth.Tokens.{
  duration, rotate_for, replace_by, new_token, has_hash, rotate_row, mark_revoked, rotate_locked,
  is_live, rotate_found, raced, token_key, in_session, RefreshToken, TokenStore,
  rotate_refresh_token, TokenConfig,
}
use mathlib.Core.Path.{subst}

abbrev pub live_in : ℕ → RefreshToken → Bool
live_in session t = in_session session t && is_live t

-- How many tokens of a session are live.
abbrev pub weight : ℕ → RefreshToken → ℕ
weight session t = if live_in session t then 1 else 0

abbrev pub live : ℕ → TokenStore → ℕ
live session s = sum_by (weight session) s.refresh_tokens

revoked_where :
    (session now : ℕ) (p : RefreshToken → Bool) (ts : List RefreshToken)
    → sum_by (weight session) (update_where (λ t. p t && is_live t) (mark_revoked now) ts)
      ≤ sum_by (weight session) ts
revoked_where session now p [] = omega arith
revoked_where session now p (t ∷ ts) = ground (arith, revoked_where session now p ts)

pub killed :
    (session now : ℕ) (ts : List RefreshToken)
    → sum_by
        (weight session)
        (update_where (λ t. in_session session t && is_live t) (mark_revoked now) ts)
      ≡ 0
killed session now [] = refl
killed session now (t ∷ ts) = ground (arith, killed session now ts)

module _ (c : TokenConfig) (fresh : String) (session : ℕ) where
  -- The new token takes the place of the old one.
  rotate_row-live :
      (ttl : ℕ) (locked : RefreshToken) (s : TokenStore)
      → find token_key locked.id s.refresh_tokens ≡ some locked
      → is_live locked ≡ true
      → live session (rotate_row c fresh ttl locked s) ≡ live session s
  rotate_row-live ttl locked s found alive =
      let new = new_token c locked.user_id locked.session_id fresh (s.now + ttl) s.next_id in
      let rows = s.refresh_tokens ++ (new ∷ []) in
      ground (
        arith,
        sum_by-update token_key (weight session) locked.id (replace_by s.now s.next_id) locked rows
            (find-append token_key locked.id locked s.refresh_tokens (new ∷ []) found),
        sum_by-append (weight session) s.refresh_tokens (new ∷ []),
      )

  rotate_for-live :
      (ttl : Option ℕ) (locked : RefreshToken) (s : TokenStore)
      → find token_key locked.id s.refresh_tokens ≡ some locked
      → is_live locked ≡ true
      → live session (rotate_for c fresh locked ttl s).1 ≤ live session s
  rotate_for-live none locked s found alive = omega arith
  rotate_for-live (some ttl) locked s found alive =
      omega (arith, rotate_row-live ttl locked s found alive)

  rotate_locked-live :
      (id : ℕ) (o : Option RefreshToken) (s : TokenStore)
      → find token_key id s.refresh_tokens ≡ o
      → live session (rotate_locked c fresh o s).1 ≤ live session s
  rotate_locked-live id none s found = omega arith
  rotate_locked-live id (some locked) s found = elim (Bool-cases (is_live locked)) [
    | inl alive ↦ rw alive (
        rotate_for-live (duration c.refresh_ttl) locked s
          (subst (λ k. find token_key k s.refresh_tokens ≡ some locked)
            (sym (key-find token_key id locked s.refresh_tokens found)) found)
          alive)
    | inr revoked ↦ rw revoked (omega arith)
  ]

  rotate_found-live :
      (race : Option TokenStore) (o : Option RefreshToken) (s : TokenStore)
      → live session (rotate_found c fresh race o s).1 ≤ live session (raced race s)
  rotate_found-live race none s = omega arith
  rotate_found-live race (some t) s = elim (Bool-cases (is_live t)) [
    | inr revoked ↦ rw revoked (
        revoked_where session (raced race s).now (in_session t.session_id)
          (raced race s).refresh_tokens)
    | inl alive ↦ elim (Bool-cases (ltb t.expires_at s.now)) [
      | inl expired ↦ rw (alive, expired) (omega arith)
      | inr valid ↦
          rw (alive, valid)
            (rotate_locked-live t.id (find token_key t.id (raced race s).refresh_tokens)
              (raced race s) refl)
    ]
  ]

-- Using a refresh token never adds a live one to a session: whatever is presented, and whatever
-- other requests commit before the write, no session has more of them afterwards.
pub rotate-live :
    (c : TokenConfig) (raw fresh : String) (race : Option TokenStore) (s : TokenStore) (session : ℕ)
    → live session (rotate_refresh_token c raw fresh race s).1 ≤ live session (raced race s)
unfolding rotate_refresh_token
rotate-live c raw fresh race s session =
    rotate_found-live c fresh session race (find? (has_hash (c.hash raw)) s.refresh_tokens) s
