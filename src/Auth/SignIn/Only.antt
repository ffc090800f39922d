-- ===== src/Auth/SignIn/Only.antt =====
-- Who signs in is signed in once, and nowhere else.
use fiam_retail_apis.Auth.Sessions.{
  create, new_session, create_exclusive, Session, CreateSessionInput,
}
use fiam_retail_apis.Common.{
  ◌∙◌, ap, ◌+◌, some, String, ◌&&◌, update_where, ◌==◌, ℕ, ◌≡◌, refl, arith, List, [], ◌∷◌, ◌++◌,
  if◌then◌else◌,
}
use fiam_retail_apis.Auth.Tokens.{
  revoke_all_refresh_tokens_for_user, issue_token_pair, new_token, duration, mark_revoked, is_live,
  RefreshToken, TokenConfig,
}
use fiam_retail_apis.Auth.SignIn.{sign_in, Access}
use fiam_retail_apis.Auth.Sessions.Exclusive.{active_of, only, create_exclusive-only}

-- The tokens of a user that are live.
abbrev pub live_of : ℕ → List RefreshToken → List RefreshToken
live_of user [] = []
live_of user (t ∷ ts) =
    let rest = live_of user ts in if t.user_id == user && is_live t then t ∷ rest else rest

live_of-append :
    (u : ℕ) (ts : List RefreshToken) (t : RefreshToken)
    → live_of u (ts ++ (t ∷ []))
      ≡ (if t.user_id == u && is_live t then live_of u ts ++ (t ∷ []) else live_of u ts)
live_of-append u [] t = ground arith
live_of-append u (x ∷ ts) t = ground (arith, live_of-append u ts t)

live_of-ended :
    (u user now : ℕ) (ts : List RefreshToken)
    → live_of u (update_where (λ t. t.user_id == user && is_live t) (mark_revoked now) ts)
      ≡ (if u == user then [] else live_of u ts)
live_of-ended u user now [] = ground arith
live_of-ended u user now (t ∷ ts) = ground (arith, live_of-ended u user now ts)

module _ (c : TokenConfig) (i : CreateSessionInput) (fresh : String) (a : Access) (ttl : ℕ)
    (valid : duration c.refresh_ttl ≡ some ttl) where
  -- The session and the token that the sign-in makes.
  abbrev pub entry : Session
  entry = new_session i a.sessions.now a.sessions.next_id

  abbrev pub pass : RefreshToken
  pass = new_token c i.user_id entry.id fresh (a.tokens.now + ttl) a.tokens.next_id

  signed_in :
      (sign_in c i fresh a).1.tokens.refresh_tokens
      ≡ update_where
          (λ t. t.user_id == i.user_id && is_live t)
          (mark_revoked a.tokens.now)
          a.tokens.refresh_tokens
        ++ (pass ∷ [])
  unfolding sign_in issue_token_pair revoke_all_refresh_tokens_for_user create_exclusive create
  signed_in = rw valid refl

  sessions_only :
      (u : ℕ)
      → active_of u (sign_in c i fresh a).1.sessions.sessions
        ≡ only i.user_id entry (λ v. active_of v a.sessions.sessions) u
  unfolding sign_in create_exclusive create
  sessions_only u = create_exclusive-only i a.sessions u

  -- With a valid lifetime of tokens, a sign-in leaves its user with the new session as the only
  -- active one and the new session's token as the only live one, and leaves the active sessions
  -- and the live tokens of every other user as they were.
  pub sign_in-only :
      (u : ℕ)
      → (active_of u (sign_in c i fresh a).1.sessions.sessions
          ≡ only i.user_id entry (λ v. active_of v a.sessions.sessions) u)
        × (live_of u (sign_in c i fresh a).1.tokens.refresh_tokens
            ≡ only i.user_id pass (λ v. live_of v a.tokens.refresh_tokens) u)
  sign_in-only u = (
    sessions_only u,
    ap (live_of u) signed_in
        ∙ live_of-append u
            (update_where (λ t. t.user_id == i.user_id && is_live t) (mark_revoked a.tokens.now)
              a.tokens.refresh_tokens)
            pass
        ∙ ground (arith, live_of-ended u i.user_id a.tokens.now a.tokens.refresh_tokens),
  )
