-- ===== src/Auth/SignIn.antt =====
-- The end of a sign-in in apps/auth/src/auth/auth.service.ts (verifyOtp, login and confirmLoginPin
-- have the same one), refresh and logout, and endAllSessions of internal/account-admin.service.ts,
-- which a password reset does too: where the sessions and the tokens meet. The requests of one user
-- do not overlap here.
pub mod Only
use fiam_retail_apis.Auth.Tokens.{
  TokenConfig, TokenStore, TokenPair, TokenError, issue_token_pair, rotate_refresh_token,
  revoke_session, revoke_all_refresh_tokens_for_user,
}
use fiam_retail_apis.Auth.Sessions.{
  SessionStore, CreateSessionInput, SessionError, create_exclusive, revoke, revoke_all_for_user,
}
use fiam_retail_apis.Common.{ℕ, String, Option, none, some, ◌⊎◌}

pub record Access : Type 0 where
  pub tokens : TokenStore
  pub sessions : SessionStore

-- The user's tokens end, then their sessions do and a new one begins, and it gets a token.
unfoldable pub sign_in :
    TokenConfig → CreateSessionInput → String → Access → (TokenError ⊎ TokenPair) × Access
sign_in c i fresh a =
    let ended = revoke_all_refresh_tokens_for_user i.user_id a.tokens in
    let (session, sessions) = create_exclusive i a.sessions in
    let (pair, tokens) = issue_token_pair c i.user_id session.id fresh ended in
    (pair, record { tokens = tokens; sessions = sessions })

unfoldable pub refresh : TokenConfig → String → String → Access → (TokenError ⊎ TokenPair) × Access
refresh c raw fresh a =
    let (pair, tokens) = rotate_refresh_token c raw fresh none a.tokens in
    (pair, record a { tokens = tokens })

abbrev pub logged_out :
    ℕ → Access → Option SessionError × SessionStore → Option SessionError × Access
logged_out session a (some e, sessions) = (some e, record a { sessions = sessions })
logged_out session a (none, sessions) =
    (none, record { tokens = revoke_session session a.tokens; sessions = sessions })

-- Another user's session is refused, and then its tokens stay.
unfoldable pub logout : ℕ → ℕ → Access → Option SessionError × Access
logout user session a = logged_out session a (revoke session user a.sessions)

unfoldable pub end_all_sessions : ℕ → Access → Access
end_all_sessions user a = record {
  tokens = revoke_all_refresh_tokens_for_user user a.tokens;
  sessions = revoke_all_for_user user a.sessions;
}
