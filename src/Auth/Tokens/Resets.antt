-- ===== src/Auth/Tokens/Resets.antt =====
-- The tokens of a password reset in apps/auth/src/tokens/tokens.service.ts: issued for thirty
-- minutes and consumed once.
use fiam_retail_apis.Auth.Tokens.{
  invalid_reset_token, PasswordResetToken, TokenStore, TokenConfig, TokenError,
}
use fiam_retail_apis.Common.{
  ltb, inr, ◌||◌, inl, find?, is_some, text_eq, ◌⊎◌, ℕ, ◌+◌, String, Option, none, some, ◌∷◌, [],
  ◌++◌, if◌then◌else◌,
}
use fiam_retail_apis.Common.Table.{update}

abbrev pub reset_key : PasswordResetToken → ℕ
reset_key t = t.id

-- Thirty minutes.
unfoldable pub issue_password_reset_token :
    TokenConfig → ℕ → String → TokenStore → String × TokenStore
issue_password_reset_token c user fresh s = (
  fresh,
  record s {
    reset_tokens =
        s.reset_tokens
        ++ (record {
          id = s.next_id;
          user_id = user;
          token_hash = c.hash fresh;
          consumed_at = none;
          expires_at = s.now + 1800000;
        }
            ∷ []);
    next_id = s.next_id + 1;
  },
)

abbrev pub consume_found : Option PasswordResetToken → TokenStore → (TokenError ⊎ ℕ) × TokenStore
consume_found none s = (inl invalid_reset_token, s)
consume_found (some t) s =
    if is_some t.consumed_at || ltb t.expires_at s.now then (inl invalid_reset_token, s) else (
      inr t.user_id,
      record s {
        reset_tokens =
            update reset_key t.id (λ r. record r { consumed_at = some s.now }) s.reset_tokens;
      },
    )

unfoldable pub consume_password_reset_token :
    TokenConfig → String → TokenStore → (TokenError ⊎ ℕ) × TokenStore
consume_password_reset_token c raw s =
    consume_found
      (find? (λ (t : PasswordResetToken). text_eq t.token_hash (c.hash raw)) s.reset_tokens) s
