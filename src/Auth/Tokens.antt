-- ===== src/Auth/Tokens.antt =====
-- apps/auth/src/tokens/tokens.service.ts and token.util.ts: refresh tokens, which are rotated at
-- every use. The hash, the signature of an access token and the random tokens are parameters; a race
-- is the state that concurrent requests have committed between the first read and the write that
-- follows it.
pub mod Rotation
pub mod Comeback
pub mod Resets
use fiam_retail_apis.Common.{
  is_between, ltb, inr, ◌-◌, ◌||◌, inl, trim, find?, get_or, is_some, option_map, ◌==◌, text_eq,
  ◌⊎◌, update_where, codes, ℕ, ◌+◌, ◌*◌, String, Bool, ◌&&◌, not, Option, none, some, List, [], ◌∷◌,
  ◌++◌, if◌then◌else◌,
}
use fiam_retail_apis.Common.Table.{find, update}

pub record RefreshToken : Type 0 where
  pub id : ℕ
  pub user_id : ℕ
  pub session_id : ℕ
  pub token_hash : String
  pub revoked_at : Option ℕ
  pub replaced_by_token_id : Option ℕ
  pub expires_at : ℕ

pub record PasswordResetToken : Type 0 where
  pub id : ℕ
  pub user_id : ℕ
  pub token_hash : String
  pub consumed_at : Option ℕ
  pub expires_at : ℕ

pub record TokenStore : Type 0 where
  pub refresh_tokens : List RefreshToken
  pub reset_tokens : List PasswordResetToken
  pub next_id : ℕ
  pub now : ℕ

pub data TokenError : Type 0 where
  invalid_token reuse_detected token_expired invalid_reset_token invalid_duration : TokenError

pub record TokenPair : Type 0 where
  pub access_token : String
  pub refresh_token : String

-- sha256, the signature over a user and a session, and the configuration's `jwt.refreshTtl`.
pub record TokenConfig : Type 0 where
  pub hash : String → String
  pub sign : ℕ → ℕ → String
  pub refresh_ttl : String

-- DURATION_UNIT_MS
abbrev pub unit_ms : ℕ → Option ℕ
unit_ms c =
    if c == 115
    then some 1000
    else if c == 109
    then some 60000
    else if c == 104
    then some 3600000
    else if c == 100
    then some 86400000
    else none

-- The digits that have been read, if any, then the unit and the end.
abbrev pub duration_from : Option ℕ → List ℕ → Option ℕ
duration_from amount [] = none
duration_from amount (c ∷ []) = elim amount [
  | none ↦ none
  | some n ↦ option_map (λ ms. n * ms) (unit_ms c)
]
duration_from amount (c ∷ d ∷ cs) =
    let rest = duration_from (some (get_or amount 0 * 10 + (c - 48))) (d ∷ cs) in
    if is_between 48 57 c then rest else none

-- `/^(\d+)(s|m|h|d)$/` of the trimmed text, in milliseconds.
unfoldable pub duration : String → Option ℕ
duration s = duration_from none (codes (trim s))

abbrev pub token_key : RefreshToken → ℕ
token_key t = t.id

abbrev pub is_live : RefreshToken → Bool
is_live t = not (is_some t.revoked_at)

abbrev pub mark_revoked : ℕ → RefreshToken → RefreshToken
mark_revoked now t = record t { revoked_at = some now }

-- `UPDATE … WHERE p AND revoked_at IS NULL`
abbrev pub revoke_where : (RefreshToken → Bool) → TokenStore → TokenStore
revoke_where p s = record s {
  refresh_tokens = update_where (λ t. p t && is_live t) (mark_revoked s.now) s.refresh_tokens;
}

abbrev pub new_token : TokenConfig → ℕ → ℕ → String → ℕ → ℕ → RefreshToken
new_token c user session raw expires id = record {
  id = id;
  user_id = user;
  session_id = session;
  token_hash = c.hash raw;
  revoked_at = none;
  replaced_by_token_id = none;
  expires_at = expires;
}

abbrev pub save_token : (ℕ → RefreshToken) → TokenStore → TokenStore
save_token make s = record s {
  refresh_tokens = s.refresh_tokens ++ (make s.next_id ∷ []);
  next_id = s.next_id + 1;
}

abbrev pub pair_of : TokenConfig → ℕ → ℕ → String → TokenPair
pair_of c user session raw = record { access_token = c.sign user session; refresh_token = raw }

abbrev pub issue_for :
    TokenConfig → ℕ → ℕ → String → Option ℕ → TokenStore → (TokenError ⊎ TokenPair) × TokenStore
issue_for c user session fresh none s = (inl invalid_duration, s)
issue_for c user session fresh (some ttl) s = (
  inr (pair_of c user session fresh),
  save_token (new_token c user session fresh (s.now + ttl)) s,
)

-- `fresh` is the token that is drawn.
unfoldable pub issue_token_pair :
    TokenConfig → ℕ → ℕ → String → TokenStore → (TokenError ⊎ TokenPair) × TokenStore
issue_token_pair c user session fresh s = issue_for c user session fresh (duration c.refresh_ttl) s

abbrev pub raced : Option TokenStore → TokenStore → TokenStore
raced none s = s
raced (some other) s = other

abbrev pub has_hash : String → RefreshToken → Bool
has_hash h t = text_eq t.token_hash h

abbrev pub in_session : ℕ → RefreshToken → Bool
in_session session t = t.session_id == session

abbrev pub replace_by : ℕ → ℕ → RefreshToken → RefreshToken
replace_by now id t = record t { revoked_at = some now; replaced_by_token_id = some id }

-- The new token is saved, then the old one is revoked.
abbrev pub rotate_row : TokenConfig → String → ℕ → RefreshToken → TokenStore → TokenStore
rotate_row c fresh ttl locked s =
    let saved = save_token (new_token c locked.user_id locked.session_id fresh (s.now + ttl)) s in
    record saved {
      refresh_tokens = update token_key locked.id (replace_by s.now s.next_id) saved.refresh_tokens;
    }

abbrev pub rotate_for :
    TokenConfig
    → String
    → RefreshToken
    → Option ℕ
    → TokenStore
    → (TokenError ⊎ TokenPair) × TokenStore
rotate_for c fresh locked none s = (inl invalid_duration, s)
rotate_for c fresh locked (some ttl) s =
    (inr (pair_of c locked.user_id locked.session_id fresh), rotate_row c fresh ttl locked s)

-- The body of the database transaction, for the row that it has locked.
abbrev pub rotate_locked :
    TokenConfig → String → Option RefreshToken → TokenStore → (TokenError ⊎ TokenPair) × TokenStore
rotate_locked c fresh none s = (inl reuse_detected, s)
rotate_locked c fresh (some locked) s =
    if is_live locked
    then rotate_for c fresh locked (duration c.refresh_ttl) s
    else (inl reuse_detected, s)

-- The checks before it: a revoked token kills its session, and that is not rolled back.
abbrev pub rotate_found :
    TokenConfig
    → String
    → Option TokenStore
    → Option RefreshToken
    → TokenStore
    → (TokenError ⊎ TokenPair) × TokenStore
rotate_found c fresh race none s = (inl invalid_token, raced race s)
rotate_found c fresh race (some t) s =
    if not (is_live t)
    then (inl reuse_detected, revoke_where (in_session t.session_id) (raced race s))
    else if ltb t.expires_at s.now
    then (inl token_expired, raced race s)
    else rotate_locked c fresh (find token_key t.id (raced race s).refresh_tokens) (raced race s)

unfoldable pub rotate_refresh_token :
    TokenConfig
    → String
    → String
    → Option TokenStore
    → TokenStore
    → (TokenError ⊎ TokenPair) × TokenStore
rotate_refresh_token c raw fresh race s =
    rotate_found c fresh race (find? (has_hash (c.hash raw)) s.refresh_tokens) s

unfoldable pub revoke_session : ℕ → TokenStore → TokenStore
revoke_session session s = revoke_where (in_session session) s

unfoldable pub revoke_all_refresh_tokens_for_user : ℕ → TokenStore → TokenStore
revoke_all_refresh_tokens_for_user user s = revoke_where (λ t. t.user_id == user) s

unfoldable pub revoke_all_refresh_tokens_for_user_except : ℕ → ℕ → TokenStore → TokenStore
revoke_all_refresh_tokens_for_user_except user except s =
    revoke_where (λ t. t.user_id == user && not (t.session_id == except)) s
