-- ===== src/Auth/Sessions.antt =====
-- apps/auth/src/sessions/sessions.service.ts: the sessions of a user, one call at a time.
-- `createExclusive` runs under a lock of the user, so that calls for one user do not overlap.
-- listActiveForUser, a read-only query, is not modelled but for its condition.
pub mod Exclusive
use fiam_retail_apis.Common.{
  is_some, ◌==◌, update_where, ℕ, ◌+◌, String, Bool, ◌&&◌, not, Option, none, some, List, [], ◌∷◌,
  ◌++◌, if◌then◌else◌,
}
use fiam_retail_apis.Common.Table.{find, update}

pub record Session : Type 0 where
  pub id : ℕ
  pub user_id : ℕ
  pub device_id : Option String
  pub device_name : Option String
  pub user_agent : Option String
  pub ip_address : Option String
  pub last_seen_at : ℕ
  pub revoked_at : Option ℕ
  pub created_at : ℕ

pub record CreateSessionInput : Type 0 where
  pub user_id : ℕ
  pub device_id : Option String
  pub device_name : Option String
  pub user_agent : Option String
  pub ip_address : Option String

pub record SessionStore : Type 0 where
  pub sessions : List Session
  pub next_id : ℕ
  pub now : ℕ

pub data SessionError : Type 0 where
  session_not_found not_your_session : SessionError

abbrev pub session_key : Session → ℕ
session_key x = x.id

abbrev pub new_session : CreateSessionInput → ℕ → ℕ → Session
new_session i now id = record {
  id = id;
  user_id = i.user_id;
  device_id = i.device_id;
  device_name = i.device_name;
  user_agent = i.user_agent;
  ip_address = i.ip_address;
  last_seen_at = now;
  revoked_at = none;
  created_at = now;
}

unfoldable pub create : CreateSessionInput → SessionStore → Session × SessionStore
create i s =
    let x = new_session i s.now s.next_id in
    (x, record s { sessions = s.sessions ++ (x ∷ []); next_id = s.next_id + 1 })

abbrev pub end_session : ℕ → Session → Session
end_session now x = record x { revoked_at = some now }

-- `userId = :user AND revoked_at IS NULL`
abbrev pub is_active_for : ℕ → Session → Bool
is_active_for user x = x.user_id == user && not (is_some x.revoked_at)

unfoldable pub revoke_all_for_user : ℕ → SessionStore → SessionStore
revoke_all_for_user user s = record s {
  sessions = update_where (is_active_for user) (end_session s.now) s.sessions;
}

unfoldable pub revoke_all_for_user_except : ℕ → ℕ → SessionStore → SessionStore
revoke_all_for_user_except user except s = record s {
  sessions =
      update_where (λ x. is_active_for user x && not (x.id == except)) (end_session s.now)
        s.sessions;
}

-- The body of the database transaction: every active session of the user ends, and one begins.
unfoldable pub create_exclusive : CreateSessionInput → SessionStore → Session × SessionStore
unfolding create revoke_all_for_user
create_exclusive i s = create i (revoke_all_for_user i.user_id s)

unfoldable pub touch : ℕ → SessionStore → SessionStore
touch id s = record s {
  sessions = update session_key id (λ x. record x { last_seen_at = s.now }) s.sessions;
}

abbrev pub revoke_found : ℕ → ℕ → Option Session → SessionStore → Option SessionError × SessionStore
revoke_found id user none s = (some session_not_found, s)
revoke_found id user (some x) s =
    if x.user_id == user
    then (none, record s { sessions = update session_key id (end_session s.now) s.sessions })
    else (some not_your_session, s)

unfoldable pub revoke : ℕ → ℕ → SessionStore → Option SessionError × SessionStore
revoke id user s = revoke_found id user (find session_key id s.sessions) s
