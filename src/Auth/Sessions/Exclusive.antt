-- ===== src/Auth/Sessions/Exclusive.antt =====
-- One active session per user.
use fiam_retail_apis.Common.{
  ◌∙◌, ◌==◌, if◌then◌else◌, update_where, ℕ, ◌≡◌, arith, List, [], ◌∷◌, ◌++◌,
}
use fiam_retail_apis.Auth.Sessions.{
  new_session, end_session, is_active_for, SessionStore, CreateSessionInput, create_exclusive,
  Session,
}

-- The sessions of a user that are active: what the table means for the rest of the service.
abbrev pub active_of : ℕ → List Session → List Session
active_of user [] = []
active_of user (x ∷ xs) =
    let rest = active_of user xs in if is_active_for user x then x ∷ rest else rest

-- The meaning of `createExclusive`: the user's only session is the new one.
abbrev pub only : {A : Type 0} → ℕ → A → (ℕ → List A) → ℕ → List A
only user x view u = if u == user then x ∷ [] else view u

active_of-append :
    (u : ℕ) (xs : List Session) (x : Session)
    → active_of u (xs ++ (x ∷ []))
      ≡ (if is_active_for u x then active_of u xs ++ (x ∷ []) else active_of u xs)
active_of-append u [] x = ground arith
active_of-append u (y ∷ xs) x = ground (arith, active_of-append u xs x)

active_of-ended :
    (u user now : ℕ) (xs : List Session)
    → active_of u (update_where (is_active_for user) (end_session now) xs)
      ≡ (if u == user then [] else active_of u xs)
active_of-ended u user now [] = ground arith
active_of-ended u user now (x ∷ xs) = ground (arith, active_of-ended u user now xs)

-- Logging in refines the abstract step of a map from users to sessions: the new session is the
-- only active one of its user, and those of every other user are as they were.
pub create_exclusive-only :
    (i : CreateSessionInput) (s : SessionStore) (u : ℕ)
    → let (x, after) = create_exclusive i s in
      active_of u after.sessions ≡ only i.user_id x (λ v. active_of v s.sessions) u
unfolding create_exclusive
create_exclusive-only i s u =
    active_of-append u (update_where (is_active_for i.user_id) (end_session s.now) s.sessions)
      (new_session i s.now s.next_id)
    ∙ ground (arith, active_of-ended u i.user_id s.now s.sessions)
