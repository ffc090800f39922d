-- ===== src/Auth/Lockout/Bound.antt =====
-- How many wrong guesses are evaluated within the length of one lockout.
use fiam_retail_apis.Common.{
  inr, inl, Bool-cases, leb, arith, ◌<◌, ◌-◌, ◌+◌, ◌≤◌, ltb, Option, List, ℕ, none, some, false, [],
  ◌∷◌, if◌then◌else◌,
}
use fiam_retail_apis.Auth.Lockout.{
  lockout, max_failed_attempts, too_many_requests, Lock, checked, verify_reserved, Verdict,
  reserve_attempt, guarded_verify,
}

abbrev was_checked : Verdict → ℕ
was_checked too_many_requests = 0
was_checked (checked correct alerted) = 1

-- Wrong guesses at these times, one after the other: how many of them are evaluated.
abbrev pub evaluated : List ℕ → Lock → ℕ
evaluated [] l = 0
evaluated (now ∷ later) l =
    was_checked (guarded_verify now false l).1 + evaluated later (guarded_verify now false l).0

-- The evaluations that are left before `end`.
abbrev left_unlocked : ℕ → ℕ
left_unlocked attempts = if ltb attempts 5 then 5 - attempts else 1

abbrev left_until : ℕ → Option ℕ → ℕ → ℕ
left_until end none attempts = left_unlocked attempts
left_until end (some until) attempts = if leb end until then 0 else 5

abbrev left : ℕ → Lock → ℕ
left end l = left_until end l.locked_until l.failed_attempts

left-step_until :
    (start now attempts : ℕ) (until : Option ℕ)
    → start ≤ now
    → now < start + lockout
    → let after =
        guarded_verify now false (record { failed_attempts = attempts; locked_until = until }) in
      was_checked after.1 + left (start + lockout) after.0
      ≤ left_until (start + lockout) until attempts
unfolding guarded_verify reserve_attempt verify_reserved
left-step_until start now attempts none after_start before_end =
    elim (Bool-cases (leb 5 (attempts + 1))) [
      | inl full ↦ rw full (ground arith)
      | inr free ↦ rw free (ground arith)
    ]
left-step_until start now attempts (some until) after_start before_end =
    elim (Bool-cases (leb until now)) [
      | inl over ↦ rw over (ground arith)
      | inr locked ↦ rw locked (ground arith)
    ]

left-step :
    (start now : ℕ) (l : Lock)
    → start ≤ now
    → now < start + lockout
    → was_checked (guarded_verify now false l).1
        + left (start + lockout) (guarded_verify now false l).0
      ≤ left (start + lockout) l
left-step start now l = left-step_until start now l.failed_attempts l.locked_until

-- Every guess falls within one lockout's length from `start`.
abbrev pub AreWithin : ℕ → List ℕ → Type 0
AreWithin start [] = Unit
AreWithin start (now ∷ later) = ((start ≤ now) × (now < start + lockout)) × AreWithin start later

evaluated-left :
    (start : ℕ) (guesses : List ℕ) (l : Lock)
    → AreWithin start guesses
    → evaluated guesses l ≤ left (start + lockout) l
evaluated-left start [] l within = omega arith
evaluated-left start (now ∷ later) l within = omega (
  arith,
  left-step start now l (within.0).0 (within.0).1,
  evaluated-left start later (guarded_verify now false l).0 within.1,
)

left-le : (end : ℕ) (until : Option ℕ) (attempts : ℕ) → left_until end until attempts ≤ 5
left-le end none attempts = ground arith
left-le end (some until) attempts = ground arith

-- Whatever the state of a secret, at most five of the wrong guesses that are made within 15 minutes
-- are evaluated.
pub guarded_verify-bound :
    (start : ℕ) (guesses : List ℕ) (l : Lock)
    → AreWithin start guesses
    → evaluated guesses l ≤ max_failed_attempts
guarded_verify-bound start guesses l within = omega (
  arith,
  evaluated-left start guesses l within,
  left-le (start + lockout) l.locked_until l.failed_attempts,
)
