-- ===== src/Admin/Console/Guesses.antt =====
-- Lists of checks of the second factor, in whatever order the requests come.
pub mod Once
use fiam_retail_apis.Admin.Console.{
  Console, ConsoleConfig, StaffUser, find_staff, update_staff, ConsoleError,
}
use fiam_retail_apis.Common.{
  Option-cases, none, [], some, ℕ, Bool, ◌⊎◌, true, String, Option, List, ◌∷◌, if◌then◌else◌, not,
  ◌||◌, ◌&&◌, trim, option_map, ◌≡◌, refl, All, ◌≢◌, Bool-cases, inl, inr,
}
use fiam_retail_apis.Admin.Console.Act.{◌>>=◌, update_staff_where}
use fiam_retail_apis.Admin.Console.Factors.{
  check_second_factor, claim_step, claim_recovery, totp, recovery, Method, is_later, set_last_step,
  has_recovery, spend_recovery,
}
use fiam_retail_apis.Admin.Console.Totp.{verify_totp, hash_recovery, is_six_digits}

-- The secret that the request has read, the code that it brings, and when it is checked.
pub record Guess : Type 0 where
  pub secret : String
  pub given : String
  pub now : ℕ

-- What a code stands for: a time step of the authenticator, or the hash of a recovery code.
pub data Factor : Type 0 where
  by_step : ℕ → Factor
  by_code : String → Factor

abbrev pub step_factor : Option ℕ → Option Factor
step_factor o = option_map by_step o

abbrev pub factor_of : ConsoleConfig → Guess → Option Factor
factor_of c g =
    if is_six_digits (trim g.given)
    then option_map by_step (verify_totp c g.secret (trim g.given) g.now)
    else some (by_code (hash_recovery c (trim g.given)))

abbrev pub at_time : ℕ → Console → Console
at_time now s = record s { now = now }

abbrev pub check_guess :
    ConsoleConfig → ℕ → Guess → Console → (ConsoleError ⊎ Option Method) × Console
check_guess c id g s = check_second_factor c id g.secret g.given (at_time g.now s)

abbrev pub keep : ConsoleError ⊎ Option Method → Option Factor → List Factor → List Factor
keep (inr (some m)) (some f) fs = f ∷ fs
keep _ _ fs = fs

-- What the checks accept, one after the other.
abbrev pub accepted : ConsoleConfig → ℕ → List Guess → Console → List Factor
accepted c id [] s = []
accepted c id (g ∷ gs) s =
    let checked = check_guess c id g s in
    keep checked.0 (factor_of c g) (accepted c id gs checked.1)

abbrev pub AreDistinct : List Factor → Type 0
AreDistinct [] = Unit
AreDistinct (f ∷ fs) = All (λ g. f ≢ g) fs × AreDistinct fs

-- Whether the row refuses the factor.
abbrev pub is_used : Factor → StaffUser → Bool
is_used (by_step n) u = not (is_later n u)
is_used (by_code h) u = not (has_recovery h u)

abbrev pub spend : Factor → StaffUser → StaffUser
spend (by_step n) u = set_last_step n u
spend (by_code h) u = spend_recovery h u

abbrev pub method : Factor → Method
method (by_step n) = totp
method (by_code h) = recovery

abbrev pub used_row : Factor → Option StaffUser → Bool
used_row f none = true
used_row f (some u) = is_used f u

abbrev pub try : ℕ → Option Factor → Console → (ConsoleError ⊎ Option Method) × Console
try id none s = (inr none, s)
try id (some f) s =
    if used_row f (find_staff id s)
    then (inr none, s)
    else (inr (some (method f)), update_staff id (spend f) s)

claim_step-try :
    (id : ℕ) (step : Option ℕ) (s : Console) → claim_step id step s ≡ try id (step_factor step) s
unfolding ◌>>=◌ update_staff_where
claim_step-try id none s = refl
claim_step-try id (some step) s = elim (Option-cases (find_staff id s)) [
  | inl missing ↦ rw (◌>>=◌, missing, missing) refl
  | inr (u, found) ↦ elim (Bool-cases (is_later step u)) [
    | inl right ↦ rw (◌>>=◌, found, right, found, right) refl
    | inr other ↦ rw (◌>>=◌, found, other, found, other) refl
  ]
]

claim_recovery-try :
    (id : ℕ) (h : String) (s : Console) → claim_recovery id h s ≡ try id (some (by_code h)) s
unfolding ◌>>=◌ update_staff_where
claim_recovery-try id h s = elim (Option-cases (find_staff id s)) [
  | inl missing ↦ rw (◌>>=◌, missing, missing) refl
  | inr (u, found) ↦ elim (Bool-cases (has_recovery h u)) [
    | inl right ↦ rw (◌>>=◌, found, right, found, right) refl
    | inr other ↦ rw (◌>>=◌, found, other, found, other) refl
  ]
]

pub check-try :
    (c : ConsoleConfig) (id : ℕ) (g : Guess) (s : Console)
    → check_guess c id g s ≡ try id (factor_of c g) (at_time g.now s)
unfolding check_second_factor
check-try c id g s = elim (Bool-cases (is_six_digits (trim g.given))) [
  | inl six ↦ rw six (claim_step-try id _ _)
  | inr other ↦ rw other (claim_recovery-try id _ _)
]
