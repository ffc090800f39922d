-- ===== src/Admin/Console/Guesses/Once.antt =====
-- The second factor is spent: a list of checks accepts none twice.
use fiam_retail_apis.Common.{
  [], none, Bool, some, false, List, true, String, Option, ℕ, ◌∷◌, text_eq, any, option_map, arith,
  ◌≡◌, refl, All, ◌≢◌, Bool-cases, inl, inr,
}
use fiam_retail_apis.Admin.Console.{
  Console, ConsoleConfig, StaffUser, find_staff, update_staff, staff_key,
}
use mathlib.Core.Path.{subst}
use fiam_retail_apis.Common.Table.{find-update_same}
use fiam_retail_apis.Admin.Console.Factors.{without}
use fiam_retail_apis.Admin.Console.Guesses.{
  Guess, Factor, by_step, by_code, factor_of, at_time, keep, accepted, AreDistinct, is_used, spend,
  used_row, try, check-try,
}

without_self : (h : String) (xs : List String) → any (text_eq h) (without h xs) ≡ false
without_self h [] = refl
without_self h (x ∷ xs) = ground (arith, without_self h xs)

without-any :
    (h k : String) (xs : List String)
    → any (text_eq h) xs ≡ false
    → any (text_eq h) (without k xs) ≡ false
without-any h k [] e = refl
without-any h k (x ∷ xs) e = ground (arith, without-any h k xs)

spend_self : (f : Factor) (u : StaffUser) → is_used f (spend f u) ≡ true
spend_self (by_step n) u = ground arith
spend_self (by_code h) u = rw (without_self h u.recovery_code_hashes) refl

spend-used :
    (f g : Factor) (u : StaffUser)
    → is_used f u ≡ true
    → is_used g u ≡ false
    → is_used f (spend g u) ≡ true
spend-used (by_step n) (by_step m) u old new = ground arith
spend-used (by_step n) (by_code k) u old new = old
spend-used (by_code h) (by_step m) u old new = old
spend-used (by_code h) (by_code k) u old new =
    ground (arith, without-any h k u.recovery_code_hashes)

spend-row :
    (f g : Factor) (o : Option StaffUser)
    → used_row f o ≡ true
    → used_row g o ≡ false
    → used_row f (option_map (spend g) o) ≡ true
spend-row f g none old new = old
spend-row f g (some u) old new = spend-used f g u old new

spend-id : (f : Factor) (u : StaffUser) → (spend f u).id ≡ u.id
spend-id (by_step n) u = refl
spend-id (by_code h) u = refl

spent_row :
    (id : ℕ) (f : Factor) (s : Console)
    → find_staff id (update_staff id (spend f) s) ≡ option_map (spend f) (find_staff id s)
spent_row id f s = find-update_same staff_key id (spend f) s.staff (spend-id f)

try-used :
    (id : ℕ) (f : Factor) (o : Option Factor) (s : Console)
    → used_row f (find_staff id s) ≡ true
    → used_row f (find_staff id (try id o s).1) ≡ true
try-used id f none s old = old
try-used id f (some g) s old = elim (Bool-cases (used_row g (find_staff id s))) [
  | inl used ↦ rw used old
  | inr unused ↦ rw (unused, spent_row id g s) (spend-row f g (find_staff id s) old unused)
]

spend_self_row : (f : Factor) (o : Option StaffUser) → used_row f (option_map (spend f) o) ≡ true
spend_self_row f none = refl
spend_self_row f (some u) = spend_self f u

-- Whether a factor is refused from here on.
abbrev IsRefused : ℕ → Factor → Console → Type 0
IsRefused id f s = used_row f (find_staff id s) ≡ true

other_factor :
    (id : ℕ) (f g : Factor) (s : Console)
    → IsRefused id f s
    → used_row g (find_staff id s) ≡ false
    → f ≢ g
other_factor id f g s old new = λ e. absurd (clash (subst (λ h. IsRefused id h s) e old) new)
  where
    clash : {b : Bool} → b ≡ true → b ≡ false → ⊥
    clash h k = cc

module _ (c : ConsoleConfig) (id : ℕ) where
  accepted-others :
      (gs : List Guess) (f : Factor) (s : Console)
      → IsRefused id f s
      → All (λ g. f ≢ g) (accepted c id gs s)
  accepted-others [] f s old = tt
  accepted-others (g ∷ gs) f s old =
      rw (check-try c id g s) (go (factor_of c g) (accepted-others gs f))
    where
      go :
          (o : Option Factor)
          → ((t : Console) → IsRefused id f t → All (λ g. f ≢ g) (accepted c id gs t))
          → All
              (λ g. f ≢ g)
              (keep
                (try id o (at_time g.now s)).0
                o
                (accepted c id gs (try id o (at_time g.now s)).1))
      go none rest = rest _ old
      go (some k) rest = elim (Bool-cases (used_row k (find_staff id s))) [
        | inl used ↦ rw used (rest _ old)
        | inr unused ↦ rw unused (
          other_factor id f k s old unused,
          rest _ (rw (spent_row id k s) (spend-row f k (find_staff id s) old unused)),
        )
      ]

-- Whatever codes are brought for an account, at whatever times and in whatever order the requests
-- come, no time step of the authenticator and no recovery code is accepted twice.
pub accepted-AreDistinct :
    (c : ConsoleConfig) (id : ℕ) (gs : List Guess) (s : Console) → AreDistinct (accepted c id gs s)
accepted-AreDistinct c id [] s = tt
accepted-AreDistinct c id (g ∷ gs) s =
    rw (check-try c id g s) (go (factor_of c g) (accepted-AreDistinct c id gs))
  where
    go :
        (o : Option Factor)
        → ((t : Console) → AreDistinct (accepted c id gs t))
        → AreDistinct (
            keep (try id o (at_time g.now s)).0 o (accepted c id gs (try id o (at_time g.now s)).1))
    go none rest = rest _
    go (some k) rest = elim (Bool-cases (used_row k (find_staff id s))) [
      | inl used ↦ rw used (rest _)
      | inr unused ↦ rw unused (
        accepted-others c id gs k _ (rw (spent_row id k s) (spend_self_row k (find_staff id s))),
        rest _,
      )
    ]
