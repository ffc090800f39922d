-- ===== src/Admin/Console/Holding.antt =====
-- Invariants of the console by the rules of a request's parts: what holds before holds after, and
-- an answer has the property that the next part relies on.
use fiam_retail_apis.Admin.Console.{StaffUser, not_found, Console, ConsoleError, find_staff}
use mathlib.Core.Path.{subst}
use fiam_retail_apis.Common.{
  sym, ap, ℕ, ◌≡◌, refl, inl, inr, Option, some, none, ◌⊎◌, Bool, false, true,
}
use fiam_retail_apis.Admin.Console.Act.{
  Act, pure, raise, modify, gets, raise_if, or_raise, ◌>>=◌, get_staff,
}

abbrev pub Answers {κ} : {A : Type 0} → (A → Type κ) → ConsoleError ⊎ A → Type κ
Answers R (inl e) = Unit
Answers R (inr a) = R a

abbrev pub Outcome :
    {A : Type 0} → (Console → Type 0) → (A → Type 0) → (ConsoleError ⊎ A) × Console → Type 0
Outcome P R r = P r.1 × Answers R r.0

pub record Holds {A : Type 0} (P : Console → Type 0) (R : A → Type 0) (m : Act A) : Type 0 where
  pub at : (s : Console) → P s → Outcome P R (m s)

-- Nothing is asked of the answer.
abbrev pub Any : {A : Type 0} → A → Type 0
Any a = Unit

pub Answers-Any : {A : Type 0} (r : ConsoleError ⊎ A) → Answers Any r
Answers-Any (inl e) = tt
Answers-Any (inr a) = tt

abbrev pub Keeps : {A : Type 0} → (Console → Type 0) → Act A → Type 0
Keeps P m = Holds P Any m

pub got-staff :
    (id : ℕ) (s : Console) (u : StaffUser) → find_staff id s ≡ some u → get_staff id s ≡ (inr u, s)
unfolding get_staff or_raise
got-staff id s u found = rw found refl

pub missed-staff :
    (id : ℕ) (s : Console) → find_staff id s ≡ none → get_staff id s ≡ (inl not_found, s)
unfolding get_staff or_raise
missed-staff id s missing = rw missing refl

pub passed_if :
    (b : Bool) (e : ConsoleError) (s : Console) → b ≡ false → raise_if b e s ≡ (inr tt, s)
unfolding raise_if
passed_if b e s passes = rw passes refl

pub raised_if : (b : Bool) (e : ConsoleError) (s : Console) → b ≡ true → raise_if b e s ≡ (inl e, s)
unfolding raise_if
raised_if b e s raises = rw raises refl

-- A first part whose answer is known.
bound :
    {A B : Type 0} (m : Act A) (f : A → Act B) (s : Console) (r : (ConsoleError ⊎ A) × Console)
    → m s ≡ r
    → (m >>= f) s ≡ elim r.0 [ inr a ↦ f a r.1 | inl e ↦ (inl e, r.1) ]
unfolding ◌>>=◌
bound {B} m f s r e =
    ap
      (λ r. elim r.0 as (λ _. (ConsoleError ⊎ B) × Console) [
        | inr a ↦ f a r.1
        | inl e ↦ (inl e, r.1)
      ])
      e

pub bind-to :
    {A B : Type 0} (P : Console → Type 0) (R : B → Type 0) (m : Act A) (f : A → Act B) (s : Console)
    (a : A) (t : Console)
    → m s ≡ (inr a, t)
    → Outcome P R (f a t)
    → Outcome P R ((m >>= f) s)
bind-to P R m f s a t e h = subst (λ r. Outcome P R r) (sym (bound m f s (inr a, t) e)) h

pub bind-fail :
    {A B : Type 0} (P : Console → Type 0) (R : B → Type 0) (m : Act A) (f : A → Act B) (s : Console)
    (x : ConsoleError) (t : Console)
    → m s ≡ (inl x, t)
    → P t
    → Outcome P R ((m >>= f) s)
bind-fail P R m f s x t e h = subst (λ r. Outcome P R r) (sym (bound m f s (inl x, t) e)) (h, tt)

module _ {P : Console → Type 0} where
  ended :
      {A B : Type 0} {Q : A → Type 0} {R : B → Type 0} (f : A → Act B)
      (r : (ConsoleError ⊎ A) × Console)
      → ((a : A) → Q a → Holds P R (f a))
      → Outcome P Q r
      → Outcome P R (elim r.0 [ inr a ↦ f a r.1 | inl e ↦ (inl e, r.1) ])
  ended f (inl e, t) hf h = h
  ended f (inr a, t) hf (p, q) = (hf a q).at t p

  -- A first part that is looked at from one state.
  pub bind-at :
      {A B : Type 0} {Q : A → Type 0} {R : B → Type 0} (m : Act A) (f : A → Act B) (s : Console)
      → Outcome P Q (m s)
      → ((a : A) → Q a → Holds P R (f a))
      → Outcome P R ((m >>= f) s)
  unfolding ◌>>=◌
  bind-at m f s hm hf = ended f (m s) hf hm

  pub bind-Holds :
      {A B : Type 0} (Q : A → Type 0) {R : B → Type 0} (m : Act A) (f : A → Act B)
      → Holds P Q m
      → ((a : A) → Q a → Holds P R (f a))
      → Holds P R (m >>= f)
  unfolding ◌>>=◌
  bind-Holds Q m f hm hf = record { at = λ s p. ended f (m s) hf (hm.at s p) }

  pub bind-Keeps :
      {A B : Type 0} (m : Act A) (f : A → Act B)
      → Keeps P m
      → ((a : A) → Keeps P (f a))
      → Keeps P (m >>= f)
  bind-Keeps m f hm hf = bind-Holds Any m f hm (λ a _. hf a)

  pub pure-Holds : {A : Type 0} {R : A → Type 0} (a : A) → R a → Holds P R (pure a)
  unfolding pure
  pure-Holds a r = record { at = λ s p. (p, r) }

  pub pure-Keeps : {A : Type 0} (a : A) → Keeps P (pure a)
  pure-Keeps a = pure-Holds a tt

  pub raise-Keeps : {A : Type 0} (e : ConsoleError) → Keeps P (raise {A = A} e)
  unfolding raise
  raise-Keeps e = record { at = λ s p. (p, tt) }

  pub gets-Holds :
      {A : Type 0} (R : A → Type 0) (f : Console → A)
      → ((s : Console) → P s → R (f s))
      → Holds P R (gets f)
  unfolding gets
  gets-Holds R f r = record { at = λ s p. (p, r s p) }

  pub gets-Keeps : {A : Type 0} (f : Console → A) → Keeps P (gets f)
  gets-Keeps f = gets-Holds Any f (λ s p. tt)

  pub modify-Keeps : (f : Console → Console) → ((s : Console) → P s → P (f s)) → Keeps P (modify f)
  unfolding modify
  modify-Keeps f h = record { at = λ s p. (h s p, tt) }

  pub raise_if-Holds : (b : Bool) (e : ConsoleError) → Holds P (λ _. b ≡ false) (raise_if b e)
  unfolding raise_if
  raise_if-Holds true e = record { at = λ s p. (p, tt) }
  raise_if-Holds false e = record { at = λ s p. (p, refl) }

  pub raise_if-Keeps : (b : Bool) (e : ConsoleError) → Keeps P (raise_if b e)
  unfolding raise_if
  raise_if-Keeps true e = record { at = λ s p. (p, tt) }
  raise_if-Keeps false e = record { at = λ s p. (p, tt) }

  pub or_raise-Holds :
      {A : Type 0} (R : A → Type 0) (o : Option A) (e : ConsoleError)
      → ((a : A) → o ≡ some a → R a)
      → Holds P R (or_raise o e)
  unfolding or_raise
  or_raise-Holds R none e h = record { at = λ s p. (p, tt) }
  or_raise-Holds R (some a) e h = record { at = λ s p. (p, h a refl) }

  pub or_raise-Keeps : {A : Type 0} (o : Option A) (e : ConsoleError) → Keeps P (or_raise o e)
  or_raise-Keeps o e = or_raise-Holds Any o e (λ a _. tt)

  pub get_staff-Keeps : (id : ℕ) → Keeps P (get_staff id)
  unfolding get_staff
  get_staff-Keeps id = record { at = λ s p. (or_raise-Keeps (find_staff id s) not_found).at s p }

pub ruleset console_rules = (
  bind-Keeps, pure-Keeps, raise-Keeps, gets-Keeps, raise_if-Keeps, or_raise-Keeps, get_staff-Keeps,
)
