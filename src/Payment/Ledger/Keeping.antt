-- ===== src/Payment/Ledger/Keeping.antt =====
-- What keeps a predicate, also when it throws: the rules for the combinators, and their ruleset.
use fiam_retail_apis.Common.{Bool, true, false, Option, none, some, if◌then◌else◌}
use fiam_retail_apis.Payment.Store.{
  modify, Db, Result, ok, err, Error, M, ◌>>=◌, pure, raise, gets, lift, or_raise, raise_if, catch,
}
use fiam_retail_apis.Payment.Ledger.{Triple, Keeps}
use fiam_retail_apis.Payment.Ledger.Rules.{Triple-catch, Triple-bind, Triple-weaken}

module _ {P : Db → Type 0} where
  pub Keeps-bind :
      {A B : Type 0} (m : M A) (f : A → M B)
      → Keeps P m
      → ((a : A) → Keeps P (f a))
      → Keeps P (m >>= f)
  Keeps-bind m f h k = Triple-bind (λ _ db. P db) h k

  pub Keeps-pure : {A : Type 0} (a : A) → Keeps P (pure a)
  unfolding pure
  Keeps-pure a = record { at = λ db p. p }

  pub Keeps-raise : {A : Type 0} (e : Error) → Keeps P (raise {A = A} e)
  unfolding raise
  Keeps-raise e = record { at = λ db p. p }

  pub Keeps-gets : {A : Type 0} (f : Db → A) → Keeps P (gets f)
  unfolding gets
  Keeps-gets f = record { at = λ db p. p }

  pub Keeps-lift : {A : Type 0} (r : Result A) → Keeps P (lift r)
  unfolding lift
  Keeps-lift (ok a) = record { at = λ db p. p }
  Keeps-lift (err e) = record { at = λ db p. p }

  pub Keeps-or_raise : {A : Type 0} (o : Option A) (e : Error) → Keeps P (or_raise o e)
  unfolding or_raise
  Keeps-or_raise none e = record { at = λ db p. p }
  Keeps-or_raise (some a) e = record { at = λ db p. p }

  pub Keeps-raise_if : (b : Bool) (e : Error) → Keeps P (raise_if b e)
  unfolding raise_if
  Keeps-raise_if true e = record { at = λ db p. p }
  Keeps-raise_if false e = record { at = λ db p. p }

  pub Keeps-if :
      {A : Type 0} (b : Bool) (m k : M A) → Keeps P m → Keeps P k → Keeps P (if b then m else k)
  Keeps-if true m k h h' = h
  Keeps-if false m k h h' = h'

  pub Keeps-catch :
      {A : Type 0} (m : M A) (h : Error → M A)
      → Keeps P m
      → ((e : Error) → Keeps P (h e))
      → Keeps P (catch m h)
  Keeps-catch m h p k = Triple-catch P p k

-- A first step that keeps `P`, and whose errors leave what the block promises of an error.
pub after :
    {A B : Type 0} {P E : Db → Type 0} {R : B → Db → Type 0} {m : M A} (f : A → M B)
    → ((db : Db) → P db → E db)
    → Keeps P m
    → ((a : A) → Triple P (f a) R E)
    → Triple P (m >>= f) R E
after {P} {E} f p h k =
    Triple-bind (λ _. P) (Triple-weaken P (λ _. P) P h (λ _ q. q) (λ _ _ q. q) p) k

pub modify-Triple :
    {P E : Db → Type 0} (Q : Db → Type 0) (g : Db → Db)
    → ((db : Db) → P db → Q (g db))
    → Triple P (modify g) (λ _. Q) E
unfolding modify
modify-Triple Q g h = record { at = h }

pub ruleset keeps_rules = (
  Keeps-bind, Keeps-pure, Keeps-raise, Keeps-gets, Keeps-lift, Keeps-or_raise, Keeps-raise_if,
  Keeps-if, Keeps-catch,
)
