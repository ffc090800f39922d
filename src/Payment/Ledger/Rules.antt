-- ===== src/Payment/Ledger/Rules.antt =====
-- The rules of the triples for the combinators of the monad.
use fiam_retail_apis.Common.{◌≡◌, refl, Bool, true, false, Option, none, some}
use fiam_retail_apis.Payment.Store.{
  Db, Result, ok, err, Error, M, ◌>>=◌, gets, lift, or_raise, raise_if, transaction, catch,
}
use fiam_retail_apis.Payment.Ledger.{Ends, Triple, Keeps}

Ends-bind :
    {A B : Type 0} (Q : A → Db → Type 0) (R : B → Db → Type 0) (E : Db → Type 0) (r : Result A × Db)
    (f : A → M B)
    → Ends Q E r
    → ((a : A) → Triple (Q a) (f a) R E)
    → Ends R E (elim r.0 [ ok a ↦ f a r.1 | err e ↦ (err e, r.1) ])
Ends-bind Q R E (ok a, db) f h k = (k a).at db h
Ends-bind Q R E (err e, db) f h k = h

pub Triple-bind :
    {A B : Type 0} {P : Db → Type 0} (Q : A → Db → Type 0) {R : B → Db → Type 0} {E : Db → Type 0}
    {m : M A} {f : A → M B}
    → Triple P m Q E
    → ((a : A) → Triple (Q a) (f a) R E)
    → Triple P (m >>= f) R E
unfolding ◌>>=◌
Triple-bind {P} Q {R} {E} {m} {f} h k = record {
  at = λ db p. Ends-bind Q R E (m db) f (h.at db p) k;
}

-- A stronger precondition and weaker postconditions.
Ends-weaken :
    {A : Type 0} (Q Q' : A → Db → Type 0) (E E' : Db → Type 0) (r : Result A × Db)
    → ((a : A) (db : Db) → Q a db → Q' a db)
    → ((db : Db) → E db → E' db)
    → Ends Q E r
    → Ends Q' E' r
Ends-weaken Q Q' E E' (ok a, db) q e h = q a db h
Ends-weaken Q Q' E E' (err x, db) q e h = e db h

pub Triple-weaken :
    {A : Type 0} {P' : Db → Type 0} (P : Db → Type 0) {m : M A} (Q : A → Db → Type 0)
    {Q' : A → Db → Type 0} (E : Db → Type 0) {E' : Db → Type 0}
    → Triple P m Q E
    → ((db : Db) → P' db → P db)
    → ((a : A) (db : Db) → Q a db → Q' a db)
    → ((db : Db) → E db → E' db)
    → Triple P' m Q' E'
Triple-weaken P {m} Q {Q'} E {E'} h p q e = record {
  at = λ db p'. Ends-weaken Q Q' E E' (m db) q e (h.at db (p db p'));
}

-- An error that nobody reads.
pub relax :
    {A : Type 0} {P E : Db → Type 0} {m : M A} {Q : A → Db → Type 0}
    → Triple P m Q E
    → Triple P m Q (λ _. Unit)
relax {P} {E} {Q} h = Triple-weaken P Q E h (λ _ p. p) (λ _ _ q. q) (λ _ _. tt)

pub Keeps-relax :
    {A : Type 0} {P : Db → Type 0} {m : M A} → Keeps P m → Triple P m (λ _. P) (λ _. Unit)
Keeps-relax {P} h = relax {E = P} h

-- A stronger precondition.
pub assuming :
    {A : Type 0} (P : Db → Type 0) {P' E : Db → Type 0} {m : M A} {Q : A → Db → Type 0}
    → ((db : Db) → P' db → P db)
    → Triple P m Q E
    → Triple P' m Q E
assuming P {E} {Q} p h = Triple-weaken P Q E h p (λ _ _ q. q) (λ _ q. q)

Ends-and :
    {A : Type 0} (Q Q' : A → Db → Type 0) (E E' : Db → Type 0) (r : Result A × Db)
    → Ends Q E r
    → Ends Q' E' r
    → Ends (λ a db. Q a db × Q' a db) (λ db. E db × E' db) r
Ends-and Q Q' E E' (ok a, db) h h' = (h, h')
Ends-and Q Q' E E' (err e, db) h h' = (h, h')

-- Two triples of one call.
pub Triple-and :
    {A : Type 0} {P P' E E' : Db → Type 0} {m : M A} {Q Q' : A → Db → Type 0}
    → Triple P m Q E
    → Triple P' m Q' E'
    → Triple (λ db. P db × P' db) m (λ a db. Q a db × Q' a db) (λ db. E db × E' db)
Triple-and {E} {E'} {m} {Q} {Q'} h h' = record {
  at = λ db p. Ends-and Q Q' E E' (m db) (h.at db p.0) (h'.at db p.1);
}

-- A call of which nothing is asked.
Ends-any : {A : Type 0} (r : Result A × Db) → Ends {A = A} (λ _ _. Unit {0}) (λ _. Unit {0}) r
Ends-any (ok a, db) = tt
Ends-any (err e, db) = tt

pub Triple-any :
    {A : Type 0} {P : Db → Type 0} (m : M A) → Triple P m (λ _ _. Unit {0}) (λ _. Unit {0})
Triple-any m = record { at = λ db p. Ends-any (m db) }

-- What holds of the values, and not of the state.
pub fact-bind :
    {A F : Type 0} {P E : Db → Type 0} {Q : A → Db → Type 0} {m : M A}
    → (F → Triple P m Q E)
    → Triple (λ db. P db × F) m Q E
fact-bind h = record { at = λ db p. (h p.1).at db p.0 }

-- The first step of a block: a missing value, a test or a read. The rest may use what it shows.
module _ {P E : Db → Type 0} {B : Type 0} {R : B → Db → Type 0} where
  pub or_raise-bind :
      {A : Type 0} (o : Option A) (e : Error) {f : A → M B}
      → ((db : Db) → P db → E db)
      → ((a : A) → o ≡ some a → Triple P (f a) R E)
      → Triple P (or_raise o e >>= f) R E
  unfolding ◌>>=◌
  or_raise-bind none e p h = record { at = p }
  or_raise-bind (some a) e p h = record { at = (h a refl).at }

  pub lift-bind :
      {A : Type 0} (r : Result A) {f : A → M B}
      → ((db : Db) → P db → E db)
      → ((a : A) → r ≡ ok a → Triple P (f a) R E)
      → Triple P (lift r >>= f) R E
  unfolding ◌>>=◌
  lift-bind (ok a) p h = record { at = (h a refl).at }
  lift-bind (err e) p h = record { at = p }

  pub raise_if-bind :
      (b : Bool) (e : Error) (f : Unit {0} → M B)
      → ((db : Db) → P db → E db)
      → (b ≡ false → Triple P (f tt) R E)
      → Triple P (raise_if b e >>= f) R E
  unfolding ◌>>=◌
  raise_if-bind true e f p h = record { at = p }
  raise_if-bind false e f p h = record { at = (h refl).at }

  pub gets-bind :
      {A : Type 0} (g : Db → A) {f : A → M B}
      → ((a : A) → Triple P (f a) R E)
      → Triple P (gets g >>= f) R E
  unfolding ◌>>=◌
  gets-bind g h = record { at = λ db p. (h (g db)).at db p }

Ends-transaction :
    {A : Type 0} (Q : A → Db → Type 0) (E : Db → Type 0) (r : Result A × Db) (db : Db)
    → Ends Q (λ _. Unit) r
    → E db
    → Ends Q E (elim r.0 [ ok a ↦ (ok a, r.1) | err e ↦ (err e, db) ])
Ends-transaction Q E (ok a, db') db h p = h
Ends-transaction Q E (err e, db') db h p = p

-- A database transaction that throws leaves the state as it was.
pub Triple-transaction :
    {A : Type 0} {P E : Db → Type 0} {Q : A → Db → Type 0} {m : M A}
    → ((db : Db) → P db → E db)
    → Triple P m Q (λ _. Unit)
    → Triple P (transaction m) Q E
unfolding transaction
Triple-transaction {E} {Q} {m} p h = record {
  at = λ db q. Ends-transaction Q E (m db) db (h.at db q) (p db q);
}

Ends-recover :
    {A : Type 0} (Q : A → Db → Type 0) (I E : Db → Type 0) (r : Result A × Db) (h : Error → M A)
    → Ends Q I r
    → ((e : Error) → Triple I (h e) Q E)
    → Ends Q E (elim r.0 [ ok a ↦ (ok a, r.1) | err e ↦ h e r.1 ])
Ends-recover Q I E (ok a, db) h q k = q
Ends-recover Q I E (err e, db) h q k = (k e).at db q

-- `try … catch`: the handler starts where the block threw.
pub Triple-catch :
    {A : Type 0} {P E : Db → Type 0} (I : Db → Type 0) {Q : A → Db → Type 0} {m : M A}
    {h : Error → M A}
    → Triple P m Q I
    → ((e : Error) → Triple I (h e) Q E)
    → Triple P (catch m h) Q E
unfolding catch
Triple-catch {E} I {Q} {m} {h} q k = record {
  at = λ db p. Ends-recover Q I E (m db) h (q.at db p) k;
}
