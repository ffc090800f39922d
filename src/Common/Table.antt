-- ===== src/Common/Table.antt =====
-- A database table as a list of rows in insertion order, looked up by a primary key.
use fiam_retail_apis.Common.{
  inr, inl, update_where, false, Bool-cases, count_where, find?, every, true, option_map, Bool,
}
use fiam_retail_apis.Common.Lists.{sum_by}
use fiam_retail_apis.Common.Tests.{◌==◌, if◌then◌else◌}
use Prim.Native.Nat.{ℕ, ◌+◌}
use mathlib.Core.Path.{◌≡◌, refl}
use mathlib.Core.Option.{Option, none, some}
use mathlib.Core.List.{List, [], ◌∷◌, ◌++◌}
use native.Mathlib.Omega.{arith}

module _ {ℓ} {A : Type ℓ} (key : A → ℕ) where
  -- `findOneBy({ id })`
  abbrev pub find : ℕ → List A → Option A
  find k [] = none
  find k (x ∷ xs) = if key x == k then some x else find k xs

  -- `update(id, …)`: the row with this primary key.
  abbrev pub update : ℕ → (A → A) → List A → List A
  update k f [] = []
  update k f (x ∷ xs) = if key x == k then f x ∷ xs else x ∷ update k f xs

  -- `delete(id)`: the row with this primary key.
  abbrev pub remove : ℕ → List A → List A
  remove k [] = []
  remove k (x ∷ xs) = if key x == k then xs else x ∷ remove k xs

  pub key-find : (k : ℕ) (x : A) (xs : List A) → find k xs ≡ some x → key x ≡ k
  key-find k x [] h = cc
  key-find k x (y ∷ xs) h = ground (arith, key-find k x xs)

  pub sum_by-update :
      (g : A → ℕ) (k : ℕ) (f : A → A) (x : A) (xs : List A)
      → find k xs ≡ some x
      → sum_by g (update k f xs) + g x ≡ sum_by g xs + g (f x)
  sum_by-update g k f x [] h = cc
  sum_by-update g k f x (y ∷ xs) h = ground (arith, sum_by-update g k f x xs)

  pub find-update_self :
      (k : ℕ) (f : A → A) (x : A) (xs : List A)
      → find k xs ≡ some x
      → key (f x) ≡ key x
      → find k (update k f xs) ≡ some (f x)
  find-update_self k f x [] h e = cc
  find-update_self k f x (y ∷ xs) h e = ground (arith, find-update_self k f x xs)

  pub find-append :
      (k : ℕ) (x : A) (xs ys : List A) → find k xs ≡ some x → find k (xs ++ ys) ≡ some x
  find-append k x [] ys h = cc
  find-append k x (y ∷ xs) ys h = ground (arith, find-append k x xs ys)

  pub find-append_new :
      (k : ℕ) (y : A) (xs : List A)
      → find k xs ≡ none
      → find k (xs ++ (y ∷ [])) ≡ (if key y == k then some y else none)
  find-append_new k y [] h = refl
  find-append_new k y (x ∷ xs) h = ground (arith, find-append_new k y xs)

  pub update-append :
      (k : ℕ) (f : A → A) (y : A) (xs : List A)
      → find k xs ≡ none
      → key y ≡ k
      → update k f (xs ++ (y ∷ [])) ≡ xs ++ (f y ∷ [])
  update-append k f y [] h e = ground arith
  update-append k f y (x ∷ xs) h e = ground (arith, update-append k f y xs)

  pub find-update :
      (j k : ℕ) (f : A → A) (xs : List A)
      → ((x : A) → key (f x) ≡ key x)
      → find j (update k f xs) ≡ (if j == k then option_map f (find j xs) else find j xs)
  find-update j k f [] same = ground arith
  find-update j k f (x ∷ xs) same = ground (arith, same x, find-update j k f xs same)

  pub find-update_same :
      (k : ℕ) (f : A → A) (xs : List A)
      → ((x : A) → key (f x) ≡ key x)
      → find k (update k f xs) ≡ option_map f (find k xs)
  find-update_same k f [] same = refl
  find-update_same k f (x ∷ xs) same = ground (arith, same x, find-update_same k f xs same)

module _ {ℓ} {A : Type ℓ} (key : A → ℕ) (p : A → Bool) where
  pub find-every :
      (k : ℕ) (x : A) (xs : List A) → find key k xs ≡ some x → every p xs ≡ true → p x ≡ true
  find-every k x [] h all = cc
  find-every k x (y ∷ xs) h all = ground (arith, find-every k x xs)

  pub every-update :
      (k : ℕ) (f : A → A) (xs : List A)
      → ((x : A) → find key k xs ≡ some x → p x ≡ true → p (f x) ≡ true)
      → every p xs ≡ true
      → every p (update key k f xs) ≡ true
  every-update k f [] step all = refl
  every-update k f (x ∷ xs) step all = ground (arith, step x, every-update k f xs)

  pub count_where-update :
      (k : ℕ) (f : A → A) (xs : List A)
      → ((x : A) → p (f x) ≡ p x)
      → count_where p (update key k f xs) ≡ count_where p xs
  count_where-update k f [] same = refl
  count_where-update k f (x ∷ xs) same = ground (arith, same x, count_where-update k f xs same)

  pub every-append :
      (xs : List A) (y : A) → every p xs ≡ true → p y ≡ true → every p (xs ++ (y ∷ [])) ≡ true
  every-append [] y all h = ground arith
  every-append (x ∷ xs) y all h = ground (arith, every-append xs y)

-- Rows that are found by a test of another column, as by a unique index.
module _ {ℓ} {A : Type ℓ} (key : A → ℕ) (p : A → Bool) where
  -- The row that the test finds is the one that its key names: it is found after its update too.
  pub find?-update :
      (f : A → A) (x : A) (xs : List A)
      → p x ≡ true
      → p (f x) ≡ true
      → find? p xs ≡ some x
      → find key (key x) xs ≡ some x
      → find? p (update key (key x) f xs) ≡ some (f x)
  find?-update f x [] h k found named = cc
  find?-update f x (y ∷ ys) h k found named = ground (arith, find?-update f x ys h k)

  pub find?-holds : (x : A) (xs : List A) → find? p xs ≡ some x → p x ≡ true
  find?-holds x [] found = cc
  find?-holds x (y ∷ ys) found = ground (arith, find?-holds x ys)

  pub find?-append : (x : A) (xs ys : List A) → find? p xs ≡ some x → find? p (xs ++ ys) ≡ some x
  find?-append x [] ys found = cc
  find?-append x (y ∷ xs) ys found = ground (arith, find?-append x xs ys)

-- Whether the first row that a test finds passes another test.
module _ {ℓ} {A : Type ℓ} (p q : A → Bool) where
  abbrev pub first_passes : List A → Bool
  first_passes [] = false
  first_passes (x ∷ xs) = let rest = first_passes xs in if p x then q x else rest

  pub first_passes-append :
      (xs ys : List A) → first_passes xs ≡ true → first_passes (xs ++ ys) ≡ true
  first_passes-append [] ys h = cc
  first_passes-append (x ∷ xs) ys h = ground (arith, first_passes-append xs ys)

  pub first_passes-update :
      (key : A → ℕ) (k : ℕ) (f : A → A) (xs : List A)
      → ((x : A) → p (f x) ≡ p x)
      → ((x : A) → q x ≡ true → q (f x) ≡ true)
      → first_passes xs ≡ true
      → first_passes (update key k f xs) ≡ true
  first_passes-update key k f [] same keeps h = cc
  first_passes-update key k f (x ∷ xs) same keeps h =
      ground (arith, same x, keeps x, first_passes-update key k f xs same keeps)

  pub first_passes-update_where :
      (r : A → Bool) (f : A → A) (xs : List A)
      → ((x : A) → p (f x) ≡ p x)
      → ((x : A) → q x ≡ true → q (f x) ≡ true)
      → first_passes xs ≡ true
      → first_passes (update_where r f xs) ≡ true
  first_passes-update_where r f [] same keeps h = cc
  first_passes-update_where r f (x ∷ xs) same keeps h = elim (Bool-cases (r x)) [
    | inl chosen ↦
        rw chosen (ground (arith, same x, keeps x, first_passes-update_where r f xs same keeps))
    | inr left ↦ rw left (ground (arith, first_passes-update_where r f xs same keeps))
  ]

  pub first_passes-found :
      (xs : List A) → first_passes xs ≡ true → (x : A) × (find? p xs ≡ some x) × (q x ≡ true)
  first_passes-found [] h = absurd (ground arith)
  first_passes-found (x ∷ xs) h = elim (Bool-cases (p x)) [
    | inl here ↦ (x, rw here refl, ground arith)
    | inr later ↦
        let (y, found, passes) = first_passes-found xs (ground arith) in (y, rw later found, passes)
  ]

  pub found-first_passes :
      (x : A) (xs : List A) → find? p xs ≡ some x → q x ≡ true → first_passes xs ≡ true
  found-first_passes x [] found passes = cc
  found-first_passes x (y ∷ xs) found passes = ground (arith, found-first_passes x xs)
