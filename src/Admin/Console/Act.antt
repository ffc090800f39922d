-- ===== src/Admin/Console/Act.antt =====
-- A request to the console: what it wrote before it throws stays, since each statement commits.
use fiam_retail_apis.Common.{
  String, Bool, true, false, if◌then◌else◌, ◌⊎◌, inl, inr, Option, none, some, ℕ,
}
use fiam_retail_apis.Admin.Console.{
  Console, ConsoleError, StaffUser, find_staff, row_passes, update_staff, not_found, record_own,
  ConsoleAction,
}

abbrev pub Act : Type 0 → Type 0
Act A = Console → (ConsoleError ⊎ A) × Console

unfoldable pub pure : {A : Type 0} → A → Act A
pure a s = (inr a, s)

unfoldable pub raise : {A : Type 0} → ConsoleError → Act A
raise e s = (inl e, s)

unfoldable pub gets : {A : Type 0} → (Console → A) → Act A
gets f s = (inr (f s), s)

unfoldable pub modify : (Console → Console) → Act (Unit {0})
modify f s = (inr tt, f s)

unfoldable pub or_raise : {A : Type 0} → Option A → ConsoleError → Act A
or_raise none e s = (inl e, s)
or_raise (some a) e s = (inr a, s)

unfoldable pub raise_if : Bool → ConsoleError → Act (Unit {0})
raise_if b e s = (if b then inl e else inr tt, s)

infixl 5 ◌>>=◌ ◌>>◌
-- Opening this opens the other combinators too.
unfoldable pub ◌>>=◌ : {A B : Type 0} → Act A → (A → Act B) → Act B
unfolding pure raise gets modify or_raise raise_if
◌>>=◌ m f s = let (r, s') = m s in elim r [ inr a ↦ f a s' | inl e ↦ (inl e, s') ]

abbrev pub ◌>>◌ : {A B : Type 0} → Act A → Act B → Act B
m >> k = m >>= λ _. k

-- `findOneByOrFail({ id })`, and `findOneBy({ id })` with a 404
unfoldable pub get_staff : ℕ → Act StaffUser
get_staff id s = or_raise (find_staff id s) not_found s

-- `UPDATE staff_users SET … WHERE id = $1 AND … RETURNING id`: whether it changed the row.
unfoldable pub update_staff_where : ℕ → (StaffUser → Bool) → (StaffUser → StaffUser) → Act Bool
update_staff_where id p f s =
    if row_passes p (find_staff id s) then (inr true, update_staff id f s) else (inr false, s)

-- A `recordSafe` about the member of staff who acts.
abbrev pub audit_own : StaffUser → ConsoleAction → Option String → Act (Unit {0})
audit_own u action ip = modify (record_own u action ip)
