-- ===== src/Admin/Requests/Supers.antt =====
-- The console is never left without an active super admin: how the writes change their number.
pub mod Kept
use fiam_retail_apis.Admin.Console.{
  is_active_staff, is_active_status, StaffStatus, StaffRole, Console, StaffUser, find_staff,
  staff_key,
}
use fiam_retail_apis.Common.{
  ◌==◌, sym, inr, inl, Bool-cases, get_or, if◌then◌else◌, [], ◌+◌, ◌∷◌, true, false, none, some,
  ◌≤◌, ℕ, ◌≡◌, refl, arith, count_where, Option, List,
}
use fiam_retail_apis.Admin.Console.Act.{◌>>◌, ◌>>=◌}
use fiam_retail_apis.Admin.Staff.{
  guarded_change, is_super, is_disabling, is_demoting, UpdateStaffDto, is_last_super, active_supers,
  is_active_super, change_staff,
}
use fiam_retail_apis.Common.Table.{key-find, remove, find, update, count_where-update}
use mathlib.Core.Path.{subst}
use fiam_retail_apis.Admin.Requests.Steady.{IsOwn}

abbrev pub HasSuper : Console → Type 0
HasSuper s = 1 ≤ active_supers s

pub own-supers :
    (id : ℕ) (f : StaffUser → StaffUser) (us : List StaffUser)
    → IsOwn f
    → count_where is_active_super (update staff_key id f us) ≡ count_where is_active_super us
own-supers id f us own = count_where-update staff_key is_active_super id f us (λ u. (own u).1)

-- One row changes: the others are counted as before.
pub changed-supers :
    (id : ℕ) (f : StaffUser → StaffUser) (u : StaffUser) (us : List StaffUser)
    → find staff_key id us ≡ some u
    → count_where is_active_super us
      ≤ count_where is_active_super (update staff_key id f us)
        + (if is_active_super u then 1 else 0)
changed-supers id f u [] found = cc
changed-supers id f u (v ∷ us) found = ground (arith, changed-supers id f u us)

-- A row that is not an active super admin's, or that stays one.
pub kept-supers :
    (id : ℕ) (f : StaffUser → StaffUser) (u : StaffUser) (us : List StaffUser)
    → find staff_key id us ≡ some u
    → (is_active_super u ≡ true → is_active_super (f u) ≡ true)
    → count_where is_active_super us ≤ count_where is_active_super (update staff_key id f us)
kept-supers id f u [] found keeps = cc
kept-supers id f u (v ∷ us) found keeps = ground (arith, kept-supers id f u us)

kept-role :
    (o : Option StaffRole) (r : StaffRole)
    → is_demoting o ≡ false
    → is_super r ≡ true
    → is_super (get_or o r) ≡ true
kept-role none r kept super = super
kept-role (some q) r kept super = ground arith

kept-status :
    (o : Option StaffStatus) (st : StaffStatus)
    → is_disabling o ≡ false
    → is_active_status st ≡ true
    → is_active_status (get_or o st) ≡ true
kept-status none st kept active = active
kept-status (some StaffStatus.active) st kept active = refl
kept-status (some StaffStatus.disabled) st kept active = cc

-- A change that the guard lets through leaves an active super admin.
pub guarded-supers :
    (dto : UpdateStaffDto) (u : StaffUser) (s : Console)
    → find_staff u.id s ≡ some u
    → is_last_super u dto (active_supers s) ≡ false
    → HasSuper s
    → 1 ≤ count_where is_active_super (update staff_key u.id (change_staff dto) s.staff)
guarded-supers dto u s found kept has = ground (
  arith,
  changed-supers u.id (change_staff dto) u s.staff found,
  kept-supers u.id (change_staff dto) u s.staff found,
  kept-role dto.role u.role,
  kept-status dto.status u.status,
)

pub removed-supers :
    (id : ℕ) (u : StaffUser) (us : List StaffUser)
    → find staff_key id us ≡ some u
    → is_active_staff u ≡ false
    → count_where is_active_super us ≤ count_where is_active_super (remove staff_key id us)
removed-supers id u [] found off = cc
removed-supers id u (v ∷ us) found off = ground (arith, removed-supers id u us)

pub changed-HasSuper :
    (id : ℕ) (dto : UpdateStaffDto) (s : Console) (u : StaffUser)
    → find_staff id s ≡ some u
    → HasSuper s
    → HasSuper (guarded_change dto u s).1
changed-HasSuper id dto s u found has = elim (Bool-cases (is_last_super u dto (active_supers s))) [
  | inl last ↦ rw last has
  | inr kept ↦ rw kept (
      guarded-supers dto u s
        (subst (λ k. find_staff k s ≡ some u) (sym (key-find staff_key id u s.staff found)) found)
        kept has)
]
