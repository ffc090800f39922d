-- ===== src/Admin/Requests/Staffless.antt =====
-- The invariants that do not read the staff table: new accounts, changes of a role or a status,
-- and removals keep them.
use fiam_retail_apis.Admin.Console.Devices.{Actor}
use fiam_retail_apis.Common.{◌+◌, true, false, Bool, Bool-cases, inl, inr, ℕ, List, String, Option}
use fiam_retail_apis.Admin.Console.{
  Console, ConsoleConfig, StaffUser, StaffRefreshToken, ConsoleEntry, record_entry,
}
use fiam_retail_apis.Common.Table.{remove}
use fiam_retail_apis.Admin.Console.{staff_key}
use fiam_retail_apis.Admin.Console.Act.{modify}
use fiam_retail_apis.Admin.Console.Holding.{Keeps, console_rules, modify-Keeps}
use fiam_retail_apis.Admin.Console.Sessions.{revoke_tokens_where, of_staff}
use fiam_retail_apis.Admin.Staff.{
  create_staff, update_staff_member, remove_staff, guarded_change, is_last_super, active_supers,
  revoke_if, insert_staff, delete_where, CreateStaffDto, UpdateStaffDto,
}

pub record Staffless (P : Console → Type 0) : Type 0 where
  pub rows : (us : List StaffUser) (s : Console) → P s → P (record s { staff = us })
  pub entry : (e : ConsoleEntry) (s : Console) → P s → P (record_entry e s)
  pub drawn : (s : Console) → P s → P (record s { next_id = s.next_id + 1 })
  pub revoked : (q : StaffRefreshToken → Bool) (s : Console) → P s → P (revoke_tokens_where q s)

-- Those that survive the deletion of an account's tokens.
abbrev pub Deleted : (Console → Type 0) → Type 0
Deleted P =
    (q : StaffRefreshToken → Bool) (s : Console)
    → P s
    → P (record s { refresh_tokens = delete_where q s.refresh_tokens })

module _ {P : Console → Type 0} (h : Staffless P) where
  entry-Keeps : (e : ConsoleEntry) → Keeps P (modify (record_entry e))
  entry-Keeps e = modify-Keeps _ (h.entry e)

  inserted-Keeps : (make : ℕ → StaffUser) → Keeps P (insert_staff make)
  inserted-Keeps make = record { at = λ s p. (h.rows _ _ (h.drawn s p), tt) }

  disabled-Keeps : (b : Bool) (id : ℕ) → Keeps P (modify (revoke_if b id))
  disabled-Keeps true id = modify-Keeps _ (h.revoked (of_staff id))
  disabled-Keeps false id = modify-Keeps _ (λ s p. p)

  guarded-Keeps : (dto : UpdateStaffDto) (u : StaffUser) → Keeps P (guarded_change dto u)
  guarded-Keeps dto u = record {
    at = λ s p. elim (Bool-cases (is_last_super u dto (active_supers s))) [
      | inl last ↦ rw last (p, tt)
      | inr other ↦ rw other (h.rows _ s p, tt)
    ];
  }

  rows-Keeps : (id : ℕ) → Keeps P (modify (λ s. record s { staff = remove staff_key id s.staff }))
  rows-Keeps id = modify-Keeps _ (λ s. h.rows _ s)

  pub creates :
      (c : ConsoleConfig) (dto : CreateStaffDto) (temporary : String) (by : Actor)
      (ip : Option String)
      → Keeps P (create_staff c dto temporary by ip)
  unfolding create_staff
  creates c dto temporary by ip = search (console_rules, inserted-Keeps, entry-Keeps)

  pub updates :
      (id : ℕ) (dto : UpdateStaffDto) (by : Actor) (ip : Option String)
      → Keeps P (update_staff_member id dto by ip)
  unfolding update_staff_member
  updates id dto by ip = search (console_rules, guarded-Keeps, disabled-Keeps, entry-Keeps) depth 12

  deleted-Keeps :
      Deleted P
      → (q : StaffRefreshToken → Bool)
      → Keeps P (modify (λ s. record s { refresh_tokens = delete_where q s.refresh_tokens }))
  deleted-Keeps d q = modify-Keeps _ (d q)

  pub removes :
      Deleted P → (id : ℕ) (by : Actor) (ip : Option String) → Keeps P (remove_staff id by ip)
  unfolding remove_staff
  removes d id by ip = search (console_rules, deleted-Keeps d, rows-Keeps, entry-Keeps) depth 16
