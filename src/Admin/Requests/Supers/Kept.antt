-- ===== src/Admin/Requests/Supers/Kept.antt =====
-- The console is never left without an active super admin, through every request.
use fiam_retail_apis.Admin.Requests.Deviceless
use fiam_retail_apis.Admin.Requests.Deviceless.{Deviceless}
use fiam_retail_apis.Admin.Requests.Always.{Whatever, Along-Whatever, run-keeps, Always}
use fiam_retail_apis.Admin.Console.{
  disable_first, own_account, not_found, is_active_staff, record_entry, ConsoleConfig,
  StaffRefreshToken, ConsoleEntry, Console, StaffUser, find_staff,
}
use fiam_retail_apis.Admin.Console.Devices.{Actor}
use fiam_retail_apis.Admin.Console.Holding.{
  bind-at, passed_if, raised_if, got-staff, bind-to, missed-staff, Answers-Any, bind-fail, Any,
  Outcome, console_rules, modify-Keeps, Keeps,
}
use fiam_retail_apis.Common.{
  Option-cases, ◌==◌, inr, count_where-append, inl, Bool-cases, String, Bool, [], ◌∷◌, true, false,
  some, ℕ, ◌≡◌, arith, Option, List,
}
use fiam_retail_apis.Admin.Console.Act.{◌>>◌, ◌>>=◌, raise_if, get_staff, Act, modify}
use fiam_retail_apis.Admin.Requests.{run, Request}
use fiam_retail_apis.Admin.Staff.{
  delete_rows, note_change, remove_found, change_found, remove_staff, update_staff_member,
  revoke_if, CreateStaffDto, insert_staff, create_staff, guarded_change, UpdateStaffDto,
  is_active_super,
}
use fiam_retail_apis.Admin.Console.Sessions.{revoke_tokens_where}
use fiam_retail_apis.Admin.Requests.Tokenless.{Tokenless}
use fiam_retail_apis.Admin.Requests.Tokenless
use fiam_retail_apis.Admin.Requests.Supers.{HasSuper, own-supers, removed-supers, changed-HasSuper}

tokenless : Tokenless HasSuper
tokenless = record {
  saved = λ t s p. p;
  revoked = λ q s p. p;
  spent = λ id s p. p;
  entry = λ e s p. p;
  drawn = λ s p. p;
  own = λ id f s own p. rw (own-supers id f s.staff own) p;
  used = λ id counter now s p. p;
  timed = λ now s p. p;
}

entry-Keeps : (e : ConsoleEntry) → Keeps HasSuper (modify (record_entry e))
entry-Keeps e = modify-Keeps _ (λ s p. p)

tokens-Keeps : (p : StaffRefreshToken → Bool) → Keeps HasSuper (modify (revoke_tokens_where p))
tokens-Keeps p = modify-Keeps _ (λ s q. q)

inserted-Keeps : (make : ℕ → StaffUser) → Keeps HasSuper (insert_staff make)
inserted-Keeps make = record {
  at = λ s p. (omega (arith, count_where-append is_active_super s.staff (make s.next_id ∷ [])), tt);
}

creates-Keeps :
    (c : ConsoleConfig) (dto : CreateStaffDto) (temporary : String) (by : Actor)
    (ip : Option String)
    → Keeps HasSuper (create_staff c dto temporary by ip)
unfolding create_staff
creates-Keeps c dto temporary by ip = search (console_rules, inserted-Keeps, entry-Keeps)

disabled-Keeps : (b : Bool) (id : ℕ) → Keeps HasSuper (modify (revoke_if b id))
disabled-Keeps true id = modify-Keeps _ (λ s p. p)
disabled-Keeps false id = modify-Keeps _ (λ s p. p)

changed-Outcome :
    (id : ℕ) (dto : UpdateStaffDto) (s : Console) (u : StaffUser)
    → find_staff id s ≡ some u
    → HasSuper s
    → Outcome HasSuper Any (guarded_change dto u s)
changed-Outcome id dto s u found has =
    (changed-HasSuper id dto s u found has, Answers-Any (guarded_change dto u s).0)

note-Keeps :
    (id : ℕ) (dto : UpdateStaffDto) (by : Actor) (ip : Option String) (u : StaffUser)
    → Keeps HasSuper (note_change id dto by ip u)
note-Keeps id dto by ip u = search (console_rules, disabled-Keeps, entry-Keeps)

found-Outcome :
    (id : ℕ) (dto : UpdateStaffDto) (by : Actor) (ip : Option String) (s : Console) (u : StaffUser)
    → find_staff id s ≡ some u
    → HasSuper s
    → Outcome HasSuper Any (change_found id dto by ip u s)
found-Outcome id dto by ip s u found p =
    let k = guarded_change dto u >> note_change id dto by ip u in
    elim (Bool-cases (id == by.staff_id)) [
      | inl own ↦
          bind-fail HasSuper Any (raise_if (id == by.staff_id) own_account) (λ _. k) s own_account s
            (raised_if (id == by.staff_id) own_account s own) p
      | inr other ↦
          bind-to HasSuper Any (raise_if (id == by.staff_id) own_account) (λ _. k) s tt s
            (passed_if (id == by.staff_id) own_account s other)
            (bind-at (guarded_change dto u) (λ _. note_change id dto by ip u) s
              (changed-Outcome id dto s u found p) (λ _ _. note-Keeps id dto by ip u))
    ]

-- What a look-up by the key is followed by.
looked-up :
    {A : Type 0} (id : ℕ) (f : StaffUser → Act A)
    → ((s : Console) (u : StaffUser)
        → find_staff id s ≡ some u
        → HasSuper s
        → Outcome HasSuper Any (f u s))
    → Keeps HasSuper (get_staff id >>= f)
looked-up id f h = record {
  at = λ s p. elim (Option-cases (find_staff id s)) [
    | inl missing ↦
        bind-fail HasSuper Any (get_staff id) f s not_found s (missed-staff id s missing) p
    | inr (u, found) ↦
        bind-to HasSuper Any (get_staff id) f s u s (got-staff id s u found) (h s u found p)
  ];
}

updates-Keeps :
    (id : ℕ) (dto : UpdateStaffDto) (by : Actor) (ip : Option String)
    → Keeps HasSuper (update_staff_member id dto by ip)
unfolding update_staff_member
updates-Keeps id dto by ip = looked-up id (change_found id dto by ip) (found-Outcome id dto by ip)

deleted-Outcome :
    (id : ℕ) (by : Actor) (ip : Option String) (s : Console) (u : StaffUser)
    → find_staff id s ≡ some u
    → is_active_staff u ≡ false
    → HasSuper s
    → Outcome HasSuper Any (delete_rows id by ip s)
unfolding ◌>>=◌
deleted-Outcome id by ip s u found off p =
    (omega (arith, removed-supers id u s.staff found off, p), tt)

removed-Outcome :
    (id : ℕ) (by : Actor) (ip : Option String) (s : Console) (u : StaffUser)
    → find_staff id s ≡ some u
    → HasSuper s
    → Outcome HasSuper Any (remove_found id by ip u s)
removed-Outcome id by ip s u found p =
    let k = raise_if (is_active_staff u) disable_first >> delete_rows id by ip in
    elim (Bool-cases (id == by.staff_id)) [
      | inl own ↦
          bind-fail HasSuper Any (raise_if (id == by.staff_id) own_account) (λ _. k) s own_account s
            (raised_if (id == by.staff_id) own_account s own) p
      | inr other ↦
          bind-to HasSuper Any (raise_if (id == by.staff_id) own_account) (λ _. k) s tt s
            (passed_if (id == by.staff_id) own_account s other)
            (elim (Bool-cases (is_active_staff u)) [
              | inl on ↦
                  bind-fail HasSuper Any (raise_if (is_active_staff u) disable_first)
                    (λ _. delete_rows id by ip) s disable_first s
                    (raised_if (is_active_staff u) disable_first s on) p
              | inr off ↦
                  bind-to HasSuper Any (raise_if (is_active_staff u) disable_first)
                    (λ _. delete_rows id by ip) s tt s
                    (passed_if (is_active_staff u) disable_first s off)
                    (deleted-Outcome id by ip s u found off p)
            ])
    ]

removes-Keeps : (id : ℕ) (by : Actor) (ip : Option String) → Keeps HasSuper (remove_staff id by ip)
unfolding remove_staff
removes-Keeps id by ip = looked-up id (remove_found id by ip) (removed-Outcome id by ip)

deviceless : Deviceless HasSuper
deviceless = record {
  rows = λ ds s p. p;
  entry = λ e s p. p;
  drawn = λ s p. p;
  revoked = λ q s p. p;
}

always : (c : ConsoleConfig) → Always c HasSuper Whatever
always c = record {
  steady = Tokenless.steady c tokenless;
  renews = λ raw fresh _. Tokenless.renews c tokenless raw fresh;
  asserts = λ t k d r ip fresh _. Tokenless.asserts c tokenless t k d r ip fresh;
  changes = λ b old new ip fresh _. Tokenless.changes c tokenless b old new ip fresh;
  registers = Deviceless.registers deviceless c;
  approves = Deviceless.approves deviceless;
  revokes = Deviceless.revokes deviceless;
  creates = creates-Keeps c;
  updates = updates-Keeps;
  removes = λ bearer id by ip _. removes-Keeps id by ip;
}

-- Whatever requests the console serves, one after the other, it is never left without an active
-- super admin, where it had one.
pub run-HasSuper :
    (c : ConsoleConfig) (rs : List (ℕ × Request)) (s : Console) → HasSuper s → HasSuper (run c rs s)
run-HasSuper c rs s has = run-keeps (always c) rs s (Along-Whatever rs) has
