-- ===== src/Admin/Requests/Cut/Passwords.antt =====
-- A session that is opened by a password change comes from the device that the request came from,
-- which the guard has found to be active.
use fiam_retail_apis.Admin.Console.{
  password_changed, insufficient_role, must_differ, password_change_required, unauthorized,
  current_incorrect, StaffRole, not_found, ConsoleConfig, staff_key, StaffUser, find_staff,
}
use fiam_retail_apis.Common.{
  Bool-cases, inr, inl, Option-cases, [], text_eq, String, arith, List, Option, true, false, Bool,
  ℕ, ◌≡◌, refl, not, ◌&&◌,
}
use fiam_retail_apis.Admin.Console.Guards.{can_activate, AuthenticatedStaff, authorise, validate}
use fiam_retail_apis.Admin.Console.Holding.{
  Holds, Keeps, Any, console_rules, or_raise-Keeps, or_raise-Holds, gets-Keeps, bind-Keeps,
  bind-Holds, raise_if-Keeps, pure-Holds,
}
use fiam_retail_apis.Admin.Requests.{post_change_password, serve}
use fiam_retail_apis.Common.Table.{key-find}
use fiam_retail_apis.Admin.Console.Act.{get_staff}
use fiam_retail_apis.Admin.Console.Sessions.{
  issue_tokens, active_staff, device_serves, change_staff_password, of_staff,
}
use fiam_retail_apis.Admin.Requests.Cut.{is_from, IsCut, issued-Keeps, steady}
use fiam_retail_apis.Admin.Requests.Cut.Devices.{device_serves-ServesOther}
use fiam_retail_apis.Admin.Requests.Steady.{audit-Keeps, fresh_id-Keeps, revoked-Keeps}
use fiam_retail_apis.Admin.Requests.Enrolled.{password_set-Keeps}

module _ (owner device : ℕ) (c : ConsoleConfig) (required : c.device_required ≡ true) where
  -- Who asks does not ask from the device.
  abbrev IsElsewhere : AuthenticatedStaff → Type 0
  IsElsewhere me = is_from owner device me.staff_id me.device_id ≡ false

  refused-unless : (b : Bool) → (c.device_required && not b) ≡ false → b ≡ true
  refused-unless b e = ground arith

  validate-IsElsewhere :
      (sub : ℕ) (did : Option ℕ) → Holds (IsCut owner device) IsElsewhere (validate c sub did)
  unfolding validate
  validate-IsElsewhere sub did = record {
    at = λ s p. elim (Option-cases (active_staff (find_staff sub s))) [
      | inl missing ↦ rw missing (p, tt)
      | inr (u, found) ↦ elim (Bool-cases (c.device_required && not (device_serves did u.id s))) [
        | inl refused ↦ rw (found, refused) (p, tt)
        | inr served ↦
            rw (found, served)
              (
                p,
                device_serves-ServesOther owner device did u.id s p
                    (refused-unless (device_serves did u.id s) served),
              )
      ]
    ];
  }

  authorise-IsElsewhere :
      (roles : List StaffRole) (allow : Bool) (bearer : String)
      → Holds (IsCut owner device) IsElsewhere (authorise c roles allow bearer)
  unfolding authorise
  authorise-IsElsewhere roles allow bearer =
      bind-Holds Any _ _ (gets-Keeps (λ s. c.verify_access bearer s.now)) (λ read _.
        bind-Holds Any _ _ (or_raise-Keeps read unauthorized) (λ payload _.
          bind-Holds IsElsewhere _ _ (validate-IsElsewhere payload.0 payload.1) (λ me other.
            bind-Holds Any _ _
              (raise_if-Keeps (not allow && me.must_change_password) password_change_required)
              (λ _ _.
                bind-Holds Any _ _
                  (raise_if-Keeps (not (can_activate roles me.role)) insufficient_role)
                  (λ _ _. pure-Holds me other)))))

  abbrev IsRowOf : ℕ → StaffUser → Type 0
  IsRowOf id u = u.id ≡ id

  get_staff-key : (id : ℕ) → Holds (IsCut owner device) (IsRowOf id) (get_staff id)
  unfolding get_staff
  get_staff-key id = record {
    at = λ s.
        (or_raise-Holds {P = IsCut owner device} (IsRowOf id) (find_staff id s) not_found
            (λ u found. key-find staff_key id u s.staff found)).at
          s;
  }

  issued-elsewhere :
      (id : ℕ) (u v : StaffUser) (family : ℕ) (from : Option ℕ) (fresh : String)
      → u.id ≡ id
      → v.id ≡ u.id
      → is_from owner device id from ≡ false
      → Keeps (IsCut owner device) (issue_tokens c v family from fresh)
  issued-elsewhere id u v family from fresh row same other =
      issued-Keeps owner device c v family from fresh (rw (same, row) other)

  change-Keeps :
      (id : ℕ) (current new : String) (ip : Option String) (from : Option ℕ) (fresh : String)
      → is_from owner device id from ≡ false
      → Keeps (IsCut owner device) (change_staff_password c id current new ip from fresh)
  unfolding change_staff_password
  change-Keeps id current new ip from fresh other =
      let h = steady owner device c in
      bind-Holds (IsRowOf id) _ _ (get_staff-key id) (λ u row.
        bind-Keeps _ _
          (raise_if-Keeps (not (c.argon2_verify u.password_hash current)) current_incorrect)
          (λ _. bind-Keeps _ _ (raise_if-Keeps (text_eq current new) must_differ) (λ _.
            bind-Keeps _ _ (password_set-Keeps h u.id (c.argon2_hash new)) (λ _.
              bind-Keeps _ _ (revoked-Keeps h (of_staff u.id)) (λ _.
                bind-Keeps _ _ (audit-Keeps h u password_changed ip) (λ _.
                  bind-Keeps _ _ (fresh_id-Keeps h) (λ family.
                    issued-elsewhere id u (record u { must_change_password = false }) family from
                      fresh row refl other)))))))

  pub changes :
      (bearer current new : String) (ip : Option String) (fresh : String)
      → Keeps (IsCut owner device) (serve c (post_change_password bearer current new ip fresh))
  unfolding serve
  changes bearer current new ip fresh =
      bind-Holds IsElsewhere (authorise c [] true bearer) _ (authorise-IsElsewhere [] true bearer)
        (λ me other.
          bind-Keeps _ _ (change-Keeps me.staff_id current new ip me.device_id fresh other)
            (λ _. search console_rules))
