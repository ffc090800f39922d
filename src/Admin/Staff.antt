-- ===== src/Admin/Staff.antt =====
-- apps/admin/src/staff/staff.service.ts: the accounts of the members of staff. The temporary
-- password that is drawn is a parameter.
use fiam_retail_apis.Common.{
  ◌+◌, [], ◌++◌, none, some, true, false, inr, List, ℕ, String, Option, inl, Bool, ◌∷◌,
  if◌then◌else◌, not, text_eq, ◌||◌, ◌&&◌, trim, to_lower, leb, ltb, count_where, any, ◌==◌, get_or,
}
use fiam_retail_apis.Admin.Console.{
  staff_deleted, staff_created, staff_updated, disable_first, email_exists, StaffRefreshToken,
  staff_mfa_reset, staff_unlocked, is_active_staff, own_account, staff_password_reset,
  last_super_admin, ConsoleAction, Console, ConsoleConfig, StaffUser, update_staff, StaffRole,
  StaffStatus, record_entry,
}
use fiam_retail_apis.Auth.Lockout.{cleared}
use fiam_retail_apis.Common.Table.{remove}
use fiam_retail_apis.Admin.Console.{staff_key}
use fiam_retail_apis.Admin.Console.Act.{Act, pure, modify, gets, raise_if, ◌>>=◌, ◌>>◌, get_staff}
use fiam_retail_apis.Admin.Console.Factors.{without_totp, set_lock}
use fiam_retail_apis.Admin.Console.Sessions.{
  of_staff, revoke_tokens_where, set_password, is_live_staff_token,
}
use fiam_retail_apis.Admin.Console.Devices.{Actor}

pub record CreateStaffDto : Type 0 where
  pub full_name : String
  pub email : String
  pub role : StaffRole

pub record UpdateStaffDto : Type 0 where
  pub role : Option StaffRole
  pub status : Option StaffStatus

abbrev pub is_super : StaffRole → Bool
is_super r = elim r [ StaffRole.super_admin ↦ true | _ ↦ false ]

abbrev pub staff_entry : Actor → ConsoleAction → ℕ → Option String → Act (Unit {0})
staff_entry actor action id ip = modify (
    record_entry (record {
      staff_id = some actor.staff_id;
      staff_email = actor.email;
      action = action;
      resource_id = some id;
      ip = ip;
    }))

abbrev pub new_staff : CreateStaffDto → String → ℕ → StaffUser
new_staff dto hash id = record {
  id = id;
  full_name = trim dto.full_name;
  email = to_lower (trim dto.email);
  password_hash = hash;
  role = dto.role;
  status = StaffStatus.active;
  must_change_password = true;
  lock = cleared;
  totp_secret_enc = none;
  totp_enabled_at = none;
  totp_last_step = none;
  recovery_code_hashes = [];
  last_login_at = none;
}

abbrev pub insert_staff : (ℕ → StaffUser) → Act StaffUser
insert_staff make s = (
  inr (make s.next_id),
  record s { staff = s.staff ++ (make s.next_id ∷ []); next_id = s.next_id + 1 },
)

abbrev pub has_email : String → StaffUser → Bool
has_email email u = text_eq u.email email

unfoldable pub create_staff :
    ConsoleConfig → CreateStaffDto → String → Actor → Option String → Act StaffUser
unfolding ◌>>=◌
create_staff c dto temporary actor ip = do
  taken ← gets (λ s. any (has_email (to_lower (trim dto.email))) s.staff)
  raise_if taken email_exists
  u ← insert_staff (new_staff dto (c.argon2_hash temporary))
  staff_entry actor staff_created u.id ip
  pure u

abbrev pub is_active_super : StaffUser → Bool
is_active_super u = is_super u.role && is_active_staff u

abbrev pub active_supers : Console → ℕ
active_supers s = count_where is_active_super s.staff

abbrev pub is_disabling : Option StaffStatus → Bool
is_disabling none = false
is_disabling (some StaffStatus.active) = false
is_disabling (some StaffStatus.disabled) = true

abbrev pub is_demoting : Option StaffRole → Bool
is_demoting none = false
is_demoting (some r) = not (is_super r)

-- Whether `guardLastSuperAdmin` throws.
abbrev pub is_last_super : StaffUser → UpdateStaffDto → ℕ → Bool
is_last_super u dto remaining =
    is_super u.role && ((is_demoting dto.role || is_disabling dto.status) && leb remaining 1)

abbrev pub change_staff : UpdateStaffDto → StaffUser → StaffUser
change_staff dto u = record u { role = get_or dto.role u.role; status = get_or dto.status u.status }

abbrev pub revoke_if : Bool → ℕ → Console → Console
revoke_if b id s = if b then revoke_tokens_where (of_staff id) s else s

-- From the count on.
abbrev pub guarded_change : UpdateStaffDto → StaffUser → Act (Unit {0})
guarded_change dto u s =
    if is_last_super u dto (active_supers s)
    then (inl last_super_admin, s)
    else (inr tt, update_staff u.id (change_staff dto) s)

abbrev pub note_change : ℕ → UpdateStaffDto → Actor → Option String → StaffUser → Act StaffUser
note_change id dto actor ip u = do
  modify (revoke_if (is_disabling dto.status) id)
  staff_entry actor staff_updated id ip
  pure (change_staff dto u)

abbrev pub change_found : ℕ → UpdateStaffDto → Actor → Option String → StaffUser → Act StaffUser
change_found id dto actor ip u = do
  raise_if (id == actor.staff_id) own_account
  guarded_change dto u
  note_change id dto actor ip u

unfoldable pub update_staff_member : ℕ → UpdateStaffDto → Actor → Option String → Act StaffUser
unfolding ◌>>=◌ get_staff
update_staff_member id dto actor ip = do u ← get_staff id; change_found id dto actor ip u

unfoldable pub reset_two_factor : ℕ → Actor → Option String → Act (Unit {0})
unfolding ◌>>=◌ get_staff
reset_two_factor id actor ip = do
  get_staff id
  modify (update_staff id without_totp)
  modify (revoke_tokens_where (of_staff id))
  staff_entry actor staff_mfa_reset id ip

abbrev pub temporary_password : String → StaffUser → StaffUser
temporary_password h u = set_lock cleared (set_password h true u)

unfoldable pub reset_staff_password :
    ConsoleConfig → ℕ → String → Actor → Option String → Act (Unit {0})
unfolding ◌>>=◌ get_staff
reset_staff_password c id temporary actor ip = do
  get_staff id
  modify (update_staff id (temporary_password (c.argon2_hash temporary)))
  modify (revoke_tokens_where (of_staff id))
  staff_entry actor staff_password_reset id ip

-- The figures of `detailView` that are computed.
pub record StaffDetail : Type 0 where
  pub staff : StaffUser
  pub is_locked : Bool
  pub active_sessions : ℕ

abbrev pub is_locked_at : ℕ → Option ℕ → Bool
is_locked_at now none = false
is_locked_at now (some until) = ltb now until

abbrev pub is_open_session : ℕ → ℕ → StaffRefreshToken → Bool
is_open_session id now t = of_staff id t && (is_live_staff_token t && ltb now t.expires_at)

abbrev pub detail_view : StaffUser → Console → StaffDetail
detail_view u s = record {
  staff = u;
  is_locked = is_locked_at s.now u.lock.locked_until;
  active_sessions = count_where (is_open_session u.id s.now) s.refresh_tokens;
}

unfoldable pub get_detail : ℕ → Act StaffDetail
unfolding ◌>>=◌ get_staff
get_detail id = do u ← get_staff id; gets (detail_view u)

unfoldable pub unlock : ℕ → Actor → Option String → Act StaffDetail
unfolding ◌>>=◌ get_staff get_detail
unlock id actor ip = do
  get_staff id
  modify (update_staff id (set_lock cleared))
  staff_entry actor staff_unlocked id ip
  get_detail id

-- `DELETE FROM … WHERE p`
abbrev pub delete_where {ℓ} : {A : Type ℓ} → (A → Bool) → List A → List A
delete_where p [] = []
delete_where p (x ∷ xs) = if p x then delete_where p xs else x ∷ delete_where p xs

abbrev pub delete_rows : ℕ → Actor → Option String → Act (Unit {0})
delete_rows id actor ip = do
  modify (λ s. record s { refresh_tokens = delete_where (of_staff id) s.refresh_tokens })
  modify (λ s. record s { staff = remove staff_key id s.staff })
  staff_entry actor staff_deleted id ip

abbrev pub remove_found : ℕ → Actor → Option String → StaffUser → Act (Unit {0})
remove_found id actor ip u = do
  raise_if (id == actor.staff_id) own_account
  raise_if (is_active_staff u) disable_first
  delete_rows id actor ip

unfoldable pub remove_staff : ℕ → Actor → Option String → Act (Unit {0})
unfolding ◌>>=◌ get_staff
remove_staff id actor ip = do u ← get_staff id; remove_found id actor ip u
