-- ===== src/Admin/Console/Totp.antt =====
-- apps/admin/src/auth/totp.service.ts: time steps and recovery codes.
use fiam_retail_apis.Common.{
  [], ◌∷◌, ◌+◌, none, zero, ◌-◌, suc, Option, ◌/◌, Bool, String, List, ℕ, if◌then◌else◌, ◌&&◌, ◌||◌,
  not, ◌==◌, length, every, is_between, codes, option_map, slice, join, to_lower, keep_chars,
  is_space,
}
use fiam_retail_apis.Admin.Console.{ConsoleConfig, Drift}

-- PERIOD, 30 seconds
abbrev pub period : ℕ
period = 30000

-- `/^\d{6}$/`
abbrev pub is_six_digits : String → Bool
is_six_digits s = length (codes s) == 6 && every (is_between 48 57) (codes s)

-- `Math.floor(Date.now() / 1000 / PERIOD) + delta`
abbrev pub step_at : ℕ → Drift → ℕ
step_at now Drift.behind = now / period - 1
step_at now Drift.exact = now / period
step_at now Drift.ahead = now / period + 1

unfoldable pub verify_totp : ConsoleConfig → String → String → ℕ → Option ℕ
verify_totp c secret given now =
    if is_six_digits given
    then option_map (step_at now) (c.validate_totp secret given now)
    else none

-- A character that `replace(/[\s-]/g, '')` leaves.
abbrev pub is_kept : ℕ → Bool
is_kept n = not (is_space n || n == 45)

unfoldable pub hash_recovery : ConsoleConfig → String → String
hash_recovery c given = c.sha256 (to_lower (keep_chars is_kept given))

abbrev pub drop_chars : ℕ → String → String
drop_chars zero s = s
drop_chars (suc n) String.[] = String.[]
drop_chars (suc n) (String.◌∷◌ c s) = drop_chars n s

-- `${raw.slice(0, 5)}-${raw.slice(5)}`
abbrev pub dashed : String → String
dashed raw = join (slice 5 raw) (join "-" (drop_chars 5 raw))

abbrev pub map_list {ℓ κ} : {A : Type ℓ} {B : Type κ} → (A → B) → List A → List B
map_list f [] = []
map_list f (x ∷ xs) = f x ∷ map_list f xs

-- The codes that are shown and their hashes, of the ten texts that are drawn.
unfoldable pub new_recovery_codes : ConsoleConfig → List String → List String × List String
new_recovery_codes c drawn =
    let shown = map_list dashed drawn in (shown, map_list (hash_recovery c) shown)
