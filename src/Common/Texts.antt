-- ===== src/Common/Texts.antt =====
-- Texts that the program compares and joins.
use Prim.Native.Nat.{ℕ, zero, suc, ◌/◌, ◌%◌}
use Prim.Native.String.{String, ◌++◌ as append}
use mathlib.Core.Path.{◌≡◌}
use mathlib.Core.Bool.{Bool, true, false}
use mathlib.Core.Option.{Option, none, some}
use text.Mathlib.Text.{◌==◌ as str_eq_lib}
use text.Mathlib.TextPositions.{eq_refl}
use fiam_retail_apis.Common.Tests.{◌==◌, if◌then◌else◌}

-- `===` on strings.
abbrev pub text_eq : String → String → Bool
text_eq s t = str_eq_lib s t

pub text_eq_refl : (s : String) → text_eq s s ≡ true
text_eq_refl s = eq_refl s

-- `o === t` where `o` may be null.
abbrev pub holds_text : Option String → String → Bool
holds_text none t = false
holds_text (some s) t = text_eq s t

-- `s + t` on strings.
abbrev pub join : String → String → String
join s t = append s t

-- A value that JavaScript takes for true: present and not "".
abbrev pub truthy : Option String → Option String
truthy none = none
truthy (some s) = if text_eq s "" then none else some s

abbrev pub digit_text : ℕ → String
digit_text d =
    if d == 0
    then "0"
    else if d == 1
    then "1"
    else if d == 2
    then "2"
    else if d == 3
    then "3"
    else if d == 4
    then "4"
    else if d == 5
    then "5"
    else if d == 6
    then "6"
    else if d == 7
    then "7"
    else if d == 8
    then "8"
    else "9"

-- `String(n).padStart(width, '0')` for n < 10 ^ width.
unfoldable pub pad_start : ℕ → ℕ → String
pad_start zero n = ""
pad_start (suc width) n = join (pad_start width (n / 10)) (digit_text (n % 10))
