-- ===== src/Common/Chars.antt =====
-- Texts by their code points: the trimming, the lower case and the patterns that the program uses.
-- The lower case is that of the ASCII letters, which the words that are compared consist of.
use mathlib.Core.Path.{◌≡◌, refl}
use Prim.Native.Nat.{ℕ, zero, suc, ◌+◌, ◌-◌}
use Prim.Native.Char.{Char, code}
use Prim.Native.String.{String, char_at}
use mathlib.Core.Bool.{Bool, true, false, ◌&&◌, ◌||◌, not}
use mathlib.Core.List.{List, [], ◌∷◌}
use fiam_retail_apis.Common.Tests.{leb, ◌==◌, if◌then◌else◌}

abbrev pub codes : String → List ℕ
codes String.[] = []
codes (String.◌∷◌ c s) = code c ∷ codes s

abbrev pub is_between : ℕ → ℕ → ℕ → Bool
is_between low high c = leb low c && leb c high

abbrev pub lower : ℕ → ℕ
lower c = if is_between 65 90 c then c + 32 else c

abbrev pub lower_all : List ℕ → List ℕ
lower_all [] = []
lower_all (c ∷ cs) = lower c ∷ lower_all cs

abbrev pub same_codes : List ℕ → List ℕ → Bool
same_codes [] [] = true
same_codes (c ∷ cs) (d ∷ ds) = if c == d then same_codes cs ds else false
same_codes _ _ = false

-- `s.toLowerCase() === word`, for a word in lower case.
unfoldable pub lower_is : String → String → Bool
lower_is s word = same_codes (lower_all (codes s)) (codes word)

-- JavaScript's white space and line ends: those of `trim` and of `\s`.
abbrev pub is_space : ℕ → Bool
is_space c =
    is_between 9 13 c
    || (c == 32
        || (c == 160
            || (c == 5760
                || (is_between 8192 8202 c
                    || (is_between 8232 8233 c
                        || (c == 8239 || (c == 8287 || (c == 12288 || c == 65279))))))))

abbrev pub drop_spaces : List ℕ → List ℕ
drop_spaces [] = []
drop_spaces (c ∷ cs) = if is_space c then drop_spaces cs else c ∷ cs

abbrev is_blank : String → Bool
is_blank String.[] = true
is_blank (String.◌∷◌ c s) = if is_space (code c) then is_blank s else false

abbrev trim_start : String → String
trim_start String.[] = String.[]
trim_start (String.◌∷◌ c s) = if is_space (code c) then trim_start s else String.◌∷◌ c s

abbrev trim_end : String → String
trim_end String.[] = String.[]
trim_end (String.◌∷◌ c s) =
    if is_blank (String.◌∷◌ c s) then String.[] else String.◌∷◌ c (trim_end s)

unfoldable pub trim : String → String
trim s = trim_end (trim_start s)

-- Whether a text goes on with a word; what comes after it is tested by `rest`.
abbrev pub goes_on : List ℕ → (List ℕ → Bool) → List ℕ → Bool
goes_on [] rest cs = rest cs
goes_on (w ∷ ws) rest [] = false
goes_on (w ∷ ws) rest (c ∷ cs) = if w == c then goes_on ws rest cs else false

-- Whether a test holds somewhere in a text.
abbrev pub somewhere : (List ℕ → Bool) → List ℕ → Bool
somewhere test [] = test []
somewhere test (c ∷ cs) = if test (c ∷ cs) then true else somewhere test cs

abbrev pub anything : List ℕ → Bool
anything cs = true

-- `\b` after a letter: no letter, digit or underscore follows.
abbrev pub is_word : ℕ → Bool
is_word c = is_between 48 57 c || (is_between 65 90 c || (is_between 97 122 c || c == 95))

abbrev pub ends_word : List ℕ → Bool
ends_word [] = true
ends_word (c ∷ cs) = not (is_word c)

-- `/word/i`
unfoldable pub has_word : String → String → Bool
has_word word s = somewhere (goes_on (codes word) anything) (lower_all (codes s))

-- `/first\s*second/i`, and with a `\b` at its end.
unfoldable pub has_words : String → String → (List ℕ → Bool) → String → Bool
has_words first second rest s =
    somewhere (goes_on (codes first) (λ cs. goes_on (codes second) rest (drop_spaces cs)))
      (lower_all (codes s))

trims : trim "  a b " ≡ "a b"
unfolding trim
trims = refl

lowers : lower_is "Cable TV" "cable tv" ≡ true
unfolding lower_is
lowers = refl

finds : has_words "ikeja" "electric" anything "The IKEJA  Electricity" ≡ true
unfolding has_words
finds = refl

-- `s.slice(0, n)`, for a text of one UTF-16 unit per character.
abbrev pub slice : ℕ → String → String
slice zero s = String.[]
slice (suc n) String.[] = String.[]
slice (suc n) (String.◌∷◌ c s) = String.◌∷◌ c (slice n s)

-- `s.toLowerCase()`, of the ASCII letters
abbrev lower_char : Char → Char
lower_char c =
    if is_between 65 90 (code c) then char_at "abcdefghijklmnopqrstuvwxyz" (code c - 65) else c

unfoldable pub to_lower : String → String
to_lower String.[] = String.[]
to_lower (String.◌∷◌ c s) = String.◌∷◌ (lower_char c) (to_lower s)

lowers_all : to_lower "Ada@Fiam.NG" ≡ "ada@fiam.ng"
unfolding to_lower
lowers_all = refl

-- The characters that pass a test of their code point.
abbrev pub keep_chars : (ℕ → Bool) → String → String
keep_chars p String.[] = String.[]
keep_chars p (String.◌∷◌ c s) = if p (code c) then String.◌∷◌ c (keep_chars p s) else keep_chars p s
