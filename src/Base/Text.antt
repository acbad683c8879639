-- ===== src/Base/Text.antt =====
-- Texts as the Go code reads and prints them: bytes, `%d`, `%x` and `strings.Contains`.
use Prim.Native.Char.{Char, code}
use Prim.Native.Nat.{ℕ, zero, suc, ◌+◌, ◌/◌, ◌%◌, ◌<◌}
use Prim.Native.String.{String}
use text.Mathlib.Text.{find?}
use native.Mathlib.Omega.{arith}
use mathlib.Core.Bool.{Bool, true, false, ◌&&◌, ◌||◌}
use mathlib.Core.List.{List, [], ◌∷◌}
use mathlib.Core.Option.{Option, none, some}
use mathlib.Core.Path.{◌≡◌, refl}
use lucas.Base.Tests.{ltb, leb, nat_eq, if◌then◌else◌}

-- The code points of a text.
abbrev pub codes : String → List ℕ
codes String.[] = []
codes (String.◌∷◌ c s) = code c ∷ codes s

-- How many bytes UTF-8 takes for a code point.
abbrev pub width : ℕ → ℕ
width c = if ltb c 0x80 then 1 else if ltb c 0x800 then 2 else if ltb c 0x10000 then 3 else 4

-- `len(s)`.
abbrev pub byte_length : List ℕ → ℕ
byte_length [] = 0
byte_length (c ∷ cs) = width c + byte_length cs

-- `strings.Contains`.
unfoldable pub contains_text : String → String → Bool
contains_text s t = elim (find? s t) [ none ↦ false | some _ ↦ true ]

-- What follows a prefix, if the text has it: `strings.HasPrefix` and `strings.TrimPrefix`.
unfoldable pub after_prefix : String → String → Option String
after_prefix String.[] s = some s
after_prefix (String.◌∷◌ c p) String.[] = none
after_prefix (String.◌∷◌ c p) (String.◌∷◌ d s) =
    if nat_eq (code c) (code d) then after_prefix p s else none

-- `unicode.IsSpace`.
abbrev pub is_space : ℕ → Bool
is_space c =
    leb 0x9 c && leb c 0xd
    || nat_eq c 0x20
    || nat_eq c 0x85
    || nat_eq c 0xa0
    || nat_eq c 0x1680
    || leb 0x2000 c && leb c 0x200a
    || nat_eq c 0x2028
    || nat_eq c 0x2029
    || nat_eq c 0x202f
    || nat_eq c 0x205f
    || nat_eq c 0x3000

-- `strings.TrimSpace`, first at the front.
unfoldable pub trim_left : String → String
trim_left String.[] = ""
trim_left (String.◌∷◌ c s) = if is_space (code c) then trim_left s else String.◌∷◌ c s

-- A space stays where something else follows.
abbrev pub onto_trimmed : Char → String → String
onto_trimmed c String.[] = if is_space (code c) then "" else String.◌∷◌ c ""
onto_trimmed c (String.◌∷◌ d s) = String.◌∷◌ c (String.◌∷◌ d s)

unfoldable pub trim_right : String → String
trim_right String.[] = ""
trim_right (String.◌∷◌ c s) = onto_trimmed c (trim_right s)

unfoldable pub trim_space : String → String
unfolding trim_left trim_right
trim_space s = trim_right (trim_left s)

-- The digit of a number below 16.
abbrev pub digit : ℕ → Char
digit d =
    if nat_eq d 0
    then "0"
    else if nat_eq d 1
    then "1"
    else if nat_eq d 2
    then "2"
    else if nat_eq d 3
    then "3"
    else if nat_eq d 4
    then "4"
    else if nat_eq d 5
    then "5"
    else if nat_eq d 6
    then "6"
    else if nat_eq d 7
    then "7"
    else if nat_eq d 8
    then "8"
    else if nat_eq d 9
    then "9"
    else if nat_eq d 10
    then "a"
    else if nat_eq d 11
    then "b"
    else if nat_eq d 12
    then "c"
    else if nat_eq d 13
    then "d"
    else if nat_eq d 14
    then "e"
    else "f"

-- The digits of `n` in front of `rest`; a fuel above `n` is enough.
unfoldable pub decimal_onto : ℕ → ℕ → String → String
decimal_onto zero n rest = rest
decimal_onto (suc f) n rest =
    let front = String.◌∷◌ (digit (n % 10)) rest in
    let more = decimal_onto f (n / 10) front in if ltb n 10 then front else more

-- `%d`.
unfoldable pub decimal : ℕ → String
unfolding decimal_onto
decimal n = decimal_onto (suc n) n ""

-- `%x` of bytes: two digits each.
unfoldable pub hex : List ℕ → String
hex [] = ""
hex (b ∷ bs) = String.◌∷◌ (digit (b / 16)) (String.◌∷◌ (digit (b % 16)) (hex bs))

-- A test at all numbers below a bound, by evaluation.
unfoldable pub all_below : ℕ → (ℕ → Bool) → Bool
all_below zero p = true
all_below (suc n) p = p n && all_below n p

pub all_below_sound : (n : ℕ) (p : ℕ → Bool) (d : ℕ) → all_below n p ≡ true → d < n → p d ≡ true
unfolding all_below
all_below_sound zero p d h lt = absurd (omega arith)
all_below_sound (suc n) p d h lt = ground (arith, all_below_sound n p d)

decimal_test : decimal 1691234567890 ≡ "1691234567890"
unfolding decimal
decimal_test = refl

hex_test : hex (0xa1 ∷ 0 ∷ 0xff ∷ []) ≡ "a100ff"
unfolding hex
hex_test = refl

contains_test : contains_text "read tcp: connection reset" "reset" ≡ true
unfolding contains_text
contains_test = refl

trim_test : trim_space " \thub 1\n " ≡ "hub 1"
unfolding trim_space
trim_test = refl

prefix_test : after_prefix "hub_" "hub_9f" ≡ some "9f"
unfolding after_prefix
prefix_test = refl
