-- ===== src/Hub/Nonce/Format.antt =====
-- internal/hub/nonce_cache.go: which texts are nonces.
use lucas.Base.{
  length-append, ap, ◌≢◌, ℕ, ◌+◌, ◌≤◌, ◌<◌, true, String, List, [], ◌∷◌, ◌++◌, ◌≡◌, ◌↔◌, ◌⊎◌, refl,
  arith, codes, byte_length, length, All,
}
use lucas.Hub.Nonce.{
  dash, count_dashes, front, back, all, is_digit, is_hex, validate_codes, validate_nonce,
}

abbrev pub IsDigit : ℕ → Type 0
IsDigit c = (0x30 ≤ c) × (c ≤ 0x39)

abbrev pub IsHex : ℕ → Type 0
IsHex c = IsDigit c ⊎ ((0x61 ≤ c) × (c ≤ 0x66)) ⊎ ((0x41 ≤ c) × (c ≤ 0x46))

-- At least thirteen digits, a dash, and eight hexadecimal digits.
abbrev pub IsNonce : List ℕ → Type 0
IsNonce cs =
    (stamp : List ℕ) × (random : List ℕ) × (cs ≡ stamp ++ dash ∷ random)
    × (13 ≤ length stamp)
    × All IsDigit stamp
    × (length random ≡ 8)
    × All IsHex random

split : (cs : List ℕ) → 0 < count_dashes cs → cs ≡ front cs ++ dash ∷ back cs
unfolding count_dashes front back
split [] h = absurd (omega arith)
split (c ∷ cs) h = ground (arith, split cs)

front-stamp : (f b : List ℕ) → All IsDigit f → front (f ++ dash ∷ b) ≡ f
unfolding front
front-stamp [] b h = refl
front-stamp (c ∷ f) b h = ground (arith, front-stamp f b h.1)

back-stamp : (f b : List ℕ) → All IsDigit f → back (f ++ dash ∷ b) ≡ b
unfolding back
back-stamp [] b h = refl
back-stamp (c ∷ f) b h = ground (arith, back-stamp f b h.1)

count-hex : (b : List ℕ) → All IsHex b → count_dashes b ≡ 0
unfolding count_dashes
count-hex [] h = refl
count-hex (c ∷ b) h = ground (arith, count-hex b h.1)

count-stamp : (f b : List ℕ) → All IsDigit f → All IsHex b → count_dashes (f ++ dash ∷ b) ≡ 1
unfolding count_dashes
count-stamp [] b h k = ground (arith, count-hex b k)
count-stamp (c ∷ f) b h k = ground (arith, count-stamp f b h.1 k)

byte_length-digits : (f : List ℕ) → All IsDigit f → byte_length f ≡ length f
byte_length-digits [] h = refl
byte_length-digits (c ∷ f) h = ground (arith, byte_length-digits f h.1)

byte_length-hex : (b : List ℕ) → All IsHex b → byte_length b ≡ length b
byte_length-hex [] h = refl
byte_length-hex (c ∷ b) h = ground (arith, byte_length-hex b h.1)

byte_length-stamp : (f b : List ℕ) → byte_length (f ++ dash ∷ b) ≡ byte_length f + 1 + byte_length b
byte_length-stamp [] b = omega arith
byte_length-stamp (c ∷ f) b = omega (arith, byte_length-stamp f b)

all-digits : (f : List ℕ) → (all is_digit f ≡ true) ↔ All IsDigit f
unfolding all
all-digits [] = ((λ _. tt), (λ _. refl))
all-digits (c ∷ f) = ground (arith, all-digits f)

all-IsHex : (b : List ℕ) → (all is_hex b ≡ true) ↔ All IsHex b
unfolding all
all-IsHex [] = ((λ _. tt), (λ _. refl))
all-IsHex (c ∷ b) = ground (arith, all-IsHex b)

sound : (cs : List ℕ) → validate_codes cs ≡ true → IsNonce cs
unfolding validate_codes
sound cs h = (
  front cs,
  back cs,
  split cs (ground arith),
  ground (arith, byte_length-digits (front cs), all-digits (front cs)),
  ground (arith, all-digits (front cs)),
  ground (arith, byte_length-hex (back cs), all-IsHex (back cs)),
  ground (arith, all-IsHex (back cs)),
)

complete : (cs : List ℕ) → IsNonce cs → validate_codes cs ≡ true
unfolding validate_codes
complete cs (f, b, e, long, digits, eight, hexes) = rw e (
    ground (
      arith,
      front-stamp f b digits,
      back-stamp f b digits,
      count-stamp f b digits hexes,
      byte_length-digits f digits,
      byte_length-hex b hexes,
      byte_length-stamp f b,
      all-digits f,
      all-IsHex b,
    ))

nonce-ne-nil : (s : String) → IsNonce (codes s) → s ≢ ""
nonce-ne-nil s (f, b, e, long, digits, eight, hexes) empty =
    let none_left : length (codes s) ≡ 0 = ap (λ t. length (codes t)) empty in
    absurd (omega (arith, ap length e, length-append f (dash ∷ b)))

-- The validation accepts exactly the texts of at least thirteen digits, one dash and eight
-- hexadecimal digits of either case.
pub validate_nonce_iff : (s : String) → (validate_nonce s ≡ true) ↔ IsNonce (codes s)
unfolding validate_nonce
validate_nonce_iff s = (
  λ h. sound (codes s) (ground arith),
  λ n. ground (arith, complete (codes s) n, nonce-ne-nil s n),
)
