-- ===== src/Hub/Nonce.antt =====
-- internal/hub/nonce_cache.go: the format of a nonce, its generation and its validation. A text is
-- walked as its code points; lengths are those of its bytes.
pub mod Format
pub mod Generation
use lucas.Base.{
  str_dec, ℕ, suc, ◌+◌, ◌/◌, ◌%◌, ◌^◌, Bool, true, false, ◌&&◌, ◌||◌, not, String, List, [], ◌∷◌,
  Option, none, some, if◌then◌else◌, leb, nat_eq, ◌==◌, codes, byte_length, decimal_onto, hex, ◌≡◌,
  refl,
}

abbrev pub dash : ℕ
dash = 0x2d

unfoldable pub count_dashes : List ℕ → ℕ
count_dashes [] = 0
count_dashes (c ∷ cs) = (if nat_eq c dash then 1 else 0) + count_dashes cs

-- What stands before the first dash, and what stands behind it.
unfoldable pub front : List ℕ → List ℕ
front [] = []
front (c ∷ cs) = if nat_eq c dash then [] else c ∷ front cs

unfoldable pub back : List ℕ → List ℕ
back [] = []
back (c ∷ cs) = if nat_eq c dash then cs else back cs

unfoldable pub all : (ℕ → Bool) → List ℕ → Bool
all p [] = true
all p (c ∷ cs) = p c && all p cs

abbrev pub is_digit : ℕ → Bool
is_digit c = leb 0x30 c && leb c 0x39

abbrev pub is_hex : ℕ → Bool
is_hex c = is_digit c || leb 0x61 c && leb c 0x66 || leb 0x41 c && leb c 0x46

-- The tests in their order; each that fails returns false.
unfoldable pub validate_codes : List ℕ → Bool
unfolding count_dashes front back all
validate_codes cs =
    leb 13 (byte_length cs)
    && nat_eq (count_dashes cs) 1
    && (leb 1 (byte_length (front cs)) && leb 1 (byte_length (back cs)))
    && leb 13 (byte_length (front cs))
    && all is_digit (front cs)
    && nat_eq (byte_length (back cs)) 8
    && all is_hex (back cs)

unfoldable pub validate_nonce : String → Bool
unfolding validate_codes
validate_nonce nonce = not (nonce == "") && validate_codes (codes nonce)

-- `byte(timestamp >> 24)` and the three bytes below it.
abbrev pub low_bytes : ℕ → List ℕ
low_bytes t = (t / 2 ^ 24 % 256) ∷ (t / 2 ^ 16 % 256) ∷ (t / 2 ^ 8 % 256) ∷ (t % 256) ∷ []

-- The milliseconds of the clock, the four bytes that `rand.Read` gave or `none` if it failed, and
-- the nanoseconds that the clock shows in that case.
unfoldable pub generate_nonce : ℕ → Option (List ℕ) → ℕ → String
unfolding decimal_onto hex
generate_nonce now (some random) nanosecond =
    decimal_onto (suc now) now (String.◌∷◌ "-" (hex random))
generate_nonce now none nanosecond =
    let t = now + nanosecond in decimal_onto (suc t) t (String.◌∷◌ "-" (hex (low_bytes t)))

generated :
    generate_nonce 1691234567890 (some (0xa1 ∷ 0xb2 ∷ 0xc3 ∷ 0xd4 ∷ [])) 0
    ≡ "1691234567890-a1b2c3d4"
unfolding generate_nonce
generated = refl

validated : validate_nonce "1691234567890-a1b2c3d4" ≡ true
unfolding validate_nonce str_dec
validated = refl

rejected : validate_nonce "1691234567890-a1b2c3d" ≡ false
unfolding validate_nonce str_dec
rejected = refl
