-- ===== src/Hub/Nonce/Generation.antt =====
-- internal/hub/nonce_cache.go: what GenerateNonce prints.
use Prim.Native.Char.{code}
use native.Mathlib.Nat.{pow-suc}
use lucas.Hub.Nonce.{is_digit, is_hex}
use lucas.Base.{
  all_below, all_below_sound, ◌-◌, ℕ, zero, suc, ◌+◌, ◌*◌, ◌/◌, ◌%◌, ◌^◌, ◌≤◌, ◌<◌, true, String,
  List, [], ◌∷◌, ◌++◌, ◌≡◌, refl, sym, arith, codes, digit, decimal_onto, hex, length,
  length-append, append_assoc, All, All-append, ◌∙◌, lt→ltb, le→ltb_false, dec_lt, some, none,
  Option,
}
use lucas.Hub.Nonce.{generate_nonce, validate_nonce, low_bytes}
use lucas.Hub.Nonce.Format.{IsDigit, IsHex, IsNonce, validate_nonce_iff}

digits_table : all_below 10 (λ d. is_digit (code (digit d))) ≡ true
unfolding all_below
digits_table = refl

hex_table : all_below 16 (λ d. is_hex (code (digit d))) ≡ true
unfolding all_below
hex_table = refl

is_digit→IsDigit : (c : ℕ) → is_digit c ≡ true → IsDigit c
is_digit→IsDigit c h = ground arith

is_hex→IsHex : (c : ℕ) → is_hex c ≡ true → IsHex c
is_hex→IsHex c h = ground arith

digit-IsDigit : (d : ℕ) → d < 10 → IsDigit (code (digit d))
digit-IsDigit d h = is_digit→IsDigit _ (all_below_sound 10 _ d digits_table h)

digit-IsHex : (d : ℕ) → d < 16 → IsHex (code (digit d))
digit-IsHex d h = is_hex→IsHex _ (all_below_sound 16 _ d hex_table h)

pow-pos : (k : ℕ) → 1 ≤ 10 ^ k
pow-pos zero = omega arith
pow-pos (suc k) = rw pow-suc (omega (arith, pow-pos k))

-- A number of one digit, and one of more digits.
pow-le_small : (k n : ℕ) → 10 ^ k ≤ n → n < 10 → k < 1
pow-le_small zero n h small = omega arith
pow-le_small (suc k) n h small = absurd (omega (arith, rw pow-suc at h, pow-pos k))

pow-le_large : (k n : ℕ) → 10 ^ k ≤ n → 10 ≤ n → 10 ^ (k - 1) ≤ n / 10
pow-le_large zero n h large = omega arith
pow-le_large (suc k) n h large =
    let e : suc k - 1 ≡ k = omega arith in rw e (omega (arith, rw pow-suc at h))

-- The digits that are put in front of a text: more than `k` of them from 10 ^ k on.
decimal_onto-digits :
    (f k n : ℕ) (rest : String)
    → n < f
    → 10 ^ k ≤ n
    → (stamp : List ℕ) × (codes (decimal_onto f n rest) ≡ stamp ++ codes rest)
      × All IsDigit stamp
      × (k < length stamp)
unfolding decimal_onto
decimal_onto-digits zero k n rest lt h = absurd (omega arith)
decimal_onto-digits (suc f) k n rest lt h = elim (dec_lt n 10) [
  | yes small ↦ rw (lt→ltb n 10 small) (
    code (digit (n % 10)) ∷ [],
    refl,
    (digit-IsDigit (n % 10) (omega arith), tt),
    pow-le_small k n h small,
  )
  | no large ↦
      let d = digit (n % 10) in
      let (stamp, e, digits, long) =
        decimal_onto-digits f (k - 1) (n / 10) (String.◌∷◌ d rest) (omega arith)
          (pow-le_large k n h (omega arith)) in
      rw (le→ltb_false n 10 (omega arith)) (
        stamp ++ code d ∷ [],
        e ∙ sym (append_assoc stamp (code d ∷ []) (codes rest)),
        All-append IsDigit stamp (code d ∷ []) digits (digit-IsDigit (n % 10) (omega arith), tt),
        omega (arith, length-append stamp (code d ∷ [])),
      )
]

hex-digits :
    (bs : List ℕ)
    → All (λ b. b < 256) bs
    → All IsHex (codes (hex bs)) × (length (codes (hex bs)) ≡ 2 * length bs)
unfolding hex
hex-digits [] h = (tt, refl)
hex-digits (b ∷ bs) h =
    let (hexes, long) = hex-digits bs h.1 in
    (
      (digit-IsHex (b / 16) (omega arith), (digit-IsHex (b % 16) (omega arith), hexes)),
      omega (arith, long),
    )

-- A stamp, a dash and four bytes in hexadecimal.
printed-IsNonce :
    (t : ℕ) (bs : List ℕ)
    → 10 ^ 12 ≤ t
    → length bs ≡ 4
    → All (λ b. b < 256) bs
    → IsNonce (codes (decimal_onto (suc t) t (String.◌∷◌ "-" (hex bs))))
printed-IsNonce t bs h four small =
    let (stamp, e, digits, long) =
      decimal_onto-digits (suc t) 12 t (String.◌∷◌ "-" (hex bs)) (omega arith) h in
    let (hexes, eight) = hex-digits bs small in
    (stamp, codes (hex bs), e, omega (arith, long), digits, omega (arith, eight, four), hexes)

-- What `rand.Read` gives, if anything: four bytes.
abbrev pub IsEntropy : Option (List ℕ) → Type 0
IsEntropy none = Unit
IsEntropy (some bs) = (length bs ≡ 4) × All (λ b. b < 256) bs

-- From September 2001 on, when the clock shows thirteen digits, every generated nonce passes the
-- validation, whether the random bytes come from the system or from the clock.
pub generate_nonce-valid :
    (now nanosecond : ℕ) (random : Option (List ℕ))
    → 10 ^ 12 ≤ now
    → IsEntropy random
    → validate_nonce (generate_nonce now random nanosecond) ≡ true
unfolding generate_nonce
generate_nonce-valid now nanosecond none h e =
    let t = now + nanosecond in
    (validate_nonce_iff _).1 (printed-IsNonce t (low_bytes t) (omega arith) refl (omega arith))
generate_nonce-valid now nanosecond (some bs) h e =
    (validate_nonce_iff _).1 (printed-IsNonce now bs h e.0 e.1)
