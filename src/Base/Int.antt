-- ===== src/Base/Int.antt =====
-- Go's signed numbers, as far as the code counts down.
use Prim.Native.Nat.{ℕ, zero, suc}
use mathlib.Core.Bool.{Bool, true, false}

-- `negsuc n` is -(n + 1).
pub data ℤ : Type 0 where
  pos : ℕ → ℤ
  negsuc : ℕ → ℤ

-- `n--`.
unfoldable pub pred_ℤ : ℤ → ℤ
pred_ℤ (pos zero) = negsuc zero
pred_ℤ (pos (suc n)) = pos n
pred_ℤ (negsuc n) = negsuc (suc n)

-- `n <= 0`.
unfoldable pub is_nonpositive : ℤ → Bool
is_nonpositive (pos zero) = true
is_nonpositive (pos (suc n)) = false
is_nonpositive (negsuc n) = true
