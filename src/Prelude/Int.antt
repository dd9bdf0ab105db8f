-- ===== src/Prelude/Int.antt =====
-- Signed integers, for values of C that may be negative.
use Prim.Native.Nat.{ℕ, zero, suc}
use mathlib.Core.Bool.{Bool, true, false}

-- `negsuc n` is -(n + 1).
pub data ℤ : Type 0 where
  pos : ℕ → ℤ
  negsuc : ℕ → ℤ

-- the integer -n
unfoldable pub neg : ℕ → ℤ
neg zero = pos zero
neg (suc n) = negsuc n

-- `z <= 0`
abbrev pub is_nonpos : ℤ → Bool
is_nonpos (pos zero) = true
is_nonpos (pos (suc n)) = false
is_nonpos (negsuc n) = true
