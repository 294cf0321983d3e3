-- ===== src/Common/Int.antt =====
-- The `int` results of the program: signed numbers over the native numbers.
use Prim.Native.Nat.{ℕ}
use mathlib.Core.Bool.{Bool, true, false}

-- `negsuc n` is -(n + 1).
pub data ℤ : Type 0 where
  pos : ℕ → ℤ
  negsuc : ℕ → ℤ

-- `ret < 0`
abbrev pub is_negative : ℤ → Bool
is_negative (pos n) = false
is_negative (negsuc n) = true

-- `0 == result`
abbrev pub is_zero : ℤ → Bool
is_zero (pos Prim.Native.Nat.ℕ.zero) = true
is_zero (pos (Prim.Native.Nat.ℕ.suc n)) = false
is_zero (negsuc n) = false
