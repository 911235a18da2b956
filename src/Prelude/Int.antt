-- ===== src/Prelude/Int.antt =====
-- C's signed `int`: a number or a negative number, over the native ℕ.
use Prim.Native.Nat.{ℕ, zero, suc}
use mathlib.Core.Bool.{Bool, true, false}

-- `negsuc n` is -(n + 1).
pub data ℤ : Type 0 where
  pos : ℕ → ℤ
  negsuc : ℕ → ℤ

abbrev pub is_neg : ℤ → Bool
is_neg (pos _) = false
is_neg (negsuc _) = true

-- The return code -1.
abbrev pub minus_one : ℤ
minus_one = negsuc 0

-- A test of a return code `if (rc)`.
abbrev pub is_nonzero : ℤ → Bool
is_nonzero (pos zero) = false
is_nonzero (pos (suc _)) = true
is_nonzero (negsuc _) = true
