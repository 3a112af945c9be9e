-- ===== src/Prelude/Int.antt =====
-- Python's integers, as far as the code compares and adds them.
use Prim.Native.Nat.{ℕ}
use mathlib.Core.Bool.{Bool, true, false}
use queryops_ai.Prelude.Tests.{ltb}

-- `negsuc n` is -(n + 1).
pub data ℤ : Type 0 where
  pos : ℕ → ℤ
  negsuc : ℕ → ℤ

-- `z < 0`
abbrev pub is_negative : ℤ → Bool
is_negative (pos n) = false
is_negative (negsuc n) = true

-- `z > limit`, for a limit that is not negative
abbrev pub gt_limit : ℤ → ℕ → Bool
gt_limit (pos n) limit = ltb limit n
gt_limit (negsuc n) limit = false
