-- ===== src/Base/Number.antt =====
-- Finite JavaScript numbers, and the comparison of one with an integer constant.
use Prim.Native.Nat.{ℕ, ◌*◌, ◌^◌}
use mathlib.Core.Bool.{Bool}
use vguardrail.Base.Tests.{ltb}

-- `negsuc n` is -(n + 1).
pub data ℤ : Type 0 where
  pos : ℕ → ℤ
  negsuc : ℕ → ℤ

abbrev pub pos_part : ℤ → ℕ
pos_part (pos n) = n
pos_part (negsuc n) = 0

-- The double `mantissa / 2 ^ scale`: every finite double has this form.
pub record Number : Type 0 where
  pub mantissa : ℤ
  pub scale : ℕ

abbrev pub of_ℕ : ℕ → Number
of_ℕ n = record { mantissa = pos n; scale = 0 }

-- `x > n` for a constant `n ≥ 0`
abbrev pub exceeds : Number → ℕ → Bool
exceeds x n = ltb (n * 2 ^ x.scale) (pos_part x.mantissa)
