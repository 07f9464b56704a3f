-- ===== src/Base/Int.antt =====
-- Signed integers over the native numbers, as far as the firmware needs them.
use Prim.Native.Nat.{ℕ, ◌-◌, ◌%◌, ◌^◌}
use mathlib.Core.Bool.{Bool, true, false}
use air_quality_sensor_node.Base.Tests.{◌==◌}

-- `negsuc n` is -(n + 1).
pub data ℤ : Type 0 where
  pos : ℕ → ℤ
  negsuc : ℕ → ℤ

-- The conversion to an unsigned type of `w` bits.
abbrev pub to_unsigned : ℕ → ℤ → ℕ
to_unsigned w (pos n) = n % 2 ^ w
to_unsigned w (negsuc n) = 2 ^ w - 1 - n % 2 ^ w

abbrev pub is_negative : ℤ → Bool
is_negative (pos n) = false
is_negative (negsuc n) = true

abbrev pub eq_int : ℤ → ℤ → Bool
eq_int (pos m) (pos n) = m == n
eq_int (negsuc m) (negsuc n) = m == n
eq_int _ _ = false
