-- ===== src/Base/Libc.antt =====
-- What the firmware calls of the C library, with what the documentation of these functions says.
use Prim.Native.Nat.{ℕ, ◌+◌, ◌-◌, ◌*◌, ◌<◌}
use mathlib.Core.Path.{◌≡◌}
use mathlib.Core.Bool.{Bool, true, false, ◌&&◌, ◌||◌}
use mathlib.Core.List.{[], ◌∷◌, ◌++◌}
use air_quality_sensor_node.Base.Tests.{leb, ◌==◌}
use air_quality_sensor_node.Base.Lists.{Bytes, All}
use air_quality_sensor_node.Base.Int.{ℤ, pos}

abbrev pub is_digit : ℕ → Bool
is_digit c = leb b'0' c && leb c b'9'

-- The white space of the C locale.
abbrev pub is_space : ℕ → Bool
is_space c = (c == b' ') || (leb b'\t' c && leb c b'\r')

-- The number that decimal digits stand for, behind the value of those already read.
abbrev pub decimal : ℕ → Bytes → ℕ
decimal n [] = n
decimal n (c ∷ cs) = decimal (n * 10 + (c - b'0')) cs

-- `atoi` is given the text up to its terminator.
pub record Libc : Type 0 where
  pub isspace : ℕ → Bool
  pub isspace_ascii : (c : ℕ) → c < 128 → isspace c ≡ is_space c
  pub atoi : Bytes → ℤ
  pub atoi_digits :
      (ds rest : Bytes) (c : ℕ)
      → All (λ d. is_digit d ≡ true) ds
      → is_digit c ≡ false
      → decimal 0 ds < 2147483648
      → atoi (ds ++ c ∷ rest) ≡ pos (decimal 0 ds)
  pub atoi_all_digits :
      (ds : Bytes)
      → All (λ d. is_digit d ≡ true) ds
      → decimal 0 ds < 2147483648
      → atoi ds ≡ pos (decimal 0 ds)
