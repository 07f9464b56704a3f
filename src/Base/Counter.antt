-- ===== src/Base/Counter.antt =====
-- A counter that goes up to a limit and starts again behind it.
use Prim.Native.Nat.{ℕ, ◌+◌, ◌*◌, ◌≤◌}
use mathlib.Core.Path.{◌≡◌}
use mathlib.Core.Bool.{Bool, true, false}
use native.Mathlib.Omega.{arith}
use air_quality_sensor_node.Base.Tests.{ltb, if◌then◌else◌}

-- `c++; if (c > limit) { c = 0; ... }`: the counter, and whether the block is entered.
unfoldable pub count_past : ℕ → ℕ → ℕ × Bool
count_past limit c = if ltb limit (c + 1) then (0, true) else (c + 1, false)

abbrev pub hits : Bool → ℕ
hits true = 1
hits false = 0

-- What a round adds to the counter it takes off when it enters the block, and the limit holds.
pub count_past_lem :
    (limit c : ℕ)
    → c ≤ limit
    → (hits (count_past limit c).1 * (limit + 1) + (count_past limit c).0 ≡ c + 1)
      × ((count_past limit c).0 ≤ limit)
unfolding count_past
count_past_lem limit c h = ground arith
