-- ===== src/Gps/Cache/Stats.antt =====
-- What the statistics say of the times that were added.
use air_quality_sensor_node.Base.{
  ℕ, ◌+◌, ◌%◌, ◌^◌, ◌<◌, ◌≡◌, List, [], ◌∷◌, length, All, arith, min,
}
use Prim.Native.Nat.{max}
use air_quality_sensor_node.Gps.Cache.{GpsFixStats, init_stats, add_fix_stat}

-- The calls of `gps_add_fix_stat` in order.
pub add_all : List ℕ → GpsFixStats → GpsFixStats
add_all [] s = s
add_all (t ∷ ts) s = add_all ts (add_fix_stat t s)

abbrev pub largest : List ℕ → ℕ
largest [] = 0
largest (t ∷ ts) = max t (largest ts)

abbrev pub smallest : List ℕ → ℕ
smallest [] = 255
smallest (t ∷ ts) = min t (smallest ts)

abbrev pub total : List ℕ → ℕ
total [] = 0
total (t ∷ ts) = t + total ts

record Summary (s : GpsFixStats) (ts : List ℕ) (s' : GpsFixStats) : Type 0 where
  greatest : s'.max_time ≡ max s.max_time (largest ts)
  least : s'.min_time ≡ min s.min_time (smallest ts)
  count : s'.samples ≡ (s.samples + length ts) % 2 ^ 16
  sum : s'.total_time ≡ (s.total_time + total ts) % 2 ^ 32
  late : s'.timeouts ≡ s.timeouts

-- The cells hold what their types can.
abbrev InRange : GpsFixStats → Type 0
InRange s = (s.max_time < 256) × (s.min_time < 256) × (s.samples < 2 ^ 16) × (s.total_time < 2 ^ 32)

add_fix_stat-InRange : (t : ℕ) (s : GpsFixStats) → t < 256 → InRange s → InRange (add_fix_stat t s)
unfolding add_fix_stat
add_fix_stat-InRange t s h r = ground arith

add_fix_stat-Summary :
    (t : ℕ) (s : GpsFixStats) → t < 256 → InRange s → Summary s (t ∷ []) (add_fix_stat t s)
unfolding add_fix_stat
add_fix_stat-Summary t s h r = ground arith

add_all-Summary :
    (ts : List ℕ) (s : GpsFixStats)
    → InRange s
    → All (λ t. t < 256) ts
    → Summary s ts (add_all ts s)
unfolding add_all
add_all-Summary [] s r h = omega arith
add_all-Summary (t ∷ ts) s r h = omega (
  arith,
  add_fix_stat-Summary t s h.0 r,
  add_all-Summary ts (add_fix_stat t s) (add_fix_stat-InRange t s h.0 r) h.1,
)

-- After any calls with times below 256 seconds, starting from the initial statistics, the cells
-- hold the greatest time, the least time (255 if there is none), the number of calls modulo 2^16
-- and the sum of the times modulo 2^32; the timeouts are untouched.
pub add_all_summary :
    (ts : List ℕ)
    → All (λ t. t < 256) ts
    → let s = add_all ts init_stats in
      (s.max_time ≡ largest ts)
      × (s.min_time ≡ min 255 (smallest ts))
      × (s.samples ≡ length ts % 2 ^ 16)
      × (s.total_time ≡ total ts % 2 ^ 32)
      × (s.timeouts ≡ 0)
add_all_summary ts h = omega (arith, add_all-Summary ts init_stats (omega arith) h)
