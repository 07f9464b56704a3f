-- ===== src/Gps/Cache/Satellites.antt =====
-- What `gps_update_gsa` counts.
use air_quality_sensor_node.Base.{
  ℕ, suc, ◌+◌, ◌≤◌, ◌<◌, ◌≡◌, ◌&&◌, List, [], ◌∷◌, leb, ◌==◌, if◌then◌else◌, length, arith,
}
use air_quality_sensor_node.Gps.Cache.{
  GpsFix, GpsGsa, PrnCounts, no_prns, count_prn, count_prns, update_gsa,
}

-- How many of the numbers lie in a range.
abbrev pub count_in : ℕ → ℕ → List ℕ → ℕ
count_in lo hi [] = 0
count_in lo hi (p ∷ ps) = (if leb lo p && leb p hi then 1 else 0) + count_in lo hi ps

abbrev Adds : PrnCounts → PrnCounts → List ℕ → Type 0
Adds c d prns =
    (d.gps_prns ≡ c.gps_prns + count_in 1 32 prns)
    × (d.waas_prns ≡ c.waas_prns + count_in 33 64 prns)
    × (d.glo_prns ≡ c.glo_prns + count_in 65 96 prns)

-- Below 256 no counter wraps.
abbrev Small : PrnCounts → ℕ → Type 0
Small c n = (c.gps_prns + n < 256) × (c.waas_prns + n < 256) × (c.glo_prns + n < 256)

count_prn-Adds : (c : PrnCounts) (p : ℕ) → Small c 1 → Adds c (count_prn c p) (p ∷ [])
unfolding count_prn
count_prn-Adds c p s = ground arith

count_prn-Small : (c : PrnCounts) (p n : ℕ) → Small c (suc n) → Small (count_prn c p) n
unfolding count_prn
count_prn-Small c p n s = ground arith

count_prns-Adds :
    (c : PrnCounts) (prns : List ℕ) → Small c (length prns) → Adds c (count_prns c prns) prns
unfolding count_prns
count_prns-Adds c [] s = omega arith
count_prns-Adds c (p ∷ ps) s = omega (
  arith,
  count_prn-Adds c p (omega arith),
  count_prns-Adds (count_prn c p) ps (count_prn-Small c p (length ps) s),
)

-- A sentence with at most 12 PRNs sets each count of satellites to the number of its PRNs in that
-- system's range, and leaves the count as it was if there is none.
pub update_gsa_counts :
    {F : Type 0} (gsa : GpsGsa F) (fix : GpsFix F)
    → length gsa.prns ≤ 12
    → let fix' = update_gsa gsa fix in
      let gps = count_in 1 32 gsa.prns in
      let waas = count_in 33 64 gsa.prns in
      let glo = count_in 65 96 gsa.prns in
      (fix'.gps_svs ≡ (if gps == 0 then fix.gps_svs else gps))
      × (fix'.waas_svs ≡ (if waas == 0 then fix.waas_svs else waas))
      × (fix'.glo_svs ≡ (if glo == 0 then fix.glo_svs else glo))
unfolding update_gsa
update_gsa_counts gsa fix h = ground (arith, count_prns-Adds no_prns gsa.prns (omega arith))
