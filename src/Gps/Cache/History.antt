-- ===== src/Gps/Cache/History.antt =====
-- When the cache holds a valid fix, from the history of the calls.
use air_quality_sensor_node.Base.{
  ℕ, ◌≡◌, refl, ap, ◌∙◌, not, List, [], ◌∷◌, ◌==◌, if◌then◌else◌, arith,
}
use air_quality_sensor_node.Gps.Cache.{
  GpsFix, GpsGga, GpsGsa, GpsRmc, fix_q_invalid, get_fix, update_gga, update_rmc, update_gsa,
  reset_cache,
}

module _ {F : Type 0} (zero_float : F) where
  -- The calls that write the fix.
  pub data Call : Type 0 where
    gga : GpsGga F → Call
    rmc : GpsRmc F → Call
    gsa : GpsGsa F → Call
    reset : Call

  pub call : GpsFix F → Call → GpsFix F
  call fix (gga s) = update_gga s fix
  call fix (rmc s) = update_rmc s fix
  call fix (gsa s) = update_gsa s fix
  call fix reset = reset_cache zero_float fix

  pub run : GpsFix F → List Call → GpsFix F
  run fix [] = fix
  run fix (c ∷ cs) = run (call fix c) cs

  -- The last position that a sentence with a fix has given since the last reset.
  pub record Position : Type 0 where
    pub timestamp : F
    pub latitude : F
    pub longitude : F
    pub quality : ℕ

  abbrev pub position_of : GpsFix F → Position
  position_of fix = record {
    timestamp = fix.timestamp;
    latitude = fix.latitude;
    longitude = fix.longitude;
    quality = fix.fix_quality;
  }

  abbrev pub nowhere : Position
  nowhere = record {
    timestamp = zero_float;
    latitude = zero_float;
    longitude = zero_float;
    quality = fix_q_invalid;
  }

  abbrev pub after : Position → Call → Position
  after p (gga s) = if s.fix_quality == fix_q_invalid then p else record {
    timestamp = s.timestamp;
    latitude = s.latitude;
    longitude = s.longitude;
    quality = s.fix_quality;
  }
  after p (rmc s) = p
  after p (gsa s) = p
  after p reset = nowhere

  abbrev pub latest : Position → List Call → Position
  latest p [] = p
  latest p (c ∷ cs) = latest (after p c) cs

  call-after : (fix : GpsFix F) (c : Call) → position_of (call fix c) ≡ after (position_of fix) c
  unfolding call update_gga update_rmc update_gsa reset_cache
  call-after fix (gga s) = ground arith
  call-after fix (rmc s) = ground arith
  call-after fix (gsa s) = refl
  call-after fix reset = refl

  position_of-run :
      (cs : List Call) (fix : GpsFix F) → position_of (run fix cs) ≡ latest (position_of fix) cs
  unfolding run
  position_of-run [] fix = refl
  position_of-run (c ∷ cs) fix =
      position_of-run cs (call fix c) ∙ ap (λ p. latest p cs) (call-after fix c)

  -- Over any calls the cache holds the position of the latest GGA sentence with a fix since the
  -- last reset, if there is one, and `gps_get_fix` reports a fix exactly if its quality is not
  -- `FIX_Q_INVALID`. No RMC or GSA sentence and no GGA sentence without a fix changes it.
  pub run-latest :
      (cs : List Call) (fix : GpsFix F)
      → (position_of (run fix cs) ≡ latest (position_of fix) cs)
        × ((get_fix (run fix cs)).1 ≡ not ((latest (position_of fix) cs).quality == fix_q_invalid))
  unfolding get_fix
  run-latest cs fix = (
    position_of-run cs fix,
    ap (λ (p : Position). not (p.quality == fix_q_invalid)) (position_of-run cs fix),
  )
