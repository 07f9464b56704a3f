-- ===== src/Gps/Thread/Retries.antt =====
-- How often the thread of Firmware/src/gps.c resets the receiver.
use air_quality_sensor_node.Base.{
  ℕ, ◌+◌, ◌*◌, ◌≤◌, ◌≡◌, Bool, true, false, not, ◌&&◌, List, [], ◌∷◌, ◌==◌, if◌then◌else◌, arith,
  count_past, hits, count_past_lem, inl, inr, Bool-cases,
}
use air_quality_sensor_node.Board.Gpio.{Pins, write, pause, gps_reset}
use air_quality_sensor_node.Gps.Cache.{GpsFix, get_fix, fix_is_valid}
use air_quality_sensor_node.Gps.Thread.{GpsThread, reset_if, with_fix, gps_round, gps_rounds}

-- Any pins, with the number of times the receiver's reset line has been lowered.
abbrev pub counted : {D : Type 0} → Pins D → Pins (D × ℕ)
counted pins = record {
  device_get_binding = λ s. (let r = pins.device_get_binding s.0 in ((r.0, s.1), r.1));
  gpio_pin_configure =
      λ s pin dir. (let r = pins.gpio_pin_configure s.0 pin dir in ((r.0, s.1), r.1));
  gpio_pin_write = λ s pin value.
      (let r = pins.gpio_pin_write s.0 pin value in
        ((r.0, if (pin == 6) && (value == 0) then s.1 + 1 else s.1), r.1));
  sleep = λ s t. (pins.sleep s.0 t, s.1);
}

-- The rounds in which the cache has no valid fix.
abbrev pub missing : {F : Type 0} → List (GpsFix F) → ℕ
missing [] = 0
missing (cached ∷ later) = hits (not (fix_is_valid cached)) + missing later

resets_one :
    {D : Type 0} (pins : Pins D) (b : Bool) (s : D × ℕ)
    → (reset_if (counted pins) b s).1 ≡ hits b + s.1
unfolding reset_if gps_reset write pause
resets_one pins true s = omega arith
resets_one pins false s = omega arith

module _ {D F : Type 0} (pins : Pins D) where
  round_counts :
      (cached : GpsFix F) (t : GpsThread F) (s : D × ℕ)
      → t.retries ≤ 120
      → let r = gps_round (counted pins) cached t s in
        (r.1.1 * 121 + r.0.retries ≡ hits (not (fix_is_valid cached)) + (s.1 * 121 + t.retries))
        × (r.0.retries ≤ 120)
  unfolding gps_round with_fix get_fix
  round_counts cached t s h = elim (Bool-cases (fix_is_valid cached)) [
    | inl valid ↦ rw valid (omega arith, h)
    | inr invalid ↦
        let (counted_up, small) = count_past_lem 120 t.retries h in
        let reset = resets_one pins (count_past 120 t.retries).1 s in
        rw invalid (omega (arith, counted_up, reset), small)
  ]

  -- With any pins, and from a count of at most 120: a reset for every 121 rounds without a valid fix,
  -- counted on across the rounds with one; the count is what is left over.
  pub gps_rounds-resets :
      (fixes : List (GpsFix F)) (t : GpsThread F) (d : D)
      → t.retries ≤ 120
      → let r = gps_rounds (counted pins) fixes t (d, 0) in
        (r.1.1 * 121 + r.0.retries ≡ missing fixes + t.retries) × (r.0.retries ≤ 120)
  unfolding gps_rounds
  gps_rounds-resets fixes t d h =
      let (total, small) = from fixes t (d, 0) h in (omega (arith, total), small)
    where
      from :
          (fixes : List (GpsFix F)) (t : GpsThread F) (s : D × ℕ)
          → t.retries ≤ 120
          → let r = gps_rounds (counted pins) fixes t s in
            (r.1.1 * 121 + r.0.retries ≡ missing fixes + (s.1 * 121 + t.retries))
            × (r.0.retries ≤ 120)
      from [] t s h = (omega arith, h)
      from (cached ∷ later) t s h =
          let (one, small) = round_counts cached t s h in
          let r = gps_round (counted pins) cached t s in
          let (all, at_end) = from later r.0 r.1 small in (omega (arith, one, all), at_end)
