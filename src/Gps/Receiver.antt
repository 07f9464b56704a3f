-- ===== src/Gps/Receiver.antt =====
-- The receive buffer of Firmware/src/gps.c: `rxData`, which gets each byte of the receiver and
-- passes complete sentences to the cache.
pub mod Sentences
use air_quality_sensor_node.Base.{
  ℕ, ◌+◌, ◌%◌, ◌^◌, Bool, true, false, ◌&&◌, [], ◌∷◌, Bytes, ltb, leb, ◌==◌, if◌then◌else◌, length,
  get_elem?, set, replicate, Option, none, some,
}
use air_quality_sensor_node.Base.Outcome.{Outcome, ok, out_of_bounds, ◌>>=◌, in_bounds}
use air_quality_sensor_node.Gps.Cache.{
  GpsFix, GpsGga, GpsGsa, GpsRmc, update_gga, update_gsa, update_rmc,
}
use air_quality_sensor_node.Gps.Nmea.{max_nmea_buffer}
use air_quality_sensor_node.Gps.Nmea.Parse.{NmeaSentence, nmea_parse}
use air_quality_sensor_node.Gps.Decode.{
  Floats, nmea_decode_gga, nmea_decode_gsa, nmea_decode_rmc, nmea_decode_vtg,
}

-- `nmea_buffer` and `nmea_pos`, a `uint8_t`, with the cached fix.
pub record Receiver (F : Type 0) : Type 0 where
  pub buffer : Bytes
  pub at : ℕ
  pub fix : GpsFix F

module _ {F : Type 0} (floats : Floats F) (stale : GpsRmc F) where
  -- The local `gga` and `gsa` are read even where the decoder did not write them.
  unfoldable pub use_gga : Option (GpsGga F) → GpsFix F → Outcome (GpsFix F)
  use_gga none fix = out_of_bounds
  use_gga (some gga) fix = ok (update_gga gga fix)

  unfoldable pub use_gsa : Option (GpsGsa F) → GpsFix F → Outcome (GpsFix F)
  use_gsa none fix = out_of_bounds
  use_gsa (some gsa) fix = ok (update_gsa gsa fix)

  -- What a sentence does to the cache, by the letters of its type, which stand in the buffer from
  -- `kind` on. A letter is read only where those before it fit. `stale` is what the local `rmc`
  -- holds. `gps_update_vtg` does nothing.
  unfoldable pub dispatch : NmeaSentence → ℕ → GpsFix F → Outcome (GpsFix F)
  unfolding use_gga use_gsa
  dispatch s kind fix =
      let letter = λ (k : ℕ). in_bounds (get_elem? s.buffer (kind + k)) in
      let gga = (nmea_decode_gga floats s >>= λ gga. use_gga gga fix) in
      let gsa = (nmea_decode_gsa floats s >>= λ gsa. use_gsa gsa fix) in
      let rmc = (nmea_decode_rmc floats s stale >>= λ rmc. ok (update_rmc rmc fix)) in
      let vtg = (nmea_decode_vtg floats s >>= λ vtg. ok fix) in
      let by_second =
        λ (c1 : ℕ). (if c1 == b'G' then gga else if c1 == b'S' then gsa else ok fix) in
      let global =
        (letter 2 >>= λ c2. letter 1 >>= λ c1. if c2 == b'A' then by_second c1 else ok fix) in
      let third_rmc = (letter 2 >>= λ c2. if c2 == b'C' then rmc else ok fix) in
      let third_vtg = (letter 2 >>= λ c2. if c2 == b'G' then vtg else ok fix) in
      let recommended = (letter 1 >>= λ c1. if c1 == b'M' then third_rmc else ok fix) in
      let track = (letter 1 >>= λ c1. if c1 == b'T' then third_vtg else ok fix) in
      letter 0 >>= λ c0.
      if c0 == b'G'
      then global
      else if c0 == b'R'
      then recommended
      else if c0 == b'V'
      then track
      else ok fix

  -- A type that is null would be read.
  unfoldable pub use_sentence : Option NmeaSentence → GpsFix F → Outcome (GpsFix F)
  use_sentence none fix = ok fix
  use_sentence (some s) fix = in_bounds s.kind >>= λ kind. dispatch s kind fix

  -- The end of a line, with the line in the buffer.
  unfoldable pub end_line : Bytes → GpsFix F → Outcome (Receiver F)
  end_line buffer fix = do
    sentence ← nmea_parse buffer
    fix' ← use_sentence sentence fix
    ok (record { buffer = replicate max_nmea_buffer 0; at = 0; fix = fix' })

  -- `true` is a return of 0.
  unfoldable pub rx_data : ℕ → Receiver F → Outcome (Receiver F × Bool)
  rx_data b r =
      let stored = set r.buffer r.at b in
      let at' = (r.at + 1) % 2 ^ 8 in
      let ended = (end_line (set stored at' 0) r.fix >>= λ r'. ok (r', true)) in
      if ltb r.at (length r.buffer)
      then (if leb max_nmea_buffer at'
          then ok (record r { buffer = stored; at = 0 }, false)
          else if b == b'\n'
          then ended
          else ok (record r { buffer = stored; at = at' }, true))
      else out_of_bounds
