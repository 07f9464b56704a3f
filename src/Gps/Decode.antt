-- ===== src/Gps/Decode.antt =====
-- The decoding of the sentences: Firmware/src/gps_std.c. Floats are abstract, with the operations
-- that the code applies to them as a parameter.
pub mod Layout
use air_quality_sensor_node.Base.{
  ℕ, zero, suc, ◌+◌, ◌-◌, Bool, true, false, [], ◌∷◌, List, Bytes, ltb, leb, ◌==◌, if◌then◌else◌,
  length, get_elem?, Option, none, some,
}
use air_quality_sensor_node.Base.Int.{ℤ, pos, negsuc, to_unsigned}
use air_quality_sensor_node.Base.Outcome.{Outcome, ok, out_of_bounds, ◌>>=◌, in_bounds}
use air_quality_sensor_node.Gps.Cache.{GpsGga, GpsGsa, GpsRmc}
use air_quality_sensor_node.Gps.Nmea.Parse.{NmeaSentence, text_at}

-- `atof` and `atoi` are given the text up to its terminator. `over_sixty` is `/ 60.0f`, `to_radians`
-- is `DEG_TO_RAD`, `knots_to_kmh` is `* 1.852` and `above_three` is `> 3`.
pub record Floats (F : Type 0) : Type 0 where
  pub atof : Bytes → F
  pub atoi : Bytes → ℤ
  pub from_int : ℤ → F
  pub add : F → F → F
  pub times : F → F → F
  pub over_sixty : F → F
  pub to_radians : F → F
  pub negate : F → F
  pub knots_to_kmh : F → F
  pub above_three : F → Bool

-- `gps_vtg_t`
pub record GpsVtg (F : Type 0) : Type 0 where
  pub true_track : F
  pub magnetic_track : F
  pub ground_speed_kts : F
  pub ground_speed_kmh : F

abbrev pub max_gsa_prns : ℕ
max_gsa_prns = 12

-- `c - '0'` in an `int`.
unfoldable pub digit : ℕ → ℤ
digit c = if leb b'0' c then pos (c - b'0') else negsuc (b'0' - c - 1)

unfoldable pub skip_zeros : Bytes → Bytes
skip_zeros [] = []
skip_zeros (c ∷ cs) = let rest = skip_zeros cs in if c == b'0' then rest else c ∷ cs

-- A field is a pointer; one behind `field_count` was never written.
unfoldable pub field_start : NmeaSentence → ℕ → Outcome ℕ
field_start s k = in_bounds (get_elem? s.fields k)

unfoldable pub field_text : NmeaSentence → ℕ → Outcome Bytes
unfolding field_start
field_text s k = field_start s k >>= λ start. ok (text_at s.buffer start)

-- `param->fields[k][0]`
unfoldable pub field_letter : NmeaSentence → ℕ → Outcome ℕ
unfolding field_start
field_letter s k = field_start s k >>= λ start. in_bounds (get_elem? s.buffer start)

module _ {F : Type 0} (floats : Floats F) where
  open floats use {
    atof, atoi, from_int, add, times, over_sixty, to_radians, negate, knots_to_kmh, above_three,
  }

  abbrev pub zero_float : F
  zero_float = from_int (pos 0)

  unfoldable pub nmea_atof : Bytes → F
  unfolding skip_zeros
  nmea_atof [] = zero_float
  nmea_atof (c ∷ cs) = atof (skip_zeros (c ∷ cs))

  -- As it is stored in a `uint8_t`.
  unfoldable pub nmea_atoi : Bytes → ℕ
  unfolding skip_zeros
  nmea_atoi [] = 0
  nmea_atoi (c ∷ cs) = to_unsigned 8 (atoi (skip_zeros (c ∷ cs)))

  unfoldable pub nmea_deg_min_to_rad : F → F → F
  nmea_deg_min_to_rad deg min = to_radians (add deg (over_sixty min))

  -- The text begins at `start`; its first characters are read whether or not it is that long.
  unfoldable pub nmea_latof : Bytes → ℕ → Outcome F
  unfolding nmea_deg_min_to_rad nmea_atof digit
  nmea_latof buffer start =
      let position = λ (c0 : ℕ). (do
        c1 ← in_bounds (get_elem? buffer (start + 1))
        let degrees =
            add (times (from_int (digit c0)) (from_int (pos 10)))
              (times (from_int (digit c1)) (from_int (pos 1)))
        ok (nmea_deg_min_to_rad degrees (nmea_atof (text_at buffer (start + 2))))) in
      in_bounds (get_elem? buffer start) >>= λ c0. if c0 == 0 then ok zero_float else position c0

  unfoldable pub nmea_lotof : Bytes → ℕ → Outcome F
  unfolding nmea_deg_min_to_rad nmea_atof digit
  nmea_lotof buffer start =
      let position = λ (c0 : ℕ). (do
        c1 ← in_bounds (get_elem? buffer (start + 1))
        c2 ← in_bounds (get_elem? buffer (start + 2))
        let degrees =
            add
              (add (times (from_int (digit c0)) (from_int (pos 100)))
                (times (from_int (digit c1)) (from_int (pos 10))))
              (times (from_int (digit c2)) (from_int (pos 1)))
        ok (nmea_deg_min_to_rad degrees (nmea_atof (text_at buffer (start + 3))))) in
      in_bounds (get_elem? buffer start) >>= λ c0. if c0 == 0 then ok zero_float else position c0

  -- `stale` is what `output` holds before the call.
  unfoldable pub nmea_decode_rmc : NmeaSentence → GpsRmc F → Outcome (GpsRmc F)
  unfolding nmea_atof field_letter field_text
  nmea_decode_rmc s stale =
      let moving = (do
        speed ← field_text s 6
        angle ← field_text s 7
        let kmh = knots_to_kmh (nmea_atof speed)
        ok (record {
          speed = kmh;
          active = true;
          moving = above_three kmh;
          track_angle = nmea_atof angle;
        })) in
      field_letter s 3 >>= λ c. if c == b'A' then moving else ok (record stale { active = false })

  abbrev flip_if : Bool → F → F
  flip_if b x = if b then negate x else x

  -- `none` where too few fields leave `output` as it is.
  unfoldable pub nmea_decode_gga : NmeaSentence → Outcome (Option (GpsGga F))
  unfolding nmea_atof nmea_atoi nmea_latof nmea_lotof field_start field_text field_letter
  nmea_decode_gga s =
      let decoded = (do
        time ← field_text s 1
        lat_at ← field_start s 2
        lat ← nmea_latof s.buffer lat_at
        south ← field_letter s 3
        lon_at ← field_start s 4
        lon ← nmea_lotof s.buffer lon_at
        west ← field_letter s 5
        quality ← field_text s 6
        svs ← field_text s 7
        hdop ← field_text s 8
        alt ← field_text s 9
        geoid ← field_text s 11
        ok (
            some (record {
              timestamp = nmea_atof time;
              latitude = flip_if (south == b'S') lat;
              longitude = flip_if (west == b'W') lon;
              fix_quality = nmea_atoi quality;
              num_svs = nmea_atoi svs;
              hdop = nmea_atof hdop;
              alt = nmea_atof alt;
              geoid_height = nmea_atof geoid;
            }))) in
      if ltb (length s.fields) 13 then ok none else decoded

  -- The loop over the PRNs, from field `k` on.
  unfoldable pub decode_prns : NmeaSentence → ℕ → ℕ → Outcome (List ℕ)
  unfolding nmea_atoi field_text
  decode_prns s k zero = ok []
  decode_prns s k (suc left) = do
    prn ← field_text s k
    prns ← decode_prns s (k + 1) left
    ok (nmea_atoi prn ∷ prns)

  unfoldable pub nmea_decode_gsa : NmeaSentence → Outcome (Option (GpsGsa F))
  unfolding nmea_atof nmea_atoi decode_prns field_text field_letter
  nmea_decode_gsa s =
      let decoded = (do
        selection ← field_letter s 1
        fix ← field_text s 2
        prns ← decode_prns s 3 max_gsa_prns
        pdop ← field_text s 15
        vdop ← field_text s 16
        ok (
            some (record {
              auto_selection = selection;
              fix_type = nmea_atoi fix;
              prns = prns;
              pdop = nmea_atof pdop;
              vdop = nmea_atof vdop;
            }))) in
      if ltb (length s.fields) 18 then ok none else decoded

  unfoldable pub nmea_decode_vtg : NmeaSentence → Outcome (Option (GpsVtg F))
  unfolding nmea_atof field_text
  nmea_decode_vtg s =
      let decoded = (do
        true_track ← field_text s 1
        magnetic_track ← field_text s 3
        kts ← field_text s 5
        kmh ← field_text s 7
        ok (
            some (record {
              true_track = nmea_atof true_track;
              magnetic_track = nmea_atof magnetic_track;
              ground_speed_kts = nmea_atof kts;
              ground_speed_kmh = nmea_atof kmh;
            }))) in
      if ltb (length s.fields) 8 then ok none else decoded
