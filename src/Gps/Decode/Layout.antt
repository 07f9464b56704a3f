-- ===== src/Gps/Decode/Layout.antt =====
-- What the decoder of a GGA sentence makes of the texts of its fields.
use mathlib.Core.Option
use air_quality_sensor_node.Base.{
  ℕ, zero, suc, ◌+◌, ◌≡◌, refl, sym, ap, ◌∙◌, true, false, Bool-cases, inl, inr, [], ◌∷◌, List,
  Bytes, ltb, ◌==◌, length, get_elem?, map, some, none, arith,
}
use air_quality_sensor_node.Base.Int.{pos}
use air_quality_sensor_node.Base.Libc.{is_digit}
use air_quality_sensor_node.Base.Outcome.{ok, in_bounds}
use air_quality_sensor_node.At.Receive.{c_string}
use air_quality_sensor_node.Gps.Cache.{GpsGga, GpsRmc}
use air_quality_sensor_node.Gps.Nmea.Parse.{NmeaSentence, text_at}
use air_quality_sensor_node.Gps.Decode.{
  Floats, digit, field_start, field_text, field_letter, nmea_atof, nmea_atoi, nmea_deg_min_to_rad,
  nmea_latof, nmea_lotof, flip_if, nmea_decode_gga, nmea_decode_rmc,
}

length-map : (f : ℕ → Bytes) (xs : List ℕ) → length (map f xs) ≡ length xs
length-map f [] = refl
length-map f (x ∷ xs) = ap suc (length-map f xs)

-- Where a text begins with `c`, so does the buffer, and the rest of the text stands behind it.
pub text_at-cons :
    (buffer : Bytes) (start c : ℕ) (t : Bytes)
    → text_at buffer start ≡ c ∷ t
    → (get_elem? buffer start ≡ some c) × ((c == 0) ≡ false) × (text_at buffer (start + 1) ≡ t)
unfolding text_at c_string
text_at-cons [] zero c t h = absurd (cc)
text_at-cons [] (suc start) c t h = absurd (cc)
text_at-cons (b ∷ buffer) zero c t h = elim (Bool-cases (b == 0)) [
  | inl ended ↦ absurd (cc (rw ended at h))
  | inr more ↦ let same = rw more at h in let e : b ≡ c = cc in (ap some e, rw (← e) more, cc)
]
text_at-cons (b ∷ buffer) (suc start) c t h =
    let e : suc start + 1 ≡ suc (start + 1) = omega arith in rw e (text_at-cons buffer start c t h)

-- The decoders read fields by their texts.
module _ (s : NmeaSentence) (texts : List Bytes)
    (parsed : map (text_at s.buffer) s.fields ≡ texts) where
  get_elem?-map :
      (fields : List ℕ) (k : ℕ)
      → get_elem? (map (text_at s.buffer) fields) k
        ≡ Option.map (text_at s.buffer) (get_elem? fields k)
  get_elem?-map [] k = refl
  get_elem?-map (x ∷ xs) zero = refl
  get_elem?-map (x ∷ xs) (suc k) = get_elem?-map xs k

  pub field_start_lem :
      (k : ℕ) {text : Bytes}
      → get_elem? texts k ≡ some text
      → (start : ℕ) × (field_start s k ≡ ok start) × (text_at s.buffer start ≡ text)
  unfolding field_start
  field_start_lem k {text} h =
      by_field (get_elem? s.fields k) refl (sym (get_elem?-map s.fields k) ∙ rw parsed h)
    where
      by_field :
          (o : Option.Option ℕ)
          → get_elem? s.fields k ≡ o
          → Option.map (text_at s.buffer) (get_elem? s.fields k) ≡ some text
          → (start : ℕ) × (in_bounds (get_elem? s.fields k) ≡ ok start)
            × (text_at s.buffer start ≡ text)
      by_field none e h = absurd (cc (rw e at h))
      by_field (some start) e h = (start, ap in_bounds e, cc (rw e at h))

  pub field_text_lem :
      (k : ℕ) {text : Bytes} → get_elem? texts k ≡ some text → field_text s k ≡ ok text
  unfolding field_text
  field_text_lem k h = let (start, e, f) = field_start_lem k h in rw (e, f)

  pub field_letter_lem :
      (k c : ℕ) (t : Bytes) → get_elem? texts k ≡ some (c ∷ t) → field_letter s k ≡ ok c
  unfolding field_letter
  field_letter_lem k c t h =
      let (start, e, f) = field_start_lem k h in
      let (here, _, _) = text_at-cons s.buffer start c t f in rw (e, here)

-- The texts of a GGA sentence with a position, and any more that follow.
pub record GgaTexts : Type 0 where
  pub name : Bytes
  pub time : Bytes
  pub lat0 : ℕ
  pub lat1 : ℕ
  pub lat_minutes : Bytes
  pub lat_letter : ℕ
  pub lon0 : ℕ
  pub lon1 : ℕ
  pub lon2 : ℕ
  pub lon_minutes : Bytes
  pub lon_letter : ℕ
  pub quality : Bytes
  pub satellites : Bytes
  pub dilution : Bytes
  pub altitude : Bytes
  pub altitude_unit : Bytes
  pub geoid : Bytes
  pub geoid_unit : Bytes
  pub more : List Bytes

abbrev pub gga_texts : GgaTexts → List Bytes
gga_texts g =
    g.name
    ∷ g.time
    ∷ (g.lat0 ∷ g.lat1 ∷ g.lat_minutes)
    ∷ (g.lat_letter ∷ [])
    ∷ (g.lon0 ∷ g.lon1 ∷ g.lon2 ∷ g.lon_minutes)
    ∷ (g.lon_letter ∷ [])
    ∷ g.quality
    ∷ g.satellites
    ∷ g.dilution
    ∷ g.altitude
    ∷ g.altitude_unit
    ∷ g.geoid
    ∷ g.geoid_unit
    ∷ g.more

module _ {F : Type 0} (floats : Floats F) where
  open floats use {from_int, add, times}

  -- Degrees in two digits, or in three, and minutes.
  abbrev pub latitude_of : ℕ → ℕ → Bytes → F
  latitude_of d0 d1 min =
      nmea_deg_min_to_rad floats
        (add (times (from_int (digit d0)) (from_int (pos 10)))
          (times (from_int (digit d1)) (from_int (pos 1))))
        (nmea_atof floats min)

  abbrev pub longitude_of : ℕ → ℕ → ℕ → Bytes → F
  longitude_of d0 d1 d2 min =
      nmea_deg_min_to_rad floats
        (add
          (add (times (from_int (digit d0)) (from_int (pos 100)))
            (times (from_int (digit d1)) (from_int (pos 10))))
          (times (from_int (digit d2)) (from_int (pos 1))))
        (nmea_atof floats min)

  nmea_latof_lem :
      (buffer : Bytes) (start d0 d1 : ℕ) (min : Bytes)
      → text_at buffer start ≡ d0 ∷ d1 ∷ min
      → nmea_latof floats buffer start ≡ ok (latitude_of d0 d1 min)
  unfolding nmea_latof
  nmea_latof_lem buffer start d0 d1 min h =
      let (c0, nonzero, h1) = text_at-cons buffer start d0 (d1 ∷ min) h in
      let (c1, _, h2) = text_at-cons buffer (start + 1) d1 min h1 in
      let e : start + 1 + 1 ≡ start + 2 = omega arith in
      let h3 : text_at buffer (start + 2) ≡ min = rw e at h2 in rw (c0, nonzero, c1, h3)

  nmea_lotof_lem :
      (buffer : Bytes) (start d0 d1 d2 : ℕ) (min : Bytes)
      → text_at buffer start ≡ d0 ∷ d1 ∷ d2 ∷ min
      → nmea_lotof floats buffer start ≡ ok (longitude_of d0 d1 d2 min)
  unfolding nmea_lotof
  nmea_lotof_lem buffer start d0 d1 d2 min h =
      let (c0, nonzero, h1) = text_at-cons buffer start d0 (d1 ∷ d2 ∷ min) h in
      let (c1, _, h2) = text_at-cons buffer (start + 1) d1 (d2 ∷ min) h1 in
      let (c2, _, h3) = text_at-cons buffer (start + 1 + 1) d2 min h2 in
      let e : start + 1 + 1 ≡ start + 2 = omega arith in
      let e' : start + 1 + 1 + 1 ≡ start + 3 = omega arith in
      let c2' : get_elem? buffer (start + 2) ≡ some d2 = rw e at c2 in
      let h4 : text_at buffer (start + 3) ≡ min = rw e' at h3 in rw (c0, nonzero, c1, c2', h4)

  abbrev pub gga_of : GgaTexts → GpsGga F
  gga_of g = record {
    timestamp = nmea_atof floats g.time;
    latitude = flip_if floats (g.lat_letter == b'S') (latitude_of g.lat0 g.lat1 g.lat_minutes);
    longitude =
        flip_if floats (g.lon_letter == b'W') (longitude_of g.lon0 g.lon1 g.lon2 g.lon_minutes);
    fix_quality = nmea_atoi floats g.quality;
    num_svs = nmea_atoi floats g.satellites;
    hdop = nmea_atof floats g.dilution;
    alt = nmea_atof floats g.altitude;
    geoid_height = nmea_atof floats g.geoid;
  }

  -- From the texts of a GGA sentence with a position the decoder reads each value in its place;
  -- latitude and longitude are degrees in two or three digits and minutes, negated in the south and
  -- the west.
  pub nmea_decode_gga_lem :
      (s : NmeaSentence) (g : GgaTexts)
      → map (text_at s.buffer) s.fields ≡ gga_texts g
      → nmea_decode_gga floats s ≡ ok (some (gga_of g))
  unfolding nmea_decode_gga
  nmea_decode_gga_lem s g h =
      let (lat_at, lat_start, lat_text) = field_start_lem s (gga_texts g) h 2 refl in
      let (lon_at, lon_start, lon_text) = field_start_lem s (gga_texts g) h 4 refl in
      let enough : ltb (length s.fields) 13 ≡ false =
        ground (arith, length-map (text_at s.buffer) s.fields, ap length h) in
      rw (
        enough,
        field_text_lem s (gga_texts g) h 1 refl,
        lat_start,
        nmea_latof_lem s.buffer lat_at g.lat0 g.lat1 g.lat_minutes lat_text,
        field_letter_lem s (gga_texts g) h 3 g.lat_letter [] refl,
        lon_start,
        nmea_lotof_lem s.buffer lon_at g.lon0 g.lon1 g.lon2 g.lon_minutes lon_text,
        field_letter_lem s (gga_texts g) h 5 g.lon_letter [] refl,
        field_text_lem s (gga_texts g) h 6 refl,
        field_text_lem s (gga_texts g) h 7 refl,
        field_text_lem s (gga_texts g) h 8 refl,
        field_text_lem s (gga_texts g) h 9 refl,
        field_text_lem s (gga_texts g) h 11 refl,
      )

  -- In the layout of an RMC sentence, whose status stands before the latitude, the decoder takes the
  -- latitude for the status: with a latitude that begins with a digit, no sentence is active.
  pub nmea_decode_rmc_inactive :
      (s : NmeaSentence) (stale : GpsRmc F) (name time status lat : Bytes) (d : ℕ)
      (more : List Bytes)
      → map (text_at s.buffer) s.fields ≡ name ∷ time ∷ status ∷ (d ∷ lat) ∷ more
      → is_digit d ≡ true
      → nmea_decode_rmc floats s stale ≡ ok (record stale { active = false })
  unfolding nmea_decode_rmc
  nmea_decode_rmc_inactive s stale name time status lat d more h digit =
      let no_a : (d == 65) ≡ false = ground arith in
      rw (field_letter_lem s (name ∷ time ∷ status ∷ (d ∷ lat) ∷ more) h 3 d lat refl, no_a)
