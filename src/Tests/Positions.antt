-- ===== src/Tests/Positions.antt =====
-- The NMEA parser, the decoders and the receive buffer at concrete inputs.
use mathlib.Core.Option
use air_quality_sensor_node.Base.{
  ℕ, zero, suc, ◌≡◌, refl, true, false, [], ◌∷◌, ◌++◌, List, Bytes, codes, length, replicate, map,
  All, all, all_sound, not, ◌==◌, some, arith,
}
use air_quality_sensor_node.Base.Int.{pos}
use air_quality_sensor_node.Base.Outcome.{ok}
use air_quality_sensor_node.At.Receive.{c_string}
use air_quality_sensor_node.Gps.Cache.{GpsFix, GpsRmc, update_gga}
use air_quality_sensor_node.Gps.Nmea.{nmea_valid, scan, scan_byte, check_sum}
use air_quality_sensor_node.Gps.Nmea.Loop.{is_text, IsText}
use air_quality_sensor_node.Gps.Nmea.Parse.{NmeaSentence, nmea_parse, text_at}
use air_quality_sensor_node.Gps.Nmea.Fields.{nmea_parse_lem}
use air_quality_sensor_node.Gps.Decode.{Floats, nmea_decode_rmc}
use air_quality_sensor_node.Gps.Decode.Layout.{GgaTexts, gga_of, nmea_decode_rmc_inactive}
use air_quality_sensor_node.Gps.Receiver.Sentences.{
  rx_all, empty, gga_line, with_zeros, rx_all-gga, IsInLine,
}

-- A float as the text that it was read from.
abbrev as_text : Floats Bytes
as_text = record {
  atof = λ t. t;
  atoi = λ t. pos (length t);
  from_int = λ n. [];
  add = λ x y. x ++ y;
  times = λ x y. x;
  over_sixty = λ x. x;
  to_radians = λ x. x;
  negate = λ x. b'-' ∷ x;
  knots_to_kmh = λ x. x;
  above_three = λ x. true;
}

abbrev unset : GpsRmc Bytes
unset = record { speed = []; active = true; moving = true; track_angle = [] }

abbrev no_fix : GpsFix Bytes
no_fix = record {
  timestamp = [];
  latitude = [];
  longitude = [];
  altitude = [];
  hdop = [];
  vdop = [];
  pdop = [];
  fix_quality = 0;
  gps_svs = 0;
  glo_svs = 0;
  waas_svs = 0;
  moving = false;
  track_angle = [];
}

abbrev position : GgaTexts
position = record {
  name = codes "GPGGA";
  time = codes "12";
  lat0 = b'4';
  lat1 = b'8';
  lat_minutes = codes "07";
  lat_letter = b'N';
  lon0 = b'0';
  lon1 = b'1';
  lon2 = b'1';
  lon_minutes = codes "31";
  lon_letter = b'E';
  quality = codes "1";
  satellites = codes "8";
  dilution = codes "9";
  altitude = codes "545";
  altitude_unit = codes "M";
  geoid = codes "46";
  geoid_unit = codes "M";
  more = [];
}

abbrev later_texts : List Bytes
later_texts =
    codes "12"
    ∷ codes "4807"
    ∷ codes "N"
    ∷ codes "01131"
    ∷ codes "E"
    ∷ codes "1"
    ∷ codes "8"
    ∷ codes "9"
    ∷ codes "545"
    ∷ codes "M"
    ∷ codes "46"
    ∷ codes "M"
    ∷ []

name_lem : (f : Bytes) → all is_text f ≡ true → IsText f
name_lem f h = all_sound is_text f h

are_texts : (fs : List Bytes) → all (all is_text) fs ≡ true → All IsText fs
are_texts [] h = tt
are_texts (f ∷ fs) h = (name_lem f (ground (arith, h)), are_texts fs (ground (arith, h)))

later_texts-IsText : All IsText later_texts
later_texts-IsText = are_texts later_texts refl

position_valid : nmea_valid (with_zeros (gga_line b'G' b'P' later_texts b'\r' [])) ≡ ok true
unfolding nmea_valid scan scan_byte check_sum
position_valid = refl

rmc_valid : nmea_valid (codes "$GPRMC,1,A\r") ≡ ok true
unfolding nmea_valid scan scan_byte check_sum
rmc_valid = refl

nmea_parse_lem_example :
    (s : NmeaSentence) × (nmea_parse (codes "$GPRMC,1,A\r") ≡ ok (some s))
    × (map (text_at s.buffer) s.fields ≡ codes "GPRMC" ∷ codes "1" ∷ codes "A" ∷ [])
    × (s.talker ≡ codes "GP")
    × (Option.map (text_at s.buffer) s.kind ≡ some (codes "RMC"))
nmea_parse_lem_example =
    nmea_parse_lem b'G' b'P' (codes "RMC") [] (codes "1" ∷ codes "A" ∷ []) b'\r' refl refl refl
      (name_lem (codes "RMC") refl) (are_texts (codes "1" ∷ codes "A" ∷ []) refl) refl (omega arith)
      (omega arith) rmc_valid

in_line : (l : Bytes) → all (λ b. not (b == b'\n')) l ≡ true → IsInLine l
in_line [] h = tt
in_line (b ∷ l) h = (ground (arith, h), in_line l (ground (arith, h)))

line-IsInLine : IsInLine (gga_line b'G' b'P' later_texts b'\r' [])
line-IsInLine = in_line (gga_line b'G' b'P' later_texts b'\r' []) refl

rx_all-gga_example :
    rx_all as_text unset
      (gga_line b'G' b'P' later_texts b'\r' [] ++ b'\n' ∷ [])
      (empty as_text unset no_fix)
    ≡ ok (empty as_text unset (update_gga (gga_of as_text position) no_fix))
rx_all-gga_example =
    rx_all-gga as_text unset b'G' b'P' b'\r' [] later_texts position no_fix refl refl refl refl
      later_texts-IsText refl (omega arith) line-IsInLine (omega arith) position_valid

zeros-IsInLine : (n : ℕ) → IsInLine (replicate n 0)
zeros-IsInLine zero = tt
zeros-IsInLine (suc n) = (refl, zeros-IsInLine n)

-- The sentence that the parser makes of a line with these texts, each behind the one before.
abbrev parsed_rmc : NmeaSentence
parsed_rmc = record {
  buffer = b'R' ∷ 0 ∷ b'1' ∷ 0 ∷ b'A' ∷ 0 ∷ b'4' ∷ 0 ∷ [];
  fields = 0 ∷ 2 ∷ 4 ∷ 6 ∷ [];
  talker = codes "GP";
  kind = some 0;
}

parsed_rmc_texts :
    map (text_at parsed_rmc.buffer) parsed_rmc.fields
    ≡ codes "R" ∷ codes "1" ∷ codes "A" ∷ (b'4' ∷ []) ∷ []
unfolding text_at c_string
parsed_rmc_texts = refl

nmea_decode_rmc_inactive_example :
    nmea_decode_rmc as_text parsed_rmc unset ≡ ok (record unset { active = false })
nmea_decode_rmc_inactive_example =
    nmea_decode_rmc_inactive as_text parsed_rmc unset (codes "R") (codes "1") (codes "A") [] b'4' []
      parsed_rmc_texts refl
