-- ===== src/Gps/Cache.antt =====
-- The cache of the latest fix, the fix statistics and the IMU data: Firmware/src/gps_cache.c and
-- gps_cache.h. Every function holds the mutex while it runs, so a call is one step. `F` is `float`:
-- the cache stores floats and never computes with them; `zero_float` is 0.0f.
pub mod Satellites
pub mod Stats
pub mod History
use air_quality_sensor_node.Base.{
  ℕ, zero, suc, ◌+◌, ◌%◌, ◌^◌, Bool, true, false, not, List, [], ◌∷◌, ltb, leb, ◌==◌, if◌then◌else◌,
}

abbrev pub fix_q_invalid : ℕ
fix_q_invalid = 0

-- `gps_fix_t`
pub record GpsFix (F : Type 0) : Type 0 where
  pub timestamp : F
  pub latitude : F
  pub longitude : F
  pub altitude : F
  pub hdop : F
  pub vdop : F
  pub pdop : F
  pub fix_quality : ℕ
  pub gps_svs : ℕ
  pub glo_svs : ℕ
  pub waas_svs : ℕ
  pub moving : Bool
  pub track_angle : F

-- `gps_fix_stats_t`
pub record GpsFixStats : Type 0 where
  pub max_time : ℕ
  pub min_time : ℕ
  pub last_time : ℕ
  pub timeouts : ℕ
  pub samples : ℕ
  pub total_time : ℕ

-- `imu_data_t`
pub record ImuData (F : Type 0) : Type 0 where
  pub accel_x : F
  pub accel_y : F
  pub accel_z : F
  pub mag_x : F
  pub mag_y : F
  pub mag_z : F
  pub temperature : F

-- `gps_gga_t`, `gps_gsa_t` and `gps_rmc_t` of Firmware/src/gps_std.h
pub record GpsGga (F : Type 0) : Type 0 where
  pub timestamp : F
  pub latitude : F
  pub longitude : F
  pub fix_quality : ℕ
  pub num_svs : ℕ
  pub hdop : F
  pub alt : F
  pub geoid_height : F

pub record GpsGsa (F : Type 0) : Type 0 where
  pub auto_selection : ℕ
  pub fix_type : ℕ
  pub prns : List ℕ
  pub pdop : F
  pub vdop : F

pub record GpsRmc (F : Type 0) : Type 0 where
  pub speed : F
  pub active : Bool
  pub moving : Bool
  pub track_angle : F

-- The counters of `gps_update_gsa`, each a `uint8_t`.
pub record PrnCounts : Type 0 where
  pub gps_prns : ℕ
  pub glo_prns : ℕ
  pub waas_prns : ℕ

-- One round of the loop over the PRNs.
unfoldable pub count_prn : PrnCounts → ℕ → PrnCounts
count_prn c prn =
    if prn == 0
    then c
    else if leb prn 32
    then record c { gps_prns = (c.gps_prns + 1) % 2 ^ 8 }
    else if leb prn 64
    then record c { waas_prns = (c.waas_prns + 1) % 2 ^ 8 }
    else if leb prn 96
    then record c { glo_prns = (c.glo_prns + 1) % 2 ^ 8 }
    else c

unfoldable pub count_prns : PrnCounts → List ℕ → PrnCounts
count_prns c [] = c
count_prns c (prn ∷ prns) = count_prns (count_prn c prn) prns

abbrev pub no_prns : PrnCounts
no_prns = record { gps_prns = 0; glo_prns = 0; waas_prns = 0 }

abbrev pub init_stats : GpsFixStats
init_stats = record {
  max_time = 0;
  min_time = 0xFF;
  last_time = 0;
  timeouts = 0;
  samples = 0;
  total_time = 0;
}

-- The time is not negative; storing it in a `uint8_t` keeps its low byte.
unfoldable pub add_fix_stat : ℕ → GpsFixStats → GpsFixStats
add_fix_stat seconds s = record s {
  min_time = if ltb seconds s.min_time then seconds % 2 ^ 8 else s.min_time;
  max_time = if ltb s.max_time seconds then seconds % 2 ^ 8 else s.max_time;
  samples = (s.samples + 1) % 2 ^ 16;
  total_time = (s.total_time + seconds) % 2 ^ 32;
  last_time = seconds % 2 ^ 8;
}

unfoldable pub add_timeout_stat : GpsFixStats → GpsFixStats
add_timeout_stat s = record s { timeouts = (s.timeouts + 1) % 2 ^ 16 }

module _ {F : Type 0} where
  unfoldable pub fix_is_valid : GpsFix F → Bool
  fix_is_valid fix = not (fix.fix_quality == fix_q_invalid)

  unfoldable pub get_fix : GpsFix F → GpsFix F × Bool
  unfolding fix_is_valid
  get_fix fix = (fix, fix_is_valid fix)

  unfoldable pub update_gga : GpsGga F → GpsFix F → GpsFix F
  update_gga gga fix = if gga.fix_quality == fix_q_invalid then fix else record fix {
    timestamp = gga.timestamp;
    latitude = gga.latitude;
    longitude = gga.longitude;
    altitude = gga.alt;
    fix_quality = gga.fix_quality;
    hdop = gga.hdop;
  }

  unfoldable pub update_rmc : GpsRmc F → GpsFix F → GpsFix F
  update_rmc rmc fix =
      if rmc.active then record fix { moving = rmc.moving; track_angle = rmc.track_angle } else fix

  unfoldable pub update_gsa : GpsGsa F → GpsFix F → GpsFix F
  unfolding count_prns count_prn
  update_gsa gsa fix =
      let c = count_prns no_prns gsa.prns in
      record fix {
        vdop = gsa.vdop;
        pdop = gsa.pdop;
        gps_svs = if ltb 0 c.gps_prns then c.gps_prns else fix.gps_svs;
        waas_svs = if ltb 0 c.waas_prns then c.waas_prns else fix.waas_svs;
        glo_svs = if ltb 0 c.glo_prns then c.glo_prns else fix.glo_svs;
      }

  unfoldable pub reset_cache : F → GpsFix F → GpsFix F
  reset_cache zero_float fix = record fix {
    timestamp = zero_float;
    latitude = zero_float;
    longitude = zero_float;
    fix_quality = fix_q_invalid;
  }

  unfoldable pub imu_update_accel : F → F → F → ImuData F → ImuData F
  imu_update_accel x y z imu = record imu { accel_x = x; accel_y = y; accel_z = z }

  unfoldable pub imu_update_temp : F → ImuData F → ImuData F
  imu_update_temp t imu = record imu { temperature = t }

  unfoldable pub imu_update_mag : F → F → F → ImuData F → ImuData F
  imu_update_mag x y z imu = record imu { mag_x = x; mag_y = y; mag_z = z }
