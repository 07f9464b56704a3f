-- ===== src/Message.antt =====
-- The message that is sent: `encode_firmware_version` and `mb_encode` of Firmware/src/messagebuffer.c.
-- Floats are abstract, but those of the particle sensor, which are their four bytes as a number.
pub mod Version
use air_quality_sensor_node.Base.{
  ℕ, zero, suc, ◌*◌, ◌-◌, ◌%◌, ◌^◌, bit_or, Bool, true, false, ◌||◌, [], ◌∷◌, ◌++◌, Bytes, List,
  ltb, ◌==◌, if◌then◌else◌, length, replicate, get_or, Option, none, some,
}
use air_quality_sensor_node.Base.Int.{ℤ, pos, to_unsigned}
use air_quality_sensor_node.Gps.Cache.{GpsFix}
use air_quality_sensor_node.Opc.Histogram.{OpcSample}
use air_quality_sensor_node.Board.Adc.{Afe3Sample}

abbrev pub fw_version_buf_len : ℕ
fw_version_buf_len = 32

abbrev prepend : ℕ → Option (Bytes × Bytes) → Option (Bytes × Bytes)
prepend c none = none
prepend c (some (before, behind)) = some (c ∷ before, behind)

-- `strstr(text, ".")`: the text before the first dot and that behind it.
unfoldable pub split_dot : Bytes → Option (Bytes × Bytes)
split_dot [] = none
split_dot (c ∷ cs) =
    let later = prepend c (split_dot cs) in if c == b'.' then some ([], cs) else later

module _ (atoi : Bytes → ℤ) where
  -- `(uint64_t)version[0] << 32 | (uint64_t)version[1] << 16 | (uint64_t)version[2]`
  unfoldable pub pack_version : ℤ → ℤ → ℤ → ℕ
  pack_version major minor patch =
      bit_or
        (bit_or (to_unsigned 64 major * 2 ^ 32 % 2 ^ 64) (to_unsigned 64 minor * 2 ^ 16 % 2 ^ 64))
        (to_unsigned 64 patch)

  -- Behind the first dot, and behind the second.
  unfoldable pub encode_rest : Bytes → Option (Bytes × Bytes) → ℕ
  encode_rest major none = 0
  encode_rest major (some (minor, patch)) = pack_version (atoi major) (atoi minor) (atoi patch)

  unfoldable pub encode_parts : Option (Bytes × Bytes) → ℕ
  encode_parts none = 0
  encode_parts (some (major, behind)) = encode_rest major (split_dot behind)

  -- `version` is CLIENT_FIRMWARE_VER, which the build sets.
  unfoldable pub encode_firmware_version : Bytes → ℕ
  encode_firmware_version version =
      if ltb (length version) 5 || ltb 31 (length version)
      then 0
      else encode_parts (split_dot version)

-- `CC2_SAMPLE`
pub record Cc2Sample (F : Type 0) : Type 0 where
  pub rh : F
  pub temp_c : F

-- `SENSOR_NODE_MESSAGE`; `uptime` is in the two's complement of 64 bits.
pub record SensorNodeMessage (F : Type 0) : Type 0 where
  pub gps_fix : GpsFix F
  pub cc2_sample : Cc2Sample F
  pub opc_sample : OpcSample
  pub afe3_sample : Afe3Sample
  pub uptime : ℕ

-- `aqpb_Sample`, which nanopb generates, as far as the code fills it; `bins` are its opc_bin_0 to
-- opc_bin_23.
pub record Sample (F : Type 0) : Type 0 where
  pub firmware_version : ℕ
  pub sysid : ℕ
  pub uptime : ℕ
  pub board_temp : F
  pub board_rel_humidity : F
  pub gps_timestamp : F
  pub lat : F
  pub lon : F
  pub alt : F
  pub sensor_1_work : ℕ
  pub sensor_1_aux : ℕ
  pub sensor_2_work : ℕ
  pub sensor_2_aux : ℕ
  pub sensor_3_work : ℕ
  pub sensor_3_aux : ℕ
  pub afe3_temp_raw : ℕ
  pub opc_pm_a : ℕ
  pub opc_pm_b : ℕ
  pub opc_pm_c : ℕ
  pub opc_sample_period : ℕ
  pub opc_sample_flow_rate : ℕ
  pub opc_hum : ℕ
  pub opc_temp : ℕ
  pub opc_fan_revcount : ℕ
  pub opc_laser_status : ℕ
  pub opc_sample_valid : ℕ
  pub bins : List ℕ
  pub pm1 : ℕ
  pub pm25 : ℕ
  pub pm10 : ℕ

-- The C library and the compiler's conversion of a float to 32 bits without sign, and nanopb's
-- `pb_encode` to a stream of so many bytes, with what it has written and whether it succeeds.
pub record Encoder (F : Type 0) : Type 0 where
  pub atoi : Bytes → ℤ
  pub atoll : Bytes → ℤ
  pub float_to_uint32 : ℕ → ℕ
  pub pb_encode : ℕ → Sample F → Bytes × Bool

module _ {F : Type 0} (encoder : Encoder F) (version imei : Bytes) where
  open encoder use {atoi, atoll, float_to_uint32, pb_encode}

  abbrev pub bins_of : OpcSample → List ℕ
  bins_of s =
      get_or s.bin 0 0
      ∷ get_or s.bin 1 0
      ∷ get_or s.bin 2 0
      ∷ get_or s.bin 3 0
      ∷ get_or s.bin 4 0
      ∷ get_or s.bin 5 0
      ∷ get_or s.bin 6 0
      ∷ get_or s.bin 7 0
      ∷ get_or s.bin 8 0
      ∷ get_or s.bin 9 0
      ∷ get_or s.bin 10 0
      ∷ get_or s.bin 11 0
      ∷ get_or s.bin 12 0
      ∷ get_or s.bin 13 0
      ∷ get_or s.bin 14 0
      ∷ get_or s.bin 15 0
      ∷ get_or s.bin 16 0
      ∷ get_or s.bin 17 0
      ∷ get_or s.bin 18 0
      ∷ get_or s.bin 19 0
      ∷ get_or s.bin 20 0
      ∷ get_or s.bin 21 0
      ∷ get_or s.bin 22 0
      ∷ get_or s.bin 23 0
      ∷ []

  -- The assignments of `mb_encode`.
  unfoldable pub fill : SensorNodeMessage F → Sample F
  fill msg = record {
    firmware_version = encode_firmware_version atoi version;
    sysid = to_unsigned 64 (atoll imei);
    uptime = msg.uptime;
    board_temp = msg.cc2_sample.temp_c;
    board_rel_humidity = msg.cc2_sample.rh;
    gps_timestamp = msg.gps_fix.timestamp;
    lat = msg.gps_fix.latitude;
    lon = msg.gps_fix.longitude;
    alt = msg.gps_fix.altitude;
    sensor_1_work = msg.afe3_sample.op1;
    sensor_1_aux = msg.afe3_sample.op2;
    sensor_2_work = msg.afe3_sample.op3;
    sensor_2_aux = msg.afe3_sample.op4;
    sensor_3_work = msg.afe3_sample.op5;
    sensor_3_aux = msg.afe3_sample.op6;
    afe3_temp_raw = msg.afe3_sample.pt;
    opc_pm_a = float_to_uint32 msg.opc_sample.pm_a;
    opc_pm_b = float_to_uint32 msg.opc_sample.pm_b;
    opc_pm_c = float_to_uint32 msg.opc_sample.pm_c;
    opc_sample_period = msg.opc_sample.period;
    opc_sample_flow_rate = msg.opc_sample.flowrate;
    opc_hum = msg.opc_sample.humidity;
    opc_temp = msg.opc_sample.temperature;
    opc_fan_revcount = msg.opc_sample.fan_rev_count;
    opc_laser_status = msg.opc_sample.laser_status;
    opc_sample_valid = if msg.opc_sample.valid then 1 else 0;
    bins = bins_of msg.opc_sample;
    pm1 = msg.opc_sample.pm_a;
    pm25 = msg.opc_sample.pm_b;
    pm10 = msg.opc_sample.pm_c;
  }

  -- The first `max` bytes of the caller's buffer, set to 0 before the encoding, and the length that is
  -- returned: 1 where the encoding fails.
  unfoldable pub mb_encode : SensorNodeMessage F → ℕ → Bytes × ℕ
  unfolding fill
  mb_encode msg max =
      let (written, status) = pb_encode max (fill msg) in
      (written ++ replicate (max - length written) 0, if status then length written else 1)
