-- ===== src/Tests/Sensors.antt =====
-- Concrete inputs for the particle sensor and the GPS cache.
use air_quality_sensor_node.Base.{
  codes, ℕ, zero, suc, ◌+◌, ◌≡◌, ◌≢◌, refl, true, false, not, [], ◌∷◌, List, ◌==◌, if◌then◌else◌,
  arith,
}
use air_quality_sensor_node.Opc.Crc.{calc_crc}
use air_quality_sensor_node.Opc.Crc.Detects.{calc_crc-ne_of_changed}
use air_quality_sensor_node.Opc.Histogram.{decode_histogram, get_uint16_value}
use air_quality_sensor_node.Opc.Histogram.Layout.{
  Packet, layout, sample_of, decode_histogram-layout,
}
use air_quality_sensor_node.Opc.Command.{
  Drivers, command, finish_command, unexpected_response, opc_sample, sample_data,
}
use air_quality_sensor_node.Opc.Command.Polling.{Busy, command_ready, command-Busy}
use air_quality_sensor_node.Opc.Command.Sampling.{sample_data-valid}
use air_quality_sensor_node.Base.Outcome.{ok}
use air_quality_sensor_node.Gps.Nmea.{nmea_valid, to_hexchar}
use air_quality_sensor_node.Gps.Nmea.Checksum.{nmea_valid_lem}
use air_quality_sensor_node.Gps.Cache.{GpsFix, GpsGga, GpsGsa, init_stats, get_fix}
use air_quality_sensor_node.Gps.Cache.Stats.{add_all, add_all_summary}
use air_quality_sensor_node.Gps.Cache.History.{Call, gga, gsa, run, latest, position_of, run-latest}

calc_crc-ne_of_changed_example : calc_crc (1 ∷ 2 ∷ 3 ∷ 5 ∷ []) 4 ≢ calc_crc (1 ∷ 2 ∷ 4 ∷ 5 ∷ []) 4
calc_crc-ne_of_changed_example =
    calc_crc-ne_of_changed (1 ∷ 2 ∷ []) 3 4 (5 ∷ []) (omega arith, (omega arith, tt)) (omega arith)
      (omega arith) (omega arith, tt) (omega arith) (omega arith)

-- Bin `i` holds `i` particles.
abbrev measured : Packet
measured = record {
  bin = λ i. i;
  bin_times = 12;
  period = 100;
  flowrate = 500;
  raw_temperature = 26000;
  raw_humidity = 30000;
  pm_a = 1065353216;
  pm_b = 1073741824;
  pm_c = 1077936128;
  counts_low = 1;
  counts_high = 2;
  fan_rev_count = 48;
  laser_status = 600;
  checksum = 4660;
}

decode_histogram-layout_example : decode_histogram (layout measured) true ≡ sample_of measured true
decode_histogram-layout_example = decode_histogram-layout measured true

-- A device that counts the transfers and is ready at the fourth.
abbrev ready_late : Drivers ℕ
ready_late = record {
  spi_transceive = λ d tx rx. (d + 1, if d == 3 then 0xF3 else 0x31);
  digital_write = λ d pin value. d;
  sleep = λ d t. d;
  usleep = λ d t. d;
}

abbrev never_ready : Drivers ℕ
never_ready = record {
  spi_transceive = λ d tx rx. (d + 1, 0x31);
  digital_write = λ d pin value. d;
  sleep = λ d t. d;
  usleep = λ d t. d;
}

command_ready_example :
    command ready_late 0x03 0x07 false 0 0 ≡ finish_command ready_late 0x03 0x07 false 0 4
command_ready_example =
    command_ready ready_late 0x03 0x07 false 0 0 2 (omega arith) (refl, (refl, tt)) refl

always-Busy : (k d rx : ℕ) → Busy never_ready k d 0x03 rx
always-Busy zero d rx = tt
always-Busy (suc k) d rx = (refl, always-Busy k (d + 1) 0x31)

command-Busy_example : command never_ready 0x03 0x07 false 0 0 ≡ (unexpected_response, 23, [])
command-Busy_example = command-Busy never_ready 0x03 0x07 false 0 0 (always-Busy 22 1 0x31)

sample_data-valid_example :
    (sample_data ready_late 0).1
    ≡ decode_histogram (opc_sample ready_late 0).2 (
        not (
          get_uint16_value (opc_sample ready_late 0).2 84
          == calc_crc (opc_sample ready_late 0).2 84))
sample_data-valid_example = sample_data-valid ready_late 0

abbrev no_fix : GpsFix ℕ
no_fix = record {
  timestamp = 0;
  latitude = 0;
  longitude = 0;
  altitude = 0;
  hdop = 0;
  vdop = 0;
  pdop = 0;
  fix_quality = 0;
  gps_svs = 0;
  glo_svs = 0;
  waas_svs = 0;
  moving = false;
  track_angle = 0;
}

abbrev trondheim : GpsGga ℕ
trondheim = record {
  timestamp = 120000;
  latitude = 63;
  longitude = 10;
  fix_quality = 1;
  num_svs = 8;
  hdop = 1;
  alt = 50;
  geoid_height = 40;
}

abbrev three_systems : GpsGsa ℕ
three_systems = record {
  auto_selection = 65;
  fix_type = 3;
  prns = 1 ∷ 40 ∷ 70 ∷ 2 ∷ [];
  pdop = 1;
  vdop = 1;
}

abbrev drive : List (Call {F = ℕ} 0)
drive = gga trondheim ∷ gsa three_systems ∷ []

run-latest_example :
    (position_of 0 (run 0 no_fix drive) ≡ latest 0 (position_of 0 no_fix) drive)
    × ((get_fix (run 0 no_fix drive)).1 ≡ true)
run-latest_example = run-latest 0 drive no_fix

abbrev times : List ℕ
times = 12 ∷ 7 ∷ 30 ∷ []

add_all_summary_example :
    ((add_all times init_stats).max_time ≡ 30)
    × ((add_all times init_stats).min_time ≡ 7)
    × ((add_all times init_stats).samples ≡ 3)
    × ((add_all times init_stats).total_time ≡ 49)
    × ((add_all times init_stats).timeouts ≡ 0)
add_all_summary_example = add_all_summary times (omega arith, (omega arith, (omega arith, tt)))

nmea_valid_lem_example : nmea_valid (codes "$GP*17\r\n") ≡ ok true
unfolding to_hexchar
nmea_valid_lem_example =
    nmea_valid_lem (codes "GP") (codes "\r\n") b'1' b'7'
      (
        (omega arith, omega arith, omega arith, omega arith),
        ((omega arith, omega arith, omega arith, omega arith), tt),
      )
      (omega arith)
