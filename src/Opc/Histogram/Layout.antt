-- ===== src/Opc/Histogram/Layout.antt =====
-- The layout of a histogram as the device documents it (the offsets of Firmware/src/opc_n3.h),
-- and that `decode_historgram` reads it back.
use air_quality_sensor_node.Base.{
  ℕ, zero, suc, ◌+◌, ◌*◌, ◌/◌, ◌%◌, ◌^◌, ◌≤◌, ◌<◌, ◌≡◌, Bool, List, [], ◌∷◌, ◌++◌, Bytes, arith,
}
use air_quality_sensor_node.Opc.Histogram.{
  OpcSample, decode_temperature, decode_humidity, decode_histogram,
}

-- What the device has measured.
pub record Packet : Type 0 where
  pub bin : ℕ → ℕ
  pub bin_times : ℕ
  pub period : ℕ
  pub flowrate : ℕ
  pub raw_temperature : ℕ
  pub raw_humidity : ℕ
  pub pm_a : ℕ
  pub pm_b : ℕ
  pub pm_c : ℕ
  pub counts_low : ℕ
  pub counts_high : ℕ
  pub fan_rev_count : ℕ
  pub laser_status : ℕ
  pub checksum : ℕ

abbrev two_bytes : ℕ → Bytes
two_bytes v = (v % 256) ∷ (v / 256) ∷ []

abbrev four_bytes : ℕ → Bytes
four_bytes v = (v % 256) ∷ (v / 256 % 256) ∷ (v / 65536 % 256) ∷ (v / 16777216) ∷ []

abbrev bins_bytes : ℕ → ℕ → (ℕ → ℕ) → Bytes
bins_bytes zero i bin = []
bins_bytes (suc n) i bin = two_bytes (bin i) ++ bins_bytes n (suc i) bin

abbrev bins_list : ℕ → ℕ → (ℕ → ℕ) → List ℕ
bins_list zero i bin = []
bins_list (suc n) i bin = bin i ∷ bins_list n (suc i) bin

pub layout : Packet → Bytes
layout p =
    bins_bytes 24 0 p.bin
    ++ (four_bytes p.bin_times
        ++ (two_bytes p.period
            ++ (two_bytes p.flowrate
                ++ (two_bytes p.raw_temperature
                    ++ (two_bytes p.raw_humidity
                        ++ (four_bytes p.pm_a
                            ++ (four_bytes p.pm_b
                                ++ (four_bytes p.pm_c
                                    ++ (four_bytes p.counts_low
                                        ++ (four_bytes p.counts_high
                                            ++ (two_bytes p.fan_rev_count
                                                ++ (two_bytes p.laser_status
                                                    ++ two_bytes p.checksum))))))))))))

-- The sample that stands for a packet.
pub sample_of : Packet → Bool → OpcSample
sample_of p valid = record {
  bin = bins_list 24 0 p.bin;
  period = p.period;
  flowrate = p.flowrate;
  temperature = decode_temperature p.raw_temperature;
  humidity = decode_humidity p.raw_humidity;
  pm_a = p.pm_a;
  pm_b = p.pm_b;
  pm_c = p.pm_c;
  fan_rev_count = p.fan_rev_count;
  laser_status = p.laser_status;
  valid = valid;
}

join_two : (v : ℕ) → v % 256 + 256 * (v / 256) ≡ v
join_two v = omega arith

join_four :
    (v : ℕ)
    → v % 256 + 256 * (v / 256 % 256) + 65536 * (v / 65536 % 256) + 16777216 * (v / 16777216) ≡ v
join_four v = omega arith

-- Whatever the device measured, `decode_historgram` reads each bin and each field of the packet
-- from its place in the histogram; temperature and humidity are converted.
pub decode_histogram-layout :
    (p : Packet) (valid : Bool) → decode_histogram (layout p) valid ≡ sample_of p valid
unfolding decode_histogram layout sample_of
decode_histogram-layout p valid = simp (join_two, join_four)

-- For a raw value of 16 bits the humidity stored is at most 100, and the temperature stored is,
-- modulo 2^16, the number 175 * raw / 65535 less 45.
pub decode_ranges :
    (raw : ℕ)
    → raw < 2 ^ 16
    → (decode_humidity raw ≤ 100)
      × ((decode_temperature raw + 45) % 2 ^ 16 ≡ 175 * raw / 65535)
      × ((decode_temperature raw + 45) % 2 ^ 16 ≤ 175)
unfolding decode_humidity decode_temperature
decode_ranges raw h = (omega arith, omega arith, omega arith)
