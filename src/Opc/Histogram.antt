-- ===== src/Opc/Histogram.antt =====
-- The histogram of the OPC-N3 and the sample decoded from it: `OPC_SAMPLE`, `get_uint16_value`,
-- `get_float_value` and `decode_historgram` of Firmware/src/opc_n3.c and opc_n3.h.
pub mod Layout
use air_quality_sensor_node.Base.{
  ℕ, zero, suc, ◌+◌, ◌-◌, ◌*◌, ◌/◌, ◌%◌, ◌^◌, Bool, List, [], ◌∷◌, Bytes, get_or,
}

abbrev pub histogram_size : ℕ
histogram_size = 86

abbrev pub bins_count : ℕ
bins_count = 24

abbrev pub checksum_index : ℕ
checksum_index = 84

-- A `float` is its bit pattern: the firmware copies these and never computes with them.
pub record OpcSample : Type 0 where
  pub bin : List ℕ
  pub period : ℕ
  pub flowrate : ℕ
  pub temperature : ℕ
  pub humidity : ℕ
  pub pm_a : ℕ
  pub pm_b : ℕ
  pub pm_c : ℕ
  pub fan_rev_count : ℕ
  pub laser_status : ℕ
  pub valid : Bool

-- The union overlays the bytes on the value; the target is little-endian.
unfoldable pub get_uint16_value : Bytes → ℕ → ℕ
get_uint16_value buffer at = get_or buffer at 0 + 256 * get_or buffer (at + 1) 0

unfoldable pub get_float_value : Bytes → ℕ → ℕ
get_float_value buffer at =
    get_or buffer at 0
    + 256 * get_or buffer (at + 1) 0
    + 65536 * get_or buffer (at + 2) 0
    + 16777216 * get_or buffer (at + 3) 0

-- The loop over the bins: `n` rounds are left, from bin `i` on.
unfoldable pub decode_bins : Bytes → ℕ → ℕ → List ℕ
decode_bins histogram zero i = []
decode_bins histogram (suc n) i =
    get_uint16_value histogram (i * 2) ∷ decode_bins histogram n (i + 1)

-- `-45 + 175 * raw / 65535` in `int`, stored in a `uint16_t`.
unfoldable pub decode_temperature : ℕ → ℕ
decode_temperature raw = (2 ^ 16 - 45 + 175 * raw / 65535) % 2 ^ 16

unfoldable pub decode_humidity : ℕ → ℕ
decode_humidity raw = 100 * raw / 65535

unfoldable pub decode_histogram : Bytes → Bool → OpcSample
unfolding decode_bins get_uint16_value get_float_value decode_temperature decode_humidity
decode_histogram histogram valid = record {
  bin = decode_bins histogram bins_count 0;
  period = get_uint16_value histogram 52;
  flowrate = get_uint16_value histogram 54;
  temperature = decode_temperature (get_uint16_value histogram 56);
  humidity = decode_humidity (get_uint16_value histogram 58);
  pm_a = get_float_value histogram 60;
  pm_b = get_float_value histogram 64;
  pm_c = get_float_value histogram 68;
  fan_rev_count = get_uint16_value histogram 80;
  laser_status = get_uint16_value histogram 82;
  valid = valid;
}
