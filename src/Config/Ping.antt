-- ===== src/Config/Ping.antt =====
-- The message that announces the node to the configuration server: `encode_ping` of
-- Firmware/src/config_message.c. `atoll` and nanopb's `pb_encode` are parameters.
use air_quality_sensor_node.Base.{
  ℕ, ◌+◌, ◌/◌, ◌%◌, ◌^◌, Bool, true, false, Bytes, Option, none, some,
}
use air_quality_sensor_node.Base.Int.{ℤ, to_unsigned}

-- `aqconfig_ping`. `ping_id` is an `int`, here in the two's complement of 32 bits.
pub record Ping : Type 0 where
  pub id : ℕ
  pub deviceid : ℕ
  pub timestamp : ℕ

abbrev pub first_ping_id : ℕ
first_ping_id = 1

-- What `pb_encode` has written, where it succeeds.
unfoldable pub encoded : Bytes × Bool → Option Bytes
encoded (written, true) = some written
encoded (written, false) = none

module _ (atoll : Bytes → ℤ) (pb_encode_ping : ℕ → Ping → Bytes × Bool) where
  -- `ping_id` afterwards, and the message, where the result is true. `uptime` is in milliseconds.
  unfoldable pub encode_ping : Bytes → ℕ → ℕ → ℕ → ℕ × Option Bytes
  unfolding encoded
  encode_ping imei buffer_size uptime ping_id =
      let ping : Ping = record {
        id = ping_id;
        deviceid = to_unsigned 64 (atoll imei);
        timestamp = uptime / 1000 % 2 ^ 32;
      } in
      ((ping_id + 1) % 2 ^ 32, encoded (pb_encode_ping buffer_size ping))
