-- ===== src/Fota/Response.antt =====
-- The report to the update server and its response: `fota_encode_simple_report`,
-- `fota_decode_simple_response` and `simple_fota_response_t` of Firmware/src/fota.c and fota.h.
pub mod RoundTrip
pub mod Limits
use air_quality_sensor_node.Base.{
  ℕ, zero, suc, ◌+◌, Bool, [], ◌++◌, Bytes, ltb, ◌==◌, if◌then◌else◌, get_elem?,
}
use air_quality_sensor_node.Base.Outcome.{Outcome, ok, failed, out_of_fuel, ◌>>=◌, in_bounds}
use air_quality_sensor_node.Fota.Tlv.{
  encode_tlv_string, decode_tlv_string, decode_tlv_uint32, decode_tlv_bool,
}

-- The texts are without their terminators.
pub record FotaResponse : Type 0 where
  pub host : Bytes
  pub port : ℕ
  pub path : Bytes
  pub scheduled_update : Bool

abbrev pub host_size : ℕ
host_size = 25

abbrev pub path_size : ℕ
path_size = 25

-- The four fields of the report, one behind the other; the texts come from the build.
unfoldable pub encode_simple_report : Bytes → Bytes → Bytes → Bytes → Outcome Bytes
encode_simple_report version manufacturer serial model = do
  v ← encode_tlv_string 256 1 version
  c ← encode_tlv_string 256 4 manufacturer
  s ← encode_tlv_string 256 3 serial
  m ← encode_tlv_string 256 2 model
  ok (v ++ (c ++ (s ++ m)))

-- The `switch` on the tag: the new index and the response with the field stored.
unfoldable pub decode_field : Bytes → FotaResponse → ℕ → ℕ → Outcome (ℕ × FotaResponse)
decode_field buf resp id idx =
    if id == 1
    then (do (idx', s) ← decode_tlv_string buf host_size idx; ok (idx', record resp { host = s }))
    else if id == 2
    then (do (idx', v) ← decode_tlv_uint32 buf idx; ok (idx', record resp { port = v }))
    else if id == 3
    then (do (idx', s) ← decode_tlv_string buf path_size idx; ok (idx', record resp { path = s }))
    else if id == 4
    then (do (idx', b) ← decode_tlv_bool buf idx; ok (idx', record resp { scheduled_update = b }))
    else failed

-- The loop `while (idx < len)`. `buf` is the whole array that the payload stands in.
unfoldable pub decode_fields : ℕ → Bytes → ℕ → FotaResponse → ℕ → Outcome FotaResponse
decode_fields zero buf len resp idx = if ltb idx len then out_of_fuel else ok resp
decode_fields (suc fuel) buf len resp idx =
    let rest = (do
      id ← in_bounds (get_elem? buf idx)
      (idx', resp') ← decode_field buf resp id (idx + 1)
      decode_fields fuel buf len resp' idx') in
    if ltb idx len then rest else ok resp

-- Every round moves the index, so that `len` rounds are enough.
unfoldable pub decode_simple_response : FotaResponse → Bytes → ℕ → Outcome FotaResponse
decode_simple_response resp buf len = decode_fields len buf len resp 0
