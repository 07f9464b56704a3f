-- ===== src/Tests/Update.antt =====
-- Concrete inputs for the exchange with the update server.
use air_quality_sensor_node.Base.{
  ◌≡◌, true, false, [], ◌∷◌, ◌++◌, List, Bytes, codes, length, arith,
}
use air_quality_sensor_node.Base.Outcome.{ok, out_of_bounds}
use air_quality_sensor_node.Fota.Response.{FotaResponse, decode_simple_response}
use air_quality_sensor_node.Fota.Response.RoundTrip.{
  Field, host, port, path, available, write_fields, decode_simple_response-write,
}
use air_quality_sensor_node.Fota.Response.Limits.{decode_simple_response_overruns}

abbrev no_response : FotaResponse
no_response = record { host = []; port = 0; path = []; scheduled_update = false }

abbrev update_fields : List Field
update_fields = host (codes "10.0.0.1") ∷ port 5683 ∷ path (codes "fw") ∷ available true ∷ []

abbrev update_response : FotaResponse
update_response = record {
  host = codes "10.0.0.1";
  port = 5683;
  path = codes "fw";
  scheduled_update = true;
}

decode_simple_response-write_example :
    decode_simple_response no_response
      (write_fields update_fields ++ 0 ∷ [])
      (length (write_fields update_fields))
    ≡ ok update_response
decode_simple_response-write_example =
    decode_simple_response-write update_fields no_response (0 ∷ [])
      (omega arith, (omega arith, (omega arith, (tt, tt))))

abbrev long_name : Bytes
long_name = codes "firmware.example.com:5683"

decode_simple_response_overruns_example :
    decode_simple_response no_response (1 ∷ 25 ∷ (long_name ++ [])) 27 ≡ out_of_bounds
decode_simple_response_overruns_example =
    decode_simple_response_overruns no_response long_name [] 27 (omega arith) (omega arith)
