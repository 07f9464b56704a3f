-- ===== src/Tests/Apn.antt =====
-- Concrete inputs for the configuration and the choice of an APN.
use air_quality_sensor_node.Base.{
  ℕ, ◌+◌, ◌≡◌, ◌≢◌, refl, Bool, true, false, [], ◌∷◌, Bytes, Option, none, some, codes, eqb,
  if◌then◌else◌, ◌==◌,
}
use air_quality_sensor_node.Base.Int.{pos, negsuc}
use air_quality_sensor_node.Base.Outcome.{ok}
use air_quality_sensor_node.At.Buffer.{b_add, b_is, is_prefix}
use air_quality_sensor_node.At.Input.{decode_input, read_all, read_byte, test_line, end_line}
use air_quality_sensor_node.At.Address.{quoted, cgpaddr_eol, cgpaddr_char, atcgpaddr_decode}
use air_quality_sensor_node.At.Socket.{at_decode}
use air_quality_sensor_node.Modem.{
  Line, receive, modem_is_ready, generic_answer, define_context, modem_configure, modem_restart,
  wait_until_ready, try_apn,
}
use air_quality_sensor_node.Config.{
  ApnConfig, Nvs, Stored, Active, selected, select_active_apn, init_default_config, init_config_nvs,
  save_apn_config,
}
use air_quality_sensor_node.Config.Select.{none_tried, next_fails, select_active_apn_first}
use air_quality_sensor_node.Config.Message.{
  SetApn, decode_config_message, use_message, rewrite_urls, rewrite_url_to_ip_only, scan_host,
  accept_config, has_empty, differs, set_config,
}
use air_quality_sensor_node.Config.Message.Hosts.{IsHostOf}
use air_quality_sensor_node.Config.Message.Accepted.{
  decode_config_message_accepts, decode_config_message_again, decode_config_message_stays,
}
use air_quality_sensor_node.Tests.Platform.{test_libc}

abbrev pub address_reply : Bytes
address_reply = codes "+CGPADDR:0,\"10.0.0.1\"\r\nOK\r\n"

abbrev ok_reply : Bytes
ok_reply = codes "OK\r\n"

-- A modem that has an address after `needed` restarts or pauses; the state counts them, and holds
-- whether the address was asked for.
abbrev attaching : ℕ → Line (ℕ × Bool)
attaching needed = record {
  write = λ cmd w.
      if eqb cmd (codes "AT+NRB\r")
      then (w.0 + 1, false)
      else (w.0, eqb cmd (codes "AT+CGPADDR\r"));
  readable = λ w. if w.1 then (if w.0 == needed then address_reply else ok_reply) else ok_reply;
  left_unread = λ rest w. w;
  sleep = λ t w. w;
}

abbrev idle : Active (ℕ × Bool)
idle = record { apn = []; coap = []; modem = (0, false) }

first_fails : try_apn test_libc (attaching 2) (codes "mda.lab5e") (0, false) ≡ ok (false, (1, true))
unfolding try_apn modem_restart modem_configure generic_answer define_context wait_until_ready
    modem_is_ready receive at_decode atcgpaddr_decode decode_input read_all read_byte test_line
    end_line b_add b_is is_prefix cgpaddr_char cgpaddr_eol quoted
first_fails = refl

second_works : try_apn test_libc (attaching 2) (codes "mda.ee") (1, true) ≡ ok (true, (2, true))
unfolding try_apn modem_restart modem_configure generic_answer define_context wait_until_ready
    modem_is_ready receive at_decode atcgpaddr_decode decode_input read_all read_byte test_line
    end_line b_add b_is is_prefix cgpaddr_char cgpaddr_eol quoted
second_works = refl

select_active_apn_first_example :
    select_active_apn test_libc (attaching 2) init_default_config idle
    ≡ ok
        (selected (record { apn = codes "mda.ee"; coap = codes "172.16.15.14"; modem = (2, true) }))
select_active_apn_first_example =
    select_active_apn_first test_libc (attaching 2) init_default_config
      ((codes "mda.lab5e", codes "172.16.15.14") ∷ []) (codes "mda.ee") (codes "172.16.15.14")
      ((codes "telenor.iotgw", codes "172.16.32.1")
        ∷ (codes "telenor.iot", codes "88.99.192.151")
        ∷ [])
      idle (1, true) (2, true) refl
      (next_fails (codes "mda.lab5e") (codes "172.16.15.14") first_fails (none_tried (1, true)))
      second_works

-- A flash that keeps the last configuration written.
abbrev one_cell : Nvs (Option ApnConfig)
one_cell = record { nvs_read = λ f. f; nvs_write = λ c f. some c }

abbrev request : SetApn
request = record {
  apn1 = codes "a";
  apn2 = codes "b";
  apn3 = codes "c";
  coap1 = codes "coap://10.0.0.1:5683/x";
  coap2 = codes "coap://10.0.0.2:5683/x";
  coap3 = codes "coap://10.0.0.3:5683/x";
}

-- Every message but the empty one decodes to the request.
abbrev test_decode : Bytes → Option SetApn
test_decode [] = none
test_decode (b ∷ bs) = some request

abbrev stored : Stored (Option ApnConfig)
stored = record { current = init_default_config; flash = none }

abbrev requested : ApnConfig
requested = record init_default_config {
  apn1 = codes "a";
  apn2 = codes "b";
  apn3 = codes "c";
  coap1 = codes "10.0.0.1";
  coap2 = codes "10.0.0.2";
  coap3 = codes "10.0.0.3";
}

abbrev then_stored : Stored (Option ApnConfig)
then_stored = record { current = requested; flash = some requested }

accepted : decode_config_message one_cell test_decode (1 ∷ []) stored ≡ ok (pos 0, then_stored)
unfolding decode_config_message use_message rewrite_urls rewrite_url_to_ip_only scan_host
    accept_config has_empty differs set_config save_apn_config is_prefix
accepted = refl

decode_config_message_accepts_example :
    (m : SetApn) × (host1 : Bytes) × (host2 : Bytes) × (host3 : Bytes) × (test_decode (1 ∷ [])
      ≡ some m)
    × IsHostOf m.coap1 host1
    × IsHostOf m.coap2 host2
    × IsHostOf m.coap3 host3
    × (m.apn1 ≢ [])
    × (m.apn2 ≢ [])
    × (m.apn3 ≢ [])
    × (requested ≡ record {
      apn1 = m.apn1;
      coap1 = host1;
      apn2 = m.apn2;
      coap2 = host2;
      apn3 = m.apn3;
      coap3 = host3;
      apn4 = init_default_config.apn4;
      coap4 = init_default_config.coap4;
    })
    × (some requested ≡ some requested)
decode_config_message_accepts_example =
    decode_config_message_accepts one_cell test_decode (1 ∷ []) stored then_stored accepted

decode_config_message_again_example :
    decode_config_message one_cell test_decode (1 ∷ []) then_stored ≡ ok (negsuc 2, then_stored)
decode_config_message_again_example =
    decode_config_message_again one_cell test_decode (1 ∷ []) stored then_stored accepted

decode_config_message_stays_example : init_config_nvs one_cell (some requested) ≡ then_stored
decode_config_message_stays_example =
    decode_config_message_stays one_cell test_decode (1 ∷ []) stored then_stored accepted refl refl
      refl
