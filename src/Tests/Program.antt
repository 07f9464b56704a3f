-- ===== src/Tests/Program.antt =====
-- The program at concrete inputs.
use air_quality_sensor_node.Base.{
  ℕ, ◌+◌, ◌%◌, ◌≡◌, refl, false, [], ◌∷◌, Bytes, List, replicate, some, codes, count_past, arith,
}
use air_quality_sensor_node.Base.Outcome.{ok}
use air_quality_sensor_node.At.Buffer.{b_add, b_is, is_prefix}
use air_quality_sensor_node.At.Input.{decode_input, read_all, read_byte, test_line, end_line}
use air_quality_sensor_node.At.Address.{quoted, cgpaddr_eol, cgpaddr_char, atcgpaddr_decode}
use air_quality_sensor_node.At.Socket.{at_decode}
use air_quality_sensor_node.Modem.{
  receive, modem_is_ready, generic_answer, define_context, modem_configure, modem_restart,
  wait_until_ready, try_apn,
}
use air_quality_sensor_node.Config.{
  init_default_config, select_from, select_active_apn, select_ping_apn,
}
use air_quality_sensor_node.Config.Ping.{encode_ping, encoded}
use air_quality_sensor_node.Opc.Command.{
  Drivers, poll, read_bytes, finish_command, command, select_device, release_chip_select,
  peripherals_power_on, peripherals_power_off, opc_sample,
}
use air_quality_sensor_node.Opc.Command
use air_quality_sensor_node.Board.Adc.{
  Bus, send_command, reg_write, re_start, start_conversion, stop_conversion, select, release,
  data_read, configure_adc, sample_channel,
}
use air_quality_sensor_node.Board.Adc
use air_quality_sensor_node.Board.Humidity.{cc2_sample_data, with_reading}
use air_quality_sensor_node.Gps.Cache.{GpsFix}
use air_quality_sensor_node.Message.{mb_encode}
use air_quality_sensor_node.Fota.Tlv.{encode_tlv_string, copy_string, decode_tlv_bool}
use air_quality_sensor_node.Fota.Response.{
  encode_simple_report, decode_simple_response, decode_fields, decode_field,
}
use air_quality_sensor_node.Fota.Update.{
  check, decoded, exchange, fota_report_version, do_reboot, rebooted, run_update, fota_run,
  fota_init, init_image,
}
use air_quality_sensor_node.Fota.Download.{
  fota_download_image, opened, connected, download_blocks, after_round, wait_polls,
  wait_for_response, write_firmware_block, attempt, write_block, download_block,
}
use air_quality_sensor_node.Main.{
  Node, Found, goes_on, resolved, is_past_limit, receive_config, sample_sensors, encode_sample,
  check_firmware, check_if_due, reboot_if_late, after_sending, send_sample, main_round, main_rounds,
}
use air_quality_sensor_node.Main.Exchange.{
  answered, ping_attempt, ping_loop, ping_message, ping_server, ping_selected, do_the_hetzner_ping,
}
use air_quality_sensor_node.Main.Rounds.{main_rounds-fota_interval}
use air_quality_sensor_node.Main.Start.{
  after_flow, with_selection, select_apn, first_check, listening, run_node,
}
use air_quality_sensor_node.Fota.Update.Ledger.{Entry, Watch, handle}
use air_quality_sensor_node.Main.Watching.{
  watched_surroundings, watched_line, run_node-closes, ping_server-closes,
}
use air_quality_sensor_node.Tests.Download.{source}
use air_quality_sensor_node.Tests.Platform.{test_libc}
use air_quality_sensor_node.Tests.World.{surroundings, attached}

abbrev here : GpsFix ℕ
here = record {
  timestamp = 0;
  latitude = 0;
  longitude = 0;
  altitude = 0;
  hdop = 0;
  vdop = 0;
  pdop = 0;
  fix_quality = 1;
  gps_svs = 0;
  glo_svs = 0;
  waas_svs = 0;
  moving = false;
  track_angle = 0;
}

abbrev found : Found ℕ
found = record { fix = here; response = source }

-- The program behind a round that leaves the counter at `interval`.
abbrev node : {W : Type 0} → ℕ → Bytes → ℕ → W → Node W ℕ
node interval buffer addr world = record {
  current = init_default_config;
  apn = codes "telenor.iot";
  coap = codes "88.99.192.151";
  cc2 = record { rh = 0; temp_c = 0 };
  ping_id = 1;
  buffer = buffer;
  remote_addr_ping = 0;
  remote_addr = addr;
  fota_interval = interval;
  world = world;
}

-- The buffer behind `mb_encode`.
abbrev encoded_sample : Bytes
encoded_sample = 1 ∷ 2 ∷ replicate 448 0

one_round :
    main_rounds surroundings 2 5 (found ∷ []) (node 16 [] 0 1)
    ≡ ok (goes_on (node 0 encoded_sample 1 2))
unfolding main_rounds main_round receive_config send_sample resolved sample_sensors encode_sample
    mb_encode after_sending check_if_due check_firmware reboot_if_late is_past_limit count_past
    Command.sample_data opc_sample peripherals_power_on peripherals_power_off command select_device
    release_chip_select finish_command read_bytes poll Adc.sample_data sample_channel configure_adc
    re_start send_command reg_write data_read start_conversion stop_conversion select release
    cc2_sample_data with_reading fota_run run_update rebooted do_reboot fota_report_version exchange
    check decoded encode_simple_report encode_tlv_string copy_string decode_simple_response
    decode_fields decode_field decode_tlv_bool fota_download_image opened connected download_blocks
    after_round download_block write_block write_firmware_block attempt wait_for_response wait_polls
one_round = refl

main_rounds-fota_interval_example : 0 ≡ (16 + 1) % 17
main_rounds-fota_interval_example =
    main_rounds-fota_interval surroundings 2 5 (found ∷ []) (node 16 [] 0 1)
      (node 0 encoded_sample 1 2) (omega arith) one_round

abbrev watch : ℕ → List Entry → Watch ℕ
watch device entries = record { device = device; entries = entries }

-- The server does not answer; another socket is open.
pinged :
    ping_server
      (watched_surroundings surroundings)
      (watch 2 (handle 1 ∷ handle 7 ∷ []), some 1)
      (node 0 [] 0 (watch 1 (handle 7 ∷ [])))
    ≡ ok (
        goes_on
          (record (node 0 [] 0 (watch 2 (handle 7 ∷ []))) { remote_addr_ping = 1; ping_id = 2 }))
unfolding ping_server ping_message ping_loop ping_attempt answered resolved encode_ping encoded
pinged = refl

ping_server-closes_example : (watch 2 (handle 7 ∷ [])).entries ≡ handle 7 ∷ []
unfolding encode_ping encoded
ping_server-closes_example =
    ping_server-closes surroundings (node 0 [] 0 (watch 1 (handle 7 ∷ [])))
      (record (node 0 [] 0 (watch 2 (handle 7 ∷ []))) { remote_addr_ping = 1; ping_id = 2 })
      (watch 2 (handle 1 ∷ handle 7 ∷ [])) 1 refl pinged

-- What the program keeps behind its start, with the first APN chosen, and a round.
abbrev behind_start : Node (Watch ℕ) ℕ
behind_start = record (node 1 encoded_sample 1 (watch 3 (handle 1 ∷ []))) {
  apn = codes "mda.lab5e";
  coap = codes "172.16.15.14";
  remote_addr_ping = 1;
  ping_id = 2;
}

started :
    run_node
      (watched_surroundings surroundings)
      test_libc
      (watched_line attached)
      2
      source
      (found ∷ [])
      (node 0 [] 0 (watch 0 []))
    ≡ ok (goes_on behind_start)
unfolding run_node do_the_hetzner_ping ping_selected select_ping_apn select_apn with_selection
    select_active_apn select_from after_flow first_check fota_init init_image listening try_apn
    modem_restart modem_configure generic_answer define_context wait_until_ready modem_is_ready
    receive at_decode atcgpaddr_decode decode_input read_all read_byte test_line end_line b_add b_is
    is_prefix cgpaddr_char cgpaddr_eol quoted ping_server ping_message ping_loop ping_attempt
    answered encode_ping encoded main_rounds main_round receive_config send_sample resolved
    sample_sensors encode_sample mb_encode after_sending check_if_due check_firmware reboot_if_late
    is_past_limit count_past Command.sample_data opc_sample peripherals_power_on
    peripherals_power_off command select_device release_chip_select finish_command read_bytes poll
    Adc.sample_data sample_channel configure_adc re_start send_command reg_write data_read
    start_conversion stop_conversion select release cc2_sample_data with_reading fota_run run_update
    rebooted do_reboot fota_report_version exchange check decoded encode_simple_report
    encode_tlv_string copy_string decode_simple_response decode_fields decode_field decode_tlv_bool
    fota_download_image opened connected download_blocks after_round download_block write_block
    write_firmware_block attempt wait_for_response wait_polls
started = refl

run_node-closes_example : (sock : ℕ) × (behind_start.world.entries ≡ handle sock ∷ [])
run_node-closes_example =
    run_node-closes surroundings test_libc attached 2 source (found ∷ []) (node 0 [] 0 (watch 0 []))
      behind_start (λ size p. refl) started
