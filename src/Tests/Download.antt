-- ===== src/Tests/Download.antt =====
-- A server that sends an image of two blocks.
use air_quality_sensor_node.Base.{
  ℕ, ◌+◌, ◌-◌, ◌≡◌, refl, ◌⊎◌, Bool, true, false, [], ◌∷◌, codes, ltb,
}
use air_quality_sensor_node.Base.Outcome.{ok}
use air_quality_sensor_node.Fota.Tlv.{encode_tlv_string, copy_string, decode_tlv_bool}
use air_quality_sensor_node.Fota.Response.{
  FotaResponse, encode_simple_report, decode_simple_response, decode_fields, decode_field,
}
use air_quality_sensor_node.Fota.Update.{
  Reporter, Build, check, decoded, exchange, fota_report_version, do_reboot, rebooted, run_update,
  fota_run,
}
use air_quality_sensor_node.Fota.Update.Ledger.{Watch, handle}
use air_quality_sensor_node.Fota.Update.Watching.{watched, watched_reporter, fota_run-closes}
use air_quality_sensor_node.Fota.Download.{
  fota_download_image, opened, connected, download_blocks, after_round, Platform, wait_polls,
  wait_for_response, write_firmware_block, attempt, write_block, download_block,
}
use air_quality_sensor_node.Fota.Download.Closing.{EndsWithin, IsOver, fota_download_image_lem}

-- The state counts the polls. There are data from the third on, and the second block is the last.
abbrev two_blocks : Platform ℕ
two_blocks = record {
  socket = λ d. (d, true);
  connect = λ resp d. (d, true);
  close = λ d. d;
  poll = λ d. (d + 1, ltb 1 d);
  coap_packet_init = λ d. (d, true);
  append_path = λ path d. (d, true);
  append_block = λ d. (d, true);
  send = λ d. (d, true);
  recv = λ d. (d, true);
  coap_packet_parse = λ d. (d, true);
  coap_update_from_block = λ d. (d, true);
  coap_next_block = λ d. (d, ltb d 4);
  payload = λ d. 1 ∷ 2 ∷ [];
  total_size = λ d. 4;
  flash_img_init = λ d. d;
  boot_erase_img_bank = λ d. (d, true);
  flash_img_buffered_write = λ block last d. (d, true);
}

abbrev pub source : FotaResponse
source = record { host = codes "10.0.0.1"; port = 5683; path = codes "fw"; scheduled_update = true }

ends : EndsWithin two_blocks 1000 2 source 0 0
unfolding EndsWithin IsOver download_block write_block attempt write_firmware_block
    wait_for_response wait_polls
ends = tt

fota_download_image_lem_example :
    (d' : ℕ) × (r : Bool) × (fota_download_image two_blocks 1000 2 source 0 ≡ ok (d', r))
    × (((true ≡ false) × (r ≡ false)) ⊎ ((last : ℕ) × (d' ≡ last)))
fota_download_image_lem_example = fota_download_image_lem two_blocks 1000 2 source 0 ends

-- The state is the number of open sockets; every call succeeds, and the server sends the same three
-- bytes as a response, which schedules an update, and as the only block.
abbrev pub willing : Platform ℕ
willing = record {
  socket = λ d. (d + 1, true);
  connect = λ resp d. (d, true);
  close = λ d. d - 1;
  poll = λ d. (d, true);
  coap_packet_init = λ d. (d, true);
  append_path = λ path d. (d, true);
  append_block = λ d. (d, true);
  send = λ d. (d, true);
  recv = λ d. (d, true);
  coap_packet_parse = λ d. (d, true);
  coap_update_from_block = λ d. (d, true);
  coap_next_block = λ d. (d, false);
  payload = λ d. 4 ∷ 1 ∷ 1 ∷ [];
  total_size = λ d. 3;
  flash_img_init = λ d. d;
  boot_erase_img_bank = λ d. (d, true);
  flash_img_buffered_write = λ block last d. (d, true);
}

abbrev pub reporting : Reporter ℕ
reporting = record {
  report_init = λ d. (d, true);
  append_report_path = λ d. (d, true);
  append_payload_marker = λ d. (d, true);
  append_payload = λ report d. (d, true);
  behind_payload = λ d. 0 ∷ 0 ∷ [];
  sendto = λ d. (d, true);
  recvfrom = λ d. (d, true);
  boot_is_img_confirmed = λ d. true;
  boot_write_img_confirmed = λ d. (d, true);
  boot_request_upgrade = λ d. d;
  sys_reboot = λ d. d;
}

abbrev pub built : Build
built = record {
  version = codes "1.0";
  manufacturer = codes "EE";
  serial = codes "1";
  model = codes "EE-02";
}

-- Two sockets of the program are open.
abbrev before_update : Watch ℕ
before_update = record { device = 1; entries = handle 100 ∷ handle 101 ∷ [] }

updates :
    fota_run
      (watched willing reporting)
      (watched_reporter willing reporting)
      1000
      2
      built
      source
      before_update
    ≡ ok (before_update, true)
unfolding fota_run run_update rebooted do_reboot fota_report_version exchange check decoded
    encode_simple_report encode_tlv_string copy_string decode_simple_response decode_fields
    decode_field decode_tlv_bool fota_download_image opened connected download_blocks after_round
    download_block write_block write_firmware_block attempt wait_for_response wait_polls
updates = refl

fota_run-closes_example : before_update.entries ≡ before_update.entries
fota_run-closes_example =
    fota_run-closes willing reporting 1000 2 built source before_update before_update true updates
