-- ===== src/Fota/Update/Watching.antt =====
-- Any calls of Zephyr, with the sockets that are opened and closed noted beside them.
use air_quality_sensor_node.Base.{ℕ, ◌≡◌, refl, Bool, ◌∷◌, if◌then◌else◌}
use air_quality_sensor_node.Base.Outcome.{ok}
use air_quality_sensor_node.Fota.Response.{FotaResponse}
use air_quality_sensor_node.Fota.Download.{Platform}
use air_quality_sensor_node.Fota.Update.{Reporter, Build, fota_run}
use air_quality_sensor_node.Fota.Update.Ledger.{update, struck, Watch, unnoted}
use air_quality_sensor_node.Fota.Update.Sockets.{Counted}
use air_quality_sensor_node.Fota.Update.Report.{fota_run-sockets}

module _ {D : Type 0} (platform : Platform D) (reporter : Reporter D) where
  abbrev pub watched : Platform (Watch D)
  watched = record {
    socket = λ w.
        (let r = platform.socket w.device in
          (record { device = r.0; entries = if r.1 then update ∷ w.entries else w.entries }, r.1));
    close = λ w. record { device = platform.close w.device; entries = struck update w.entries };
    connect = λ resp w. unnoted (platform.connect resp) w;
    poll = λ w. unnoted platform.poll w;
    coap_packet_init = λ w. unnoted platform.coap_packet_init w;
    append_block = λ w. unnoted platform.append_block w;
    send = λ w. unnoted platform.send w;
    recv = λ w. unnoted platform.recv w;
    coap_packet_parse = λ w. unnoted platform.coap_packet_parse w;
    coap_update_from_block = λ w. unnoted platform.coap_update_from_block w;
    coap_next_block = λ w. unnoted platform.coap_next_block w;
    boot_erase_img_bank = λ w. unnoted platform.boot_erase_img_bank w;
    append_path = λ path w. unnoted (platform.append_path path) w;
    payload = λ w. platform.payload w.device;
    total_size = λ w. platform.total_size w.device;
    flash_img_init = λ w. record w { device = platform.flash_img_init w.device };
    flash_img_buffered_write =
        λ block last w. unnoted (platform.flash_img_buffered_write block last) w;
  }

  abbrev pub watched_reporter : Reporter (Watch D)
  watched_reporter = record {
    report_init = λ w. unnoted reporter.report_init w;
    append_report_path = λ w. unnoted reporter.append_report_path w;
    append_payload_marker = λ w. unnoted reporter.append_payload_marker w;
    sendto = λ w. unnoted reporter.sendto w;
    recvfrom = λ w. unnoted reporter.recvfrom w;
    boot_write_img_confirmed = λ w. unnoted reporter.boot_write_img_confirmed w;
    append_payload = λ report w. unnoted (reporter.append_payload report) w;
    behind_payload = λ w. reporter.behind_payload w.device;
    boot_is_img_confirmed = λ w. reporter.boot_is_img_confirmed w.device;
    boot_request_upgrade = λ w. record w { device = reporter.boot_request_upgrade w.device };
    sys_reboot = λ w. record w { device = reporter.sys_reboot w.device };
  }

  abbrev pub watching : Counted watched watched_reporter
  watching = record {
    sockets = λ w. w.entries;
    sockets-connect = λ resp d. refl;
    sockets-append_path = λ path d. refl;
    sockets-flash_img_buffered_write = λ block last d. refl;
    sockets-append_payload = λ report d. refl;
    sockets-socket = λ d. refl;
    sockets-close = λ d. refl;
    sockets-poll = λ d. refl;
    sockets-coap_packet_init = λ d. refl;
    sockets-append_block = λ d. refl;
    sockets-send = λ d. refl;
    sockets-recv = λ d. refl;
    sockets-coap_packet_parse = λ d. refl;
    sockets-coap_update_from_block = λ d. refl;
    sockets-coap_next_block = λ d. refl;
    sockets-flash_img_init = λ d. refl;
    sockets-boot_erase_img_bank = λ d. refl;
    sockets-report_init = λ d. refl;
    sockets-append_report_path = λ d. refl;
    sockets-append_payload_marker = λ d. refl;
    sockets-sendto = λ d. refl;
    sockets-recvfrom = λ d. refl;
    sockets-boot_request_upgrade = λ d. refl;
    sockets-sys_reboot = λ d. refl;
  }

  -- Over any platform, however its calls come out, those of `close` among them, and whatever the
  -- server sends: when an update run comes back, with whichever result, it has called `close` once for
  -- each socket that it opened, and for no other.
  pub fota_run-closes :
      (flash_bank_size fuel : ℕ) (build : Build) (stale : FotaResponse) (w w' : Watch D) (r : Bool)
      → fota_run watched watched_reporter flash_bank_size fuel build stale w ≡ ok (w', r)
      → w'.entries ≡ w.entries
  fota_run-closes flash_bank_size fuel build stale w w' r e =
      fota_run-sockets watched watched_reporter flash_bank_size watching fuel build stale w w' r e
