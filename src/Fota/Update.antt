-- ===== src/Fota/Update.antt =====
-- The report to the update server and what follows it: `init_image`, `fota_init`,
-- `fota_report_version` and `fota_run` of Firmware/src/fota.c.
pub mod Ledger
pub mod Sockets
pub mod Report
pub mod Watching
pub mod Finite
use air_quality_sensor_node.Base.{
  ℕ, Bool, true, false, ◌++◌, Bytes, leb, if◌then◌else◌, length, Option, none, some,
}
use air_quality_sensor_node.Base.Outcome.{Outcome, ok, failed, out_of_bounds, out_of_fuel, ◌>>=◌}
use air_quality_sensor_node.Fota.Response.{
  FotaResponse, encode_simple_report, decode_simple_response,
}
use air_quality_sensor_node.Fota.Download.{Platform, wait_for_response, fota_download_image}

-- What the report calls of Zephyr beside the calls of a download: the CoAP library for the packet
-- of the report, with its random token, the socket without a connection, and the image's flag.
-- `behind_payload` are the bytes of `response_buffer` behind the payload of the response. The
-- Boolean is whether the call succeeds; `recvfrom` succeeds also without a byte.
pub record Reporter (D : Type 0) : Type 0 where
  pub report_init : D → D × Bool
  pub append_report_path : D → D × Bool
  pub append_payload_marker : D → D × Bool
  pub append_payload : Bytes → D → D × Bool
  pub behind_payload : D → Bytes
  pub sendto : D → D × Bool
  pub recvfrom : D → D × Bool
  pub boot_is_img_confirmed : D → Bool
  pub boot_write_img_confirmed : D → D × Bool
  pub boot_request_upgrade : D → D
  pub sys_reboot : D → D

-- The four texts that the build sets.
pub record Build : Type 0 where
  pub version : Bytes
  pub manufacturer : Bytes
  pub serial : Bytes
  pub model : Bytes

-- `if (call < 0) { ...; return -1; }`
unfoldable pub check :
    {D : Type 0}
    → (D → D)
    → D × Bool
    → (D → Outcome (D × Option FotaResponse))
    → Outcome (D × Option FotaResponse)
check clean_up (d, true) next = next d
check clean_up (d, false) next = ok (clean_up d, none)

-- The result of the decoder; `failed` is a negative one.
unfoldable pub decoded : {D : Type 0} → D → Outcome FotaResponse → Outcome (D × Option FotaResponse)
decoded d (ok resp) = ok (d, some resp)
decoded d failed = ok (d, none)
decoded d out_of_bounds = out_of_bounds
decoded d out_of_fuel = out_of_fuel

module _ {D : Type 0} (platform : Platform D) (reporter : Reporter D) (flash_bank_size : ℕ) where
  open platform use {socket, close, coap_packet_parse, payload}
  open reporter use {
    report_init, append_report_path, append_payload_marker, append_payload, behind_payload, sendto,
    recvfrom, boot_is_img_confirmed, boot_write_img_confirmed, boot_request_upgrade, sys_reboot,
  }

  unfoldable pub init_image : D → D × Bool
  init_image d = if boot_is_img_confirmed d then (d, true) else boot_write_img_confirmed d

  unfoldable pub fota_init : D → D × Bool
  unfolding init_image
  fota_init d = init_image d

  -- The exchange with the server behind the encoding; `stale` is what `resp` holds before.
  unfoldable pub exchange : FotaResponse → Bytes → D → Outcome (D × Option FotaResponse)
  exchange stale report d =
      check (λ d'. d') (append_payload report d)
        λ d1.
          check (λ d'. d') (socket d1)
            λ d2. check close (sendto d2) λ d3.
              check close (wait_for_response platform flash_bank_size d3) λ d4.
                check close (recvfrom d4) λ d5.
                  check (λ d'. d') (coap_packet_parse (close d5))
                    λ d6. decoded d6 (
                      decode_simple_response stale (payload d6 ++ behind_payload d6)
                        (length (payload d6)))

  -- `none` is a result that is not 0. The report is built in an array of 256 bytes.
  unfoldable pub fota_report_version : Build → FotaResponse → D → Outcome (D × Option FotaResponse)
  fota_report_version build stale d =
      check (λ d'. d') (report_init d)
        λ d1.
          check (λ d'. d') (append_report_path d1)
            λ d2.
              check (λ d'. d') (append_payload_marker d2)
                λ d3.
                  encode_simple_report build.version build.manufacturer build.serial build.model
                  >>= λ report.
                      if leb (length report) 256 then exchange stale report d3 else out_of_bounds

  -- The result of `boot_request_upgrade` is only logged.
  unfoldable pub do_reboot : D → D
  do_reboot d = sys_reboot (boot_request_upgrade d)

  unfoldable pub rebooted : D × Bool → D × Bool
  unfolding do_reboot
  rebooted (d, true) = (do_reboot d, true)
  rebooted (d, false) = (d, false)

  unfoldable pub run_update : ℕ → D → Option FotaResponse → Outcome (D × Bool)
  run_update fuel d none = ok (d, false)
  run_update fuel d (some resp) =
      let update =
        (fota_download_image platform flash_bank_size fuel resp d >>= λ r. ok (rebooted r)) in
      if resp.scheduled_update then update else ok (d, false)

  -- `stale` is what the response on the stack holds before the report; nothing sets it.
  unfoldable pub fota_run : ℕ → Build → FotaResponse → D → Outcome (D × Bool)
  fota_run fuel build stale d = fota_report_version build stale d >>= λ r. run_update fuel r.0 r.1
