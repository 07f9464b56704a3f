-- ===== src/Fota/Update/Report.antt =====
-- The sockets that the report and an update run of Firmware/src/fota.c open and close.
use air_quality_sensor_node.Base.{
  ℕ, List, ◌∷◌, ◌≡◌, refl, sym, ap, ◌∙◌, Bool, true, false, Bytes, leb, if◌then◌else◌, length,
  Option, none, some,
}
use air_quality_sensor_node.Base.Outcome.{
  Outcome, ok, failed, out_of_bounds, out_of_fuel, ◌>>=◌, bind-eq-ok,
}
use air_quality_sensor_node.Fota.Response.{FotaResponse, encode_simple_report}
use air_quality_sensor_node.Fota.Download.{Platform, wait_for_response, fota_download_image}
use air_quality_sensor_node.Fota.Update.{
  Reporter, Build, check, decoded, exchange, fota_report_version, do_reboot, rebooted, run_update,
  fota_run,
}
use air_quality_sensor_node.Fota.Update.Ledger.{Entry, update, struck}
use air_quality_sensor_node.Fota.Update.Sockets.{Counted, sockets-wait, download-sockets}

module _ {D : Type 0} (platform : Platform D) (reporter : Reporter D) (flash_bank_size : ℕ)
    (counted : Counted platform reporter) where
  open counted use {
    sockets, sockets-socket, sockets-close, sockets-connect, sockets-poll, sockets-coap_packet_init,
    sockets-append_path, sockets-append_block, sockets-send, sockets-recv,
    sockets-coap_packet_parse, sockets-coap_update_from_block, sockets-coap_next_block,
    sockets-flash_img_init, sockets-boot_erase_img_bank, sockets-flash_img_buffered_write,
    sockets-report_init, sockets-append_report_path, sockets-append_payload_marker,
    sockets-append_payload, sockets-sendto, sockets-recvfrom, sockets-boot_request_upgrade,
    sockets-sys_reboot,
  }
  open platform use {
    payload, total_size, coap_next_block, boot_erase_img_bank, flash_img_init, poll,
  }

  check-sockets :
      (clean_up : D → D) (p : D × Bool) (next : D → Outcome (D × Option FotaResponse))
      (k : List Entry) (d' : D) (o : Option FotaResponse)
      → (p.1 ≡ false → sockets (clean_up p.0) ≡ k)
      → (p.1 ≡ true → next p.0 ≡ ok (d', o) → sockets d' ≡ k)
      → check clean_up p next ≡ ok (d', o)
      → sockets d' ≡ k
  unfolding check
  check-sockets clean_up (d, true) next k d' o fails goes_on e = goes_on refl e
  check-sockets clean_up (d, false) next k d' o fails goes_on e =
      let same : clean_up d ≡ d' = cc in rw (sym same) (fails refl)

  decoded-sockets :
      (m : Outcome FotaResponse) (d d' : D) (o : Option FotaResponse)
      → decoded d m ≡ ok (d', o)
      → sockets d' ≡ sockets d
  unfolding decoded
  decoded-sockets (ok resp) d d' o e = let same : d ≡ d' = cc in rw same
  decoded-sockets failed d d' o e = let same : d ≡ d' = cc in rw same
  decoded-sockets out_of_bounds d d' o e = cc
  decoded-sockets out_of_fuel d d' o e = cc

  exchange-sockets :
      (stale : FotaResponse) (report : Bytes) (d d' : D) (o : Option FotaResponse)
      → exchange platform reporter flash_bank_size stale report d ≡ ok (d', o)
      → sockets d' ≡ sockets d
  unfolding exchange
  exchange-sockets stale report d d' o =
      let k = sockets d in
      let d1 = (reporter.append_payload report d).0 in
      let h1 = sockets-append_payload report d in
      check-sockets _ _ _ k d' o (λ _. h1)
        λ _.
          (let d2 = (platform.socket d1).0 in
            check-sockets _ _ _ k d' o (λ none_open. (rw none_open at (sockets-socket d1)) ∙ h1)
              λ is_open.
                (let h2 : sockets d2 ≡ update ∷ k =
                    (rw is_open at (sockets-socket d1))
                    ∙ ap (λ (xs : List Entry). update ∷ xs) h1 in
                  let d3 = (reporter.sendto d2).0 in
                  let h3 = sockets-sendto d2 ∙ h2 in
                  let d4 = (wait_for_response platform flash_bank_size d3).0 in
                  let h4 = sockets-wait platform reporter flash_bank_size counted d3 ∙ h3 in
                  let d5 = (reporter.recvfrom d4).0 in
                  let h5 = sockets-recvfrom d4 ∙ h4 in
                  let h6 = sockets-close d5 ∙ ap (struck update) h5 in
                  check-sockets _ _ _ k d' o (λ _. sockets-close d3 ∙ ap (struck update) h3)
                    λ _.
                      check-sockets _ _ _ k d' o (λ _. sockets-close d4 ∙ ap (struck update) h4)
                        λ _.
                          check-sockets _ _ _ k d' o (λ _. h6)
                            λ _.
                              check-sockets _ _ _ k d' o (λ _. sockets-coap_packet_parse _ ∙ h6)
                                λ _ e.
                                  decoded-sockets _ _ d' o e ∙ sockets-coap_packet_parse _ ∙ h6))

  report-sockets :
      (build : Build) (stale : FotaResponse) (d d' : D) (o : Option FotaResponse)
      → fota_report_version platform reporter flash_bank_size build stale d ≡ ok (d', o)
      → sockets d' ≡ sockets d
  unfolding fota_report_version
  report-sockets build stale d d' o =
      let k = sockets d in
      let h1 = sockets-report_init d in
      let h2 = sockets-append_report_path _ ∙ h1 in
      let h3 = sockets-append_payload_marker _ ∙ h2 in
      check-sockets _ _ _ k d' o (λ _. h1)
        λ _.
          check-sockets _ _ _ k d' o (λ _. h2)
            λ _.
              check-sockets _ _ _ k d' o (λ _. h3)
                λ _ e.
                  (let (report, _, e1) =
                      bind-eq-ok
                        (encode_simple_report build.version build.manufacturer build.serial
                          build.model)
                        _ e in
                    fits (leb (length report) 256) report _ e1 ∙ h3)
    where
      fits :
          (short : Bool) (report : Bytes) (d3 : D)
          → (if short
              then exchange platform reporter flash_bank_size stale report d3
              else out_of_bounds)
            ≡ ok (d', o)
          → sockets d' ≡ sockets d3
      fits true report d3 e = exchange-sockets stale report d3 d' o e
      fits false report d3 e = cc

  -- When an update run comes back, it has passed to `close` exactly what it opened.
  pub fota_run-sockets :
      (fuel : ℕ) (build : Build) (stale : FotaResponse) (d d' : D) (r : Bool)
      → fota_run platform reporter flash_bank_size fuel build stale d ≡ ok (d', r)
      → sockets d' ≡ sockets d
  unfolding fota_run run_update rebooted do_reboot
  fota_run-sockets fuel build stale d d' r e =
      let ((d1, o), reported, e1) =
        bind-eq-ok (fota_report_version platform reporter flash_bank_size build stale d) _ e in
      behind_report d1 o e1 ∙ report-sockets build stale d d1 o reported
    where
      done :
          (p : D × Bool)
          → rebooted platform reporter flash_bank_size p ≡ (d', r)
          → sockets d' ≡ sockets p.0
      done (d2, true) e =
          let same : reporter.sys_reboot (reporter.boot_request_upgrade d2) ≡ d' = cc in
          rw (sym same) (sockets-sys_reboot _ ∙ sockets-boot_request_upgrade d2)
      done (d2, false) e = let same : d2 ≡ d' = cc in rw same

      updated :
          (scheduled : Bool) (d1 : D) (resp : FotaResponse)
          → (if scheduled
              then (fota_download_image platform flash_bank_size fuel resp d1 >>= λ p.
                  ok (rebooted platform reporter flash_bank_size p))
              else ok (d1, false))
            ≡ ok (d', r)
          → sockets d' ≡ sockets d1
      updated true d1 resp e =
          let ((d2, r2), downloaded, e2) =
            bind-eq-ok (fota_download_image platform flash_bank_size fuel resp d1) _ e in
          done (d2, r2) (cc)
          ∙ download-sockets platform reporter flash_bank_size counted fuel resp d1 d2 r2 downloaded
      updated false d1 resp e = let same : d1 ≡ d' = cc in rw same

      behind_report :
          (d1 : D) (o : Option FotaResponse)
          → run_update platform reporter flash_bank_size fuel d1 o ≡ ok (d', r)
          → sockets d' ≡ sockets d1
      behind_report d1 none e = let same : d1 ≡ d' = cc in rw same
      behind_report d1 (some resp) e = updated resp.scheduled_update d1 resp e
