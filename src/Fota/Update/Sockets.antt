-- ===== src/Fota/Update/Sockets.antt =====
-- The sockets that a download of Firmware/src/fota.c opens and closes.
use air_quality_sensor_node.Base.{
  ℕ, zero, suc, ◌≡◌, refl, sym, ap, ◌∙◌, List, ◌∷◌, Bool, true, false, Bytes, if◌then◌else◌, arith,
  inl, inr, Bool-cases,
}
use air_quality_sensor_node.Base.Outcome.{ok}
use air_quality_sensor_node.Fota.Response.{FotaResponse}
use air_quality_sensor_node.Fota.Download.{
  Platform, Round, given_up, written, max_polls, wait_polls, wait_for_response,
  write_firmware_block, attempt, write_block, download_block, after_round, download_blocks,
  connected, opened, fota_download_image,
}
use air_quality_sensor_node.Fota.Update.{Reporter}
use air_quality_sensor_node.Fota.Update.Ledger.{Entry, update, struck}

-- A view of the state as the sockets that were opened and not yet passed to `close`: `socket` adds
-- one if it succeeds, a call of `close` strikes it, whatever becomes of that call, and no other call
-- changes them. `Watching` has such a view for any platform.
pub record Counted {D : Type 0} (platform : Platform D) (reporter : Reporter D) : Type 0 where
  pub sockets : D → List Entry
  pub sockets-socket :
      (d : D)
      → sockets (platform.socket d).0
        ≡ (if (platform.socket d).1 then update ∷ sockets d else sockets d)
  pub sockets-close : (d : D) → sockets (platform.close d) ≡ struck update (sockets d)
  pub sockets-connect :
      (resp : FotaResponse) (d : D) → sockets (platform.connect resp d).0 ≡ sockets d
  pub sockets-poll : (d : D) → sockets (platform.poll d).0 ≡ sockets d
  pub sockets-coap_packet_init : (d : D) → sockets (platform.coap_packet_init d).0 ≡ sockets d
  pub sockets-append_path :
      (path : Bytes) (d : D) → sockets (platform.append_path path d).0 ≡ sockets d
  pub sockets-append_block : (d : D) → sockets (platform.append_block d).0 ≡ sockets d
  pub sockets-send : (d : D) → sockets (platform.send d).0 ≡ sockets d
  pub sockets-recv : (d : D) → sockets (platform.recv d).0 ≡ sockets d
  pub sockets-coap_packet_parse : (d : D) → sockets (platform.coap_packet_parse d).0 ≡ sockets d
  pub sockets-coap_update_from_block :
      (d : D) → sockets (platform.coap_update_from_block d).0 ≡ sockets d
  pub sockets-coap_next_block : (d : D) → sockets (platform.coap_next_block d).0 ≡ sockets d
  pub sockets-flash_img_init : (d : D) → sockets (platform.flash_img_init d) ≡ sockets d
  pub sockets-boot_erase_img_bank : (d : D) → sockets (platform.boot_erase_img_bank d).0 ≡ sockets d
  pub sockets-flash_img_buffered_write :
      (block : Bytes) (last : Bool) (d : D)
      → sockets (platform.flash_img_buffered_write block last d).0 ≡ sockets d
  pub sockets-report_init : (d : D) → sockets (reporter.report_init d).0 ≡ sockets d
  pub sockets-append_report_path : (d : D) → sockets (reporter.append_report_path d).0 ≡ sockets d
  pub sockets-append_payload_marker :
      (d : D) → sockets (reporter.append_payload_marker d).0 ≡ sockets d
  pub sockets-append_payload :
      (report : Bytes) (d : D) → sockets (reporter.append_payload report d).0 ≡ sockets d
  pub sockets-sendto : (d : D) → sockets (reporter.sendto d).0 ≡ sockets d
  pub sockets-recvfrom : (d : D) → sockets (reporter.recvfrom d).0 ≡ sockets d
  pub sockets-boot_request_upgrade : (d : D) → sockets (reporter.boot_request_upgrade d) ≡ sockets d
  pub sockets-sys_reboot : (d : D) → sockets (reporter.sys_reboot d) ≡ sockets d

module _ {D : Type 0} (platform : Platform D) (reporter : Reporter D) (flash_bank_size : ℕ)
    (counted : Counted platform reporter) where
  open counted use {
    sockets, sockets-socket, sockets-close, sockets-connect, sockets-poll, sockets-coap_packet_init,
    sockets-append_path, sockets-append_block, sockets-send, sockets-recv,
    sockets-coap_packet_parse, sockets-coap_update_from_block, sockets-coap_next_block,
    sockets-flash_img_init, sockets-boot_erase_img_bank, sockets-flash_img_buffered_write,
    sockets-report_init, sockets-append_report_path, sockets-append_payload_marker,
    sockets-append_payload, sockets-sendto, sockets-recvfrom, sockets-boot_request_upgrade,
    sockets-sys_reboot,
  }
  open platform use {
    payload, total_size, coap_next_block, boot_erase_img_bank, flash_img_init, poll,
  }

  sockets-wait_polls :
      (left : ℕ) (d : D) → sockets (wait_polls platform flash_bank_size left d).0 ≡ sockets d
  unfolding wait_polls
  sockets-wait_polls zero d = refl
  sockets-wait_polls (suc left) d = elim (Bool-cases (poll d).1) [
    | inl there ↦ rw there (sockets-poll d)
    | inr silent ↦ rw silent (sockets-wait_polls left (poll d).0 ∙ sockets-poll d)
  ]

  pub sockets-wait : (d : D) → sockets (wait_for_response platform flash_bank_size d).0 ≡ sockets d
  unfolding wait_for_response
  sockets-wait d = sockets-wait_polls max_polls d

  sockets-write_firmware_block :
      (block : Bytes) (first last : Bool) (size : ℕ) (d : D)
      → sockets (write_firmware_block platform flash_bank_size block first last size d).0
        ≡ sockets d
  unfolding write_firmware_block
  sockets-write_firmware_block block first last size d =
      let erased = sockets-boot_erase_img_bank (flash_img_init d) ∙ sockets-flash_img_init d in
      let written_erased =
        sockets-flash_img_buffered_write block last (boot_erase_img_bank (flash_img_init d)).0
        ∙ erased in
      ground (arith, erased, written_erased, sockets-flash_img_buffered_write block last d)

  -- A round that begins with a socket: it closes it or leaves it for the next one.
  abbrev HasSocket : List Entry → Round D → Type 0
  HasSocket k (given_up d) = sockets d ≡ k
  HasSocket k (written d total last) = sockets d ≡ update ∷ k

  attempt-HasSocket :
      (k : List Entry) (p : D × Bool) (next : D → Round D)
      → sockets p.0 ≡ update ∷ k
      → ((d : D) → sockets d ≡ update ∷ k → HasSocket k (next d))
      → HasSocket k (attempt platform flash_bank_size p next)
  unfolding attempt
  attempt-HasSocket k (d, true) next h later = later d h
  attempt-HasSocket k (d, false) next h later = sockets-close d ∙ ap (struck update) h

  block-HasSocket :
      (resp : FotaResponse) (k : List Entry) (total : ℕ) (d : D)
      → sockets d ≡ update ∷ k
      → HasSocket k (download_block platform flash_bank_size resp total d)
  unfolding download_block write_block
  block-HasSocket resp k total d h =
      attempt-HasSocket k _ _ (sockets-coap_packet_init d ∙ h) λ d1 h1.
        attempt-HasSocket k _ _ (sockets-append_path resp.path d1 ∙ h1) λ d2 h2.
          attempt-HasSocket k _ _ (sockets-append_block d2 ∙ h2) λ d3 h3.
            attempt-HasSocket k _ _ (sockets-send d3 ∙ h3) λ d4 h4.
              attempt-HasSocket k _ _ (sockets-wait d4 ∙ h4) λ d5 h5.
                attempt-HasSocket k _ _ (sockets-recv d5 ∙ h5) λ d6 h6.
                  attempt-HasSocket k _ _ (sockets-coap_packet_parse d6 ∙ h6) λ d7 h7.
                    attempt-HasSocket k _ _ (sockets-coap_update_from_block d7 ∙ h7) λ d8 h8.
                      attempt-HasSocket k _ _
                        (sockets-write_firmware_block _ _ _ _ (coap_next_block d8).0
                          ∙ sockets-coap_next_block d8
                          ∙ h8)
                        λ d9 h9. h9

  blocks-sockets :
      (fuel : ℕ) (resp : FotaResponse) (k : List Entry) (total : ℕ) (d d' : D) (r : Bool)
      → sockets d ≡ update ∷ k
      → download_blocks platform flash_bank_size fuel resp total d ≡ ok (d', r)
      → sockets d' ≡ k
  unfolding download_blocks after_round
  blocks-sockets zero resp k total d d' r h e = cc
  blocks-sockets (suc fuel) resp k total d d' r h e =
      behind (download_block platform flash_bank_size resp total d)
        (block-HasSocket resp k total d h) e λ d1 total1. blocks-sockets fuel resp k total1 d1 d' r
    where
      behind :
          (round : Round D)
          → HasSocket k round
          → after_round platform flash_bank_size round
              (λ total' d'. download_blocks platform flash_bank_size fuel resp total' d')
            ≡ ok (d', r)
          → ((d1 : D) (total1 : ℕ)
              → sockets d1 ≡ update ∷ k
              → download_blocks platform flash_bank_size fuel resp total1 d1 ≡ ok (d', r)
              → sockets d' ≡ k)
          → sockets d' ≡ k
      behind (given_up d1) h1 e1 later = let same : d1 ≡ d' = cc in rw (sym same) h1
      behind (written d1 total1 true) h1 e1 later =
          let same : platform.close d1 ≡ d' = cc in
          rw (sym same) (sockets-close d1 ∙ ap (struck update) h1)
      behind (written d1 total1 false) h1 e1 later = later d1 total1 h1 e1

  -- A download passes to `close` exactly what it opened.
  pub download-sockets :
      (fuel : ℕ) (resp : FotaResponse) (d d' : D) (r : Bool)
      → fota_download_image platform flash_bank_size fuel resp d ≡ ok (d', r)
      → sockets d' ≡ sockets d
  unfolding fota_download_image opened connected
  download-sockets fuel resp d d' r e = by_socket (platform.socket d) (sockets-socket d) e
    where
      by_connection :
          (p : D × Bool)
          → sockets p.0 ≡ update ∷ sockets d
          → connected platform flash_bank_size fuel resp p ≡ ok (d', r)
          → sockets d' ≡ sockets d
      by_connection (d1, true) h e = blocks-sockets fuel resp (sockets d) 0 d1 d' r h e
      by_connection (d1, false) h e =
          let same : platform.close d1 ≡ d' = cc in
          rw (sym same) (sockets-close d1 ∙ ap (struck update) h)

      by_socket :
          (p : D × Bool)
          → sockets p.0 ≡ (if p.1 then update ∷ sockets d else sockets d)
          → opened platform flash_bank_size fuel resp p ≡ ok (d', r)
          → sockets d' ≡ sockets d
      by_socket (d1, true) h e =
          by_connection (platform.connect resp d1) (sockets-connect resp d1 ∙ h) e
      by_socket (d1, false) h e = let same : d1 ≡ d' = cc in rw (sym same) h
