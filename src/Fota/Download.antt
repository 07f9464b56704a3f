-- ===== src/Fota/Download.antt =====
-- The download of an image: `wait_for_response` and `fota_download_image` of Firmware/src/fota.c and
-- `write_firmware_block` of Firmware/src/flash.c.
pub mod Waiting
pub mod Closing
use air_quality_sensor_node.Base.{
  ℕ, zero, suc, ◌+◌, ◌*◌, ◌%◌, ◌^◌, Bool, true, false, not, Bytes, ltb, ◌==◌, if◌then◌else◌, length,
}
use air_quality_sensor_node.Base.Outcome.{Outcome, ok, out_of_fuel}
use air_quality_sensor_node.Fota.Response.{FotaResponse}

-- What the download calls of Zephyr: the sockets, the CoAP library with the block context and the
-- buffers, and the flash, in the state `D`. The Boolean is whether the call succeeds, for `poll`
-- whether there is data, for `coap_next_block` whether there is another block. `send` succeeds if it
-- sends the whole packet and `recv` if it receives anything.
pub record Platform (D : Type 0) : Type 0 where
  pub socket : D → D × Bool
  pub connect : FotaResponse → D → D × Bool
  pub close : D → D
  pub poll : D → D × Bool
  pub coap_packet_init : D → D × Bool
  pub append_path : Bytes → D → D × Bool
  pub append_block : D → D × Bool
  pub send : D → D × Bool
  pub recv : D → D × Bool
  pub coap_packet_parse : D → D × Bool
  pub coap_update_from_block : D → D × Bool
  pub coap_next_block : D → D × Bool
  pub payload : D → Bytes
  pub total_size : D → ℕ
  pub flash_img_init : D → D
  pub boot_erase_img_bank : D → D × Bool
  pub flash_img_buffered_write : Bytes → Bool → D → D × Bool

-- 60 s in polls of 500 ms, and the poll behind which the count is past them.
abbrev pub max_polls : ℕ
max_polls = 121

-- What a round of the loop comes to: the socket is closed and the image given up, or a block is
-- written, with the size so far and whether it is the last.
pub data Round (D : Type 0) : Type 0 where
  given_up : D → Round D
  written : D → ℕ → Bool → Round D

module _ {D : Type 0} (platform : Platform D) (flash_bank_size : ℕ) where
  open platform use {
    socket, connect, close, poll, coap_packet_init, append_path, append_block, send, recv,
    coap_packet_parse, coap_update_from_block, coap_next_block, payload, total_size, flash_img_init,
    boot_erase_img_bank, flash_img_buffered_write,
  }

  -- The loop of `wait_for_response`, with the polls that are left.
  unfoldable pub wait_polls : ℕ → D → D × Bool
  wait_polls zero d = (d, false)
  wait_polls (suc left) d =
      let (d', has_data) = poll d in
      let later = wait_polls left d' in if has_data then (d', true) else later

  unfoldable pub wait_for_response : D → D × Bool
  wait_for_response d = wait_polls max_polls d

  -- Whether the block is written.
  unfoldable pub write_firmware_block : Bytes → Bool → Bool → ℕ → D → D × Bool
  write_firmware_block block first last size d =
      let (erased_d, erased) = boot_erase_img_bank (flash_img_init d) in
      if ltb flash_bank_size size
      then (d, false)
      else if length block == 0
      then (d, false)
      else if not first
      then flash_img_buffered_write block last d
      else if erased
      then flash_img_buffered_write block last erased_d
      else (erased_d, false)

  -- `if (call < 0) { close(sock); return false; }`
  unfoldable pub attempt : D × Bool → (D → Round D) → Round D
  attempt (d, true) next = next d
  attempt (d, false) next = given_up (close d)

  -- Behind `coap_next_block`: the block is written. `total` has 32 bits.
  unfoldable pub write_block : ℕ → D × Bool → Round D
  write_block total (d, more) =
      let block = payload d in
      let total' = (total + length block) % 2 ^ 32 in
      let first = total' == length block in
      let last = total' == total_size d in
      attempt (write_firmware_block block first last (total_size d) d)
        λ d'. written d' total' (not more)

  unfoldable pub download_block : FotaResponse → ℕ → D → Round D
  download_block resp total d = attempt (coap_packet_init d) λ d1.
      attempt (append_path resp.path d1) λ d2. attempt (append_block d2) λ d3.
        attempt (send d3) λ d4. attempt (wait_for_response d4) λ d5. attempt (recv d5) λ d6.
          attempt (coap_packet_parse d6)
            λ d7. attempt (coap_update_from_block d7) λ d8. write_block total (coap_next_block d8)

  unfoldable pub after_round : Round D → (ℕ → D → Outcome (D × Bool)) → Outcome (D × Bool)
  after_round (given_up d) go_on = ok (d, false)
  after_round (written d total true) go_on = ok (close d, true)
  after_round (written d total false) go_on = go_on total d

  -- The loop, for at most `fuel` blocks: the server decides which is the last.
  unfoldable pub download_blocks : ℕ → FotaResponse → ℕ → D → Outcome (D × Bool)
  download_blocks zero resp total d = out_of_fuel
  download_blocks (suc fuel) resp total d =
      after_round (download_block resp total d) λ total' d'. download_blocks fuel resp total' d'

  unfoldable pub connected : ℕ → FotaResponse → D × Bool → Outcome (D × Bool)
  connected fuel resp (d, true) = download_blocks fuel resp 0 d
  connected fuel resp (d, false) = ok (close d, false)

  unfoldable pub opened : ℕ → FotaResponse → D × Bool → Outcome (D × Bool)
  opened fuel resp (d, true) = connected fuel resp (connect resp d)
  opened fuel resp (d, false) = ok (d, false)

  unfoldable pub fota_download_image : ℕ → FotaResponse → D → Outcome (D × Bool)
  fota_download_image fuel resp d = opened fuel resp (socket d)
