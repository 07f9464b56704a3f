-- ===== src/Modem/Init.antt =====
-- The start of the modem: `modem_init` of Firmware/src/comms.c behind the set-up of the ring buffers and
-- of the bridge (Board/Uart.max_init), and the restart that keeps it off the network for a while.
pub mod Imei
use air_quality_sensor_node.Base.{
  ℕ, ◌+◌, Bool, true, false, ◌||◌, [], ◌∷◌, Bytes, codes, ◌==◌, if◌then◌else◌, drop, replicate,
}
use air_quality_sensor_node.Base.Libc.{Libc}
use air_quality_sensor_node.Base.Outcome.{Outcome, ok, out_of_bounds, ◌>>=◌}
use air_quality_sensor_node.At.Input.{AtResult, at_ok}
use air_quality_sensor_node.At.Receive.{c_string}
use air_quality_sensor_node.At.Identity.{IdCtx, atcimi_decode, atcgsn_decode}
use air_quality_sensor_node.Modem.{
  Line, receive, generic_answer, modem_configure, modem_restart, wait_until_ready,
  apn_query_retry_count, default_port,
}

abbrev pub imei_imsi_buf_size : ℕ
imei_imsi_buf_size = 24

-- Whether there is a terminator.
abbrev pub ends : Bytes → Bool
ends [] = false
ends (c ∷ cs) = (c == 0) || ends cs

-- `strcpy(imei, &imei_unparsed[6])`: a text without a terminator would be read past its array. What it
-- has room for fits `imei`, which is as long as the array.
unfoldable pub copy_imei : Bytes → Outcome Bytes
unfolding c_string
copy_imei unparsed =
    if ends (drop 6 unparsed) then ok (c_string (drop 6 unparsed)) else out_of_bounds

-- `imsi` and `imei_unparsed` are arrays of 24 bytes, `imei` is the text in its array.
pub record Identity : Type 0 where
  pub imsi : Bytes
  pub imei_unparsed : Bytes
  pub imei : Bytes

module _ {W : Type 0} (libc : Libc) (line : Line W) where
  open libc use {isspace}
  open line use {write}

  unfoldable pub restart_without_signalling_storm : W → Outcome (W × ℕ)
  restart_without_signalling_storm w = do
    w1 ← generic_answer libc line (write (codes "AT+CFUN=0\r") (write (codes "AT+NRB\r") w))
    w2 ← generic_answer libc line (write (codes "AT+CFUN=1\r") (write (codes "AT+NRB\r") w1))
    w3 ← wait_until_ready libc line apn_query_retry_count w2
    ok (w3, default_port)

  -- The array is written also where the result is not AT_OK, which is only logged.
  unfoldable pub read_imsi : W → Outcome (Bytes × W)
  read_imsi w = do
    (_, c, w') ←
        receive libc line (atcimi_decode isspace (replicate imei_imsi_buf_size 0))
          (write (codes "AT+CIMI\r") w)
    ok (c.bytes, w')

  unfoldable pub imei_of : AtResult → Bytes → Outcome Bytes
  unfolding copy_imei
  imei_of res unparsed = elim res [ at_ok ↦ copy_imei unparsed | _ ↦ ok [] ]

  -- `imei_unparsed` and `imei`.
  unfoldable pub read_imei : W → Outcome (Bytes × Bytes × W)
  read_imei w = do
    (res, c, w') ←
        receive libc line (atcgsn_decode isspace (replicate imei_imsi_buf_size 0))
          (write (codes "AT+CGSN=1\r") w)
    imei ← imei_of res c.bytes
    ok (c.bytes, imei, w')

  -- `apn` is CURRENT_APN_BUFFER; the second component is `next_free_port`.
  unfoldable pub modem_init : Bytes → W → Outcome (Identity × ℕ × W)
  modem_init apn w = do
    w1 ← generic_answer libc line w
    w2 ← modem_configure libc line apn w1
    (w3, port) ← modem_restart libc line w2
    w4 ← wait_until_ready libc line apn_query_retry_count w3
    (imsi, w5) ← read_imsi w4
    (unparsed, imei, w6) ← read_imei w5
    ok (record { imsi = imsi; imei_unparsed = unparsed; imei = imei }, port, w6)
