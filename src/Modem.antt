-- ===== src/Modem.antt =====
-- `comms.c`: the modem behind its serial line. Here `Line` stands for what `modem_read` gives until
-- it times out; Urc has the interrupt, the ring buffers, `modem_read` and `urc_threadproc`.
pub mod Ready
pub mod Urc
pub mod Init
pub mod Untouched
use air_quality_sensor_node.Base.{
  ℕ, zero, suc, ◌+◌, ◌-◌, Bool, true, false, [], ◌∷◌, ◌++◌, Bytes, codes, ltb, if◌then◌else◌,
  length,
}
use air_quality_sensor_node.Base.Outcome.{Outcome, ok, out_of_bounds, ◌>>=◌}
use air_quality_sensor_node.At.Input.{AtResult, at_ok}
use air_quality_sensor_node.At.Address.{atcgpaddr_decode}
use air_quality_sensor_node.At.Socket.{at_decode}
use air_quality_sensor_node.Base.Libc.{Libc}

-- The serial line to a modem in the state `W`: `modem_write`, the bytes `modem_read` gives until it
-- times out, the state when some of these are left unread, and `k_sleep`.
pub record Line (W : Type 0) : Type 0 where
  pub write : Bytes → W → W
  pub readable : W → Bytes
  pub left_unread : Bytes → W → W
  pub sleep : ℕ → W → W

-- NEXT_FREE_PORT, APN_QUERY_RETRY_COUNT and APN_RETRY_DELAY_MS
abbrev pub default_port : ℕ
default_port = 6000

abbrev pub apn_query_retry_count : ℕ
apn_query_retry_count = 30

abbrev pub apn_retry_delay : ℕ
apn_retry_delay = 3000

abbrev pub current_apn_size : ℕ
current_apn_size = 64

-- `sprintf` writes to `define_context[64+21]`, with a zero behind the text.
unfoldable pub define_context : Bytes → Outcome Bytes
define_context apn =
    let text = codes "AT+CGDCONT=0,\"IP\",\"" ++ apn ++ codes "\"\r" in
    if ltb (length text) 85 then ok text else out_of_bounds

module _ {W : Type 0} (libc : Libc) (line : Line W) where
  open libc use {isspace}
  open line use {write, readable, left_unread, sleep}

  -- A decoder reads what the line gives, and leaves the rest on it.
  unfoldable pub receive :
      {R : Type 0} → (Bytes → Outcome (AtResult × R × Bytes)) → W → Outcome (AtResult × R × W)
  receive decode w = do (res, r, rest) ← decode (readable w); ok (res, r, left_unread rest w)

  -- The caller's `ip` has 16 bytes, and `len` starts at 0.
  unfoldable pub modem_is_ready : W → Outcome (Bool × W)
  modem_is_ready w = do
    (res, c, w') ← receive (atcgpaddr_decode isspace 16 0) (write (codes "AT+CGPADDR\r") w)
    ok (elim res [ at_ok ↦ ltb 1 c.len | _ ↦ false ], w')

  -- An answer that is only logged.
  unfoldable pub generic_answer : W → Outcome W
  generic_answer w = do (_, _, w') ← receive (at_decode libc) w; ok w'

  unfoldable pub modem_configure : Bytes → W → Outcome W
  modem_configure apn w = do
    text ← define_context apn
    w1 ← generic_answer (write text w)
    w2 ← generic_answer (write (codes "AT+NCONFIG=\"AUTOCONNECT\",\"TRUE\"\r") w1)
    ok (sleep 1000 w2)

  -- The second component is `next_free_port`.
  unfoldable pub modem_restart : W → Outcome (W × ℕ)
  modem_restart w = do w' ← generic_answer (write (codes "AT+NRB\r") w); ok (w', default_port)

  -- `while (!modem_is_ready() & (retries++ < N)) k_sleep(...)`, with the number of retries left.
  unfoldable pub wait_until_ready : ℕ → W → Outcome W
  wait_until_ready zero w = do (_, w') ← modem_is_ready w; ok w'
  wait_until_ready (suc left) w = do
    (ready, w') ← modem_is_ready w
    elim ready [ true ↦ ok w' | false ↦ wait_until_ready left (sleep apn_retry_delay w') ]

  -- The restart, the configuration, the wait and the last query that `select_active_apn` and
  -- `select_ping_apn` make for an APN.
  unfoldable pub try_apn : Bytes → W → Outcome (Bool × W)
  try_apn apn w = do
    (w1, _) ← modem_restart w
    w2 ← modem_configure apn w1
    w3 ← wait_until_ready apn_query_retry_count w2
    modem_is_ready w3
