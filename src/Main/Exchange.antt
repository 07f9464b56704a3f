-- ===== src/Main/Exchange.antt =====
-- The exchange with the configuration server before the main loop: `do_the_hetzner_ping` of
-- Firmware/src/main.c.
pub mod Sockets
use air_quality_sensor_node.Base.{ℕ, zero, suc, Bool, true, false, not, Bytes, Option, none, some}
use air_quality_sensor_node.Base.Int.{pos, eq_int}
use air_quality_sensor_node.Base.Libc.{Libc}
use air_quality_sensor_node.Base.Outcome.{Outcome, ok, ◌>>=◌}
use air_quality_sensor_node.Modem.{Line}
use air_quality_sensor_node.Config.{Active, select_ping_apn}
use air_quality_sensor_node.Config.Ping.{encode_ping}
use air_quality_sensor_node.Main.{
  Surroundings, Node, Flow, goes_on, reboots, resolved, configure, max_command_buffer,
  ping_buffer_size, ping_retries, ping_retry_delay_ms,
}

module _ {W F : Type 0} (s : Surroundings W F) where
  open s use {services, imei}
  open services use {socket, close, sendto, recvfrom, net_addr_pton, k_sleep, k_uptime_get}

  -- What `recvfrom` gives, as far as it matters whether the result of the request is 0.
  unfoldable pub answered : W × Option Bytes → Node W F → Outcome (Bool × Node W F)
  unfolding configure
  answered (w, none) n = ok (false, record n { world = w })
  answered (w, some request) n = do
    (rc, n') ← configure s request (record n { world = w })
    ok (not (eq_int rc (pos 0)), n')

  -- A round of the loop, without the sleep behind it: whether it ends the loop.
  unfoldable pub ping_attempt : ℕ → Bytes → Node W F → Outcome (Bool × Node W F)
  unfolding answered
  ping_attempt sock message n =
      let (sent, _) = sendto sock n.remote_addr_ping message n.world in
      answered (recvfrom sock max_command_buffer (k_sleep 1000 sent)) n

  -- The loop, with the rounds that are left.
  unfoldable pub ping_loop : ℕ → ℕ → Bytes → Node W F → Outcome (Node W F)
  ping_loop zero sock message n = ok (record n { world = close sock n.world })
  ping_loop (suc left) sock message n = do
    (settled, n') ← ping_attempt sock message n
    elim settled [
      | true ↦ ok (record n' { world = close sock n'.world })
      | false ↦
          ping_loop left sock message (record n' { world = k_sleep ping_retry_delay_ms n'.world })
    ]

  -- Behind `encode_ping`: without a message the socket stays open.
  unfoldable pub ping_message : ℕ → Option Bytes → Node W F → Outcome (Node W F)
  ping_message sock none n = ok n
  ping_message sock (some message) n = ping_loop ping_retries sock message n

  -- Behind `socket`.
  unfoldable pub ping_server : W × Option ℕ → Node W F → Outcome (Flow W F)
  unfolding ping_message
  ping_server (w, none) n = ok (reboots (k_sleep 1000 w))
  ping_server (w, some sock) n =
      let addr = resolved (net_addr_pton n.coap) n.remote_addr_ping in
      let (ping_id, message) =
        encode_ping s.encoder.atoll s.pb_encode_ping imei ping_buffer_size (k_uptime_get w)
          n.ping_id in
      (ping_message sock message
          (record n { world = w; remote_addr_ping = addr; ping_id = ping_id })
        >>= λ n'. ok (goes_on n'))

  -- Behind `select_ping_apn`.
  unfoldable pub ping_selected : Bool × Active W → Node W F → Outcome (Flow W F)
  unfolding ping_server
  ping_selected (ready, active) n =
      let n' : Node W F = record n { apn = active.apn; coap = active.coap; world = active.modem } in
      elim ready [ true ↦ ping_server (socket n'.world) n' | false ↦ ok (goes_on n') ]

  unfoldable pub do_the_hetzner_ping : Libc → Line W → Node W F → Outcome (Flow W F)
  do_the_hetzner_ping libc line n = do
    selection ←
        select_ping_apn libc line n.current (record { apn = n.apn; coap = n.coap; modem = n.world })
    ping_selected selection n
