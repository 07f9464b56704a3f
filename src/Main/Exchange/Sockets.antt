-- ===== src/Main/Exchange/Sockets.antt =====
-- The sockets of `do_the_hetzner_ping` of Firmware/src/main.c.
use air_quality_sensor_node.Base.{
  ℕ, zero, suc, ◌≡◌, sym, ap, ◌∙◌, List, ◌∷◌, Bool, true, false, Bytes, Option, none, some,
}
use air_quality_sensor_node.Base.Outcome.{ok, bind-eq-ok}
use air_quality_sensor_node.Config.Ping.{Ping, encode_ping}
use air_quality_sensor_node.Fota.Update.Ledger.{Entry, handle, struck, struck-handle}
use air_quality_sensor_node.Fota.Update.Sockets.{Counted}
use air_quality_sensor_node.Main.{
  Surroundings, Node, goes_on, configure, ping_retries, ping_buffer_size, max_command_buffer,
  ping_retry_delay_ms,
}
use air_quality_sensor_node.Main.Exchange.{
  answered, ping_attempt, ping_loop, ping_message, ping_server,
}
use air_quality_sensor_node.Main.Sockets.{Accounted, configure-sockets}

-- The socket is not closed where there is no message.
abbrev pub left_open : Option Bytes → ℕ → List Entry → List Entry
left_open none sock k = handle sock ∷ k
left_open (some message) sock k = k

module _ {W F : Type 0} (s : Surroundings W F) where
  -- What `encode_ping` makes of the clock and the count.
  abbrev pub ping_of : W → Node W F → Option Bytes
  ping_of w n =
      (encode_ping s.encoder.atoll s.pb_encode_ping s.imei ping_buffer_size
        (s.services.k_uptime_get w) n.ping_id).1

  -- Whatever the message and the room for it.
  abbrev pub AlwaysEncodes : Type 0
  AlwaysEncodes = (size : ℕ) (p : Ping) → (s.pb_encode_ping size p).1 ≡ true

module _ {W F : Type 0} (s : Surroundings W F) (counted : Counted s.platform s.reporter)
    (accounted : Accounted s counted) where
  open counted use {sockets}
  open accounted use {
    sockets-none, sockets-some, sockets-shut, sockets-sendto, sockets-recvfrom, sockets-sleep,
  }

  answered-sockets :
      (received : W × Option Bytes) (n n' : Node W F) (settled : Bool)
      → answered s received n ≡ ok (settled, n')
      → sockets n'.world ≡ sockets received.0
  unfolding answered
  answered-sockets (w, none) n n' settled e = let same : w ≡ n'.world = cc in rw same
  answered-sockets (w, some request) n n' settled e =
      let ((rc, n1), configured, e1) =
        bind-eq-ok (configure s request (record n { world = w })) _ e in
      let same : n1 ≡ n' = cc in
      rw (sym same) (configure-sockets s counted accounted request _ n1 rc configured)

  attempt-sockets :
      (sock : ℕ) (message : Bytes) (n n' : Node W F) (settled : Bool)
      → ping_attempt s sock message n ≡ ok (settled, n')
      → sockets n'.world ≡ sockets n.world
  unfolding ping_attempt
  attempt-sockets sock message n n' settled e =
      answered-sockets _ n n' settled e
      ∙ sockets-recvfrom sock max_command_buffer _
      ∙ sockets-sleep 1000 _
      ∙ sockets-sendto sock _ message n.world

  ping_loop-sockets :
      (left sock : ℕ) (k : List Entry) (message : Bytes) (n n' : Node W F)
      → sockets n.world ≡ handle sock ∷ k
      → ping_loop s left sock message n ≡ ok n'
      → sockets n'.world ≡ k
  unfolding ping_loop
  ping_loop-sockets zero sock k message n n' h e =
      let same : s.services.close sock n.world ≡ n'.world = cc in
      rw (sym same) (sockets-shut sock n.world ∙ ap (struck (handle sock)) h ∙ struck-handle sock k)
  ping_loop-sockets (suc left) sock k message n n' h e =
      let ((settled, n1), attempted, e1) = bind-eq-ok (ping_attempt s sock message n) _ e in
      let still = attempt-sockets sock message n n1 settled attempted ∙ h in
      behind settled n1 still e1 (
        ping_loop-sockets left sock k message
          (record n1 { world = s.services.k_sleep ping_retry_delay_ms n1.world }) n'
          (sockets-sleep ping_retry_delay_ms n1.world ∙ still))
    where
      behind :
          (settled : Bool) (n1 : Node W F)
          → sockets n1.world ≡ handle sock ∷ k
          → (elim settled [
            | true ↦ ok (record n1 { world = s.services.close sock n1.world })
            | false ↦
                ping_loop s left sock message
                  (record n1 { world = s.services.k_sleep ping_retry_delay_ms n1.world })
          ])
            ≡ ok n'
          → (ping_loop s left sock message
                  (record n1 { world = s.services.k_sleep ping_retry_delay_ms n1.world })
                ≡ ok n'
              → sockets n'.world ≡ k)
          → sockets n'.world ≡ k
      behind true n1 h1 e1 later =
          let same : s.services.close sock n1.world ≡ n'.world = cc in
          rw (sym same)
            (sockets-shut sock n1.world ∙ ap (struck (handle sock)) h1 ∙ struck-handle sock k)
      behind false n1 h1 e1 later = later e1

  -- When the exchange with the configuration server comes back, its socket was passed to `close`, once,
  -- unless the message to the server could not be encoded.
  pub ping_server-sockets :
      (n n' : Node W F) (w : W) (sock : ℕ)
      → s.services.socket n.world ≡ (w, some sock)
      → ping_server s (w, some sock) n ≡ ok (goes_on n')
      → sockets n'.world ≡ left_open (ping_of s w n) sock (sockets n.world)
  unfolding ping_server ping_message
  ping_server-sockets n n' w sock o e =
      let (n1, exchanged, e1) = bind-eq-ok (ping_message s sock (ping_of s w n) _) _ e in
      let same : n1 ≡ n' = cc in
      rw (sym same) (by_message (ping_of s w n) _ n1 (sockets-some n.world w sock o) exchanged)
    where
      by_message :
          (o : Option Bytes) (m m' : Node W F)
          → sockets m.world ≡ handle sock ∷ sockets n.world
          → ping_message s sock o m ≡ ok m'
          → sockets m'.world ≡ left_open o sock (sockets n.world)
      by_message none m m' h e = let same : m ≡ m' = cc in rw (sym same) h
      by_message (some message) m m' h e =
          ping_loop-sockets ping_retries sock (sockets n.world) message m m' h e
