-- ===== src/Net/Steps.antt =====
-- The calls and the notifications as steps on the table of sockets, in any order, and what holds
-- after each of them.
use air_quality_sensor_node.Base.{
  ltb, ◌++◌, ◌==◌, codes, ℕ, zero, suc, ◌-◌, ◌≡◌, refl, ap, ◌∙◌, Bool, true, [], ◌∷◌, Bytes, List,
  length, get_elem?, replicate, Option, none, some, All, inl, inr, Bool-cases,
}
use air_quality_sensor_node.Base.Libc.{Libc}
use air_quality_sensor_node.Base.Int.{ℤ, pos, negsuc}
use air_quality_sensor_node.Base.Outcome.{Outcome, ok, bind-eq-ok}
use air_quality_sensor_node.At.Receive.{NsorfCtx, atnsorf_decode}
use air_quality_sensor_node.At.Socket.{atnsost_decode}
use air_quality_sensor_node.Modem.{Line, receive}
use air_quality_sensor_node.Net.{
  Net, Socket, SockAddr, Result, would_block, error, einval, enotconn, n2_max_packet_size, Format,
  free_socket, command_text, offload_iface_init,
}
use air_quality_sensor_node.Net.Calls.{
  socket_of, ask, offload_socket, offload_close, offload_connect, received_from, asked,
  receive_from, offload_recvfrom, send_packet, send_to, offload_sendto, send_connected, send_on,
  offload_send, receive_cb, write_hex,
}
use air_quality_sensor_node.Net.Sockets.{ask_keeps}
use air_quality_sensor_node.Net.Invariant.{
  IsConsistent, IsAddressed, socket-IsConsistent, close_socket-IsConsistent, socket_of-some,
  connect_socket-IsConsistent, received-IsConsistent, add_incoming-IsConsistent,
}

some-injective : {A : Type 0} {x y : A} → some x ≡ some y → y ≡ x
some-injective h = cc

module _ {W : Type 0} (libc : Libc) (format : Format) (line : Line W) where
  -- A call that returns, or a notification.
  pub data Step : Net W → Net W → Type 0 where
    socket :
        (inet dgram udp : Bool) {n n' : Net W} {r : Result}
        → offload_socket libc format line inet dgram udp n ≡ ok (r, n')
        → Step n n'
    close :
        (sfd : ℕ) {n n' : Net W} {r : Result}
        → offload_close libc format line sfd n ≡ ok (r, n')
        → Step n n'
    connect :
        (sfd : ℕ) (to : SockAddr) (memory : Bool) {n n' : Net W} {r : Result}
        → offload_connect libc format line sfd to memory n ≡ ok (r, n')
        → Step n n'
    recvfrom :
        (sfd len : ℕ) {n n' : Net W} {r : Result} {got : Option NsorfCtx}
        → offload_recvfrom libc format line sfd len n ≡ ok (r, got, n')
        → Step n n'
    sendto :
        (sfd : ℕ) (buf : Bytes) (to : SockAddr) {n n' : Net W} {r : Result}
        → offload_sendto libc format line sfd buf to n ≡ ok (r, n')
        → Step n n'
    send :
        (sfd : ℕ) (buf : Bytes) {n n' : Net W} {r : Result}
        → offload_send libc format line sfd buf n ≡ ok (r, n')
        → Step n n'
    notify : (fd : ℤ) (bytes : ℕ) {n : Net W} → Step n (receive_cb libc format line fd bytes n)

  -- What is reached from the table as it is set up.
  pub data Reachable : Net W → Type 0 where
    start : (w : W) → Reachable (offload_iface_init w)
    after : {n n' : Net W} → Reachable n → Step n n' → Reachable n'

  abbrev result : Result → Net W → Outcome (Result × Net W)
  result r n = ok (r, n)

  abbrev got_result : Result → Option NsorfCtx → Net W → Outcome (Result × Option NsorfCtx × Net W)
  got_result r got n = ok (r, got, n)

  refused_keeps : (x r : Result) (n n' : Net W) → result x n ≡ result r n' → n'.sockets ≡ n.sockets
  refused_keeps x r n n' e = cc

  empty_keeps :
      (x r : Result) (n n' : Net W) (got : Option NsorfCtx)
      → got_result x none n ≡ got_result r got n'
      → n'.sockets ≡ n.sockets
  empty_keeps x r n n' got e = cc

  receive_from-IsConsistent :
      (fd len : ℕ) (o : Option Socket) (n n' : Net W) (r : Result) (got : Option NsorfCtx)
      → IsConsistent n.sockets
      → receive_from libc format line fd len o n ≡ ok (r, got, n')
      → IsConsistent n'.sockets
  unfolding receive_from
  receive_from-IsConsistent fd len none n n' r got h e = let same : n' ≡ n = cc in rw same h
  receive_from-IsConsistent fd len (some s) n n' r got h e =
      elim (Bool-cases (s.incoming_len == 0)) [
        | inl nothing ↦ rw (empty_keeps would_block r n n' got (rw nothing at e)) h
        | inr waiting ↦
            let text =
              codes "AT+NSORF="
              ++ format.print_int s.id
              ++ codes ","
              ++ format.print_int (asked len)
              ++ codes "\r\n" in
            let decode = atnsorf_decode libc (pos 0) [] (pos 0) len 0 0 in
            let ((res, c, n1), asked, e1) =
              bind-eq-ok (ask libc format line text decode n) _ (rw waiting at e) in
            let (same, _) = ask_keeps libc format line text decode n n1 res c asked in
            let h1 : IsConsistent n1.sockets = rw same h in
            let e2 : received_from libc format line fd res c n1 ≡ (r, got, n') = cc in
            received-IsConsistent libc format line fd res c n1 n' r got h1 e2
      ]

  send_packet_keeps :
      (buf : Bytes) (to : SockAddr) (o : Option Bytes) (s : Socket) (n n' : Net W) (r : Result)
      → send_packet libc format line buf to o s n ≡ ok (r, n')
      → n'.sockets ≡ n.sockets
  unfolding send_packet
  send_packet_keeps buf to none s n n' r e = cc
  send_packet_keeps buf to (some addr) s n n' r e =
      let text =
        codes "AT+NSOST="
        ++ format.print_int s.id
        ++ codes ",\""
        ++ addr
        ++ codes "\","
        ++ format.print_int (pos to.port)
        ++ codes ","
        ++ format.print_int (pos (length buf))
        ++ codes ",\"" in
      let (cmd, _, e1) = bind-eq-ok (command_text text) _ e in
      let written =
        line.write (codes "\"\r") (write_hex libc format line buf (line.write cmd n.modem)) in
      let ((res, u, w), _, e2) =
        bind-eq-ok (receive libc line (atnsost_decode libc (negsuc 0) 0) written) _ e1 in
      cc

  send_to_keeps :
      (buf : Bytes) (to : SockAddr) (o : Option Socket) (n n' : Net W) (r : Result)
      → send_to libc format line buf to o n ≡ ok (r, n')
      → n'.sockets ≡ n.sockets
  unfolding send_to
  send_to_keeps buf to none n n' r e = cc
  send_to_keeps buf to (some s) n n' r e = elim (Bool-cases (ltb n2_max_packet_size (length buf))) [
    | inl long ↦ refused_keeps (error einval) r n n' (rw long at e)
    | inr short ↦ send_packet_keeps buf to (format.inet_ntop to.address) s n n' r (rw short at e)
  ]

  sendto_keeps :
      (sfd : ℕ) (buf : Bytes) (to : SockAddr) (n n' : Net W) (r : Result)
      → offload_sendto libc format line sfd buf to n ≡ ok (r, n')
      → n'.sockets ≡ n.sockets
  unfolding offload_sendto
  sendto_keeps sfd buf to n n' r e =
      let (s, _, e1) = bind-eq-ok (socket_of libc format line n sfd) _ e in
      send_to_keeps buf to s n n' r e1

  send_on_keeps :
      (sfd : ℕ) (buf : Bytes) (o : Option Socket) (n n' : Net W) (r : Result)
      → send_on libc format line sfd buf o n ≡ ok (r, n')
      → n'.sockets ≡ n.sockets
  unfolding send_on send_connected
  send_on_keeps sfd buf none n n' r e = cc
  send_on_keeps sfd buf (some s) n n' r e = elim (Bool-cases s.connected) [
    | inl is ↦ connected_keeps s.remote_addr (rw is at e)
    | inr is ↦ refused_keeps (error enotconn) r n n' (rw is at e)
  ]
    where
      connected_keeps :
          (o : Option SockAddr)
          → send_connected libc format line sfd buf o n ≡ ok (r, n')
          → n'.sockets ≡ n.sockets
      connected_keeps none e = absurd cc
      connected_keeps (some to) e = sendto_keeps sfd buf to n n' r e

  -- Every call and every notification keeps the table consistent.
  step-IsConsistent : {n n' : Net W} → Step n n' → IsConsistent n.sockets → IsConsistent n'.sockets
  unfolding offload_close offload_connect offload_recvfrom offload_send receive_cb
  step-IsConsistent (socket inet dgram udp {n} {n'} {r} e) h =
      socket-IsConsistent libc format line inet dgram udp n n' r h e
  step-IsConsistent (close sfd {n} {n'} {r} e) h =
      let (s, _, e1) = bind-eq-ok (socket_of libc format line n sfd) _ e in
      close_socket-IsConsistent libc format line (sfd - 100) s n n' r h e1
  step-IsConsistent (connect sfd to memory {n} {n'} {r} e) h =
      let (s, found, e1) = bind-eq-ok (socket_of libc format line n sfd) _ e in
      connect_socket-IsConsistent libc format line (sfd - 100) to memory s n n' r
        (λ s' same. socket_of-some libc format line n sfd s' (found ∙ ap ok same)) h e1
  step-IsConsistent (recvfrom sfd len {n} {n'} {r} {got} e) h =
      let (s, _, e1) = bind-eq-ok (socket_of libc format line n sfd) _ e in
      receive_from-IsConsistent (sfd - 100) len s n n' r got h e1
  step-IsConsistent (sendto sfd buf to {n} {n'} {r} e) h = rw (sendto_keeps sfd buf to n n' r e) h
  step-IsConsistent (send sfd buf {n} {n'} {r} e) h =
      let (s, _, e1) = bind-eq-ok (socket_of libc format line n sfd) _ e in
      rw (send_on_keeps sfd buf s n n' r e1) h
  step-IsConsistent (notify fd bytes {n}) h = add_incoming-IsConsistent fd bytes n.sockets h

  fresh : (k : ℕ) → All IsAddressed (replicate k free_socket)
  fresh zero = tt
  fresh (suc k) = ((λ e. absurd cc), fresh k)

  -- In every state that calls and notifications lead to, the table has seven sockets, and a
  -- connected one is in use and has an address.
  pub reachable-IsConsistent : {n : Net W} → Reachable n → IsConsistent n.sockets
  reachable-IsConsistent (start w) = record { seven = refl; addressed = fresh 7 }
  reachable-IsConsistent (after before step) =
      step-IsConsistent step (reachable-IsConsistent before)

  -- A call of `send` on a connected socket sends to the address that the socket was connected to,
  -- and never reads a null pointer.
  pub offload_send_connected :
      {n : Net W} (sfd : ℕ) (buf : Bytes) (s : Socket)
      → Reachable n
      → socket_of libc format line n sfd ≡ ok (some s)
      → s.connected ≡ true
      → (to : SockAddr) × (s.remote_addr ≡ some to)
        × (offload_send libc format line sfd buf n ≡ offload_sendto libc format line sfd buf to n)
  unfolding offload_send send_on send_connected
  offload_send_connected {n} sfd buf s reached found connected =
      let at = socket_of-some libc format line n sfd s found in
      let (_, (to, address)) =
        addressed_at n.sockets (sfd - 100) s ((reachable-IsConsistent reached).addressed) at
          connected in
      (to, address, rw (found, connected, address))
    where
      addressed_at :
          (ss : List Socket) (i : ℕ) (s : Socket)
          → All IsAddressed ss
          → get_elem? ss i ≡ some s
          → IsAddressed s
      addressed_at [] i s h e = cc
      addressed_at (x ∷ ss) zero s h e = rw (some-injective e) h.0
      addressed_at (x ∷ ss) (suc i) s h e = addressed_at ss i s h.1 e
