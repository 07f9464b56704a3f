-- ===== src/Net/Calls.antt =====
-- The calls of n2_offload.c that the socket layer makes, and the notification of received data.
use air_quality_sensor_node.Base.{
  ℕ, ◌+◌, ◌-◌, ◌/◌, ◌%◌, ◌^◌, min, Bool, true, not, ◌&&◌, [], ◌∷◌, ◌++◌, Bytes, List, codes, ltb,
  ◌==◌, if◌then◌else◌, length, get_elem?, Option, none, some,
}
use air_quality_sensor_node.Base.Libc.{Libc}
use air_quality_sensor_node.Base.Int.{ℤ, pos, negsuc}
use air_quality_sensor_node.Base.Outcome.{Outcome, ok, out_of_bounds, ◌>>=◌, in_bounds}
use air_quality_sensor_node.At.Input.{AtResult, at_ok, at_error, at_timeout}
use air_quality_sensor_node.At.Socket.{at_decode, atnsocr_decode, atnsost_decode}
use air_quality_sensor_node.At.Receive.{NsorfCtx, atnsorf_decode}
use air_quality_sensor_node.Modem.{Line, receive}
use air_quality_sensor_node.Net.{
  Net, Socket, SockAddr, einval, enomem, eisconn, enotconn, eafnosupport, enotsup, Result, done,
  would_block, error, Format, Events, pollnval, pollout, pollout_pollin, max_receive,
  n2_max_packet_size, to_hex, free_socket, valid_socket, find_free, modify, add_incoming,
  command_text,
}

-- `len` is converted to a `short int`, and cut to MAX_RECEIVE if it is larger.
unfoldable pub asked : ℕ → ℤ
asked len =
    let bits = len % 2 ^ 16 in
    if ltb bits (2 ^ 15) then pos (min bits max_receive) else negsuc (2 ^ 16 - 1 - bits)

module _ {W : Type 0} (libc : Libc) (format : Format) (line : Line W) where
  open format use {print_int, inet_ntop}
  open line use {write}

  -- The socket of a descriptor, where `VALID_SOCKET` holds.
  unfoldable pub socket_of : Net W → ℕ → Outcome (Option Socket)
  socket_of n sfd = do
    valid ← valid_socket n.sockets sfd
    sock ←
        if valid
        then (in_bounds (get_elem? n.sockets (sfd - 100)) >>= λ s. ok (some s))
        else ok none
    ok sock

  -- A command and its answer.
  unfoldable pub ask :
      {R : Type 0}
      → Bytes
      → (Bytes → Outcome (AtResult × R × Bytes))
      → Net W
      → Outcome (AtResult × R × Net W)
  ask text decode n = do
    cmd ← command_text text
    (res, r, w) ← receive libc line decode (write cmd n.modem)
    ok (res, r, record n { modem = w })

  -- The socket `fd` behind the answer to AT+NSOCR.
  unfoldable pub created : ℕ → AtResult → ℤ → Net W → Result × Net W
  created fd at_ok id n = (
    done (fd + 100),
    record n {
      sockets = modify (λ s. record s { id = id; in_use = true }) n.sockets fd;
      next_free_port = n.next_free_port + 1;
    },
  )
  created fd at_error id n = (error enomem, n)
  created fd at_timeout id n = (error enomem, n)

  -- The socket `fd` was found free, or none was.
  unfoldable pub create : Option ℕ → Net W → Outcome (Result × Net W)
  create none n = ok (error enomem, n)
  create (some fd) n =
      let text =
        codes "AT+NSOCR=\"DGRAM\",17," ++ print_int (pos n.next_free_port) ++ codes ",1\r" in
      let n1 : Net W = record n {
        sockets = modify (λ s. record s { local_port = n.next_free_port }) n.sockets fd;
      } in
      do (res, id, n2) ← ask text (atnsocr_decode libc) n1; ok (created fd res id n2)

  -- Whether `family`, `type` and `proto` are AF_INET, SOCK_DGRAM and IPPROTO_UDP.
  unfoldable pub offload_socket : Bool → Bool → Bool → Net W → Outcome (Result × Net W)
  offload_socket inet dgram udp n =
      if not inet
      then ok (error eafnosupport, n)
      else if not dgram
      then ok (error enotsup, n)
      else if not udp
      then ok (error enotsup, n)
      else create (find_free n.sockets) n

  unfoldable pub closed : ℕ → AtResult → Net W → Result × Net W
  closed fd at_ok n = (done 0, record n { sockets = modify (λ s. free_socket) n.sockets fd })
  closed fd at_error n = (error enomem, n)
  closed fd at_timeout n = (error enomem, n)

  unfoldable pub close_socket : ℕ → Option Socket → Net W → Outcome (Result × Net W)
  close_socket fd none n = ok (error einval, n)
  close_socket fd (some s) n = do
    (res, _, n1) ← ask (codes "AT+NSOCL=" ++ print_int s.id ++ codes "\r") (at_decode libc) n
    ok (closed fd res n1)

  unfoldable pub offload_close : ℕ → Net W → Outcome (Result × Net W)
  offload_close sfd n = do s ← socket_of n sfd; close_socket (sfd - 100) s n

  -- `memory` is whether `k_malloc` gives the memory for the address; the code copies to it untested.
  unfoldable pub connect_socket :
      ℕ → SockAddr → Bool → Option Socket → Net W → Outcome (Result × Net W)
  connect_socket fd addr memory none n = ok (error einval, n)
  connect_socket fd addr memory (some s) n =
      let table =
        modify (λ s'. record s' { connected = true; remote_addr = some addr }) n.sockets fd in
      if not s.in_use
      then ok (error eisconn, n)
      else if memory
      then ok (done 0, record n { sockets = table })
      else out_of_bounds

  unfoldable pub offload_connect : ℕ → SockAddr → Bool → Net W → Outcome (Result × Net W)
  offload_connect sfd addr memory n = do
    s ← socket_of n sfd
    connect_socket (sfd - 100) addr memory s n

  -- `incoming_len` is signed: a number from 2 ^ 31 on is negative.
  unfoldable pub events : Option Socket → Events
  events none = pollnval
  events (some s) =
      if ltb 0 s.incoming_len && ltb s.incoming_len (2 ^ 31) then pollout_pollin else pollout

  unfoldable pub offload_poll : List ℕ → Net W → Outcome (List Events)
  offload_poll [] n = ok []
  offload_poll (sfd ∷ sfds) n = do
    s ← socket_of n sfd
    rest ← offload_poll sfds n
    ok (events s ∷ rest)

  -- Behind the answer to AT+NSORF. With the result goes what was decoded.
  unfoldable pub received_from : ℕ → AtResult → NsorfCtx → Net W → Result × Option NsorfCtx × Net W
  received_from fd at_ok c n = if c.received == 0 then (done 0, none, n) else (
    done c.received,
    some c,
    record n { sockets = modify (λ s. record s { incoming_len = c.remaining }) n.sockets fd },
  )
  received_from fd at_error c n = (error enomem, none, n)
  received_from fd at_timeout c n = (error enomem, none, n)

  unfoldable pub receive_from :
      ℕ → ℕ → Option Socket → Net W → Outcome (Result × Option NsorfCtx × Net W)
  receive_from fd len none n = ok (error einval, none, n)
  receive_from fd len (some s) n =
      let text =
        codes "AT+NSORF=" ++ print_int s.id ++ codes "," ++ print_int (asked len) ++ codes "\r\n" in
      if s.incoming_len == 0 then ok (would_block, none, n) else do
        (res, c, n1) ← ask text (atnsorf_decode libc (pos 0) [] (pos 0) len 0 0) n
        ok (received_from fd res c n1)

  -- `buf` has `len` bytes.
  unfoldable pub offload_recvfrom : ℕ → ℕ → Net W → Outcome (Result × Option NsorfCtx × Net W)
  offload_recvfrom sfd len n = do s ← socket_of n sfd; receive_from (sfd - 100) len s n

  -- The writes for the bytes of a packet.
  unfoldable pub write_hex : Bytes → W → W
  write_hex [] w = w
  write_hex (b ∷ bs) w = write_hex bs (write (to_hex (b / 16) ∷ to_hex (b % 16) ∷ []) w)

  unfoldable pub sent : ℕ → AtResult → Result
  sent len at_ok = done len
  sent len at_error = error enomem
  sent len at_timeout = error enomem

  unfoldable pub send_packet :
      Bytes → SockAddr → Option Bytes → Socket → Net W → Outcome (Result × Net W)
  send_packet buf to none s n = ok (error einval, n)
  send_packet buf to (some addr) s n =
      let text =
        codes "AT+NSOST="
        ++ print_int s.id
        ++ codes ",\""
        ++ addr
        ++ codes "\","
        ++ print_int (pos to.port)
        ++ codes ","
        ++ print_int (pos (length buf))
        ++ codes ",\"" in
      do
        cmd ← command_text text
        (res, _, w) ←
            receive libc line (atnsost_decode libc (negsuc 0) 0)
              (write (codes "\"\r") (write_hex buf (write cmd n.modem)))
        ok (sent (length buf) res, record n { modem = w })

  unfoldable pub send_to : Bytes → SockAddr → Option Socket → Net W → Outcome (Result × Net W)
  send_to buf to none n = ok (error einval, n)
  send_to buf to (some s) n =
      if ltb n2_max_packet_size (length buf)
      then ok (error einval, n)
      else send_packet buf to (inet_ntop to.address) s n

  unfoldable pub offload_sendto : ℕ → Bytes → SockAddr → Net W → Outcome (Result × Net W)
  offload_sendto sfd buf to n = do s ← socket_of n sfd; send_to buf to s n

  -- A connected socket without an address would be read through a null pointer.
  unfoldable pub send_connected : ℕ → Bytes → Option SockAddr → Net W → Outcome (Result × Net W)
  send_connected sfd buf none n = out_of_bounds
  send_connected sfd buf (some to) n = offload_sendto sfd buf to n

  unfoldable pub send_on : ℕ → Bytes → Option Socket → Net W → Outcome (Result × Net W)
  send_on sfd buf none n = ok (error einval, n)
  send_on sfd buf (some s) n =
      if not s.connected then ok (error enotconn, n) else send_connected sfd buf s.remote_addr n

  unfoldable pub offload_send : ℕ → Bytes → Net W → Outcome (Result × Net W)
  offload_send sfd buf n = do s ← socket_of n sfd; send_on sfd buf s n

  unfoldable pub receive_cb : ℤ → ℕ → Net W → Net W
  receive_cb fd bytes n = record n { sockets = add_incoming fd bytes n.sockets }
