-- ===== src/Tests/Network.antt =====
-- Concrete inputs for the replies of the modem and the sockets.
use air_quality_sensor_node.Base.{
  ◌≡◌, refl, true, false, [], ◌∷◌, ◌++◌, List, Bytes, none, some, codes, get_elem?, replicate,
  arith,
}
use air_quality_sensor_node.Base.Int.{ℤ, pos, negsuc}
use air_quality_sensor_node.Base.Libc.{is_space}
use air_quality_sensor_node.Base.Outcome.{ok, ◌>>=◌}
use air_quality_sensor_node.At.Input.{
  Callbacks, decode_input, read_all, read_byte, test_line, end_line, ok_line,
}
use air_quality_sensor_node.At.Input.Lines.{crlf, within, read_line, read_all-line}
use air_quality_sensor_node.At.Socket.{nsocr_callbacks, nsocr_eol, atnsocr_decode}
use air_quality_sensor_node.At.Receive.{NsorfCtx, init_nsorf_ctx}
use air_quality_sensor_node.At.Buffer.{b_add, b_is, is_prefix}
use air_quality_sensor_node.Modem.{receive}
use air_quality_sensor_node.Net.{
  modify, command_text, to_hex, Net, Socket, SockAddr, done, would_block, free_socket, valid_socket,
  find_free, modify, command_text, hex_text, offload_iface_init,
}
use air_quality_sensor_node.Net.Calls.{
  socket_of, connect_socket, create, created, ask, offload_socket, offload_connect,
  offload_recvfrom,
}
use air_quality_sensor_node.Net.Recv.{on_calls, offload_recv}
use air_quality_sensor_node.Net.Recv.Notified.{offload_recv_notified}
use air_quality_sensor_node.Net.Hex.{InPacket, collect, collect-hex_text}
use air_quality_sensor_node.Net.Invariant.{IsConsistent}
use air_quality_sensor_node.Net.Steps.{
  Reachable, start, after, socket, connect, reachable-IsConsistent,
}
use air_quality_sensor_node.Tests.Platform.{test_libc, test_format, replies}

abbrev creating : Callbacks ℤ
creating = nsocr_callbacks test_libc

read_all-line_example :
    read_all is_space creating
      (within is_space creating [] b' ' (negsuc 1))
      (codes "3" ++ (crlf ++ ok_line))
    ≡ (read_line is_space creating (negsuc 1) (codes "3") >>= λ fd.
        read_all is_space creating (within is_space creating [] b'\n' fd) ok_line)
read_all-line_example =
    read_all-line is_space creating (codes "3") ok_line b' ' (negsuc 1)
      ((omega arith, tt), (omega arith, tt)) (λ e. cc) (λ e. cc) (omega arith)

-- At the start of the fifth field.
abbrev in_field : NsorfCtx
in_field = record (init_nsorf_ctx test_libc (pos 1) [] (pos 5683) 512 0 0) { fieldno = 4 }

collect-hex_text_example :
    (c' : NsorfCtx) × (collect test_libc in_field (codes "01AB") ≡ ok c')
    × (c'.packet ≡ 1 ∷ 171 ∷ [])
    × (c'.received ≡ 2)
    × (c'.room ≡ 510)
    × InPacket test_libc c'
unfolding hex_text to_hex
collect-hex_text_example =
    collect-hex_text test_libc (1 ∷ 171 ∷ []) in_field (omega arith, (omega arith, tt))
      (record { in_data = refl; at_start = refl; goes_on = refl; has_room = refl }) (omega arith)

-- The first socket is created, as 3 on the modem.
abbrev before : Net (List Bytes)
before = offload_iface_init (codes "3\r\nOK\r\n" ∷ [])

abbrev opened : Socket
opened = record {
  id = pos 3;
  in_use = true;
  connected = false;
  local_port = 6000;
  incoming_len = 0;
  remote_addr = none;
}

abbrev behind : Net (List Bytes)
behind = record { sockets = opened ∷ replicate 6 free_socket; next_free_port = 6001; modem = [] }

opens : offload_socket test_libc test_format replies true true true before ≡ ok (done 100, behind)
unfolding offload_socket create created ask command_text receive find_free modify atnsocr_decode
    decode_input read_all read_byte test_line end_line nsocr_eol b_add b_is is_prefix
opens = refl

abbrev server : SockAddr
server = record { address = 10 ∷ 0 ∷ 0 ∷ 1 ∷ []; port = 1234 }

abbrev addressed : Socket
addressed = record opened { connected = true; remote_addr = some server }

abbrev connected_net : Net (List Bytes)
connected_net = record behind { sockets = addressed ∷ replicate 6 free_socket }

connects :
    offload_connect test_libc test_format replies 100 server true behind
    ≡ ok (done 0, connected_net)
unfolding offload_connect socket_of valid_socket connect_socket modify
connects = refl

connected_reached : Reachable test_libc test_format replies connected_net
connected_reached =
    after (after (start (codes "3\r\nOK\r\n" ∷ [])) (socket true true true opens))
      (connect 100 server true connects)

reachable-IsConsistent_example : IsConsistent connected_net.sockets
reachable-IsConsistent_example =
    reachable-IsConsistent test_libc test_format replies connected_reached

names : socket_of test_libc test_format replies connected_net 100 ≡ ok (some addressed)
unfolding socket_of valid_socket
names = refl

-- One sleep without news, then a notification of 12 bytes for the socket.
offload_recv_notified_example :
    let notified = on_calls test_libc test_format replies ((pos 3, pos 12) ∷ []) in
    (offload_recv test_libc test_format replies [] 100 512 true connected_net
      ≡ ok (would_block, none, connected_net))
    × (offload_recv test_libc test_format replies
          ((λ n. n) ∷ notified ∷ [])
          100
          512
          false
          connected_net
        ≡ offload_recvfrom test_libc test_format replies 100 512 (notified connected_net))
    × (get_elem? (notified connected_net).sockets 0 ≡ some (record addressed { incoming_len = 12 }))
offload_recv_notified_example =
    offload_recv_notified test_libc test_format replies 100 512 12 connected_net connected_net
      addressed addressed ((λ n. n) ∷ []) [] names refl refl (addressed, refl, refl, refl) refl refl
      (omega arith) (omega arith)
