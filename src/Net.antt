-- ===== src/Net.antt =====
-- `n2_offload.c`: the sockets that the modem carries. Each call holds `mdm_sem` from its first access
-- to a socket to its last, so the calls are steps on one state.
pub mod Sockets
pub mod Hex
pub mod Calls
pub mod Invariant
pub mod Steps
pub mod Recv
use air_quality_sensor_node.Base.{
  ℕ, zero, suc, ◌+◌, ◌-◌, ◌*◌, ◌/◌, ◌%◌, ◌^◌, ◌<◌, Bool, true, false, not, ◌&&◌, ◌||◌, [], ◌∷◌,
  ◌++◌, Bytes, List, codes, ltb, leb, ◌==◌, if◌then◌else◌, length, get_elem?, set, replicate,
  Option, none, some,
}
use air_quality_sensor_node.Base.Libc.{Libc}
use air_quality_sensor_node.Base.Int.{ℤ, pos, negsuc, eq_int}
use air_quality_sensor_node.Base.Outcome.{Outcome, ok, out_of_bounds, ◌>>=◌, in_bounds}
use air_quality_sensor_node.At.Input.{AtResult, at_ok}
use air_quality_sensor_node.At.Socket.{at_decode, atnsocr_decode, atnsost_decode}
use air_quality_sensor_node.At.Receive.{NsorfCtx, atnsorf_decode}
use air_quality_sensor_node.Modem.{Line, receive, default_port}

abbrev pub mdm_max_sockets : ℕ
mdm_max_sockets = 7

abbrev pub max_receive : ℕ
max_receive = 512

abbrev pub n2_max_packet_size : ℕ
n2_max_packet_size = 512

-- `struct sockaddr_in`: the four bytes of the address and the port, in the host's order.
pub record SockAddr : Type 0 where
  pub address : Bytes
  pub port : ℕ

-- `struct n2_socket`
pub record Socket : Type 0 where
  pub id : ℤ
  pub in_use : Bool
  pub connected : Bool
  pub local_port : ℕ
  pub incoming_len : ℕ
  pub remote_addr : Option SockAddr

-- The static variables, and the modem.
pub record Net (W : Type 0) : Type 0 where
  pub sockets : List Socket
  pub next_free_port : ℕ
  pub modem : W

-- The negative results; `would_block` is a result 0 with `errno` set.
pub data Errno : Type 0 where
  einval enomem eisconn enotconn eafnosupport enotsup : Errno

pub data Result : Type 0 where
  done : ℕ → Result
  would_block : Result
  error : Errno → Result

-- `TO_HEX`
unfoldable pub to_hex : ℕ → ℕ
to_hex i = if leb i 9 then b'0' + i else b'A' - 10 + i

-- What `offload_sendto` writes for the bytes of a packet; `char` has no sign.
unfoldable pub hex_text : Bytes → Bytes
hex_text [] = []
hex_text (b ∷ bs) = to_hex (b / 16) ∷ to_hex (b % 16) ∷ hex_text bs

abbrev pub free_socket : Socket
free_socket = record {
  id = negsuc 0;
  in_use = false;
  connected = false;
  local_port = 0;
  incoming_len = 0;
  remote_addr = none;
}

-- `VALID_SOCKET`, which reads the table also for `100 + MDM_MAX_SOCKETS`; `s` is not negative.
unfoldable pub valid_socket : List Socket → ℕ → Outcome Bool
valid_socket sockets s =
    if leb 100 s && leb s (100 + mdm_max_sockets)
    then (in_bounds (get_elem? sockets (s - 100)) >>= λ sock. ok sock.in_use)
    else ok false

abbrev pub next_index : Option ℕ → Option ℕ
next_index none = none
next_index (some i) = some (suc i)

-- The loop of `offload_socket`: the first socket that is not in use.
unfoldable pub find_free : List Socket → Option ℕ
find_free [] = none
find_free (s ∷ ss) = let later = next_index (find_free ss) in if not s.in_use then some 0 else later

unfoldable pub modify : (Socket → Socket) → List Socket → ℕ → List Socket
modify f [] i = []
modify f (s ∷ ss) zero = f s ∷ ss
modify f (s ∷ ss) (suc i) = s ∷ modify f ss i

-- The loop of `receive_cb`. `incoming_len` has 32 bits.
unfoldable pub add_incoming : ℤ → ℕ → List Socket → List Socket
add_incoming fd bytes [] = []
add_incoming fd bytes (s ∷ ss) =
    (if eq_int s.id fd then record s { incoming_len = (s.incoming_len + bytes) % 2 ^ 32 } else s)
    ∷ add_incoming fd bytes ss

-- `sprintf` into `modem_command_buffer`, with a zero behind the text.
unfoldable pub command_text : Bytes → Outcome Bytes
command_text text = if ltb (length text) 64 then ok text else out_of_bounds

-- What `sprintf` writes for `%d`, and `inet_ntop` for an address.
pub record Format : Type 0 where
  pub print_int : ℤ → Bytes
  pub inet_ntop : Bytes → Option Bytes

-- `revents`
pub data Events : Type 0 where
  pollnval pollout pollout_pollin : Events

-- The table as `offload_iface_init` leaves it, and the port of n2_offload.h.
abbrev pub offload_iface_init : {W : Type 0} → W → Net W
offload_iface_init w = record {
  sockets = replicate mdm_max_sockets free_socket;
  next_free_port = default_port;
  modem = w;
}
