-- ===== src/Main.antt =====
-- The program itself: Firmware/src/main.c. Here are the rounds of the main loop, and Exchange and Start
-- have what comes before them. All devices, the sockets and the clock are one
-- state `W`, which the drivers of the other parts work on.
pub mod Sockets
pub mod Rounds
pub mod Exchange
pub mod Start
pub mod Watching
use air_quality_sensor_node.Base.{
  ℕ, zero, suc, ◌+◌, ◌*◌, ◌/◌, ◌%◌, ◌^◌, Bool, true, false, not, ◌&&◌, [], ◌∷◌, ◌++◌, Bytes, List,
  ltb, if◌then◌else◌, length, take, drop, Option, none, some, count_past,
}
use air_quality_sensor_node.Base.Int.{ℤ, pos, eq_int}
use air_quality_sensor_node.Base.Libc.{Libc}
use air_quality_sensor_node.Base.Outcome.{Outcome, ok, ◌>>=◌}
use air_quality_sensor_node.Opc.Command.{Drivers}
use air_quality_sensor_node.Opc.Command
use air_quality_sensor_node.Board.Adc.{Bus}
use air_quality_sensor_node.Board.Adc
use air_quality_sensor_node.Board.Humidity.{Arithmetic, Wire, cc2_sample_data}
use air_quality_sensor_node.Gps.Cache.{GpsFix}
use air_quality_sensor_node.Message.{Cc2Sample, SensorNodeMessage, Encoder, mb_encode}
use air_quality_sensor_node.Modem.{Line}
use air_quality_sensor_node.Config.{ApnConfig, Nvs, Stored, Active, Selection, select_ping_apn}
use air_quality_sensor_node.Config.Message.{SetApn, decode_config_message}
use air_quality_sensor_node.Config.Ping.{Ping, encode_ping}
use air_quality_sensor_node.Fota.Response.{FotaResponse}
use air_quality_sensor_node.Fota.Download.{Platform}
use air_quality_sensor_node.Fota.Update.{Reporter, Build, fota_run}

abbrev pub send_interval_sec : ℕ
send_interval_sec = 30

abbrev pub fota_check_interval_sec : ℕ
fota_check_interval_sec = 500

abbrev pub fota_counter : ℕ
fota_counter = fota_check_interval_sec / send_interval_sec

abbrev pub max_send_buffer : ℕ
max_send_buffer = 450

abbrev pub max_command_buffer : ℕ
max_command_buffer = 256

abbrev pub ping_buffer_size : ℕ
ping_buffer_size = 128

abbrev pub ping_retries : ℕ
ping_retries = 30

abbrev pub ping_retry_delay_ms : ℕ
ping_retry_delay_ms = 3000

abbrev pub uptime_force_reboot_limit_seconds : ℕ
uptime_force_reboot_limit_seconds = 7200

-- What main.c calls of Zephyr: datagram sockets, which go to port 1234 of an address, the clock and the
-- watchdog. `socket` gives nothing where its result is negative, `recvfrom`, which takes the size of
-- the buffer, where its result is not positive, and `net_addr_pton` where it fails.
pub record Services (W : Type 0) : Type 0 where
  pub socket : W → W × Option ℕ
  pub close : ℕ → W → W
  pub sendto : ℕ → ℕ → Bytes → W → W × Bool
  pub recvfrom : ℕ → ℕ → W → W × Option Bytes
  pub net_addr_pton : Bytes → Option ℕ
  pub k_sleep : ℕ → W → W
  pub k_uptime_get : W → ℕ
  pub wdt_feed : W → W

-- Everything behind the program, and the texts that the build and the modem set.
pub record Surroundings (W F : Type 0) : Type 0 where
  pub services : Services W
  pub drivers : Drivers W
  pub bus : Bus W
  pub wire : Wire W
  pub arithmetic : Arithmetic F
  pub encoder : Encoder F
  pub nvs : Nvs W
  pub pb_decode : Bytes → Option SetApn
  pub pb_encode_ping : ℕ → Ping → Bytes × Bool
  pub platform : Platform W
  pub reporter : Reporter W
  pub flash_bank_size : ℕ
  pub build : Build
  pub client_version : Bytes
  pub imei : Bytes

-- What the program keeps: CURRENT_APN_CONFIG, CURRENT_APN_BUFFER, CURRENT_COAP_BUFFER, the sample of
-- chipcap2.c, `ping_id`, the static `buffer`, `remote_addr_ping` and `remote_addr`, and
-- `fota_interval`.
pub record Node (W F : Type 0) : Type 0 where
  pub current : ApnConfig
  pub apn : Bytes
  pub coap : Bytes
  pub cc2 : Cc2Sample F
  pub ping_id : ℕ
  pub buffer : Bytes
  pub remote_addr_ping : ℕ
  pub remote_addr : ℕ
  pub fota_interval : ℕ
  pub world : W

-- What a round of the main loop finds: the position that the thread of gps.c holds, and what the stack
-- holds where `fota_run` takes its response from.
pub record Found (F : Type 0) : Type 0 where
  pub fix : GpsFix F
  pub response : FotaResponse

-- A part of the program goes on, or ends in `sys_reboot`.
pub data Flow (W F : Type 0) : Type 0 where
  goes_on : Node W F → Flow W F
  reboots : W → Flow W F

-- `net_addr_pton` leaves the address where it fails.
unfoldable pub resolved : Option ℕ → ℕ → ℕ
resolved none old = old
resolved (some a) old = a

-- `uptime_seconds > UPTIME_FORCE_REBOOT_LIMIT_SECONDS`, of the milliseconds in an `int`.
unfoldable pub is_past_limit : ℕ → Bool
is_past_limit uptime =
    let seconds = uptime / 1000 % 2 ^ 32 in
    ltb seconds (2 ^ 31) && ltb uptime_force_reboot_limit_seconds seconds

module _ {W F : Type 0} (s : Surroundings W F) where
  open s use {services, imei}
  open services use {
    socket, close, sendto, recvfrom, net_addr_pton, k_sleep, k_uptime_get, wdt_feed,
  }

  -- The result of `decode_config_message`.
  unfoldable pub configure : Bytes → Node W F → Outcome (ℤ × Node W F)
  configure request n = do
    (rc, stored) ←
        decode_config_message s.nvs s.pb_decode request
          (record { current = n.current; flash = n.world })
    ok (rc, record n { current = stored.current; world = stored.flash })

  -- The request on the socket for them, if there is one; its result is not used.
  unfoldable pub receive_config : W × Option Bytes → Node W F → Outcome (Node W F)
  unfolding configure
  receive_config (w, none) n = ok (record n { world = w })
  receive_config (w, some request) n = do
    (_, n') ← configure request (record n { world = w })
    ok n'

  -- The samples in turn; the position is what the thread of gps.c holds then.
  unfoldable pub sample_sensors : GpsFix F → Node W F → SensorNodeMessage F × Node W F
  sample_sensors fix n =
      let (w1, opc_sample) = Command.sample_data s.drivers n.world in
      let (w2, afe3_sample) = Adc.sample_data s.bus w1 in
      let (w3, cc2_sample) = cc2_sample_data s.arithmetic s.wire n.cc2 w2 in
      (
        record {
          gps_fix = fix;
          cc2_sample = cc2_sample;
          opc_sample = opc_sample;
          afe3_sample = afe3_sample;
          uptime = k_uptime_get w3 / 1000 % 2 ^ 64;
        },
        record n { cc2 = cc2_sample; world = w3 },
      )

  -- The message in `buffer`, and the bytes of it that are sent.
  unfoldable pub encode_sample : SensorNodeMessage F → Node W F → Bytes × Node W F
  encode_sample message n =
      let (front, len) = mb_encode s.encoder s.client_version imei message max_send_buffer in
      let buffer = front ++ drop max_send_buffer n.buffer in
      (take len buffer, record n { buffer = buffer })

  -- What `fota_run` leaves; `fuel` is the number of blocks.
  unfoldable pub check_firmware : ℕ → FotaResponse → Node W F → Outcome (Node W F)
  check_firmware fuel stale n = do
    (w, updated) ← fota_run s.platform s.reporter s.flash_bank_size fuel s.build stale n.world
    ok (record n { world = if updated then k_sleep 1000 w else w })

  unfoldable pub check_if_due : Bool → ℕ → FotaResponse → Node W F → Outcome (Node W F)
  unfolding check_firmware
  check_if_due true fuel stale n = check_firmware fuel stale n
  check_if_due false fuel stale n = ok n

  -- The end of a round.
  unfoldable pub reboot_if_late : Node W F → Flow W F
  reboot_if_late n =
      if is_past_limit (k_uptime_get n.world) then reboots (k_sleep 2000 n.world) else goes_on n

  -- Behind `sendto`.
  unfoldable pub after_sending : ℕ → FotaResponse → ℕ → W × Bool → Node W F → Outcome (Flow W F)
  unfolding check_if_due
  after_sending fuel stale sock (w, false) n = ok (reboots (k_sleep 5000 w))
  after_sending fuel stale sock (w, true) n =
      let (interval, due) = count_past fota_counter n.fota_interval in
      let slept = k_sleep (send_interval_sec * 1000) w in
      check_if_due due fuel stale (record n { fota_interval = interval; world = slept }) >>= λ n'.
      ok (reboot_if_late (record n' { world = close sock n'.world }))

  -- Behind `socket`.
  unfoldable pub send_sample : ℕ → Found F → W × Option ℕ → Node W F → Outcome (Flow W F)
  unfolding after_sending
  send_sample fuel found (w, none) n = ok (reboots (k_sleep 1000 w))
  send_sample fuel found (w, some sock) n =
      let addr = resolved (net_addr_pton n.coap) n.remote_addr in
      let (message, n1) = sample_sensors found.fix (record n { remote_addr = addr; world = w }) in
      let (bytes, n2) = encode_sample message n1 in
      after_sending fuel found.response sock (sendto sock addr bytes n2.world) n2

  -- A round of the main loop.
  unfoldable pub main_round : ℕ → ℕ → Found F → Node W F → Outcome (Flow W F)
  main_round fuel config_sock found n = do
    n' ← receive_config (recvfrom config_sock max_command_buffer (wdt_feed n.world)) n
    send_sample fuel found (socket n'.world) n'

  -- Rounds one after another, each with what it finds, until one reboots.
  unfoldable pub main_rounds : ℕ → ℕ → List (Found F) → Node W F → Outcome (Flow W F)
  main_rounds fuel config_sock [] n = ok (goes_on n)
  main_rounds fuel config_sock (found ∷ founds) n = do
    flow ← main_round fuel config_sock found n
    elim flow [ goes_on n' ↦ main_rounds fuel config_sock founds n' | reboots w ↦ ok (reboots w) ]
