-- ===== src/Main/Rounds.antt =====
-- Whole rounds of the main loop of Firmware/src/main.c.
pub mod Sockets
use air_quality_sensor_node.Base.{
  ℕ, suc, ◌+◌, ◌*◌, ◌/◌, ◌%◌, ◌^◌, ◌≤◌, ◌<◌, ◌≡◌, refl, sym, ◌∙◌, Bool, true, false, Bytes, List,
  [], ◌∷◌, length, Option, none, some, arith, count_past, count_past_lem, Bool-cases, inl, inr,
}
use air_quality_sensor_node.Base.Outcome.{ok, bind-eq-ok}
use air_quality_sensor_node.Config.Message.{decode_config_message}
use air_quality_sensor_node.Fota.Update.{fota_run}
use air_quality_sensor_node.Fota.Response.{FotaResponse}
use air_quality_sensor_node.Fota.Update.Sockets.{Counted}
use air_quality_sensor_node.Main.{
  Surroundings, Node, Found, Flow, goes_on, reboots, fota_counter, is_past_limit, configure,
  receive_config, sample_sensors, encode_sample, check_firmware, check_if_due, reboot_if_late,
  after_sending, send_sample, main_round, main_rounds, max_command_buffer,
}
use air_quality_sensor_node.Main.Sockets.{
  Accounted, receive_config-sockets, sample_sensors-sockets, check_if_due-sockets,
}

next_interval :
    (c k : ℕ) → c ≤ fota_counter → ((count_past fota_counter c).0 + k) % 17 ≡ (c + suc k) % 17
unfolding count_past
next_interval c k small = ground arith

module _ {W F : Type 0} (s : Surroundings W F) where
  -- A round that goes on has not passed the limit, and ends in what it has.
  pub not_late : (n n' : Node W F) → reboot_if_late s n ≡ goes_on n' → n ≡ n'
  unfolding reboot_if_late
  not_late n n' e = elim (Bool-cases (is_past_limit (s.services.k_uptime_get n.world))) [
    | inl late ↦
        let never : reboots (s.services.k_sleep 2000 n.world) ≡ goes_on n' = rw late at e in cc
    | inr early ↦ let goes : goes_on n ≡ goes_on n' = rw early at e in cc
  ]

  check-interval :
      (due : Bool) (fuel : ℕ) (stale : FotaResponse) (n n' : Node W F)
      → check_if_due s due fuel stale n ≡ ok n'
      → n'.fota_interval ≡ n.fota_interval
  unfolding check_if_due check_firmware
  check-interval false fuel stale n n' e = let same : n ≡ n' = cc in rw same
  check-interval true fuel stale n n' e =
      let (_, _, e') =
        bind-eq-ok (fota_run s.platform s.reporter s.flash_bank_size fuel s.build stale n.world) _
          e in
      cc

  sending-interval :
      (fuel : ℕ) (stale : FotaResponse) (sock : ℕ) (sent : W × Bool) (n n' : Node W F)
      → after_sending s fuel stale sock sent n ≡ ok (goes_on n')
      → n'.fota_interval ≡ (count_past fota_counter n.fota_interval).0
  unfolding after_sending
  sending-interval fuel stale sock (w, false) n n' e = cc
  sending-interval fuel stale sock (w, true) n n' e =
      let (interval, due) = count_past fota_counter n.fota_interval in
      let slept : Node W F = record n {
        fota_interval = interval;
        world = s.services.k_sleep 30000 w;
      } in
      let (n1, checked, e1) = bind-eq-ok (check_if_due s due fuel stale slept) _ e in
      let closed : Node W F = record n1 { world = s.services.close sock n1.world } in
      let same = not_late closed n' (cc) in
      rw (sym same) (check-interval due fuel stale slept n1 checked)

  send_sample-interval :
      (fuel : ℕ) (found : Found F) (opened : W × Option ℕ) (n n' : Node W F)
      → send_sample s fuel found opened n ≡ ok (goes_on n')
      → n'.fota_interval ≡ (count_past fota_counter n.fota_interval).0
  unfolding send_sample sample_sensors encode_sample
  send_sample-interval fuel found (w, none) n n' e = cc
  send_sample-interval fuel found (w, some sock) n n' e =
      sending-interval fuel found.response sock _ _ n' e

  receive_config-interval :
      (received : W × Option Bytes) (n n' : Node W F)
      → receive_config s received n ≡ ok n'
      → n'.fota_interval ≡ n.fota_interval
  unfolding receive_config configure
  receive_config-interval (w, none) n n' e =
      let same : n.fota_interval ≡ n'.fota_interval = cc in sym same
  receive_config-interval (w, some request) n n' e =
      let ((rc, n1), configured, e1) =
        bind-eq-ok (configure s request (record n { world = w })) _ e in
      let ((rc', stored), _, e2) =
        bind-eq-ok
          (decode_config_message s.nvs s.pb_decode request
            (record { current = n.current; flash = w }))
          _ configured in
      let here : n1 ≡ n' = cc in
      let there : n.fota_interval ≡ n1.fota_interval = cc in rw (sym here) (sym there)

  round-interval :
      (fuel config_sock : ℕ) (found : Found F) (n n' : Node W F)
      → main_round s fuel config_sock found n ≡ ok (goes_on n')
      → n'.fota_interval ≡ (count_past fota_counter n.fota_interval).0
  unfolding main_round
  round-interval fuel config_sock found n n' e =
      let (n1, received, e1) = bind-eq-ok (receive_config s _ n) _ e in
      rw (sym (receive_config-interval _ n n1 received))
        (send_sample-interval fuel found _ n1 n' e1)

  -- Rounds that go on are a round that goes on and the rounds behind it.
  unwind :
      (fuel config_sock : ℕ) (found : Found F) (founds : List (Found F)) (n n' : Node W F)
      → main_rounds s fuel config_sock (found ∷ founds) n ≡ ok (goes_on n')
      → (n1 : Node W F) × (main_round s fuel config_sock found n ≡ ok (goes_on n1))
        × (main_rounds s fuel config_sock founds n1 ≡ ok (goes_on n'))
  unfolding main_rounds
  unwind fuel config_sock found founds n n' e =
      let (flow, first, e1) = bind-eq-ok (main_round s fuel config_sock found n) _ e in
      later flow first e1
    where
      later :
          (flow : Flow W F)
          → main_round s fuel config_sock found n ≡ ok flow
          → (elim flow [
            | goes_on n1 ↦ main_rounds s fuel config_sock founds n1
            | reboots w ↦ ok (reboots w)
          ])
            ≡ ok (goes_on n')
          → (n1 : Node W F) × (main_round s fuel config_sock found n ≡ ok (goes_on n1))
            × (main_rounds s fuel config_sock founds n1 ≡ ok (goes_on n'))
      later (reboots w) first e1 = cc
      later (goes_on n1) first e1 = (n1, first, e1)

  -- If the rounds of the main loop go on, from a counter that is not past its limit, the counter of rounds
  -- without a check of the firmware has gone on by one in each of them, modulo 17.
  pub main_rounds-fota_interval :
      (fuel config_sock : ℕ) (founds : List (Found F)) (n n' : Node W F)
      → n.fota_interval ≤ fota_counter
      → main_rounds s fuel config_sock founds n ≡ ok (goes_on n')
      → n'.fota_interval ≡ (n.fota_interval + length founds) % 17
  unfolding main_rounds
  main_rounds-fota_interval fuel config_sock [] n n' small e =
      let same : n ≡ n' = cc in rw (sym same) (omega arith)
  main_rounds-fota_interval fuel config_sock (found ∷ founds) n n' small e =
      let (n1, first, later) = unwind fuel config_sock found founds n n' e in
      let counts = (round-interval fuel config_sock found n n1 first) in
      let (taken, within) = count_past_lem fota_counter n.fota_interval small in
      let rest = main_rounds-fota_interval fuel config_sock founds n1 n' (rw counts within) later in
      rest ∙ rw counts (next_interval n.fota_interval (length founds) small)
