-- ===== src/Main/Rounds/Sockets.antt =====
-- The sockets of the main loop of Firmware/src/main.c.
use air_quality_sensor_node.Base.{
  ℕ, ◌≡◌, refl, sym, ap, ◌∙◌, Bool, true, false, List, [], ◌∷◌, Option, none, some, count_past,
}
use air_quality_sensor_node.Base.Outcome.{ok, bind-eq-ok}
use air_quality_sensor_node.Fota.Response.{FotaResponse}
use air_quality_sensor_node.Fota.Update.Ledger.{Entry, handle, struck, struck-handle}
use air_quality_sensor_node.Fota.Update.Sockets.{Counted}
use air_quality_sensor_node.Main.{
  Surroundings, Node, Found, goes_on, fota_counter, receive_config, encode_sample, check_if_due,
  after_sending, send_sample, main_round, main_rounds, max_command_buffer,
}
use air_quality_sensor_node.Main.Sockets.{
  Accounted, receive_config-sockets, sample_sensors-sockets, check_if_due-sockets,
}
use air_quality_sensor_node.Main.Rounds.{not_late, unwind}

module _ {W F : Type 0} (s : Surroundings W F) (counted : Counted s.platform s.reporter)
    (accounted : Accounted s counted) where
  open counted use {sockets}
  open accounted use {
    sockets-none, sockets-some, sockets-shut, sockets-sendto, sockets-recvfrom, sockets-sleep,
    sockets-feed,
  }

  sending-sockets :
      (fuel : ℕ) (stale : FotaResponse) (sock : ℕ) (k : List Entry) (sent : W × Bool)
      (n n' : Node W F)
      → sockets sent.0 ≡ handle sock ∷ k
      → after_sending s fuel stale sock sent n ≡ ok (goes_on n')
      → sockets n'.world ≡ k
  unfolding after_sending
  sending-sockets fuel stale sock k (w, false) n n' h e = cc
  sending-sockets fuel stale sock k (w, true) n n' h e =
      let (interval, due) = count_past fota_counter n.fota_interval in
      let slept : Node W F = record n {
        fota_interval = interval;
        world = s.services.k_sleep 30000 w;
      } in
      let (n1, checked, e1) = bind-eq-ok (check_if_due s due fuel stale slept) _ e in
      let closed : Node W F = record n1 { world = s.services.close sock n1.world } in
      let same = not_late s closed n' (cc) in
      let still =
        check_if_due-sockets s counted accounted due fuel stale slept n1 checked
        ∙ sockets-sleep 30000 w
        ∙ h in
      rw (sym same)
        (sockets-shut sock n1.world ∙ ap (struck (handle sock)) still ∙ struck-handle sock k)

  send_sample-sockets :
      (fuel : ℕ) (found : Found F) (w0 : W) (opened : W × Option ℕ) (n n' : Node W F)
      → s.services.socket w0 ≡ opened
      → send_sample s fuel found opened n ≡ ok (goes_on n')
      → sockets n'.world ≡ sockets w0
  unfolding send_sample encode_sample
  send_sample-sockets fuel found w0 (w, none) n n' o e = cc
  send_sample-sockets fuel found w0 (w, some sock) n n' o e =
      sending-sockets fuel found.response sock (sockets w0) _ _ n'
        (sockets-sendto sock _ _ _
          ∙ sample_sensors-sockets s counted accounted found.fix _
          ∙ sockets-some w0 w sock o)
        e

  round-sockets :
      (fuel config_sock : ℕ) (found : Found F) (n n' : Node W F)
      → main_round s fuel config_sock found n ≡ ok (goes_on n')
      → sockets n'.world ≡ sockets n.world
  unfolding main_round
  round-sockets fuel config_sock found n n' e =
      let (n1, received, e1) = bind-eq-ok (receive_config s _ n) _ e in
      send_sample-sockets fuel found n1.world _ n1 n' refl e1
      ∙ receive_config-sockets s counted accounted _ n n1 received
      ∙ sockets-recvfrom config_sock max_command_buffer _
      ∙ sockets-feed n.world

  -- When rounds of the main loop go on, they have passed to `close` exactly what they opened.
  pub main_rounds-sockets :
      (fuel config_sock : ℕ) (founds : List (Found F)) (n n' : Node W F)
      → main_rounds s fuel config_sock founds n ≡ ok (goes_on n')
      → sockets n'.world ≡ sockets n.world
  unfolding main_rounds
  main_rounds-sockets fuel config_sock [] n n' e = let same : n ≡ n' = cc in rw same
  main_rounds-sockets fuel config_sock (found ∷ founds) n n' e =
      let (n1, first, later) = unwind s fuel config_sock found founds n n' e in
      main_rounds-sockets fuel config_sock founds n1 n' later
      ∙ round-sockets fuel config_sock found n n1 first
