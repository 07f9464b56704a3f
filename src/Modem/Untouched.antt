-- ===== src/Modem/Untouched.antt =====
-- What the serial line leaves alone the trial of an APN (`select_active_apn` and `select_ping_apn` of
-- Firmware/src/config.c, with the queries of comms.c) leaves alone.
use air_quality_sensor_node.Base.{ℕ, zero, suc, ◌≡◌, sym, ◌∙◌, Bool, true, false, Bytes, codes}
use air_quality_sensor_node.Base.Libc.{Libc}
use air_quality_sensor_node.Base.Outcome.{Outcome, ok, bind-eq-ok}
use air_quality_sensor_node.At.Input.{AtResult}
use air_quality_sensor_node.At.Address.{atcgpaddr_decode}
use air_quality_sensor_node.At.Socket.{at_decode}
use air_quality_sensor_node.Modem.{
  Line, receive, modem_is_ready, generic_answer, define_context, modem_configure, modem_restart,
  wait_until_ready, try_apn, apn_retry_delay, apn_query_retry_count,
}

-- What no call of the line changes.
pub record LineKeeps {W A : Type 0} (line : Line W) (f : W → A) : Type 0 where
  pub write_keeps : (cmd : Bytes) (w : W) → f (line.write cmd w) ≡ f w
  pub left_unread_keeps : (rest : Bytes) (w : W) → f (line.left_unread rest w) ≡ f w
  pub sleep_keeps : (t : ℕ) (w : W) → f (line.sleep t w) ≡ f w

module _ {W A : Type 0} (libc : Libc) (line : Line W) (f : W → A) (keep : LineKeeps line f) where
  open keep use {write_keeps, left_unread_keeps, sleep_keeps}

  receive-keeps :
      {R : Type 0} (decode : Bytes → Outcome (AtResult × R × Bytes)) (w w' : W) (res : AtResult)
      (r : R)
      → receive libc line decode w ≡ ok (res, r, w')
      → f w' ≡ f w
  unfolding receive
  receive-keeps decode w w' res r e =
      let ((_, _, rest), _, e1) = bind-eq-ok (decode (line.readable w)) _ e in
      let same : line.left_unread rest w ≡ w' = cc in rw (sym same) (left_unread_keeps rest w)

  ready-keeps : (w w' : W) (ready : Bool) → modem_is_ready libc line w ≡ ok (ready, w') → f w' ≡ f w
  unfolding modem_is_ready
  ready-keeps w w' ready e =
      let asked = line.write (codes "AT+CGPADDR\r") w in
      let ((res, c, w1), received, e1) =
        bind-eq-ok (receive libc line (atcgpaddr_decode libc.isspace 16 0) asked) _ e in
      let same : w1 ≡ w' = cc in
      rw (sym same) (receive-keeps _ asked w1 res c received ∙ write_keeps _ w)

  answer-keeps : (w w' : W) → generic_answer libc line w ≡ ok w' → f w' ≡ f w
  unfolding generic_answer
  answer-keeps w w' e =
      let ((res, c, w1), received, e1) = bind-eq-ok (receive libc line (at_decode libc) w) _ e in
      let same : w1 ≡ w' = cc in rw (sym same) (receive-keeps _ w w1 res c received)

  configure-keeps : (apn : Bytes) (w w' : W) → modem_configure libc line apn w ≡ ok w' → f w' ≡ f w
  unfolding modem_configure
  configure-keeps apn w w' e =
      let (text, _, e1) = bind-eq-ok (define_context apn) _ e in
      let (w1, first, e2) = bind-eq-ok (generic_answer libc line (line.write text w)) _ e1 in
      let auto = line.write (codes "AT+NCONFIG=\"AUTOCONNECT\",\"TRUE\"\r") w1 in
      let (w2, second, e3) = bind-eq-ok (generic_answer libc line auto) _ e2 in
      let same : line.sleep 1000 w2 ≡ w' = cc in
      rw (sym same) (
        sleep_keeps 1000 w2
        ∙ answer-keeps auto w2 second
        ∙ write_keeps _ w1
        ∙ answer-keeps _ w1 first
        ∙ write_keeps text w)

  restart-keeps : (w w' : W) (port : ℕ) → modem_restart libc line w ≡ ok (w', port) → f w' ≡ f w
  unfolding modem_restart
  restart-keeps w w' port e =
      let (w1, answered, e1) =
        bind-eq-ok (generic_answer libc line (line.write (codes "AT+NRB\r") w)) _ e in
      let same : w1 ≡ w' = cc in rw (sym same) (answer-keeps _ w1 answered ∙ write_keeps _ w)

  wait-keeps : (left : ℕ) (w w' : W) → wait_until_ready libc line left w ≡ ok w' → f w' ≡ f w
  unfolding wait_until_ready
  wait-keeps zero w w' e =
      let ((ready, w1), asked, e1) = bind-eq-ok (modem_is_ready libc line w) _ e in
      let same : w1 ≡ w' = cc in rw (sym same) (ready-keeps w w1 ready asked)
  wait-keeps (suc left) w w' e =
      let ((ready, w1), asked, e1) = bind-eq-ok (modem_is_ready libc line w) _ e in
      behind ready w1 (ready-keeps w w1 ready asked) e1
        (wait-keeps left (line.sleep apn_retry_delay w1) w')
    where
      behind :
          (ready : Bool) (w1 : W)
          → f w1 ≡ f w
          → (elim ready [
            | true ↦ ok w1
            | false ↦ wait_until_ready libc line left (line.sleep apn_retry_delay w1)
          ])
            ≡ ok w'
          → (wait_until_ready libc line left (line.sleep apn_retry_delay w1) ≡ ok w'
              → f w' ≡ f (line.sleep apn_retry_delay w1))
          → f w' ≡ f w
      behind true w1 h e1 later = let same : w1 ≡ w' = cc in rw (sym same) h
      behind false w1 h e1 later = later e1 ∙ sleep_keeps apn_retry_delay w1 ∙ h

  pub try_apn-keeps :
      (apn : Bytes) (w w' : W) (ready : Bool)
      → try_apn libc line apn w ≡ ok (ready, w')
      → f w' ≡ f w
  unfolding try_apn
  try_apn-keeps apn w w' ready e =
      let ((w1, port), restarted, e1) = bind-eq-ok (modem_restart libc line w) _ e in
      let (w2, configured, e2) = bind-eq-ok (modem_configure libc line apn w1) _ e1 in
      let (w3, waited, e3) =
        bind-eq-ok (wait_until_ready libc line apn_query_retry_count w2) _ e2 in
      ready-keeps w3 w' ready e3
      ∙ wait-keeps apn_query_retry_count w2 w3 waited
      ∙ configure-keeps apn w1 w2 configured
      ∙ restart-keeps w w1 port restarted
