-- ===== src/Main/Start/Sockets.antt =====
-- The sockets of the whole program of Firmware/src/main.c.
use air_quality_sensor_node.Base.{
  ℕ, ◌≡◌, refl, sym, ap, ◌∙◌, Bool, true, false, Bytes, List, [], ◌∷◌, if◌then◌else◌, Option, none,
  some,
}
use air_quality_sensor_node.Base.Libc.{Libc}
use air_quality_sensor_node.Base.Outcome.{Outcome, ok, bind-eq-ok}
use air_quality_sensor_node.Modem.{Line, try_apn}
use air_quality_sensor_node.Modem.Untouched.{LineKeeps, try_apn-keeps}
use air_quality_sensor_node.Config.{
  ApnConfig, Active, Selection, selected, rebooting, candidates, select_from, select_active_apn,
  select_ping_apn,
}
use air_quality_sensor_node.Config.Ping.{encode_ping, encoded}
use air_quality_sensor_node.Fota.Response.{FotaResponse}
use air_quality_sensor_node.Fota.Update.{fota_init, init_image}
use air_quality_sensor_node.Fota.Update.Ledger.{Entry, handle}
use air_quality_sensor_node.Fota.Update.Sockets.{Counted}
use air_quality_sensor_node.Main.{Surroundings, Node, Found, Flow, goes_on, reboots}
use air_quality_sensor_node.Main.Exchange.{do_the_hetzner_ping, ping_selected, ping_server}
use air_quality_sensor_node.Main.Sockets.{Accounted, check_firmware-sockets}
use air_quality_sensor_node.Main.Rounds.Sockets.{main_rounds-sockets}
use air_quality_sensor_node.Main.Exchange.Sockets.{AlwaysEncodes, left_open, ping_server-sockets}
use air_quality_sensor_node.Main.Start.{
  after_flow, with_selection, select_apn, first_check, listening, run_node,
}

module _ {W A : Type 0} (libc : Libc) (line : Line W) (f : W → A) (keep : LineKeeps line f) where
  select_from-keeps :
      (apns : List (Bytes × Bytes)) (a a' : Active W)
      → select_from libc line apns a ≡ ok (selected a')
      → f a'.modem ≡ f a.modem
  unfolding select_from
  select_from-keeps [] a a' e = cc
  select_from-keeps ((apn, coap) ∷ rest) a a' e =
      let ((ready, w), tried, e1) = bind-eq-ok (try_apn libc line apn a.modem) _ e in
      let next : Active W = record { apn = apn; coap = coap; modem = w } in
      behind ready next e1 (select_from-keeps rest next a')
      ∙ try_apn-keeps libc line f keep apn a.modem w ready tried
    where
      behind :
          (ready : Bool) (next : Active W)
          → (elim ready [ true ↦ ok (selected next) | false ↦ select_from libc line rest next ])
            ≡ ok (selected a')
          → (select_from libc line rest next ≡ ok (selected a') → f a'.modem ≡ f next.modem)
          → f a'.modem ≡ f next.modem
      behind true next e1 later = let same : next ≡ a' = cc in rw same
      behind false next e1 later = later e1

  select_ping-keeps :
      (c : ApnConfig) (a a' : Active W) (ready : Bool)
      → select_ping_apn libc line c a ≡ ok (ready, a')
      → f a'.modem ≡ f a.modem
  unfolding select_ping_apn
  select_ping-keeps c a a' ready e =
      let ((ready', w), tried, e1) = bind-eq-ok (try_apn libc line c.apn4 a.modem) _ e in
      let same : w ≡ a'.modem = cc in
      rw (sym same) (try_apn-keeps libc line f keep c.apn4 a.modem w ready' tried)

module _ {W F : Type 0} (s : Surroundings W F) (counted : Counted s.platform s.reporter)
    (accounted : Accounted s counted) (libc : Libc) (line : Line W)
    (keep : LineKeeps line counted.sockets) where
  open counted use {sockets}
  open accounted use {sockets-some, sockets-boot_write_img_confirmed}

  none_left :
      (r : Bytes × Bool) (sock : ℕ) (k : List Entry) → r.1 ≡ true → left_open (encoded r) sock k ≡ k
  unfolding encoded
  none_left (written, true) sock k e = refl
  none_left (written, false) sock k e = cc

  server-sockets :
      (m n' : Node W F)
      → AlwaysEncodes s
      → (o : W × Option ℕ) → s.services.socket m.world ≡ o
      → ping_server s o m ≡ ok (goes_on n')
      → sockets n'.world ≡ sockets m.world
  unfolding ping_server encode_ping
  server-sockets m n' encodes (w, none) o e = cc
  server-sockets m n' encodes (w, some sock) o e =
      ping_server-sockets s counted accounted m n' w sock o e
      ∙ none_left _ sock (sockets m.world) (encodes _ _)

  ping-sockets :
      (n n' : Node W F)
      → AlwaysEncodes s
      → do_the_hetzner_ping s libc line n ≡ ok (goes_on n')
      → sockets n'.world ≡ sockets n.world
  unfolding do_the_hetzner_ping ping_selected
  ping-sockets n n' encodes e =
      let before : Active W = record { apn = n.apn; coap = n.coap; modem = n.world } in
      let ((ready, a), tried, e1) = bind-eq-ok (select_ping_apn libc line n.current before) _ e in
      by_result ready (record n { apn = a.apn; coap = a.coap; world = a.modem }) e1
      ∙ select_ping-keeps libc line sockets keep n.current before a ready tried
    where
      by_result :
          (ready : Bool) (m : Node W F)
          → (elim ready [
            | true ↦ ping_server s (s.services.socket m.world) m
            | false ↦ ok (goes_on m)
          ])
            ≡ ok (goes_on n')
          → sockets n'.world ≡ sockets m.world
      by_result true m e1 = server-sockets m n' encodes _ refl e1
      by_result false m e1 = let same : m ≡ n' = cc in rw same

  select-sockets :
      (n n' : Node W F)
      → select_apn s libc line n ≡ ok (goes_on n')
      → sockets n'.world ≡ sockets n.world
  unfolding select_apn with_selection select_active_apn
  select-sockets n n' e =
      let before : Active W = record { apn = n.apn; coap = n.coap; modem = n.world } in
      let (selection, tried, e1) = bind-eq-ok (select_active_apn libc line n.current before) _ e in
      by_selection selection tried e1
    where
      by_selection :
          (selection : Selection W)
          → select_from libc line
              (candidates n.current)
              (record { apn = n.apn; coap = n.coap; modem = n.world })
            ≡ ok selection
          → ok (with_selection s selection n) ≡ ok (goes_on n')
          → sockets n'.world ≡ sockets n.world
      by_selection (rebooting a) tried e1 = cc
      by_selection (selected a) tried e1 =
          let same : a.modem ≡ n'.world = cc in
          rw (sym same) (select_from-keeps libc line sockets keep _ _ a tried)

  first_check-sockets :
      (fuel : ℕ) (stale : FotaResponse) (n n' : Node W F)
      → first_check s fuel stale n ≡ ok n'
      → sockets n'.world ≡ sockets n.world
  unfolding first_check fota_init init_image
  first_check-sockets fuel stale n n' e =
      check_firmware-sockets s counted accounted fuel stale _ n' e
      ∙ initialised (s.reporter.boot_is_img_confirmed n.world)
    where
      initialised :
          (confirmed : Bool)
          → sockets
              (if confirmed then (n.world, true) else s.reporter.boot_write_img_confirmed n.world).0
            ≡ sockets n.world
      initialised true = refl
      initialised false = sockets-boot_write_img_confirmed n.world

  listening-sockets :
      (fuel : ℕ) (founds : List (Found F)) (n n' : Node W F) (o : W × Option ℕ)
      → s.services.socket n.world ≡ o
      → listening s fuel founds o n ≡ ok (goes_on n')
      → (sock : ℕ) × (sockets n'.world ≡ handle sock ∷ sockets n.world)
  unfolding listening
  listening-sockets fuel founds n n' (w, none) o e = cc
  listening-sockets fuel founds n n' (w, some sock) o e = (
    sock,
    main_rounds-sockets s counted accounted fuel sock founds _ n' e ∙ sockets-some n.world w sock o,
  )

  flow-goes_on :
      (flow : Flow W F) (next : Node W F → Outcome (Flow W F)) (n' : Node W F)
      → after_flow s flow next ≡ ok (goes_on n')
      → (n : Node W F) × (flow ≡ goes_on n) × (next n ≡ ok (goes_on n'))
  unfolding after_flow
  flow-goes_on (goes_on n) next n' e = (n, refl, e)
  flow-goes_on (reboots w) next n' e = cc

  -- Of the sockets that the start of the program and the rounds of the main loop open, all but one are
  -- passed to `close`, if a message to the configuration server can always be encoded.
  pub run_node-sockets :
      (fuel : ℕ) (stale : FotaResponse) (founds : List (Found F)) (n n' : Node W F)
      → AlwaysEncodes s
      → run_node s libc line fuel stale founds n ≡ ok (goes_on n')
      → (sock : ℕ) × (sockets n'.world ≡ handle sock ∷ sockets n.world)
  unfolding run_node
  run_node-sockets fuel stale founds n n' encodes e =
      let (pinged, exchange, e1) = bind-eq-ok (do_the_hetzner_ping s libc line n) _ e in
      let (n1, on1, e2) = flow-goes_on pinged _ n' e1 in
      let (chosen, selection, e3) = bind-eq-ok (select_apn s libc line n1) _ e2 in
      let (n2, on2, e4) = flow-goes_on chosen _ n' e3 in
      let (n3, checked, e5) = bind-eq-ok (first_check s fuel stale n2) _ e4 in
      let (sock, listens) = listening-sockets fuel founds n3 n' _ refl e5 in
      (
        sock,
        listens
            ∙ ap (λ (xs : List Entry). handle sock ∷ xs)
                (first_check-sockets fuel stale n2 n3 checked
                  ∙ select-sockets n1 n2 (selection ∙ ap ok on2)
                  ∙ ping-sockets n n1 encodes (exchange ∙ ap ok on1)),
      )
