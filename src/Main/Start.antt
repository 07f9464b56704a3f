-- ===== src/Main/Start.antt =====
-- The start of Firmware/src/main.c: `watchdog_init`, and `main` behind `wait_for_sockets`.
pub mod Sockets
use air_quality_sensor_node.Base.{ℕ, Bool, true, false, List, if◌then◌else◌, Option, none, some}
use air_quality_sensor_node.Base.Int.{ℤ, pos, is_negative, eq_int}
use air_quality_sensor_node.Base.Libc.{Libc}
use air_quality_sensor_node.Base.Outcome.{Outcome, ok, ◌>>=◌}
use air_quality_sensor_node.Modem.{Line}
use air_quality_sensor_node.Config.{Active, Selection, selected, rebooting, select_active_apn}
use air_quality_sensor_node.Fota.Response.{FotaResponse}
use air_quality_sensor_node.Fota.Update.{fota_init}
use air_quality_sensor_node.Main.{
  Surroundings, Node, Found, Flow, goes_on, reboots, check_firmware, main_rounds,
}
use air_quality_sensor_node.Main.Exchange.{do_the_hetzner_ping}

-- Zephyr's watchdog: `wdt_install_timeout`, whose first argument is whether there is a callback, gives a
-- channel or a negative error, and `wdt_setup` an error that is only logged.
pub record Watchdog (W : Type 0) : Type 0 where
  pub device_get_binding : W → W × Bool
  pub wdt_install_timeout : Bool → W → W × ℤ
  pub wdt_setup : W → W
  pub enotsup : ℤ

-- `wdt`, which is NULL without a device, and `wdt_channel_id`.
pub record WatchdogState : Type 0 where
  pub bound : Bool
  pub channel : ℤ

module _ {W : Type 0} (watchdog : Watchdog W) where
  open watchdog use {device_get_binding, wdt_install_timeout, wdt_setup, enotsup}

  -- Behind the first call: a driver without callbacks is asked again without one.
  unfoldable pub install_again : W × ℤ → W × ℤ
  install_again (w, channel) =
      let again = wdt_install_timeout false w in
      if eq_int channel enotsup then again else (w, channel)

  unfoldable pub installed : W × ℤ → W × WatchdogState
  installed (w, channel) =
      (if is_negative channel then w else wdt_setup w, record { bound = true; channel = channel })

  -- Behind the binding; `wdt_channel_id` is 0 before it is set.
  unfoldable pub bound_watchdog : W × Bool → W × WatchdogState
  unfolding install_again installed
  bound_watchdog (w, false) = (w, record { bound = false; channel = pos 0 })
  bound_watchdog (w, true) = installed (install_again (wdt_install_timeout true w))

  unfoldable pub watchdog_init : W → W × WatchdogState
  unfolding bound_watchdog
  watchdog_init w = bound_watchdog (device_get_binding w)

module _ {W F : Type 0} (s : Surroundings W F) where
  open s use {services}
  open services use {socket, k_sleep}

  unfoldable pub after_flow : Flow W F → (Node W F → Outcome (Flow W F)) → Outcome (Flow W F)
  after_flow (goes_on n) next = next n
  after_flow (reboots w) next = ok (reboots w)

  unfoldable pub with_selection : Selection W → Node W F → Flow W F
  with_selection (selected a) n = goes_on (record n { apn = a.apn; coap = a.coap; world = a.modem })
  with_selection (rebooting a) n = reboots a.modem

  unfoldable pub select_apn : Libc → Line W → Node W F → Outcome (Flow W F)
  select_apn libc line n = do
    selection ←
        select_active_apn libc line n.current
          (record { apn = n.apn; coap = n.coap; modem = n.world })
    ok (with_selection selection n)

  -- The result of `fota_init` is not used.
  unfoldable pub first_check : ℕ → FotaResponse → Node W F → Outcome (Node W F)
  first_check fuel stale n =
      let initialised = (fota_init s.platform s.reporter s.flash_bank_size n.world).0 in
      check_firmware s fuel stale (record n { world = initialised })

  -- Behind `socket`: the loop, which begins with `fota_interval` 0.
  unfoldable pub listening : ℕ → List (Found F) → W × Option ℕ → Node W F → Outcome (Flow W F)
  listening fuel founds (w, none) n = ok (reboots (k_sleep 1000 w))
  listening fuel founds (w, some sock) n =
      main_rounds s fuel sock founds (record n { world = w; fota_interval = 0 })

  -- `stale` is what the stack holds at the first `fota_run`; `founds` are the rounds.
  unfoldable pub run_node :
      Libc → Line W → ℕ → FotaResponse → List (Found F) → Node W F → Outcome (Flow W F)
  unfolding listening
  run_node libc line fuel stale founds n = do
    pinged ← do_the_hetzner_ping s libc line n
    after_flow pinged λ n1. select_apn libc line n1 >>= λ chosen.
        after_flow chosen
          λ n2. first_check fuel stale n2 >>= λ n3. listening fuel founds (socket n3.world) n3
