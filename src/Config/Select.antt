-- ===== src/Config/Select.antt =====
-- Which APN `select_active_apn` chooses.
use air_quality_sensor_node.Base.{◌≡◌, true, false, [], ◌∷◌, ◌++◌, Bytes, List}
use air_quality_sensor_node.Base.Outcome.{ok}
use air_quality_sensor_node.Base.Libc.{Libc}
use air_quality_sensor_node.Modem.{Line, try_apn}
use air_quality_sensor_node.Config.{
  ApnConfig, Active, selected, rebooting, select_from, select_active_apn,
}

module _ {W : Type 0} (libc : Libc) (line : Line W) where
  open line use {sleep}

  -- The APNs of `tried` are tried in order from the first modem state to the last, and none works.
  pub data AllFail : List (Bytes × Bytes) → W → W → Type 0 where
    none_tried : (w : W) → AllFail [] w w
    next_fails :
        (apn coap : Bytes) {tried : List (Bytes × Bytes)} {w w1 w' : W}
        → try_apn libc line apn w ≡ ok (false, w1)
        → AllFail tried w1 w'
        → AllFail ((apn, coap) ∷ tried) w w'

  select_from-AllFail :
      (tried : List (Bytes × Bytes)) (apn coap : Bytes) (rest : List (Bytes × Bytes)) (a : Active W)
      (w' w'' : W)
      → AllFail tried a.modem w'
      → try_apn libc line apn w' ≡ ok (true, w'')
      → select_from libc line (tried ++ (apn, coap) ∷ rest) a
        ≡ ok (selected (record { apn = apn; coap = coap; modem = w'' }))
  unfolding select_from
  select_from-AllFail [] apn coap rest a w' w'' (none_tried _) e = rw e
  select_from-AllFail (t ∷ tried) apn coap rest a w' w'' (next_fails p c {w1} f fs) e = rw f (
      select_from-AllFail tried apn coap rest (record { apn = p; coap = c; modem = w1 }) w' w'' fs
        e)

  select_from-exhausted :
      (tried : List (Bytes × Bytes)) (last_apn last_coap : Bytes) (a : Active W) (w w' : W)
      → AllFail tried a.modem w
      → try_apn libc line last_apn w ≡ ok (false, w')
      → select_from libc line (tried ++ (last_apn, last_coap) ∷ []) a
        ≡ ok (rebooting (record { apn = last_apn; coap = last_coap; modem = sleep 3600000 w' }))
  unfolding select_from
  select_from-exhausted [] last_apn last_coap a w w' (none_tried _) e = rw e
  select_from-exhausted (t ∷ tried) last_apn last_coap a w w' (next_fails p c {w1} f fs) e = rw f (
      select_from-exhausted tried last_apn last_coap (record { apn = p; coap = c; modem = w1 }) w w'
        fs e)

  -- Of the four APNs of the configuration, in their order and each with the server of its own number,
  -- the first with which the modem gets an address is selected, with its server, and the later ones
  -- are not tried.
  pub select_active_apn_first :
      (cfg : ApnConfig) (tried : List (Bytes × Bytes)) (apn coap : Bytes)
      (rest : List (Bytes × Bytes)) (a : Active W) (w' w'' : W)
      → (cfg.apn1, cfg.coap1)
          ∷ (cfg.apn2, cfg.coap2)
          ∷ (cfg.apn3, cfg.coap3)
          ∷ (cfg.apn4, cfg.coap4)
          ∷ []
        ≡ tried ++ (apn, coap) ∷ rest
      → AllFail tried a.modem w'
      → try_apn libc line apn w' ≡ ok (true, w'')
      → select_active_apn libc line cfg a
        ≡ ok (selected (record { apn = apn; coap = coap; modem = w'' }))
  unfolding select_active_apn
  select_active_apn_first cfg tried apn coap rest a w' w'' split fails works =
      rw split (select_from-AllFail tried apn coap rest a w' w'' fails works)

  -- If the modem gets an address with none of the four, the node sleeps for an hour and reboots.
  pub select_active_apn_none :
      (cfg : ApnConfig) (tried : List (Bytes × Bytes)) (last_apn last_coap : Bytes) (a : Active W)
      (w w' : W)
      → (cfg.apn1, cfg.coap1)
          ∷ (cfg.apn2, cfg.coap2)
          ∷ (cfg.apn3, cfg.coap3)
          ∷ (cfg.apn4, cfg.coap4)
          ∷ []
        ≡ tried ++ (last_apn, last_coap) ∷ []
      → AllFail tried a.modem w
      → try_apn libc line last_apn w ≡ ok (false, w')
      → select_active_apn libc line cfg a
        ≡ ok (rebooting (record { apn = last_apn; coap = last_coap; modem = sleep 3600000 w' }))
  unfolding select_active_apn
  select_active_apn_none cfg tried last_apn last_coap a w w' split fails fails_too =
      rw split (select_from-exhausted tried last_apn last_coap a w w' fails fails_too)
