-- ===== src/Main/Sockets.antt =====
-- The sockets that the parts of main.c open and close.
use air_quality_sensor_node.Base.{
  ℕ, ◌∷◌, ◌≡◌, refl, sym, ◌∙◌, Bool, true, false, not, Bytes, if◌then◌else◌, Option, none, some,
}
use air_quality_sensor_node.Base.Int.{ℤ, negsuc}
use air_quality_sensor_node.Base.Outcome.{ok, bind-eq-ok}
use air_quality_sensor_node.Board.Humidity.{cc2_sample_data, with_reading}
use air_quality_sensor_node.Board.Sharing.Untouched.{
  DriversKeep, BusKeeps, opc-keeps, adc-keeps, either-keeps,
}
use air_quality_sensor_node.Message.{Cc2Sample}
use air_quality_sensor_node.Config.{Stored, save_apn_config}
use air_quality_sensor_node.Config.Message.{
  SetApn, accept_config, use_message, decode_config_message, rewrite_urls, has_empty, differs,
}
use air_quality_sensor_node.Fota.Response.{FotaResponse}
use air_quality_sensor_node.Fota.Update.{fota_run}
use air_quality_sensor_node.Fota.Update.Ledger.{handle, struck}
use air_quality_sensor_node.Fota.Update.Sockets.{Counted}
use air_quality_sensor_node.Fota.Update.Report.{fota_run-sockets}
use air_quality_sensor_node.Main.{
  Surroundings, Node, configure, receive_config, sample_sensors, check_firmware, check_if_due,
}

-- The same view in the calls of main.c: `socket` adds the descriptor that it gives, a call of `close`
-- strikes the descriptor that it is given, whatever becomes of that call, and no other call changes
-- the view. `Main.Watching` has such a view for any surroundings.
pub record Accounted {W F : Type 0} (s : Surroundings W F) (counted : Counted s.platform s.reporter)
    : Type 0 where
  pub sockets-none :
      (w w' : W) → s.services.socket w ≡ (w', none) → counted.sockets w' ≡ counted.sockets w
  pub sockets-some :
      (w w' : W) (sock : ℕ)
      → s.services.socket w ≡ (w', some sock)
      → counted.sockets w' ≡ handle sock ∷ counted.sockets w
  pub sockets-shut :
      (sock : ℕ) (w : W)
      → counted.sockets (s.services.close sock w) ≡ struck (handle sock) (counted.sockets w)
  pub sockets-sendto :
      (sock addr : ℕ) (bytes : Bytes) (w : W)
      → counted.sockets (s.services.sendto sock addr bytes w).0 ≡ counted.sockets w
  pub sockets-recvfrom :
      (sock size : ℕ) (w : W)
      → counted.sockets (s.services.recvfrom sock size w).0 ≡ counted.sockets w
  pub sockets-sleep : (t : ℕ) (w : W) → counted.sockets (s.services.k_sleep t w) ≡ counted.sockets w
  pub sockets-feed : (w : W) → counted.sockets (s.services.wdt_feed w) ≡ counted.sockets w
  pub drivers_keep : DriversKeep s.drivers counted.sockets
  pub bus_keeps : BusKeeps s.bus counted.sockets
  pub sockets-i2c_write :
      (a : ℕ) (tx : Bytes) (w : W) → counted.sockets (s.wire.i2c_write a tx w) ≡ counted.sockets w
  pub sockets-i2c_read :
      (a size : ℕ) (w : W) → counted.sockets (s.wire.i2c_read a size w).0 ≡ counted.sockets w
  pub sockets-boot_write_img_confirmed :
      (w : W) → counted.sockets (s.reporter.boot_write_img_confirmed w).0 ≡ counted.sockets w
  pub sockets-nvs_write :
      (c : _) (w : W) → counted.sockets (s.nvs.nvs_write c w) ≡ counted.sockets w

module _ {W F : Type 0} (s : Surroundings W F) (counted : Counted s.platform s.reporter)
    (accounted : Accounted s counted) where
  open accounted use {
    sockets-sleep, drivers_keep, bus_keeps, sockets-i2c_write, sockets-i2c_read, sockets-nvs_write,
  }
  open counted use {sockets}

  accept-sockets :
      (m : SetApn) (st : Stored W) → sockets (accept_config s.nvs m st).1.flash ≡ sockets st.flash
  unfolding accept_config save_apn_config
  accept-sockets m st =
      by_tests (has_empty m) (not (differs st.current m)) _ (sockets-nvs_write _ st.flash)
    where
      by_tests :
          (empty old : Bool) (z : ℤ × Stored W)
          → sockets z.1.flash ≡ sockets st.flash
          → sockets (if empty then (negsuc 1, st) else if old then (negsuc 2, st) else z).1.flash
            ≡ sockets st.flash
      by_tests true old z h = refl
      by_tests false true z h = refl
      by_tests false false z h = h

  decode-sockets :
      (request : Bytes) (st st' : Stored W) (rc : ℤ)
      → decode_config_message s.nvs s.pb_decode request st ≡ ok (rc, st')
      → sockets st'.flash ≡ sockets st.flash
  unfolding decode_config_message use_message
  decode-sockets request st st' rc = by_message (s.pb_decode request)
    where
      by_message :
          (o : Option SetApn)
          → use_message s.nvs o st ≡ ok (rc, st')
          → sockets st'.flash ≡ sockets st.flash
      by_message none e = let same : st ≡ st' = cc in rw same
      by_message (some m) e =
          let (m', _, e') = bind-eq-ok (rewrite_urls m) _ e in
          let same : (accept_config s.nvs m' st).1 ≡ st' = cc in
          rw (sym same) (accept-sockets m' st)

  pub configure-sockets :
      (request : Bytes) (n n' : Node W F) (rc : ℤ)
      → configure s request n ≡ ok (rc, n')
      → sockets n'.world ≡ sockets n.world
  unfolding configure
  configure-sockets request n n' rc e =
      let ((rc', st'), decoded, e') =
        bind-eq-ok
          (decode_config_message s.nvs s.pb_decode request
            (record { current = n.current; flash = n.world }))
          _ e in
      let same : st'.flash ≡ n'.world = cc in
      rw (sym same) (decode-sockets request _ st' rc' decoded)

  pub receive_config-sockets :
      (received : W × Option Bytes) (n n' : Node W F)
      → receive_config s received n ≡ ok n'
      → sockets n'.world ≡ sockets received.0
  unfolding receive_config
  receive_config-sockets (w, none) n n' e = let same : w ≡ n'.world = cc in rw same
  receive_config-sockets (w, some request) n n' e =
      let ((rc, n1), configured, e') =
        bind-eq-ok (configure s request (record n { world = w })) _ e in
      let same : n1 ≡ n' = cc in rw (sym same) (configure-sockets request _ n1 rc configured)

  cc2-sockets :
      (current : Cc2Sample F) (w : W)
      → sockets (cc2_sample_data s.arithmetic s.wire current w).0 ≡ sockets w
  unfolding cc2_sample_data with_reading
  cc2-sockets current w = read (s.wire.i2c_read 0x28 4 w) ∙ sockets-i2c_read 0x28 4 w
    where
      read :
          (r : W × Option Bytes)
          → sockets (with_reading s.arithmetic s.wire r current).0 ≡ sockets r.0
      read (w', none) = refl
      read (w', some rx) = sockets-i2c_write 0x28 _ w'

  pub sample_sensors-sockets :
      (fix : _) (n : Node W F) → sockets (sample_sensors s fix n).1.world ≡ sockets n.world
  unfolding sample_sensors
  sample_sensors-sockets fix n =
      cc2-sockets n.cc2 _
      ∙ adc-keeps s.bus sockets bus_keeps _
      ∙ opc-keeps s.drivers sockets drivers_keep n.world

  pub check_firmware-sockets :
      (fuel : ℕ) (stale : FotaResponse) (n n' : Node W F)
      → check_firmware s fuel stale n ≡ ok n'
      → sockets n'.world ≡ sockets n.world
  unfolding check_firmware
  check_firmware-sockets fuel stale n n' e =
      let ((w, updated), run, e') =
        bind-eq-ok (fota_run s.platform s.reporter s.flash_bank_size fuel s.build stale n.world) _
          e in
      let same : (if updated then s.services.k_sleep 1000 w else w) ≡ n'.world = cc in
      rw (sym same) (
        either-keeps sockets updated _ w (sockets w) (sockets-sleep 1000 w) refl
        ∙ fota_run-sockets s.platform s.reporter s.flash_bank_size counted fuel s.build stale
            n.world w updated run)

  pub check_if_due-sockets :
      (due : Bool) (fuel : ℕ) (stale : FotaResponse) (n n' : Node W F)
      → check_if_due s due fuel stale n ≡ ok n'
      → sockets n'.world ≡ sockets n.world
  unfolding check_if_due
  check_if_due-sockets false fuel stale n n' e = let same : n ≡ n' = cc in rw same
  check_if_due-sockets true fuel stale n n' e = check_firmware-sockets fuel stale n n' e
