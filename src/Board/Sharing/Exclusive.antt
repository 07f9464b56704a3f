-- ===== src/Board/Sharing/Exclusive.antt =====
-- Neither sampling sequence disturbs the other one's device.
use air_quality_sensor_node.Base.{
  ℕ, zero, suc, ◌≡◌, refl, Bool, true, false, Bytes, List, [], ◌∷◌, ◌==◌, if◌then◌else◌, Bool-cases,
  inl, inr,
}
use air_quality_sensor_node.Opc.Command.{
  Drivers, OpcResult, data_ready, max_retries, select_device, release_chip_select, poll, read_bytes,
  finish_command, command, peripherals_power_on, peripherals_power_off, opc_sample,
}
use air_quality_sensor_node.Opc.Command
use air_quality_sensor_node.Board.Adc.{
  Bus, send_command, reg_write, re_start, start_conversion, stop_conversion, init, select, release,
  data_read, configure_adc, sample_channel,
}
use air_quality_sensor_node.Board.Adc
use air_quality_sensor_node.Board.Sharing.{
  Watch, watched, watched_bus, Sampling, particles, gases, run_sampling,
}

-- The levels of the two chip selects, and no clash so far.
pub record Has {D : Type 0} (adc opc : ℕ) (w : Watch D) : Type 0 where
  pub adc_at : w.adc ≡ adc
  pub opc_at : w.opc ≡ opc
  pub no_clash : w.clash ≡ false

-- Nothing is selected.
abbrev pub IsIdle : {D : Type 0} → Watch D → Type 0
IsIdle w = Has 1 1 w

module _ {D : Type 0} where
  -- What the devices do by themselves does not matter.
  moved_on :
      (adc opc : ℕ) (w : Watch D) (d : D) → Has adc opc w → Has adc opc (record w { device = d })
  moved_on adc opc w d k = record { adc_at = k.adc_at; opc_at = k.opc_at; no_clash = k.no_clash }

  either-Has :
      (adc opc : ℕ) (b : Bool) (v w : Watch D)
      → Has adc opc v
      → Has adc opc w
      → Has adc opc (if b then v else w)
  either-Has adc opc true v w hv hw = hv
  either-Has adc opc false v w hv hw = hw

module _ {D : Type 0} (h : Drivers D) where
  -- The particle sensor is selected alone, and stays so.
  opc_transfer :
      (w : Watch D) (tx rx : ℕ) → Has 1 0 w → Has 1 0 ((watched h).spi_transceive w tx rx).0
  opc_transfer w tx rx k =
      rw (k.adc_at, k.opc_at, k.no_clash) (record { adc_at = refl; opc_at = refl; no_clash = refl })

  poll-Has : (n : ℕ) (w : Watch D) (tx rx : ℕ) → Has 1 0 w → Has 1 0 (poll (watched h) n w tx rx).1
  unfolding poll
  poll-Has zero w tx rx k = opc_transfer w tx rx k
  poll-Has (suc n) w tx rx k =
      let k1 = opc_transfer w tx rx k in
      elim (Bool-cases ((h.spi_transceive w.device tx rx).1 == data_ready)) [
        | inl ready ↦ rw ready k1
        | inr busy ↦ rw busy (poll-Has n _ tx _ (moved_on 1 0 _ _ k1))
      ]

  read_bytes-Has :
      (has_buffer : Bool) (n : ℕ) (w : Watch D) (tx rx index : ℕ)
      → Has 1 0 w
      → Has 1 0 (read_bytes (watched h) has_buffer n w tx rx index).0
  unfolding read_bytes
  read_bytes-Has has_buffer zero w tx rx index k = k
  read_bytes-Has has_buffer (suc n) w tx rx index k =
      read_bytes-Has has_buffer n _ tx _ _ (opc_transfer w tx rx k)

  release-IsIdle : (w : Watch D) → Has 1 0 w → IsIdle (release_chip_select (watched h) w)
  unfolding release_chip_select
  release-IsIdle w k = record { adc_at = k.adc_at; opc_at = refl; no_clash = k.no_clash }

  finish_command-IsIdle :
      (c o : ℕ) (has_buffer : Bool) (n : ℕ) (w : Watch D)
      → Has 1 0 w
      → IsIdle (finish_command (watched h) c o has_buffer n w).1
  unfolding finish_command
  finish_command-IsIdle c o has_buffer n w k =
      let k1 = either-Has 1 0 (o == 255) w _ k (opc_transfer w o 0 k) in
      release-IsIdle _ (moved_on 1 0 _ _ (read_bytes-Has has_buffer n _ c 0 0 k1))

  command-IsIdle :
      (c o : ℕ) (has_buffer : Bool) (n : ℕ) (w : Watch D)
      → IsIdle w
      → IsIdle (command (watched h) c o has_buffer n w).1
  unfolding command select_device
  command-IsIdle c o has_buffer n w k =
      let selected : Has 1 0 (select_device (watched h) w) = record {
        adc_at = k.adc_at;
        opc_at = refl;
        no_clash = k.no_clash;
      } in
      let polled = poll-Has max_retries _ c _ (moved_on 1 0 _ _ (opc_transfer _ c 0 selected)) in
      by_ready _ _ _ (finish_command-IsIdle c o has_buffer n _ (moved_on 1 0 _ _ polled))
        (release-IsIdle _ polled)
    where
      by_ready :
          (ready : Bool) (x y : OpcResult × Watch D × Bytes)
          → IsIdle x.1
          → IsIdle y.1
          → IsIdle (if ready then x else y).1
      by_ready true x y kx ky = kx
      by_ready false x y kx ky = ky

  opc-IsIdle : (w : Watch D) → IsIdle w → IsIdle (Command.sample_data (watched h) w).0
  unfolding Command.sample_data opc_sample peripherals_power_on peripherals_power_off
  opc-IsIdle w k =
      let on1 = command-IsIdle 0x03 0x03 false 0 w k in
      let on2 = command-IsIdle 0x03 0x07 false 0 _ (moved_on 1 1 _ _ on1) in
      let read = command-IsIdle 0x30 0xFF true 86 _ (moved_on 1 1 _ _ on2) in
      let off1 = command-IsIdle 0x03 0x06 false 0 _ (moved_on 1 1 _ _ read) in
      moved_on 1 1 _ _ (command-IsIdle 0x03 0x02 false 0 _ (moved_on 1 1 _ _ off1))

module _ {D : Type 0} (b : Bus D) where
  adc_transfer :
      (w : Watch D) (tx rx : Bytes) → Has 0 1 w → Has 0 1 ((watched_bus b).transceive w tx rx).0
  adc_transfer w tx rx k =
      rw (k.adc_at, k.opc_at, k.no_clash) (record { adc_at = refl; opc_at = refl; no_clash = refl })

  adc_write : (w : Watch D) (tx : Bytes) → Has 0 1 w → Has 0 1 ((watched_bus b).write w tx)
  adc_write w tx k =
      rw (k.adc_at, k.opc_at, k.no_clash) (record { adc_at = refl; opc_at = refl; no_clash = refl })

  select-Has : (w : Watch D) → IsIdle w → Has 0 1 (select (watched_bus b) w)
  unfolding select
  select-Has w k = record { adc_at = refl; opc_at = k.opc_at; no_clash = k.no_clash }

  deselect-IsIdle : (w : Watch D) → Has 0 1 w → IsIdle (release (watched_bus b) w)
  unfolding release
  deselect-IsIdle w k = record { adc_at = refl; opc_at = k.opc_at; no_clash = k.no_clash }

  send_command-IsIdle : (o : ℕ) (w : Watch D) → IsIdle w → IsIdle (send_command (watched_bus b) o w)
  unfolding send_command
  send_command-IsIdle o w k = deselect-IsIdle _ (adc_transfer _ _ _ (select-Has w k))

  reg_write-IsIdle : (r v : ℕ) (w : Watch D) → IsIdle w → IsIdle (reg_write (watched_bus b) r v w)
  unfolding reg_write
  reg_write-IsIdle r v w k = deselect-IsIdle _ (adc_write _ _ (select-Has w k))

  -- Another pin of the converter.
  stop-IsIdle : (w : Watch D) → IsIdle w → IsIdle (stop_conversion (watched_bus b) w)
  unfolding stop_conversion
  stop-IsIdle w k = record { adc_at = k.adc_at; opc_at = k.opc_at; no_clash = k.no_clash }

  start-IsIdle : (w : Watch D) → IsIdle w → IsIdle (start_conversion (watched_bus b) w)
  unfolding start_conversion
  start-IsIdle w k = record { adc_at = k.adc_at; opc_at = k.opc_at; no_clash = k.no_clash }

  data_read-IsIdle : (w : Watch D) → IsIdle w → IsIdle (data_read (watched_bus b) w).0
  unfolding data_read
  data_read-IsIdle w k =
      deselect-IsIdle _
        (adc_transfer _ _ _ (adc_transfer _ _ _ (adc_transfer _ _ _ (select-Has w k))))

  configure_adc-IsIdle :
      (c : ℕ) (w : Watch D) → IsIdle w → IsIdle (configure_adc (watched_bus b) c w)
  unfolding configure_adc re_start
  configure_adc-IsIdle c w k =
      let k1 = reg_write-IsIdle 2 _ _ (send_command-IsIdle 2 w k) in
      let k4 = reg_write-IsIdle 9 3 _ (reg_write-IsIdle 5 48 _ (reg_write-IsIdle 3 0 _ k1)) in
      moved_on 1 1 _ _ (send_command-IsIdle 8 _ (send_command-IsIdle 10 _ k4))

  channel-IsIdle : (c : ℕ) (w : Watch D) → IsIdle w → IsIdle (sample_channel (watched_bus b) c w).0
  unfolding sample_channel
  channel-IsIdle c w k =
      stop-IsIdle _ (data_read-IsIdle _ (start-IsIdle _ (configure_adc-IsIdle c w k)))

  adc-IsIdle : (w : Watch D) → IsIdle w → IsIdle (Adc.sample_data (watched_bus b) w).0
  unfolding Adc.sample_data
  adc-IsIdle w k =
      let k3 = channel-IsIdle _ _ (channel-IsIdle _ _ (channel-IsIdle _ w k)) in
      channel-IsIdle _ _ (channel-IsIdle _ _ (channel-IsIdle _ _ (channel-IsIdle _ _ k3)))

  init-IsIdle : (w : Watch D) → w.opc ≡ 1 → w.clash ≡ false → IsIdle (init (watched_bus b) w)
  unfolding init release
  init-IsIdle w raised quiet =
      stop-IsIdle _ (record { adc_at = refl; opc_at = raised; no_clash = quiet })

module _ {D : Type 0} (h : Drivers D) (b : Bus D) where
  -- With any drivers, from a bus on which the particle sensor is not selected: behind the set-up of
  -- the converter and any sequence of sampling calls, both chip selects are raised, and each transfer
  -- was made while the device it was meant for was selected and the other one was not.
  pub run-IsIdle :
      (calls : List Sampling) (w : Watch D)
      → w.opc ≡ 1
      → w.clash ≡ false
      → IsIdle (run_sampling h b calls (init (watched_bus b) w))
  unfolding run_sampling
  run-IsIdle calls w raised quiet = from calls _ (init-IsIdle b w raised quiet)
    where
      from : (calls : List Sampling) (w : Watch D) → IsIdle w → IsIdle (run_sampling h b calls w)
      from [] w k = k
      from (particles ∷ calls) w k = from calls _ (opc-IsIdle h w k)
      from (gases ∷ calls) w k = from calls _ (adc-IsIdle b w k)
