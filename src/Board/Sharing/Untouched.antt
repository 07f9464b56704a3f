-- ===== src/Board/Sharing/Untouched.antt =====
-- What the drivers leave alone the sampling of Firmware/src/opc_n3.c and ads124s08.c leaves alone.
use air_quality_sensor_node.Base.{
  ℕ, zero, suc, ◌≡◌, refl, ◌∙◌, Bool, true, false, Bytes, ◌==◌, if◌then◌else◌, Bool-cases, inl, inr,
}
use air_quality_sensor_node.Opc.Command.{
  Drivers, OpcResult, data_ready, max_retries, select_device, release_chip_select, poll, read_bytes,
  finish_command, command, peripherals_power_on, peripherals_power_off, opc_sample,
}
use air_quality_sensor_node.Opc.Command
use air_quality_sensor_node.Board.Adc.{
  Bus, send_command, reg_write, re_start, start_conversion, stop_conversion, select, release,
  data_read, configure_adc, sample_channel,
}
use air_quality_sensor_node.Board.Adc

module _ {D : Type 0} where
  -- A number that no call of the drivers changes.
  pub record DriversKeep {A : Type 0} (h : Drivers D) (f : D → A) : Type 0 where
    pub transceive_keeps : (d : D) (tx rx : ℕ) → f (h.spi_transceive d tx rx).0 ≡ f d
    pub write_keeps : (d : D) (pin value : ℕ) → f (h.digital_write d pin value) ≡ f d
    pub sleep_keeps : (d : D) (t : ℕ) → f (h.sleep d t) ≡ f d
    pub usleep_keeps : (d : D) (t : ℕ) → f (h.usleep d t) ≡ f d

  pub record BusKeeps {A : Type 0} (b : Bus D) (f : D → A) : Type 0 where
    pub transceive_keeps : (d : D) (tx rx : Bytes) → f (b.transceive d tx rx).0 ≡ f d
    pub write_keeps : (d : D) (tx : Bytes) → f (b.write d tx) ≡ f d
    pub pin_keeps : (d : D) (pin value : ℕ) → f (b.digital_write d pin value) ≡ f d
    pub sleep_keeps : (d : D) (t : ℕ) → f (b.sleep d t) ≡ f d

  pub either-keeps :
      {A : Type 0} (f : D → A) (b : Bool) (x y : D) (k : A)
      → f x ≡ k
      → f y ≡ k
      → f (if b then x else y) ≡ k
  either-keeps f true x y k hx hy = hx
  either-keeps f false x y k hx hy = hy

module _ {D A : Type 0} (h : Drivers D) (f : D → A) (keep : DriversKeep h f) where
  open keep use {transceive_keeps, write_keeps, sleep_keeps, usleep_keeps}

  poll-keeps : (n : ℕ) (d : D) (tx rx : ℕ) → f (poll h n d tx rx).1 ≡ f d
  unfolding poll
  poll-keeps zero d tx rx = transceive_keeps d tx rx
  poll-keeps (suc n) d tx rx = elim (Bool-cases ((h.spi_transceive d tx rx).1 == data_ready)) [
    | inl ready ↦ rw ready (transceive_keeps d tx rx)
    | inr busy ↦ rw busy (poll-keeps n _ tx _ ∙ sleep_keeps _ 2000 ∙ transceive_keeps d tx rx)
  ]

  read_bytes-keeps :
      (has_buffer : Bool) (n : ℕ) (d : D) (tx rx index : ℕ)
      → f (read_bytes h has_buffer n d tx rx index).0 ≡ f d
  unfolding read_bytes
  read_bytes-keeps has_buffer zero d tx rx index = refl
  read_bytes-keeps has_buffer (suc n) d tx rx index =
      read_bytes-keeps has_buffer n _ tx _ _ ∙ transceive_keeps d tx rx

  finish_command-keeps :
      (c o : ℕ) (has_buffer : Bool) (n : ℕ) (d : D)
      → f (finish_command h c o has_buffer n d).1 ≡ f d
  unfolding finish_command release_chip_select
  finish_command-keeps c o has_buffer n d =
      write_keeps _ _ _
      ∙ sleep_keeps _ 10
      ∙ read_bytes-keeps has_buffer n _ c 0 0
      ∙ either-keeps f (o == 255) d _ (f d) refl (transceive_keeps d o 0)

  command-keeps :
      (c o : ℕ) (has_buffer : Bool) (n : ℕ) (d : D) → f (command h c o has_buffer n d).1 ≡ f d
  unfolding command select_device release_chip_select
  command-keeps c o has_buffer n d =
      let polled =
        poll-keeps max_retries _ c _
        ∙ sleep_keeps _ 10
        ∙ transceive_keeps _ c 0
        ∙ write_keeps d _ 0 in
      by_ready _ _ _ (finish_command-keeps c o has_buffer n _ ∙ usleep_keeps _ 10 ∙ polled)
        (write_keeps _ _ 1 ∙ polled)
    where
      by_ready :
          (ready : Bool) (x y : OpcResult × D × Bytes)
          → f x.1 ≡ f d
          → f y.1 ≡ f d
          → f (if ready then x else y).1 ≡ f d
      by_ready true x y kx ky = kx
      by_ready false x y kx ky = ky

  pub opc-keeps : (d : D) → f (Command.sample_data h d).0 ≡ f d
  unfolding Command.sample_data opc_sample peripherals_power_on peripherals_power_off
  opc-keeps d =
      sleep_keeps _ 10000
      ∙ command-keeps 0x03 0x02 false 0 _
      ∙ sleep_keeps _ 50
      ∙ command-keeps 0x03 0x06 false 0 _
      ∙ sleep_keeps _ 60000
      ∙ command-keeps 0x30 0xFF true 86 _
      ∙ sleep_keeps _ 60000
      ∙ sleep_keeps _ 50
      ∙ command-keeps 0x03 0x07 false 0 _
      ∙ sleep_keeps _ 10000
      ∙ command-keeps 0x03 0x03 false 0 d

module _ {D A : Type 0} (b : Bus D) (f : D → A) (keep : BusKeeps b f) where
  open keep use {transceive_keeps, write_keeps, pin_keeps, sleep_keeps}

  select-keeps : (d : D) → f (select b d) ≡ f d
  unfolding select
  select-keeps d = sleep_keeps _ 1 ∙ pin_keeps d _ 0

  release-keeps : (d : D) → f (release b d) ≡ f d
  unfolding release
  release-keeps d = sleep_keeps _ 1 ∙ pin_keeps d _ 1

  send_command-keeps : (o : ℕ) (d : D) → f (send_command b o d) ≡ f d
  unfolding send_command
  send_command-keeps o d = release-keeps _ ∙ transceive_keeps _ _ _ ∙ select-keeps d

  reg_write-keeps : (r v : ℕ) (d : D) → f (reg_write b r v d) ≡ f d
  unfolding reg_write
  reg_write-keeps r v d = release-keeps _ ∙ write_keeps _ _ ∙ select-keeps d

  start-keeps : (d : D) → f (start_conversion b d) ≡ f d
  unfolding start_conversion
  start-keeps d = sleep_keeps _ 1 ∙ pin_keeps d _ 1

  stop-keeps : (d : D) → f (stop_conversion b d) ≡ f d
  unfolding stop_conversion
  stop-keeps d = sleep_keeps _ 1 ∙ pin_keeps d _ 0

  data_read-keeps : (d : D) → f (data_read b d).0 ≡ f d
  unfolding data_read
  data_read-keeps d =
      release-keeps _
      ∙ transceive_keeps _ _ _
      ∙ transceive_keeps _ _ _
      ∙ transceive_keeps _ _ _
      ∙ select-keeps d

  configure_adc-keeps : (c : ℕ) (d : D) → f (configure_adc b c d) ≡ f d
  unfolding configure_adc re_start
  configure_adc-keeps c d =
      sleep_keeps _ 100
      ∙ send_command-keeps 8 _
      ∙ send_command-keeps 10 _
      ∙ reg_write-keeps 9 3 _
      ∙ reg_write-keeps 5 48 _
      ∙ reg_write-keeps 3 0 _
      ∙ reg_write-keeps 2 _ _
      ∙ send_command-keeps 2 d

  channel-keeps : (c : ℕ) (d : D) → f (sample_channel b c d).0 ≡ f d
  unfolding sample_channel
  channel-keeps c d = stop-keeps _ ∙ data_read-keeps _ ∙ start-keeps _ ∙ configure_adc-keeps c d

  pub adc-keeps : (d : D) → f (Adc.sample_data b d).0 ≡ f d
  unfolding Adc.sample_data
  adc-keeps d =
      channel-keeps _ _
      ∙ channel-keeps _ _
      ∙ channel-keeps _ _
      ∙ channel-keeps _ _
      ∙ channel-keeps _ _
      ∙ channel-keeps _ _
      ∙ channel-keeps _ d
