-- ===== src/Board/Setup/Exclusive.antt =====
-- Behind the set-up of the board the devices on the SPI bus do not disturb each other.
use air_quality_sensor_node.Base.{◌≡◌, refl, sym, Bool, true, false, List}
use air_quality_sensor_node.Opc.Command.{Drivers}
use air_quality_sensor_node.Board.Adc.{Bus, init}
use air_quality_sensor_node.Board.Gpio.{
  Pins, configure_output_pin, configure_input_pin, output, write, pause, init_adc_pins,
  init_gps_pins, init_bridge_pins, init_gpio, bound_device, get_gpio_device,
}
use air_quality_sensor_node.Board.Sharing.{Watch, moved, watched_bus, Sampling, run_sampling}
use air_quality_sensor_node.Board.Sharing.Exclusive.{IsIdle, run-IsIdle}
use air_quality_sensor_node.Board.Setup.{
  Bindings, Boot, ready, halted, bound_i2c, get_i2c_device, get_spi_device, with_spi, with_i2c,
  with_gpio, init_board,
}

module _ {D : Type 0} where
  -- The pins and the bindings, watched as the bus is.
  abbrev pub watched_pins : Pins D → Pins (Watch D)
  watched_pins p = record {
    device_get_binding =
        λ w. (let r = p.device_get_binding w.device in (record w { device = r.0 }, r.1));
    gpio_pin_configure = λ w pin dir.
        (let r = p.gpio_pin_configure w.device pin dir in (record w { device = r.0 }, r.1));
    gpio_pin_write = λ w pin value.
        (let r = p.gpio_pin_write w.device pin value in (moved pin value r.0 w, r.1));
    sleep = λ w t. record w { device = p.sleep w.device t };
  }

  abbrev pub watched_bindings : Bindings D → Bindings (Watch D)
  watched_bindings s = record {
    i2c_get_binding = λ w. (let r = s.i2c_get_binding w.device in (record w { device = r.0 }, r.1));
    i2c_configure = λ w. (let r = s.i2c_configure w.device in (record w { device = r.0 }, r.1));
    spi_get_binding = λ w. (let r = s.spi_get_binding w.device in (record w { device = r.0 }, r.1));
  }

-- The particle sensor is not selected, and no transfer has been made that another device heard.
record IsQuiet {D : Type 0} (w : Watch D) : Type 0 where
  opc_raised : w.opc ≡ 1
  no_clash : w.clash ≡ false

module _ {D : Type 0} (pins : Pins D) (bus : Bus D) (bindings : Bindings D) where
  pins-IsQuiet : (w : Watch D) → w.clash ≡ false → IsQuiet (init_gpio (watched_pins pins) w)
  unfolding init_gpio init_adc_pins init_gps_pins init_bridge_pins output configure_output_pin
      configure_input_pin write pause
  pins-IsQuiet w quiet = record { opc_raised = refl; no_clash = quiet }

  abbrev BootsQuietly : Watch D → Boot (Watch D) → Type 0
  BootsQuietly w' (ready v) =
      v ≡ w' → (before : Watch D) × IsQuiet before × (w' ≡ init (watched_bus bus) before)
  BootsQuietly w' (halted code v) = Unit

  spi-quiet :
      (w w' : Watch D) (there : Bool)
      → IsQuiet w
      → BootsQuietly w'
          (with_spi (watched_bindings bindings) (watched_pins pins) (watched_bus bus) (w, there))
  unfolding with_spi
  spi-quiet w w' true k = λ e. (w, k, sym e)
  spi-quiet w w' false k = tt

  i2c-quiet :
      (w w' : Watch D) (set there : Bool)
      → IsQuiet w
      → BootsQuietly w' (
          with_i2c
            (watched_bindings bindings)
            (watched_pins pins)
            (watched_bus bus)
            (w, set, there))
  unfolding with_i2c get_spi_device
  i2c-quiet w w' set true k =
      spi-quiet _ w' _ (record { opc_raised = k.opc_raised; no_clash = k.no_clash })
  i2c-quiet w w' set false k = tt

  bound_i2c-quiet :
      (w w' : Watch D) (there : Bool)
      → IsQuiet w
      → BootsQuietly w' (
          with_i2c
            (watched_bindings bindings)
            (watched_pins pins)
            (watched_bus bus)
            (bound_i2c (watched_bindings bindings) (w, there)))
  unfolding bound_i2c
  bound_i2c-quiet w w' true k =
      i2c-quiet _ w' true _ (record { opc_raised = k.opc_raised; no_clash = k.no_clash })
  bound_i2c-quiet w w' false k = i2c-quiet w w' false false k

  gpio-quiet :
      (w w' : Watch D) (there : Bool)
      → w.clash ≡ false
      → BootsQuietly w' (
          with_gpio
            (watched_bindings bindings)
            (watched_pins pins)
            (watched_bus bus)
            (bound_device (watched_pins pins) (w, there)))
  unfolding with_gpio bound_device get_i2c_device
  gpio-quiet w w' true quiet =
      let k = pins-IsQuiet w quiet in
      bound_i2c-quiet _ w' _ (record { opc_raised = k.opc_raised; no_clash = k.no_clash })
  gpio-quiet w w' false quiet = tt

  -- With any drivers, whatever the levels of the pins were at first, if no transfer has gone wrong before: when the set-up of the board comes back,
  -- then behind any sequence of sampling calls both chip selects of the bus are raised, and each
  -- transfer was made while the device it was meant for was selected and the other one was not.
  pub init_board-IsIdle :
      (h : Drivers D) (calls : List Sampling) (w w' : Watch D)
      → w.clash ≡ false
      → init_board (watched_bindings bindings) (watched_pins pins) (watched_bus bus) w ≡ ready w'
      → IsIdle (run_sampling h bus calls w')
  unfolding init_board get_gpio_device
  init_board-IsIdle h calls w w' quiet e =
      let bound : Watch D = record w { device = (pins.device_get_binding w.device).0 } in
      let boots : BootsQuietly w'
          (init_board (watched_bindings bindings) (watched_pins pins) (watched_bus bus) w) =
        gpio-quiet bound w' (pins.device_get_binding w.device).1 quiet in
      let (before, k, same) = (rw e at boots) refl in
      rw same (run-IsIdle h bus calls before k.opc_raised k.no_clash)
