-- ===== src/Board/Sharing.antt =====
-- The SPI bus that the particle sensor (Firmware/src/opc_n3.c) and the gas sensor front end
-- (Firmware/src/ads124s08.c) share. Nothing in the code locks it: each device has its chip select,
-- which both drivers move by hand.
pub mod Exclusive
pub mod Untouched
use air_quality_sensor_node.Base.{
  ℕ, Bool, true, false, not, ◌&&◌, ◌||◌, Bytes, List, [], ◌∷◌, ◌==◌, if◌then◌else◌,
}
use air_quality_sensor_node.Opc.Command.{Drivers, cs_opc}
use air_quality_sensor_node.Opc.Command
use air_quality_sensor_node.Board.Adc
use air_quality_sensor_node.Board.Adc.{Bus, cs_pin}

-- The devices with the levels of the two chip selects beside them, and whether a transfer has ever been
-- made while the device it is meant for was not the only one selected.
pub record Watch (D : Type 0) : Type 0 where
  pub device : D
  pub adc : ℕ
  pub opc : ℕ
  pub clash : Bool

module _ {D : Type 0} where
  abbrev pub moved : ℕ → ℕ → D → Watch D → Watch D
  moved pin value d w = record w {
    device = d;
    adc = if pin == cs_pin then value else w.adc;
    opc = if pin == cs_opc then value else w.opc;
  }

  abbrev pub transferred : Bool → D → Watch D → Watch D
  transferred alone d w = record w { device = d; clash = w.clash || not alone }

  abbrev pub opc_alone : Watch D → Bool
  opc_alone w = (w.opc == 0) && (w.adc == 1)

  abbrev pub adc_alone : Watch D → Bool
  adc_alone w = (w.adc == 0) && (w.opc == 1)

  -- Any drivers, watched.
  abbrev pub watched : Drivers D → Drivers (Watch D)
  watched h = record {
    spi_transceive = λ w tx rx.
        (let r = h.spi_transceive w.device tx rx in (transferred (opc_alone w) r.0 w, r.1));
    digital_write = λ w pin value. moved pin value (h.digital_write w.device pin value) w;
    sleep = λ w t. record w { device = h.sleep w.device t };
    usleep = λ w t. record w { device = h.usleep w.device t };
  }

  abbrev pub watched_bus : Bus D → Bus (Watch D)
  watched_bus b = record {
    transceive =
        λ w tx rx. (let r = b.transceive w.device tx rx in (transferred (adc_alone w) r.0 w, r.1));
    write = λ w tx. transferred (adc_alone w) (b.write w.device tx) w;
    digital_write = λ w pin value. moved pin value (b.digital_write w.device pin value) w;
    gpio_pin_write = λ w pin value. moved pin value (b.gpio_pin_write w.device pin value) w;
    sleep = λ w t. record w { device = b.sleep w.device t };
  }

-- The calls of the main loop that use the bus.
pub data Sampling : Type 0 where
  particles gases : Sampling

module _ {D : Type 0} (h : Drivers D) (b : Bus D) where
  unfoldable pub run_sampling : List Sampling → Watch D → Watch D
  run_sampling [] w = w
  run_sampling (particles ∷ calls) w = run_sampling calls (Command.sample_data (watched h) w).0
  run_sampling (gases ∷ calls) w = run_sampling calls (Adc.sample_data (watched_bus b) w).0
