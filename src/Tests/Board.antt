-- ===== src/Tests/Board.antt =====
-- The pins, the shared bus, the thread of the positions and the modem's number at concrete inputs.
use air_quality_sensor_node.Base.{
  ℕ, ◌+◌, ◌*◌, ◌≤◌, ◌≡◌, refl, true, false, [], ◌∷◌, Bytes, codes, arith, All, all_sound,
}
use air_quality_sensor_node.Base.Int.{pos}
use air_quality_sensor_node.Base.Libc.{is_digit}
use air_quality_sensor_node.Base.Outcome.{ok}
use air_quality_sensor_node.Opc.Command.{Drivers}
use air_quality_sensor_node.Board.Adc.{Bus, init, release, stop_conversion}
use air_quality_sensor_node.Board.Gpio.{
  Pins, init_gpio, bound_device, get_gpio_device, init_adc_pins, init_gps_pins, init_bridge_pins,
  output, write, pause, configure_output_pin, configure_input_pin,
}
use air_quality_sensor_node.Board.Gpio.Levels.{
  Levels, documented, IsDriver, levels_at, pins_set, set_up, get_gpio_device_lem,
}
use air_quality_sensor_node.Board.Sharing.{Watch, watched_bus, particles, gases, run_sampling}
use air_quality_sensor_node.Board.Sharing.Exclusive.{IsIdle}
use air_quality_sensor_node.Board.Setup.{
  Bindings, ready, init_board, with_gpio, with_i2c, with_spi, get_i2c_device, bound_i2c,
  get_spi_device,
}
use air_quality_sensor_node.Board.Setup.Exclusive.{
  watched_pins, watched_bindings, init_board-IsIdle,
}
use air_quality_sensor_node.Gps.Cache.{GpsFix}
use air_quality_sensor_node.Gps.Thread.{GpsThread, gps_rounds}
use air_quality_sensor_node.Gps.Thread.Retries.{counted, missing, gps_rounds-resets}
use air_quality_sensor_node.Modem.Init.{read_imei}
use air_quality_sensor_node.Modem.Init.Imei.{cgsn_reply, read_imei_lem}
use air_quality_sensor_node.Tests.Platform.{test_libc, replies}

abbrev floating : Levels
floating = record { is_output = λ p. false; level = λ p. 0 }

abbrev exact : IsDriver documented
exact = record {
  view = λ l. l;
  view-configure = λ d pin dir. refl;
  view-write = λ d pin value. refl;
  view-sleep = λ d t. refl;
  view-bind = λ d. refl;
}

bound : get_gpio_device documented false floating ≡ (init_gpio documented floating, true)
unfolding get_gpio_device bound_device
bound = refl

get_gpio_device_lem_example :
    let d1 = init_gpio documented floating in
    (levels_at pins_set d1 ≡ set_up)
    × (d1.is_output 3 ≡ false)
    × (get_gpio_device documented true d1 ≡ (d1, true))
get_gpio_device_lem_example =
    get_gpio_device_lem documented exact floating (init_gpio documented floating) bound

-- Drivers that count the transfers.
abbrev drivers : Drivers ℕ
drivers = record {
  spi_transceive = λ d tx rx. (d + 1, 0xF3);
  digital_write = λ d pin value. d;
  sleep = λ d t. d;
  usleep = λ d t. d;
}

abbrev bus : Bus ℕ
bus = record {
  transceive = λ d tx rx. (d + 1, rx);
  write = λ d tx. d + 1;
  digital_write = λ d pin value. d;
  gpio_pin_write = λ d pin value. d;
  sleep = λ d t. d;
}

abbrev quiet : Pins ℕ
quiet = record {
  device_get_binding = λ d. (d, true);
  gpio_pin_configure = λ d pin dir. (d, pos 0);
  gpio_pin_write = λ d pin value. (d, pos 0);
  sleep = λ d t. d;
}

abbrev bindings : Bindings ℕ
bindings = record {
  i2c_get_binding = λ d. (d, true);
  i2c_configure = λ d. (d, true);
  spi_get_binding = λ d. (d, true);
}

abbrev unpowered : Watch ℕ
unpowered = record { device = 0; adc = 0; opc = 0; clash = false }

abbrev powered : Watch ℕ
powered = record { device = 0; adc = 1; opc = 1; clash = false }

booted :
    init_board (watched_bindings bindings) (watched_pins quiet) (watched_bus bus) unpowered
    ≡ ready powered
unfolding init_board with_gpio with_i2c with_spi get_i2c_device bound_i2c get_spi_device
    get_gpio_device bound_device init_gpio init_adc_pins init_gps_pins init_bridge_pins output write
    pause configure_output_pin configure_input_pin init release stop_conversion
booted = refl

init_board-IsIdle_example : IsIdle (run_sampling drivers bus (particles ∷ gases ∷ []) powered)
init_board-IsIdle_example =
    init_board-IsIdle quiet bus bindings drivers (particles ∷ gases ∷ []) unpowered powered refl
      booted

abbrev no_fix : GpsFix ℕ
no_fix = record {
  timestamp = 0;
  latitude = 0;
  longitude = 0;
  altitude = 0;
  hdop = 0;
  vdop = 0;
  pdop = 0;
  fix_quality = 0;
  gps_svs = 0;
  glo_svs = 0;
  waas_svs = 0;
  moving = false;
  track_angle = 0;
}

-- The count is at its limit, so that the first round resets the receiver.
abbrev at_limit : GpsThread ℕ
at_limit = record { retries = 120; current = no_fix }

gps_rounds-resets_example :
    let r = gps_rounds (counted quiet) (no_fix ∷ no_fix ∷ []) at_limit (0, 0) in
    (r.1.1 * 121 + r.0.retries ≡ missing (no_fix ∷ no_fix ∷ []) + 120) × (r.0.retries ≤ 120)
gps_rounds-resets_example = gps_rounds-resets quiet (no_fix ∷ no_fix ∷ []) at_limit 0 (omega arith)

abbrev number : Bytes
number = codes "357518080024681"

digits : All (λ d. is_digit d ≡ true) number
digits = all_sound is_digit number refl

read_imei_lem_example :
    (unparsed : Bytes) × (read_imei test_libc replies (cgsn_reply number [] ∷ [])
      ≡ ok (unparsed, number, []))
read_imei_lem_example =
    read_imei_lem test_libc replies number [] (cgsn_reply number [] ∷ []) digits (omega arith) refl
