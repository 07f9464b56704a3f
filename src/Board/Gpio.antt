-- ===== src/Board/Gpio.antt =====
-- The pins of the board: Firmware/src/gpio.c, with the numbers of pinout.h. Zephyr's driver and clock
-- are a parameter. A negative or positive result that is not 0 is only logged, and returned.
pub mod Levels
use air_quality_sensor_node.Base.{ℕ, Bool, true, false}
use air_quality_sensor_node.Base.Int.{ℤ}
use air_quality_sensor_node.Board.Adc.{cs_pin, start_pin, adc_reset}
use air_quality_sensor_node.Board.Uart.{max14830_irq}
use air_quality_sensor_node.Opc.Command.{cs_opc}

-- GPIO_DIR_OUT, GPIO_DIR_IN, and GPIO_DIR_IN with GPIO_PUD_PULL_UP.
pub data Direction : Type 0 where
  dir_out dir_in dir_in_pull_up : Direction

-- `device_get_binding` tells whether there is a device.
pub record Pins (D : Type 0) : Type 0 where
  pub device_get_binding : D → D × Bool
  pub gpio_pin_configure : D → ℕ → Direction → D × ℤ
  pub gpio_pin_write : D → ℕ → ℕ → D × ℤ
  pub sleep : D → ℕ → D

abbrev pub cs_sx1276 : ℕ
cs_sx1276 = 22

abbrev pub gps_force_on : ℕ
gps_force_on = 17

abbrev pub gps_tx : ℕ
gps_tx = 8

abbrev pub gps_rx : ℕ
gps_rx = 7

abbrev pub gps_reset_pin : ℕ
gps_reset_pin = 6

abbrev pub gps_wake_up : ℕ
gps_wake_up = 5

abbrev pub max14830_reset : ℕ
max14830_reset = 4

abbrev pub ee_nbiot_01_reset : ℕ
ee_nbiot_01_reset = 2

-- RESET_PIN_PULLER_MIGHT_NOT_NEED
abbrev pub reset_pause : ℕ
reset_pause = 100

module _ {D : Type 0} (pins : Pins D) where
  open pins use {device_get_binding, gpio_pin_configure, gpio_pin_write, sleep}

  unfoldable pub configure_output_pin : ℕ → D → D × ℤ
  configure_output_pin pin d = gpio_pin_configure d pin dir_out

  unfoldable pub configure_input_pin : ℕ → D → D × ℤ
  configure_input_pin pin d = gpio_pin_configure d pin dir_in

  -- A configuration or a write whose result is not used.
  unfoldable pub output : ℕ → D → D
  unfolding configure_output_pin
  output pin d = (configure_output_pin pin d).0

  unfoldable pub write : ℕ → ℕ → D → D
  write pin value d = (gpio_pin_write d pin value).0

  unfoldable pub pause : D → D
  pause d = sleep d reset_pause

  unfoldable pub init_adc_pins : D → D
  unfolding output write pause
  init_adc_pins d =
      let d1 = output adc_reset (output start_pin (output cs_pin d)) in
      let d2 = pause (write adc_reset 0 (write start_pin 0 d1)) in
      write cs_pin 1 (write adc_reset 1 d2)

  unfoldable pub gps_reset : D → D
  unfolding write pause
  gps_reset d =
      let d1 = write gps_force_on 0 (write gps_reset_pin 1 (write gps_reset_pin 0 d)) in
      write gps_force_on 1 (pause d1)

  unfoldable pub init_gps_pins : D → D
  unfolding output write pause gps_reset configure_input_pin
  init_gps_pins d =
      let d1 = output gps_reset_pin (output gps_tx (output gps_force_on d)) in
      let d2 = (configure_input_pin gps_rx (output gps_wake_up d1)).0 in
      let d3 = write gps_force_on 0 (write gps_reset_pin 1 (write gps_reset_pin 0 d2)) in
      write gps_force_on 1 (pause d3)

  unfoldable pub init_bridge_pins : D → D
  unfolding output write pause
  init_bridge_pins d =
      let d1 = write max14830_reset 0 (write max14830_reset 1 (output max14830_reset d)) in
      let d2 = pause (write max14830_reset 1 (pause d1)) in
      (gpio_pin_configure d2 max14830_irq dir_in_pull_up).0

  unfoldable pub init_gpio : D → D
  unfolding output write init_adc_pins init_gps_pins init_bridge_pins
  init_gpio d =
      let d1 = init_adc_pins (write cs_sx1276 1 (output cs_sx1276 d)) in
      let d2 = init_gps_pins (write cs_opc 1 (output cs_opc d1)) in
      write ee_nbiot_01_reset 1 (output ee_nbiot_01_reset (init_bridge_pins d2))

  -- What `device_get_binding` gave; the result is whether there is a device.
  unfoldable pub bound_device : D × Bool → D × Bool
  unfolding init_gpio
  bound_device (d, true) = (init_gpio d, true)
  bound_device (d, false) = (d, false)

  -- The first argument is whether `gpio_dev` is set already.
  unfoldable pub get_gpio_device : Bool → D → D × Bool
  unfolding bound_device
  get_gpio_device true d = (d, true)
  get_gpio_device false d = bound_device (device_get_binding d)

  unfoldable pub un_select : ℕ → D → D × ℤ
  un_select pin d = gpio_pin_write d pin 1

  unfoldable pub unselect_all_spi : D → D
  unfolding un_select
  unselect_all_spi d = (un_select cs_pin (un_select cs_opc d).0).0

  unfoldable pub select : ℕ → D → D × ℤ
  unfolding unselect_all_spi
  select pin d = gpio_pin_write (unselect_all_spi d) pin 0

  unfoldable pub digital_write : ℕ → ℕ → D → D × ℤ
  digital_write pin value d = gpio_pin_write d pin value
