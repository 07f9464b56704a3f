-- ===== src/Board/Setup.antt =====
-- The set-up of the board: `init_board` of Firmware/src/init.c, `get_I2C_device` of i2c_config.c and
-- `get_SPI_device` of spi_config.c. The binding of Zephyr's devices is a parameter.
pub mod Exclusive
use air_quality_sensor_node.Base.{ℕ, Bool, true, false}
use air_quality_sensor_node.Board.Adc.{Bus, init}
use air_quality_sensor_node.Board.Gpio.{Pins, get_gpio_device}

-- The Boolean is whether there is a device, for `i2c_configure` whether its result is 0.
pub record Bindings (W : Type 0) : Type 0 where
  pub i2c_get_binding : W → W × Bool
  pub i2c_configure : W → W × Bool
  pub spi_get_binding : W → W × Bool

-- `init_board` comes back, or ends in `k_fatal_halt`.
pub data Boot (W : Type 0) : Type 0 where
  ready : W → Boot W
  halted : ℕ → W → Boot W

module _ {W : Type 0} (bindings : Bindings W) where
  open bindings use {i2c_get_binding, i2c_configure, spi_get_binding}

  -- Whether `i2c_dev` is set afterwards, and whether there is a result: it is set before the
  -- configuration, which may fail.
  unfoldable pub bound_i2c : W × Bool → W × Bool × Bool
  bound_i2c (w, false) = (w, false, false)
  bound_i2c (w, true) = let (w', configured) = i2c_configure w in (w', true, configured)

  -- The first argument is whether `i2c_dev` is set already.
  unfoldable pub get_i2c_device : Bool → W → W × Bool × Bool
  unfolding bound_i2c
  get_i2c_device true w = (w, true, true)
  get_i2c_device false w = bound_i2c (i2c_get_binding w)

  unfoldable pub get_spi_device : Bool → W → W × Bool
  get_spi_device true w = (w, true)
  get_spi_device false w = spi_get_binding w

  module _ (pins : Pins W) (bus : Bus W) where
    -- Behind the three tests in turn. `ADS124S08_begin` only fills the SPI configuration.
    unfoldable pub with_spi : W × Bool → Boot W
    with_spi (w, false) = halted 3 w
    with_spi (w, true) = ready (init bus w)

    unfoldable pub with_i2c : W × Bool × Bool → Boot W
    unfolding with_spi
    with_i2c (w, set, false) = halted 2 w
    with_i2c (w, set, true) = with_spi (get_spi_device false w)

    unfoldable pub with_gpio : W × Bool → Boot W
    unfolding with_i2c
    with_gpio (w, false) = halted 1 w
    with_gpio (w, true) = with_i2c (get_i2c_device false w)

    unfoldable pub init_board : W → Boot W
    unfolding with_gpio
    init_board w = with_gpio (get_gpio_device pins false w)
