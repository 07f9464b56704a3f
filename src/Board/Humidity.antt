-- ===== src/Board/Humidity.antt =====
-- The sensor of temperature and humidity in the housing: Firmware/src/chipcap2.c. Zephyr's I2C and the
-- calculation with floats are parameters; the code only logs what a call reports as an error.
use air_quality_sensor_node.Base.{ℕ, ◌/◌, ◌%◌, [], ◌∷◌, Bytes, get_or, Option, none, some}
use air_quality_sensor_node.Message.{Cc2Sample}

-- `i2c_read` of so many bytes from an address gives nothing where its result is not 0.
pub record Wire (D : Type 0) : Type 0 where
  pub i2c_write : ℕ → Bytes → D → D
  pub i2c_read : ℕ → ℕ → D → D × Option Bytes

-- The operations of the type `float`; `from_nat` is the conversion of a number.
pub record Arithmetic (F : Type 0) : Type 0 where
  pub from_nat : ℕ → F
  pub plus : F → F → F
  pub minus : F → F → F
  pub times : F → F → F
  pub over : F → F → F

abbrev pub chipcap2_address : ℕ
chipcap2_address = 0x28

abbrev pub chipcap2_normal_operation_mode : ℕ
chipcap2_normal_operation_mode = 0x80

module _ {F : Type 0} (arithmetic : Arithmetic F) where
  open arithmetic use {from_nat, plus, minus, times, over}

  -- `(high * scale + low) / 16384 * range`
  abbrev scaled : ℕ → ℕ → ℕ → ℕ → F
  scaled high scale low range =
      times (over (plus (times (from_nat high) (from_nat scale)) (from_nat low)) (from_nat 16384))
        (from_nat range)

  -- What the sample becomes of the four bytes; `& 0b00111111` is `% 64` and `>> 4` is `/ 16`.
  unfoldable pub converted : Bytes → Cc2Sample F
  converted rx = record {
    rh = scaled (get_or rx 0 0 % 64) 256 (get_or rx 1 0) 100;
    temp_c = minus (scaled (get_or rx 2 0) 64 (get_or rx 3 0 / 16) 165) (from_nat 40);
  }

  module _ {D : Type 0} (wire : Wire D) where
    open wire use {i2c_write, i2c_read}

    unfoldable pub cc2_init : D → D
    cc2_init d = i2c_write chipcap2_address (chipcap2_normal_operation_mode ∷ 0 ∷ 0 ∷ []) d

    -- Behind `i2c_read`, with the sample that is there.
    unfoldable pub with_reading : D × Option Bytes → Cc2Sample F → D × Cc2Sample F
    with_reading (d, none) current = (d, current)
    with_reading (d, some rx) current = (i2c_write chipcap2_address [] d, converted rx)

    unfoldable pub cc2_sample_data : Cc2Sample F → D → D × Cc2Sample F
    unfolding with_reading
    cc2_sample_data current d = with_reading (i2c_read chipcap2_address 4 d) current
