-- ===== src/Board/Uart.antt =====
-- The bridge from I2C to the modem's serial line: Firmware/src/max14830.c, with `modem_write` of
-- comms.c. Zephyr's I2C, pins and clock are a parameter; the code only logs what they report as
-- errors. The loops that wait for the device take fuel.
pub mod Contract
pub mod Line
pub mod Receive
use air_quality_sensor_node.Base.{
  ℕ, zero, suc, ◌+◌, ◌*◌, ◌/◌, ◌%◌, ◌^◌, bit_and, bit_or, Bool, true, false, not, ◌&&◌, [], ◌∷◌,
  Bytes, ltb, ◌==◌, if◌then◌else◌, length, Option, none, some,
}
use air_quality_sensor_node.Base.Outcome.{Outcome, ok, out_of_bounds, out_of_fuel, ◌>>=◌}

-- `write_read` gives what the receive buffer of one byte then holds.
pub record I2c (D : Type 0) : Type 0 where
  pub write : D → ℕ → Bytes → D
  pub write_read : D → ℕ → Bytes → D × ℕ
  pub gpio_pin_read : D → ℕ → D × ℕ
  pub sleep : D → ℕ → D

-- EE_NBIOT_01_ADDRESS, and the registers by their names in max14830.c.
abbrev pub modem_address : ℕ
modem_address = 0x61

abbrev pub thr_register : ℕ
thr_register = 0x00

abbrev pub mode1_register : ℕ
mode1_register = 0x09

abbrev pub lcr_register : ℕ
lcr_register = 0x0B

abbrev pub rxtimeout_register : ℕ
rxtimeout_register = 0x0C

abbrev pub tx_fifo_lvl_register : ℕ
tx_fifo_lvl_register = 0x11

abbrev pub rx_fifo_lvl_register : ℕ
rx_fifo_lvl_register = 0x12

abbrev pub brgconfig_register : ℕ
brgconfig_register = 0x1B

abbrev pub divlsb_register : ℕ
divlsb_register = 0x1C

abbrev pub divmsb_register : ℕ
divmsb_register = 0x1D

abbrev pub clksource_register : ℕ
clksource_register = 0x1E

abbrev pub max14830_irq : ℕ
max14830_irq = 3

abbrev pub clock_frequency : ℕ
clock_frequency = 3686400

-- The mode bits and the divider for a baud rate, which is not 0.
unfoldable pub baud_divider : ℕ → ℕ × ℕ
baud_divider baud =
    let least = clock_frequency / baud in
    let div = if ltb least 16 then 16 else least in
    let inexact = λ (clk d : ℕ). (not (clk % baud == 0) && ltb (d / 16) 0x8000) in
    let div2 = clock_frequency * 2 / baud in
    if inexact clock_frequency div
    then (if inexact (clock_frequency * 2) div2
        then (0b00100000, clock_frequency * 4 / baud)
        else (0b00010000, div2))
    else (0, div)

data_bits : ℕ → ℕ
data_bits wordlength =
    if wordlength == 6 then 1 else if wordlength == 7 then 2 else if wordlength == 8 then 3 else 0

-- The parity is 0 for none, 1 for even, 2 for odd.
unfoldable pub line_control : ℕ → ℕ → ℕ → ℕ
unfolding data_bits
line_control wordlength parity stop_bits =
    let p = if parity == 1 then 0b00011000 else if parity == 2 then 0b00001000 else 0 in
    let lcr = bit_or p (data_bits wordlength) in
    if stop_bits == 0 then lcr else bit_and lcr 0b11111011

module _ {D : Type 0} (i2c : I2c D) where
  open i2c use {write, write_read, gpio_pin_read, sleep}

  unfoldable pub max_write : ℕ → ℕ → ℕ → D → D
  max_write address reg value d = write d address (reg ∷ (value % 2 ^ 8) ∷ [])

  unfoldable pub max_read : ℕ → ℕ → D → D × ℕ
  max_read address reg d = write_read d address (reg ∷ [])

  unfoldable pub init_uart : ℕ → ℕ → ℕ → ℕ → ℕ → D → D
  unfolding max_write baud_divider line_control
  init_uart address baud wordlength parity stop_bits d =
      let (mode, div) = baud_divider baud in
      let d1 = max_write address divlsb_register (div / 16) d in
      let d2 = max_write address divmsb_register (div / 16 / 2 ^ 8) d1 in
      let d3 = max_write address brgconfig_register (bit_or (div % 16) mode) d2 in
      let d4 = max_write address lcr_register (line_control wordlength parity stop_bits) d3 in
      let d5 = max_write address clksource_register 0b00001010 d4 in
      max_write address rxtimeout_register 0b00000100 d5

  unfoldable pub wait_for_reset : ℕ → D → Outcome D
  wait_for_reset zero d = out_of_fuel
  wait_for_reset (suc fuel) d =
      let (d', value) = gpio_pin_read d max14830_irq in
      let again = wait_for_reset fuel d' in if value == 0 then again else ok d'

  -- `max_init`, but for the thread that it starts, which repeats `read_from_rx_fifo`.
  unfoldable pub max_init : ℕ → D → Outcome D
  max_init fuel d = do d' ← wait_for_reset fuel d; ok (init_uart modem_address 9600 8 0 1 d')

  unfoldable pub enable_rx_mode : ℕ → D → D
  unfolding max_read max_write
  enable_rx_mode address d =
      let (d', mode1) = max_read address mode1_register d in
      max_write address mode1_register (bit_or mode1 0b10000010) d'

  unfoldable pub enable_tx_mode : ℕ → D → D
  unfolding max_read max_write
  enable_tx_mode address d =
      let (d', mode1) = max_read address mode1_register d in
      max_write address mode1_register (bit_and mode1 0b10000001) d'

  unfoldable pub wait_for_tx : ℕ → ℕ → D → Outcome D
  unfolding max_read
  wait_for_tx zero address d = out_of_fuel
  wait_for_tx (suc fuel) address d =
      let (d', level) = max_read address tx_fifo_lvl_register d in
      let again = wait_for_tx fuel address (sleep d' 1) in if level == 0 then ok d' else again

  -- `callback` is `char_callback` on the state `C`, if it is set.
  unfoldable pub read_from_rx_fifo :
      {C : Type 0} → ℕ → ℕ → Option (ℕ → C → C) → D → C → Outcome (D × C)
  unfolding max_read
  read_from_rx_fifo zero address callback d c = out_of_fuel
  read_from_rx_fifo (suc fuel) address callback d c =
      let (d1, fifo_level) = max_read address rx_fifo_lvl_register d in
      let (d2, ch) = max_read address thr_register d1 in
      let more =
        read_from_rx_fifo fuel address callback d2 (elim callback [ none ↦ c | some f ↦ f ch c ]) in
      if fifo_level == 0 then ok (d1, c) else more

  -- The loop of `max_send` over the first `count` bytes.
  unfoldable pub send_bytes : ℕ → Bytes → D → Outcome D
  unfolding max_write
  send_bytes zero buf d = ok d
  send_bytes (suc count) [] d = out_of_bounds
  send_bytes (suc count) (b ∷ buf) d =
      send_bytes count buf (max_write modem_address thr_register b d)

  -- `len` is a `uint8_t`.
  unfoldable pub max_send : ℕ → Bytes → ℕ → D → Outcome D
  max_send fuel buf len d = do
    d1 ← send_bytes len buf (enable_tx_mode modem_address d)
    d2 ← wait_for_tx fuel modem_address d1
    ok (enable_rx_mode modem_address d2)

  -- `max_send(cmd, strlen(cmd))` keeps the low byte of the length.
  unfoldable pub modem_write : ℕ → Bytes → D → Outcome D
  modem_write fuel cmd d = max_send fuel cmd (length cmd % 2 ^ 8) d
