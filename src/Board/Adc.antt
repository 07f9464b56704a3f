-- ===== src/Board/Adc.antt =====
-- The gas sensor front end: Firmware/src/ads124s08.c. Zephyr's SPI, pins and clock are a parameter;
-- the code only logs what they report as errors.
pub mod Contract
pub mod Channels
pub mod Sample
use air_quality_sensor_node.Base.{
  ℕ, zero, suc, ◌+◌, ◌-◌, ◌*◌, ◌%◌, ◌^◌, bit_or, Bool, true, false, [], ◌∷◌, ◌++◌, Bytes, ltb, leb,
  if◌then◌else◌, get_or, take, drop, length, replicate,
}
use air_quality_sensor_node.Base.Outcome.{Outcome, ok, out_of_bounds}

-- `transceive` is given the bytes sent and those that the receive buffer held, and returns the bytes
-- that it then holds.
pub record Bus (D : Type 0) : Type 0 where
  pub transceive : D → Bytes → Bytes → D × Bytes
  pub write : D → Bytes → D
  pub digital_write : D → ℕ → ℕ → D
  pub gpio_pin_write : D → ℕ → ℕ → D
  pub sleep : D → ℕ → D

-- CS_ADC, ADC_SYNC and ADC_RESET of pinout.h
abbrev pub cs_pin : ℕ
cs_pin = 28

abbrev pub start_pin : ℕ
start_pin = 31

abbrev pub adc_reset : ℕ
adc_reset = 30

-- The opcodes and register addresses of ads124s08.h that the code uses.
abbrev pub wake_opcode : ℕ
wake_opcode = 0x02

abbrev pub start_opcode : ℕ
start_opcode = 0x08

abbrev pub stop_opcode : ℕ
stop_opcode = 0x0A

abbrev pub regrd_opcode : ℕ
regrd_opcode = 0x20

abbrev pub regwr_opcode : ℕ
regwr_opcode = 0x40

abbrev pub inpmux_addr : ℕ
inpmux_addr = 0x02

abbrev pub pga_addr : ℕ
pga_addr = 0x03

abbrev pub ref_addr : ℕ
ref_addr = 0x05

abbrev pub sys_addr : ℕ
sys_addr = 0x09

-- ADS_N_AINCOM, and ADS_P_AIN0 and so on for the number of an input.
abbrev pub n_aincom : ℕ
n_aincom = 0b1100

abbrev pub p_ain : ℕ → ℕ
p_ain n = n * 16

abbrev pub spi_buf_size : ℕ
spi_buf_size = 256

-- `AFE3_SAMPLE`
pub record Afe3Sample : Type 0 where
  pub op1 : ℕ
  pub op2 : ℕ
  pub op3 : ℕ
  pub op4 : ℕ
  pub op5 : ℕ
  pub op6 : ℕ
  pub pt : ℕ

-- `(iData << 8) + data[k]` in an `unsigned int`.
unfoldable pub shift_in : ℕ → ℕ → ℕ
shift_in value byte = (value * 256 + byte) % 2 ^ 32

module _ {D : Type 0} (bus : Bus D) where
  open bus use {transceive, write, digital_write, gpio_pin_write, sleep}

  unfoldable pub select : D → D
  select d = sleep (digital_write d cs_pin 0) 1

  unfoldable pub release : D → D
  release d = sleep (digital_write d cs_pin 1) 1

  -- The register's value is the last of three bytes. `regnum & 0x1f` is `% 32`.
  unfoldable pub reg_read : ℕ → D → D × ℕ
  unfolding select release
  reg_read regnum d =
      let frame = ((regrd_opcode + regnum % 32) % 2 ^ 8) ∷ 0 ∷ 0 ∷ [] in
      let (d', rx) = transceive (select d) frame (0 ∷ 0 ∷ 0 ∷ []) in (release d', get_or rx 2 0)

  -- `rx` is what the receive buffer holds; the registers are read into it.
  unfoldable pub read_regs : ℕ → ℕ → Bytes → D → Outcome (D × Bytes)
  unfolding select release
  read_regs regnum count rx d =
      let frame = ((regrd_opcode + regnum % 32) % 2 ^ 8) ∷ ((count + 2 ^ 32 - 1) % 2 ^ 8) ∷ [] in
      let (d1, rx1) = transceive (select d) frame (take 2 rx) in
      let buffer = rx1 ++ drop 2 rx in
      let (d2, rx2) = transceive d1 (replicate count 0) (take count buffer) in
      if leb count spi_buf_size then ok (release d2, rx2) else out_of_bounds

  unfoldable pub reg_write : ℕ → ℕ → D → D
  unfolding select release
  reg_write regnum value d =
      release (write (select d) (((regwr_opcode + regnum % 32) % 2 ^ 8) ∷ 0 ∷ value ∷ []))

  unfoldable pub send_command : ℕ → D → D
  unfolding select release
  send_command op_code d = release (transceive (select d) (op_code ∷ []) (0 ∷ [])).0

  unfoldable pub re_start : D → D
  re_start d = sleep (send_command start_opcode (send_command stop_opcode d)) 100

  unfoldable pub start_conversion : D → D
  start_conversion d = sleep (digital_write d start_pin 1) 1

  unfoldable pub stop_conversion : D → D
  stop_conversion d = sleep (digital_write d start_pin 0) 1

  unfoldable pub init : D → D
  unfolding release stop_conversion
  init d = stop_conversion (release d)

  unfoldable pub hard_reset : D → D
  hard_reset d =
      let low = sleep (gpio_pin_write d adc_reset 0) 200 in
      sleep (gpio_pin_write low adc_reset 1) 200

  -- The result is the conversion, the status and the checksum.
  unfoldable pub data_read : D → D × ℕ × ℕ × ℕ
  unfolding select release shift_in
  data_read d =
      let (d1, status) = transceive (select d) (0 ∷ []) (0 ∷ []) in
      let (d2, rx) = transceive d1 (0 ∷ 0 ∷ 0 ∷ []) (0 ∷ 0 ∷ 0 ∷ []) in
      let (d3, crc) = transceive d2 (0 ∷ []) (0 ∷ []) in
      (
        release d3,
        shift_in (shift_in (get_or rx 0 0) (get_or rx 1 0)) (get_or rx 2 0),
        get_or status 0 0,
        get_or crc 0 0,
      )

  unfoldable pub configure_adc : ℕ → D → D
  configure_adc channel d =
      let d1 = reg_write inpmux_addr (bit_or channel n_aincom) (send_command wake_opcode d) in
      let d2 = reg_write pga_addr 0 d1 in
      let d3 = reg_write ref_addr 0b00110000 d2 in re_start (reg_write sys_addr 0b00000011 d3)

  -- The status is tested for a message in the log only.
  unfoldable pub sample_channel : ℕ → D → D × ℕ
  sample_channel channel d =
      let (d', value, _, _) = data_read (start_conversion (configure_adc channel d)) in
      (stop_conversion d', value)

  unfoldable pub sample_data : D → D × Afe3Sample
  sample_data d0 =
      let (d1, v1) = sample_channel (p_ain 0) d0 in
      let (d2, v2) = sample_channel (p_ain 1) d1 in
      let (d3, v3) = sample_channel (p_ain 2) d2 in
      let (d4, v4) = sample_channel (p_ain 3) d3 in
      let (d5, v5) = sample_channel (p_ain 4) d4 in
      let (d6, v6) = sample_channel (p_ain 5) d5 in
      let (d7, v7) = sample_channel (p_ain 8) d6 in
      (d7, record { op1 = v1; op2 = v2; op3 = v3; op4 = v4; op5 = v5; op6 = v6; pt = v7 })
