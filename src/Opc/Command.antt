-- ===== src/Opc/Command.antt =====
-- Commands to the OPC-N3 over SPI and the sampling sequence: `OPC_command`, the power switching,
-- `opc_sample`, `opc_n3_sample_data` and `opc_n3_get_sample` of Firmware/src/opc_n3.c.
-- The drivers of Zephyr are a parameter. The code only logs what they report as errors.
pub mod Polling
pub mod Sampling
use air_quality_sensor_node.Base.{
  ℕ, zero, suc, ◌+◌, Bool, true, false, not, ◌&&◌, [], ◌∷◌, ◌++◌, Bytes, ltb, ◌==◌, if◌then◌else◌,
  length, drop, replicate,
}
use air_quality_sensor_node.Opc.Crc.{calc_crc}
use air_quality_sensor_node.Opc.Histogram.{
  OpcSample, histogram_size, checksum_index, get_uint16_value, decode_histogram,
}

-- What the firmware calls of Zephyr, over the state `D` of the devices. `spi_transceive` is given
-- the byte sent and the byte that the receive buffer held, and returns the byte it then holds.
pub record Drivers (D : Type 0) : Type 0 where
  pub spi_transceive : D → ℕ → ℕ → D × ℕ
  pub digital_write : D → ℕ → ℕ → D
  pub sleep : D → ℕ → D
  pub usleep : D → ℕ → D

-- `OPC_N3_RESULT`
pub data OpcResult : Type 0 where
  opc_ok not_implemented unexpected_response crc_error : OpcResult

abbrev pub cs_opc : ℕ
cs_opc = 29

abbrev pub data_ready : ℕ
data_ready = 0xF3

abbrev pub option_none : ℕ
option_none = 0xFF

abbrev pub spi_buf_size : ℕ
spi_buf_size = 256

-- `retryCount++ > 20` gives up at the twenty-second poll: `retries_left` counts from 21 down.
abbrev pub max_retries : ℕ
max_retries = 21

module _ {D : Type 0} (h : Drivers D) where
  open h use {spi_transceive, digital_write, sleep, usleep}

  unfoldable pub select_device : D → D
  select_device d = digital_write d cs_opc 0

  unfoldable pub release_chip_select : D → D
  release_chip_select d = digital_write d cs_opc 1

  -- The polling loop: whether the device was ready, and the byte last received.
  unfoldable pub poll : ℕ → D → ℕ → ℕ → Bool × D × ℕ
  poll zero d tx rx = let (d', rx') = spi_transceive d tx rx in (rx' == data_ready, d', rx')
  poll (suc retries_left) d tx rx =
      let (d', rx') = spi_transceive d tx rx in
      let again = poll retries_left (sleep d' 2000) tx rx' in
      if rx' == data_ready then (true, d', rx') else again

  -- The loop that reads `rxBytes` bytes: `n` are left. The bytes are those put into the buffer.
  unfoldable pub read_bytes : Bool → ℕ → D → ℕ → ℕ → ℕ → D × Bytes
  read_bytes has_buffer zero d tx rx index = (d, [])
  read_bytes has_buffer (suc n) d tx rx index =
      let (d', rx') = spi_transceive d tx rx in
      let keep = has_buffer && ltb index spi_buf_size in
      let (d'', bytes) = read_bytes has_buffer n d' tx rx' (if keep then index + 1 else index) in
      (d'', if keep then rx' ∷ bytes else bytes)

  -- Behind the poll: the option byte if there is one, then the bytes to read, then the release.
  unfoldable pub finish_command : ℕ → ℕ → Bool → ℕ → D → OpcResult × D × Bytes
  finish_command command_byte option_byte has_buffer rx_bytes d =
      let with_option = (spi_transceive d option_byte 0).0 in
      let d' = if option_byte == option_none then d else with_option in
      let (d'', bytes) = read_bytes has_buffer rx_bytes d' command_byte 0 0 in
      (opc_ok, release_chip_select (sleep d'' 10), bytes)

  unfoldable pub command : ℕ → ℕ → Bool → ℕ → D → OpcResult × D × Bytes
  command command_byte option_byte has_buffer rx_bytes d =
      let (d1, rx) = spi_transceive (select_device d) command_byte 0 in
      let (ready, d2, _) = poll max_retries (sleep d1 10) command_byte rx in
      if ready
      then finish_command command_byte option_byte has_buffer rx_bytes (usleep d2 10)
      else (unexpected_response, release_chip_select d2, [])

  unfoldable pub peripherals_power_on : D → D
  peripherals_power_on d =
      let fan = (command 0x03 0x03 false 0 d).1 in
      sleep (command 0x03 0x07 false 0 (sleep fan 10000)).1 50

  unfoldable pub peripherals_power_off : D → D
  peripherals_power_off d =
      let laser = (command 0x03 0x06 false 0 d).1 in
      sleep (command 0x03 0x02 false 0 (sleep laser 50)).1 10000

  -- Returns whether the checksum holds, and the histogram: zeros where nothing was read.
  unfoldable pub opc_sample : D → Bool × D × Bytes
  opc_sample d =
      let on = sleep (peripherals_power_on d) 60000 in
      let (_, read, bytes) = command 0x30 option_none true histogram_size on in
      let histogram = bytes ++ drop (length bytes) (replicate histogram_size 0) in
      let off = peripherals_power_off (sleep read 60000) in
      let checksum = get_uint16_value histogram checksum_index in
      (checksum == calc_crc histogram checksum_index, off, histogram)

  -- `OPC_OK == opc_sample()` compares the enumerator, which is 0, with a `bool`.
  unfoldable pub sample_data : D → D × OpcSample
  sample_data d =
      let (sampled, d', histogram) = opc_sample d in
      (d', decode_histogram histogram (0 == (if sampled then 1 else 0)))
