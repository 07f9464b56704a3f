-- ===== src/Opc/Command/Sampling.antt =====
-- What a sample holds and what state the sampling leaves the bus in.
use air_quality_sensor_node.Base.{
  ℕ, zero, suc, ◌+◌, ◌-◌, ◌≤◌, ◌≡◌, refl, ap, Bool, true, false, not, [], Bytes, ◌==◌,
  if◌then◌else◌, arith, length, drop, replicate, length-append, length-replicate, lt→ltb,
}
use native.Mathlib.Nat.{le_of_eq}
use Prim.Native.Nat.{zero-le}
use air_quality_sensor_node.Opc.Crc.{calc_crc}
use air_quality_sensor_node.Opc.Histogram.{get_uint16_value, decode_histogram}
use air_quality_sensor_node.Opc.Command.{
  Drivers, option_none, OpcResult, unexpected_response, spi_buf_size, poll, max_retries, read_bytes,
  finish_command, release_chip_select, select_device, command, peripherals_power_on, opc_sample,
  sample_data,
}

drop-zeros : (n k : ℕ) → length (drop n (replicate {A = ℕ} k 0)) ≡ k - n
drop-zeros zero k = omega (arith, length-replicate {A = ℕ} k 0)
drop-zeros (suc n) zero = omega arith
drop-zeros (suc n) (suc k) = omega (arith, drop-zeros n k)

-- `OPC_OK == b`, the enumerator being 0
zero_is : (b : Bool) → (0 == (if b then 1 else 0)) ≡ not b
zero_is true = refl
zero_is false = refl

module _ {D : Type 0} (h : Drivers D) where
  open h use {spi_transceive, sleep, usleep, digital_write}

  length-read_bytes :
      (n : ℕ) (d : D) (tx rx index : ℕ)
      → index + n ≤ spi_buf_size
      → length (read_bytes h true n d tx rx index).1 ≡ n
  unfolding read_bytes
  length-read_bytes zero d tx rx index le = refl
  length-read_bytes (suc n) d tx rx index le = rw (lt→ltb index spi_buf_size (omega arith)) (
      ap suc (
        length-read_bytes n (spi_transceive d tx rx).0 tx (spi_transceive d tx rx).1 (index + 1)
          (omega arith)))

  either_releases :
      (ready : Bool) (x y : OpcResult × D × Bytes)
      → (d' : D) × (x.1 ≡ digital_write d' 29 1)
      → (d' : D) × (y.1 ≡ digital_write d' 29 1)
      → (d' : D) × ((if ready then x else y).1 ≡ digital_write d' 29 1)
  either_releases true x y rx ry = rx
  either_releases false x y rx ry = ry

  -- Whatever the device answers, a command ends with the chip select line raised.
  pub command_releases :
      (c o : ℕ) (has_buffer : Bool) (n : ℕ) (d : D)
      → (d' : D) × ((command h c o has_buffer n d).1 ≡ digital_write d' 29 1)
  unfolding command finish_command release_chip_select
  command_releases c o has_buffer n d = either_releases _ _ _ (_, refl) (_, refl)

  either_length :
      (n : ℕ) (ready : Bool) (x y : OpcResult × D × Bytes)
      → length x.2 ≤ n
      → length y.2 ≤ n
      → length (if ready then x else y).2 ≤ n
  either_length n true x y hx hy = hx
  either_length n false x y hx hy = hy

  length-finish_command :
      (c o n : ℕ) (d : D) → n ≤ spi_buf_size → length (finish_command h c o true n d).2 ≡ n
  unfolding finish_command
  length-finish_command c o n d le = length-read_bytes n _ c 0 0 (omega arith)

  length-command : (c o n : ℕ) (d : D) → n ≤ spi_buf_size → length (command h c o true n d).2 ≤ n
  unfolding command
  length-command c o n d le =
      let (d1, rx) = spi_transceive (select_device h d) c 0 in
      let (ready, d2, _) = poll h max_retries (sleep d1 10) c rx in
      either_length n ready (finish_command h c o true n (usleep d2 10))
        (unexpected_response, release_chip_select h d2, [])
        (le_of_eq (length-finish_command c o n (usleep d2 10) le)) zero-le

  -- The histogram always has its 86 bytes, so that no read of the decoding leaves it.
  pub length-histogram : (d : D) → length (opc_sample h d).2 ≡ 86
  unfolding opc_sample
  length-histogram d = omega (
    arith,
    length-append (command h 48 option_none true 86 (sleep (peripherals_power_on h d) 60000)).2 (
        drop (length (command h 48 option_none true 86 (sleep (peripherals_power_on h d) 60000)).2)
          (replicate {A = ℕ} 86 0)),
    drop-zeros
        (length (command h 48 option_none true 86 (sleep (peripherals_power_on h d) 60000)).2) 86,
    length-command 48 option_none 86 (sleep (peripherals_power_on h d) 60000) (omega arith),
  )

  opc_sample-checks :
      (d : D)
      → (opc_sample h d).0
        ≡ (get_uint16_value (opc_sample h d).2 84 == calc_crc (opc_sample h d).2 84)
  unfolding opc_sample
  opc_sample-checks d = refl

  -- The stored sample is the decoded histogram, and its `valid` is the negation of what the
  -- checksum says: a sample with the right checksum is marked as not valid.
  pub sample_data-valid :
      (d : D)
      → let histogram = (opc_sample h d).2 in
        (sample_data h d).1
        ≡ decode_histogram histogram (not (get_uint16_value histogram 84 == calc_crc histogram 84))
  unfolding sample_data
  sample_data-valid d =
      rw (← opc_sample-checks d)
        (ap (decode_histogram (opc_sample h d).2) (zero_is (opc_sample h d).0))
