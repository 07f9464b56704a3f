-- ===== src/Opc/Command/Polling.antt =====
-- When `OPC_command` succeeds and when it gives up.
use air_quality_sensor_node.Base.{ℕ, zero, suc, ◌≤◌, ◌≡◌, Bool, true, false, [], ◌==◌, arith}
use air_quality_sensor_node.Opc.Command.{
  Drivers, unexpected_response, data_ready, max_retries, poll, finish_command, release_chip_select,
  select_device, command,
}

module _ {D : Type 0} (h : Drivers D) where
  open h use {spi_transceive, sleep, usleep, digital_write}

  -- What poll `k` gives, counted from 0, if no earlier poll ends the loop.
  abbrev pub polled : ℕ → D → ℕ → ℕ → D × ℕ
  polled zero d tx rx = spi_transceive d tx rx
  polled (suc k) d tx rx = let (d', rx') = spi_transceive d tx rx in polled k (sleep d' 2000) tx rx'

  -- The first `k` polls find the device busy.
  abbrev pub Busy : ℕ → D → ℕ → ℕ → Type 0
  Busy zero d tx rx = Unit
  Busy (suc k) d tx rx =
      ((spi_transceive d tx rx).1 == data_ready ≡ false)
      × Busy k (sleep (spi_transceive d tx rx).0 2000) tx (spi_transceive d tx rx).1

  poll_ready :
      (n k : ℕ) (d : D) (tx rx : ℕ)
      → k ≤ n
      → Busy k d tx rx
      → ((polled k d tx rx).1 == data_ready) ≡ true
      → poll h n d tx rx ≡ (true, (polled k d tx rx).0, (polled k d tx rx).1)
  unfolding poll
  poll_ready zero zero d tx rx le b r = rw r
  poll_ready zero (suc k) d tx rx le b r = absurd (omega arith)
  poll_ready (suc n) zero d tx rx le b r = rw r
  poll_ready (suc n) (suc k) d tx rx le b r = rw b.0 (
      poll_ready n k (sleep (spi_transceive d tx rx).0 2000) tx (spi_transceive d tx rx).1
        (omega arith) b.1 r)

  poll-Busy :
      (n : ℕ) (d : D) (tx rx : ℕ)
      → Busy (suc n) d tx rx
      → poll h n d tx rx ≡ (false, (polled n d tx rx).0, (polled n d tx rx).1)
  unfolding poll
  poll-Busy zero d tx rx b = rw b.0
  poll-Busy (suc n) d tx rx b =
      rw b.0 (poll-Busy n (sleep (spi_transceive d tx rx).0 2000) tx (spi_transceive d tx rx).1 b.1)

  -- The state in which a command starts to poll.
  abbrev pub started : ℕ → D → D × ℕ
  started command_byte d = spi_transceive (digital_write d 29 0) command_byte 0

  -- If the device is ready at some poll among the first 22, the command goes on from that poll,
  -- and never waits for a later one.
  pub command_ready :
      (c o : ℕ) (has_buffer : Bool) (n : ℕ) (d : D) (k : ℕ)
      → k ≤ 21
      → Busy k (sleep (started c d).0 10) c (started c d).1
      → ((polled k (sleep (started c d).0 10) c (started c d).1).1 == data_ready) ≡ true
      → command h c o has_buffer n d
        ≡ finish_command h c o has_buffer n
            (usleep (polled k (sleep (started c d).0 10) c (started c d).1).0 10)
  unfolding command select_device
  command_ready c o has_buffer n d k le b r =
      rw (poll_ready max_retries k (sleep (started c d).0 10) c (started c d).1 le b r)

  -- If 22 polls find the device busy, the command returns OPC_UNEXPECTED_OPC_RESPONSE, reads nothing
  -- and ends with the chip select line raised.
  pub command-Busy :
      (c o : ℕ) (has_buffer : Bool) (n : ℕ) (d : D)
      → Busy 22 (sleep (started c d).0 10) c (started c d).1
      → command h c o has_buffer n d ≡ (
        unexpected_response,
        digital_write (polled 21 (sleep (started c d).0 10) c (started c d).1).0 29 1,
        [],
      )
  unfolding command select_device release_chip_select
  command-Busy c o has_buffer n d b =
      rw (poll-Busy max_retries (sleep (started c d).0 10) c (started c d).1 b)
