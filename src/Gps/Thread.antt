-- ===== src/Gps/Thread.antt =====
-- The interrupt and the thread of Firmware/src/gps.c: `uart_fifo_callback`, the loop of
-- `GPS_entry_point`, which holds the scheduler while it looks at the cache, and `gps_get_sample`.
pub mod Retries
use air_quality_sensor_node.Base.{
  ℕ, Bool, true, false, List, [], ◌∷◌, not, if◌then◌else◌, count_past,
}
use air_quality_sensor_node.Base.Outcome.{Outcome, ok, ◌>>=◌}
use air_quality_sensor_node.Board.Gpio.{Pins, gps_reset}
use air_quality_sensor_node.Gps.Cache.{GpsFix, get_fix}
use air_quality_sensor_node.Gps.Decode.{Floats}
use air_quality_sensor_node.Gps.Cache.{GpsRmc}
use air_quality_sensor_node.Gps.Receiver.{Receiver, rx_data}

-- Zephyr's UART: whether `uart_irq_update` gives 1, whether a byte is there, and the byte.
pub record Uart (D : Type 0) : Type 0 where
  pub irq_update : D → D × Bool
  pub irq_rx_ready : D → D × Bool
  pub fifo_read : D → D × ℕ

abbrev pub gps_fix_retry_limit : ℕ
gps_fix_retry_limit = 120

abbrev pub gps_loop_sleep : ℕ
gps_loop_sleep = 5000

-- `gps_retries_before_fix` and `current`.
pub record GpsThread (F : Type 0) : Type 0 where
  pub retries : ℕ
  pub current : GpsFix F

module _ {D F : Type 0} (uart : Uart D) (floats : Floats F) (stale : GpsRmc F) where
  open uart use {irq_update, irq_rx_ready, fifo_read}

  -- The result of `rxData` is not used.
  unfoldable pub take_byte : D × ℕ → Receiver F → Outcome (D × Receiver F)
  take_byte (d, b) r = do (r', _) ← rx_data floats stale b r; ok (d, r')

  unfoldable pub when_ready : D × Bool → Receiver F → Outcome (D × Receiver F)
  unfolding take_byte
  when_ready (d, true) r = take_byte (fifo_read d) r
  when_ready (d, false) r = ok (d, r)

  unfoldable pub when_updated : D × Bool → Receiver F → Outcome (D × Receiver F)
  unfolding when_ready
  when_updated (d, true) r = when_ready (irq_rx_ready d) r
  when_updated (d, false) r = ok (d, r)

  unfoldable pub uart_fifo_callback : D → Receiver F → Outcome (D × Receiver F)
  unfolding when_updated
  uart_fifo_callback d r = when_updated (irq_update d) r

unfoldable pub reset_if : {D : Type 0} → Pins D → Bool → D → D
reset_if pins true d = gps_reset pins d
reset_if pins false d = d

module _ {D F : Type 0} (pins : Pins D) where
  open pins use {sleep}

  -- Behind `gps_get_fix`, which has written `current`.
  unfoldable pub with_fix : GpsFix F × Bool → ℕ → D → GpsThread F × D
  unfolding reset_if
  with_fix (fix, true) retries d = (record { retries = retries; current = fix }, d)
  with_fix (fix, false) retries d =
      let (retries', limit_passed) = count_past gps_fix_retry_limit retries in
      (record { retries = retries'; current = fix }, reset_if pins limit_passed d)

  -- A round of the thread's loop with what the cache holds then.
  unfoldable pub gps_round : GpsFix F → GpsThread F → D → GpsThread F × D
  unfolding with_fix
  gps_round cached t d =
      let (t', d') = with_fix (get_fix cached) t.retries d in (t', sleep d' gps_loop_sleep)

  unfoldable pub gps_rounds : List (GpsFix F) → GpsThread F → D → GpsThread F × D
  gps_rounds [] t d = (t, d)
  gps_rounds (cached ∷ later) t d = let (t', d') = gps_round cached t d in gps_rounds later t' d'

  abbrev pub gps_get_sample : GpsThread F → GpsFix F
  gps_get_sample t = t.current
