-- ===== src/Board/Uart/Receive.antt =====
-- From the bridge to the ring buffers: what `max_proc` hands to the interrupt of comms.c.
use air_quality_sensor_node.Base.{
  ℕ, zero, suc, ◌<◌, ◌≡◌, ◌≢◌, [], ◌∷◌, Bytes, length, some, ◌==◌, false, arith,
}
use air_quality_sensor_node.Base.Outcome.{ok}
use air_quality_sensor_node.Modem.Urc.{Kernel, Comms, comms_handle_char}
use air_quality_sensor_node.Modem.Urc.Lines.{deliver}
use air_quality_sensor_node.Board.Uart.{
  I2c, modem_address, rx_fifo_lvl_register, thr_register, max_read, read_from_rx_fifo,
}

module _ {D R S : Type 0} (i2c : I2c D) (kernel : Kernel R S) where
  -- From `d` to `d'` the device gives the bytes one by one, and is then empty.
  abbrev pub Gives : Bytes → D → D → Type 0
  Gives [] d d' = max_read i2c modem_address rx_fifo_lvl_register d ≡ (d', 0)
  Gives (b ∷ bs) d d' =
      (d1 : D) × (level : ℕ) × (d2 : D) × (max_read i2c modem_address rx_fifo_lvl_register d
        ≡ (d1, level))
      × (level ≢ 0)
      × (max_read i2c modem_address thr_register d1 ≡ (d2, b))
      × Gives bs d2 d'

  -- If the bridge gives some bytes until its buffer is empty, and the loop has a round for each and
  -- one more, the loop ends, and the interrupt has handled these bytes, in order.
  pub read_from_rx_fifo-deliver :
      (bs : Bytes) (fuel : ℕ) (d d' : D) (c : Comms R S)
      → Gives bs d d'
      → length bs < fuel
      → read_from_rx_fifo i2c fuel modem_address (some (comms_handle_char kernel)) d c
        ≡ ok (d', deliver kernel bs c)
  unfolding read_from_rx_fifo deliver
  read_from_rx_fifo-deliver bs zero d d' c h enough = absurd (omega arith)
  read_from_rx_fifo-deliver [] (suc fuel) d d' c h enough = rw h
  read_from_rx_fifo-deliver (b ∷ bs) (suc fuel) d d' c h enough =
      let (d1, level, d2, at_level, full, got, later) = h in
      let more : (level == 0) ≡ false = ground arith in
      rw (at_level, got, more)
        (read_from_rx_fifo-deliver bs fuel d2 d' (comms_handle_char kernel b c) later (omega arith))
