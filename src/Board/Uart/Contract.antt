-- ===== src/Board/Uart/Contract.antt =====
-- What the documentation of the MAX14830, the bridge behind Firmware/src/max14830.c, says.
use air_quality_sensor_node.Base.{ℕ, suc, ◌/◌, ◌%◌, ◌≤◌, ◌<◌, ◌≡◌, [], ◌∷◌, ◌++◌, Bytes, length}
use air_quality_sensor_node.Board.Uart.{I2c}

-- What the bridge's documentation says of its transmitter. Bit 1 of the mode register, which has 8
-- bits, turns it off. While it is on, a byte written to the transmit register goes behind the others in
-- the transmit FIFO, which has 128 words, and at any time bytes may leave the front of the FIFO for the
-- line. `sent` are the bytes that have left it so far; `fifo` are those that wait. Nothing is said of
-- what waits in the FIFO when the mode is written. The level register gives 0 only for an empty FIFO.
pub record Bridge {D : Type 0} (i2c : I2c D) : Type 0 where
  pub sent : D → Bytes
  pub fifo : D → Bytes
  pub mode : D → ℕ
  pub mode_byte : (d : D) → mode d < 256
  pub read_mode : (d : D) → (i2c.write_read d 0x61 (0x09 ∷ [])).1 ≡ mode d
  pub mode-read : (d : D) (tx : Bytes) → mode (i2c.write_read d 0x61 tx).0 ≡ mode d
  pub mode-sleep : (d : D) (t : ℕ) → mode (i2c.sleep d t) ≡ mode d
  pub mode-write_mode : (d : D) (v : ℕ) → v < 256 → mode (i2c.write d 0x61 (0x09 ∷ v ∷ [])) ≡ v
  pub mode-write : (d : D) (b : ℕ) → mode (i2c.write d 0x61 (0x00 ∷ b ∷ [])) ≡ mode d
  pub order-read :
      (d : D) (tx : Bytes)
      → sent (i2c.write_read d 0x61 tx).0 ++ fifo (i2c.write_read d 0x61 tx).0 ≡ sent d ++ fifo d
  pub level-read :
      (d : D) (tx : Bytes) → length (fifo (i2c.write_read d 0x61 tx).0) ≤ length (fifo d)
  pub order-sleep :
      (d : D) (t : ℕ) → sent (i2c.sleep d t) ++ fifo (i2c.sleep d t) ≡ sent d ++ fifo d
  pub level-sleep : (d : D) (t : ℕ) → length (fifo (i2c.sleep d t)) ≤ length (fifo d)
  pub order-write :
      (d : D) (b : ℕ)
      → mode d / 2 % 2 ≡ 0
      → length (fifo d) < 128
      → sent (i2c.write d 0x61 (0x00 ∷ b ∷ [])) ++ fifo (i2c.write d 0x61 (0x00 ∷ b ∷ []))
        ≡ (sent d ++ fifo d) ++ b ∷ []
  pub level-write :
      (d : D) (b : ℕ) → length (fifo (i2c.write d 0x61 (0x00 ∷ b ∷ []))) ≤ suc (length (fifo d))
  pub sent-write_mode :
      (d : D) (v : ℕ) → fifo d ≡ [] → sent (i2c.write d 0x61 (0x09 ∷ v ∷ [])) ≡ sent d
  pub fifo-write_mode : (d : D) (v : ℕ) → fifo d ≡ [] → fifo (i2c.write d 0x61 (0x09 ∷ v ∷ [])) ≡ []
  pub fifo-level_zero : (d : D) → (i2c.write_read d 0x61 (0x11 ∷ [])).1 ≡ 0 → fifo d ≡ []
