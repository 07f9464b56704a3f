-- ===== src/Board/Uart/Line.antt =====
-- What the bridge puts on the modem's line, and at which rate.
use air_quality_sensor_node.Base.{
  ℕ, zero, suc, ◌+◌, ◌/◌, ◌%◌, ◌≤◌, ◌<◌, ◌≡◌, ◌≢◌, refl, sym, ap, ◌∙◌, bit_and, bit_or, true, false,
  ◌&&◌, [], ◌∷◌, ◌++◌, Bytes, ltb, ◌==◌, length, take, take_of_length_le, append_assoc, append-nil,
  All, passes_below, passes_below_sound, arith,
}
use air_quality_sensor_node.Base.Outcome.{ok}
use air_quality_sensor_node.Board.Uart.{
  I2c, tx_fifo_lvl_register, max_read, max_write, enable_tx_mode, enable_rx_mode, wait_for_tx,
  send_bytes, max_send, modem_write,
}
use air_quality_sensor_node.Board.Uart.Contract.{Bridge}

tx_on_table :
    passes_below (λ m. ltb (bit_and m 0b10000001) 256 && (bit_and m 0b10000001 / 2 % 2 == 0)) 256
    ≡ true
unfolding passes_below
tx_on_table = refl

tx_off_table :
    passes_below (λ m. ltb (bit_or m 0b10000010) 256 && (bit_or m 0b10000010 / 2 % 2 == 1)) 256
    ≡ true
unfolding passes_below
tx_off_table = refl

tx_on : (m : ℕ) → m < 256 → (bit_and m 0b10000001 < 256) × (bit_and m 0b10000001 / 2 % 2 ≡ 0)
tx_on m h =
    let e =
      passes_below_sound (λ m. ltb (bit_and m 129) 256 && (bit_and m 129 / 2 % 2 == 0)) 256 m h
        tx_on_table in
    ground arith

tx_off : (m : ℕ) → m < 256 → (bit_or m 0b10000010 < 256) × (bit_or m 0b10000010 / 2 % 2 ≡ 1)
tx_off m h =
    let e =
      passes_below_sound (λ m. ltb (bit_or m 130) 256 && (bit_or m 130 / 2 % 2 == 1)) 256 m h
        tx_off_table in
    ground arith

length-zero : (xs : Bytes) → length xs ≤ 0 → xs ≡ []
length-zero [] h = refl
length-zero (x ∷ xs) h = absurd (omega arith)

module _ {D : Type 0} (i2c : I2c D) (bridge : Bridge i2c) where
  open bridge use {
    sent, fifo, mode, mode_byte, read_mode, mode-read, mode-sleep, mode-write_mode, mode-write,
    order-read, level-read, order-sleep, level-sleep, order-write, level-write, sent-write_mode,
    fifo-write_mode, fifo-level_zero,
  }

  abbrev pub IsOn : D → Type 0
  IsOn d = mode d / 2 % 2 ≡ 0

  -- What is on the line or waits for it.
  abbrev given : D → Bytes
  given d = sent d ++ fifo d

  read_empty :
      (d : D) (tx : Bytes)
      → fifo d ≡ []
      → (sent (i2c.write_read d 0x61 tx).0 ≡ sent d) × (fifo (i2c.write_read d 0x61 tx).0 ≡ [])
  read_empty d tx e =
      let d' = (i2c.write_read d 0x61 tx).0 in
      let shorter : length (fifo d') ≤ 0 = rw e at (level-read d tx) in
      let none_left = length-zero (fifo d') shorter in
      (
        sym (append-nil (sent d'))
            ∙ ap (λ (t : Bytes). sent d' ++ t) (sym none_left)
            ∙ order-read d tx
            ∙ ap (λ (t : Bytes). sent d ++ t) e
            ∙ append-nil (sent d),
        none_left,
      )

  set_mode :
      (v : ℕ) (d : D)
      → v < 256
      → fifo d ≡ []
      → (sent (max_write i2c 0x61 0x09 v d) ≡ sent d)
        × (fifo (max_write i2c 0x61 0x09 v d) ≡ [])
        × (mode (max_write i2c 0x61 0x09 v d) ≡ v)
  unfolding max_write
  set_mode v d small e =
      let low : v % 256 ≡ v = omega arith in
      rw (max_write, low) (sent-write_mode d v e, fifo-write_mode d v e, mode-write_mode d v small)

  put_byte :
      (b : ℕ) (d : D)
      → b < 256
      → IsOn d
      → length (fifo d) < 128
      → (given (max_write i2c 0x61 0x00 b d) ≡ given d ++ b ∷ [])
        × (length (fifo (max_write i2c 0x61 0x00 b d)) ≤ suc (length (fifo d)))
        × (mode (max_write i2c 0x61 0x00 b d) ≡ mode d)
  unfolding max_write
  put_byte b d small on room =
      let low : b % 256 ≡ b = omega arith in
      rw (max_write, low) (order-write d b on room, level-write d b, mode-write d b)

  enable_tx_mode_lem :
      (d : D)
      → fifo d ≡ []
      → (sent (enable_tx_mode i2c 0x61 d) ≡ sent d)
        × (fifo (enable_tx_mode i2c 0x61 d) ≡ [])
        × IsOn (enable_tx_mode i2c 0x61 d)
  unfolding enable_tx_mode
  enable_tx_mode_lem d e =
      let (small, on) = tx_on (mode d) (mode_byte d) in
      let (kept, empty) = read_empty d (0x09 ∷ []) e in
      let (kept', empty', set) =
        set_mode (bit_and (mode d) 129) (i2c.write_read d 0x61 (0x09 ∷ [])).0 small empty in
      rw (read_mode d) (kept' ∙ kept, empty', ap (λ (m : ℕ). m / 2 % 2) set ∙ on)

  enable_rx_mode_lem :
      (d : D)
      → fifo d ≡ []
      → (sent (enable_rx_mode i2c 0x61 d) ≡ sent d)
        × (fifo (enable_rx_mode i2c 0x61 d) ≡ [])
        × (mode (enable_rx_mode i2c 0x61 d) / 2 % 2 ≡ 1)
  unfolding enable_rx_mode
  enable_rx_mode_lem d e =
      let (small, off) = tx_off (mode d) (mode_byte d) in
      let (kept, empty) = read_empty d (0x09 ∷ []) e in
      let (kept', empty', set) =
        set_mode (bit_or (mode d) 130) (i2c.write_read d 0x61 (0x09 ∷ [])).0 small empty in
      rw (read_mode d) (kept' ∙ kept, empty', ap (λ (m : ℕ). m / 2 % 2) set ∙ off)

  -- The first bytes of the text go to the line or into the FIFO, in order.
  send_bytes_lem :
      (n : ℕ) (buf : Bytes) (d : D)
      → n ≤ length buf
      → All (λ b. b < 256) buf
      → IsOn d
      → length (fifo d) + n ≤ 128
      → (d' : D) × (send_bytes i2c n buf d ≡ ok d')
        × (given d' ≡ given d ++ take n buf)
        × IsOn d'
        × (length (fifo d') ≤ 128)
  unfolding send_bytes
  send_bytes_lem zero buf d h bytes on room = (d, refl, sym (append-nil (given d)), on, omega arith)
  send_bytes_lem (suc n) [] d h bytes on room = absurd (omega arith)
  send_bytes_lem (suc n) (b ∷ buf) d h bytes on room =
      let (here, level, same) = put_byte b d bytes.0 on (omega arith) in
      let (d', ends, later, on', short) =
        send_bytes_lem n buf (max_write i2c 0x61 0x00 b d) (omega arith) bytes.1 (rw same on)
          (omega (arith, level, room)) in
      (
        d',
        ends,
        later
            ∙ ap (λ (t : Bytes). t ++ take n buf) here
            ∙ append_assoc (given d) (b ∷ []) (take n buf),
        on',
        short,
      )

  -- Asked `n` times, the bridge has bytes to send, and then none.
  abbrev pub Drains : ℕ → D → Type 0
  Drains zero d = (max_read i2c 0x61 tx_fifo_lvl_register d).1 ≡ 0
  Drains (suc n) d =
      ((max_read i2c 0x61 tx_fifo_lvl_register d).1 ≢ 0)
      × Drains n (i2c.sleep (max_read i2c 0x61 tx_fifo_lvl_register d).0 1)

  -- Behind the wait everything is on the line.
  wait_for_tx_lem :
      (n fuel : ℕ) (d : D)
      → Drains n d
      → n < fuel
      → (d' : D) × (wait_for_tx i2c fuel 0x61 d ≡ ok d') × (sent d' ≡ given d) × (fifo d' ≡ [])
  unfolding wait_for_tx max_read
  wait_for_tx_lem zero zero d h enough = absurd (omega arith)
  wait_for_tx_lem (suc n) zero d h enough = absurd (omega arith)
  wait_for_tx_lem zero (suc fuel) d h enough =
      let e = fifo-level_zero d h in
      let (kept, empty) = read_empty d (tx_fifo_lvl_register ∷ []) e in
      (
        (max_read i2c 0x61 tx_fifo_lvl_register d).0,
        rw h,
        kept ∙ sym (append-nil (sent d)) ∙ ap (λ (t : Bytes). sent d ++ t) (sym e),
        empty,
      )
  wait_for_tx_lem (suc n) (suc fuel) d h enough =
      let again : ((max_read i2c 0x61 tx_fifo_lvl_register d).1 == 0) ≡ false =
        ground (arith, h.0) in
      let (d', ends, all, empty) =
        wait_for_tx_lem n fuel (i2c.sleep (max_read i2c 0x61 tx_fifo_lvl_register d).0 1) h.1
          (omega arith) in
      (d', rw again ends, all ∙ order-sleep _ 1 ∙ order-read d _, empty)

  -- With a bridge that does what its documentation says, has nothing to send, and, from any state with
  -- the transmitter on, gets its FIFO empty after fewer polls than the fuel: for a text of whose length
  -- the low byte is at most 128, the call ends with the transmitter off and nothing left in the FIFO,
  -- and the line has got the first bytes of the text, as many as that low byte says; a text of at most
  -- 128 bytes is sent whole.
  pub modem_write_lem :
      (fuel : ℕ) (cmd : Bytes) (d : D)
      → All (λ b. b < 256) cmd
      → length cmd % 256 ≤ 128
      → fifo d ≡ []
      → ((d' : D) → IsOn d' → length (fifo d') ≤ 128 → (n : ℕ) × (n < fuel) × Drains n d')
      → (d' : D) × (modem_write i2c fuel cmd d ≡ ok d')
        × (sent d' ≡ sent d ++ take (length cmd % 256) cmd)
        × (fifo d' ≡ [])
        × (mode d' / 2 % 2 ≡ 1)
        × (length cmd ≤ 128 → sent d' ≡ sent d ++ cmd)
  unfolding modem_write max_send
  modem_write_lem fuel cmd d bytes room empty drains =
      let (kept, empty0, on) = enable_tx_mode_lem d empty in
      let d0 = enable_tx_mode i2c 0x61 d in
      let free : length (fifo d0) + length cmd % 256 ≤ 128 = rw empty0 (omega (arith, room)) in
      let (d1, e1, s1, on1, short1) =
        send_bytes_lem (length cmd % 256) cmd d0 (omega arith) bytes on free in
      let (n, enough, empties) = drains d1 on1 short1 in
      let (d2, e2, s2, empty2) = wait_for_tx_lem n fuel d1 empties enough in
      let (s3, empty3, off) = enable_rx_mode_lem d2 empty2 in
      let start : given d0 ≡ sent d =
        ap (λ (t : Bytes). sent d0 ++ t) empty0 ∙ append-nil (sent d0) ∙ kept in
      let all : sent (enable_rx_mode i2c 0x61 d2) ≡ sent d ++ take (length cmd % 256) cmd =
        s3 ∙ s2 ∙ s1 ∙ ap (λ (t : Bytes). t ++ take (length cmd % 256) cmd) start in
      (
        enable_rx_mode i2c 0x61 d2,
        rw (e1, e2),
        all,
        empty3,
        off,
        λ short.
            all
            ∙ ap (λ (t : Bytes). sent d ++ t)
                (take_of_length_le (length cmd % 256) cmd (omega arith)),
      )
