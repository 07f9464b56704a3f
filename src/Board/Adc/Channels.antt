-- ===== src/Board/Adc/Channels.antt =====
-- What one channel of Firmware/src/ads124s08.c is sampled with (sampleChannel).
use air_quality_sensor_node.Base.{
  ℕ, ◌+◌, ◌*◌, ◌%◌, ◌^◌, ◌<◌, ◌≡◌, refl, sym, ap, ◌∙◌, inl, inr, bit_or, true, false, [], ◌∷◌, ◌==◌,
  if◌then◌else◌, arith,
}
use air_quality_sensor_node.Board.Adc.{
  Bus, n_aincom, cs_pin, start_pin, wake_opcode, stop_opcode, start_opcode, select, release,
  reg_write, send_command, re_start, start_conversion, stop_conversion, init, data_read,
  configure_adc, sample_channel, shift_in,
}
use air_quality_sensor_node.Board.Adc.Contract.{Converter, IsCommand}

module _ {D : Type 0} (bus : Bus D) (converter : Converter bus) where
  open converter use {
    selected, start_level, clocked, register, running, result, high, middle, low, high_byte,
    middle_byte, low_byte, selected-cs_low, clocked-cs_low, selected-cs_high, start_level-cs,
    running-cs, selected-start, start_level-low, register-pin, result-pin, selected-sleep,
    start_level-sleep, clocked-sleep, register-sleep, running-sleep, result-sleep,
    result-sleep_running, selected-write, start_level-write, register-write, selected-transceive,
    start_level-transceive, register-command, running-start_command, clocked-status, result-status,
    conversion,
  }

  -- The value with an input, a gain and a reference, of 24 bits.
  abbrev pub value_at : ℕ × ℕ × ℕ → ℕ
  value_at m = high m * 65536 + middle m * 256 + low m

  -- What is set for the next conversion.
  abbrev setting : D → ℕ × ℕ × ℕ
  setting d = (register d 2, register d 3, register d 5)

  -- Neither selected nor started by the pin.
  abbrev pub IsIdle : D → Type 0
  IsIdle d = (selected d ≡ false) × (start_level d ≡ false)

  -- `ADS124S08_init` leaves it so.
  pub init-IsIdle : (d : D) → IsIdle (init bus d)
  unfolding init release stop_conversion
  init-IsIdle d = (
    selected-sleep _ 1 ∙ selected-start _ 0 ∙ selected-sleep _ 1 ∙ selected-cs_high d,
    start_level-sleep _ 1 ∙ start_level-low _,
  )

  select_lem :
      (d : D) → selected d ≡ false → (selected (select bus d) ≡ true) × (clocked (select bus d) ≡ 0)
  unfolding select
  select_lem d idle =
      (selected-sleep _ 1 ∙ selected-cs_low d, clocked-sleep _ 1 ∙ clocked-cs_low d idle)

  register-select : (d : D) (r : ℕ) → register (select bus d) r ≡ register d r
  unfolding select
  register-select d r = register-sleep _ 1 r ∙ register-pin d cs_pin 0 (inl refl) r

  start_level-select : (d : D) → start_level (select bus d) ≡ start_level d
  unfolding select
  start_level-select d = start_level-sleep _ 1 ∙ start_level-cs d 0

  register-release : (d : D) (r : ℕ) → register (release bus d) r ≡ register d r
  unfolding release
  register-release d r = register-sleep _ 1 r ∙ register-pin d cs_pin 1 (inl refl) r

  running-release : (d : D) → running (release bus d) ≡ running d
  unfolding release
  running-release d = running-sleep _ 1 ∙ running-cs d 1

  release-IsIdle : (d : D) → start_level d ≡ false → IsIdle (release bus d)
  unfolding release
  release-IsIdle d low =
      (selected-sleep _ 1 ∙ selected-cs_high d, start_level-sleep _ 1 ∙ start_level-cs d 1 ∙ low)

  reg_write-IsIdle : (a v : ℕ) (d : D) → IsIdle d → IsIdle (reg_write bus a v d)
  unfolding reg_write
  reg_write-IsIdle a v d idle =
      release-IsIdle _ (start_level-write _ _ ∙ start_level-select d ∙ idle.1)

  register-reg_write :
      (a v r : ℕ) (d : D)
      → a < 32
      → IsIdle d
      → register (reg_write bus a v d) r ≡ (if r == a then v else register d r)
  unfolding reg_write
  register-reg_write a v r d small idle =
      let (on, start) = select_lem d idle.0 in
      let op : (0x40 + a % 32) % 2 ^ 8 ≡ 0x40 + a = omega arith in
      rw op (
        register-release _ r
        ∙ register-write (select bus d) a v r on start small
        ∙ ap (λ (x : ℕ). if r == a then v else x) (register-select d r))

  send_command-IsIdle : (op : ℕ) (d : D) → IsIdle d → IsIdle (send_command bus op d)
  unfolding send_command
  send_command-IsIdle op d idle =
      release-IsIdle _ (start_level-transceive _ _ _ ∙ start_level-select d ∙ idle.1)

  register-send_command :
      (op r : ℕ) (d : D)
      → IsCommand op
      → IsIdle d
      → register (send_command bus op d) r ≡ register d r
  unfolding send_command
  register-send_command op r d known idle =
      let (on, start) = select_lem d idle.0 in
      register-release _ r
      ∙ register-command (select bus d) op r on start known
      ∙ register-select d r

  running-send_start : (d : D) → IsIdle d → running (send_command bus start_opcode d) ≡ true
  unfolding send_command
  running-send_start d idle =
      let (on, start) = select_lem d idle.0 in
      running-release _
      ∙ running-start_command (select bus d) on start (start_level-select d ∙ idle.1)

  setting_congr : (d d' : D) → ((r : ℕ) → register d r ≡ register d' r) → setting d ≡ setting d'
  setting_congr d d' same = rw (same 2, same 3, same 5)

  -- Behind the restart a conversion was made with what is set, and nothing else is.
  re_start_lem :
      (d : D)
      → IsIdle d
      → IsIdle (re_start bus d)
        × ((r : ℕ) → register (re_start bus d) r ≡ register d r)
        × (result (re_start bus d) ≡ setting d)
  unfolding re_start
  re_start_lem d idle =
      let d1 = send_command bus stop_opcode d in
      let idle1 = send_command-IsIdle stop_opcode d idle in
      let idle2 = send_command-IsIdle start_opcode d1 idle1 in
      let same : (r : ℕ) → register (send_command bus start_opcode d1) r ≡ register d r = λ r.
        register-send_command start_opcode r d1 (inr (inr (inl refl))) idle1
        ∙ register-send_command stop_opcode r d (inr (inr (inr refl))) idle in
      (
        (selected-sleep _ 100 ∙ idle2.0, start_level-sleep _ 100 ∙ idle2.1),
        (λ r. register-sleep _ 100 r ∙ same r),
        result-sleep_running _ 100 (running-send_start d1 idle1) (omega arith)
            ∙ setting_congr _ _ same,
      )

  -- The conversion is made with the channel against the common input, a gain of 1 and the internal
  -- reference, and the status is sent before it.
  configure_adc_lem :
      (c : ℕ) (d : D)
      → IsIdle d
      → IsIdle (configure_adc bus c d)
        × (setting (configure_adc bus c d) ≡ (bit_or c n_aincom, 0, 0x30))
        × (register (configure_adc bus c d) 9 ≡ 3)
        × (result (configure_adc bus c d) ≡ setting (configure_adc bus c d))
  unfolding configure_adc
  configure_adc_lem c d idle =
      let m = bit_or c n_aincom in
      let d0 = send_command bus wake_opcode d in
      let idle0 = send_command-IsIdle wake_opcode d idle in
      let d1 = reg_write bus 2 m d0 in
      let idle1 = reg_write-IsIdle 2 m d0 idle0 in
      let d2 = reg_write bus 3 0 d1 in
      let idle2 = reg_write-IsIdle 3 0 d1 idle1 in
      let d3 = reg_write bus 5 48 d2 in
      let idle3 = reg_write-IsIdle 5 48 d2 idle2 in
      let d4 = reg_write bus 9 3 d3 in
      let idle4 = reg_write-IsIdle 9 3 d3 idle3 in
      let (idle5, same, made) = re_start_lem d4 idle4 in
      let r9 : register d4 9 ≡ 3 = register-reg_write 9 3 9 d3 (omega arith) idle3 in
      let r5 : register d4 5 ≡ 48 =
        register-reg_write 9 3 5 d3 (omega arith) idle3
        ∙ register-reg_write 5 48 5 d2 (omega arith) idle2 in
      let r3 : register d4 3 ≡ 0 =
        register-reg_write 9 3 3 d3 (omega arith) idle3
        ∙ register-reg_write 5 48 3 d2 (omega arith) idle2
        ∙ register-reg_write 3 0 3 d1 (omega arith) idle1 in
      let r2 : register d4 2 ≡ m =
        register-reg_write 9 3 2 d3 (omega arith) idle3
        ∙ register-reg_write 5 48 2 d2 (omega arith) idle2
        ∙ register-reg_write 3 0 2 d1 (omega arith) idle1
        ∙ register-reg_write 2 m 2 d0 (omega arith) idle0 in
      (
        idle5,
        setting_congr _ _ same ∙ setting_is d4 m 0 48 r2 r3 r5,
        same 9 ∙ r9,
        made ∙ sym (setting_congr _ _ same),
      )
    where
      setting_is :
          (w : D) (a b e : ℕ)
          → register w 2 ≡ a
          → register w 3 ≡ b
          → register w 5 ≡ e
          → setting w ≡ (a, b, e)
      setting_is w a b e ha hb he = rw (ha, hb, he)

  -- A sleep behind the last conversion may bring another one of the same input.
  result-sleep_again : (d : D) (t : ℕ) → result d ≡ setting d → result (bus.sleep d t) ≡ setting d
  result-sleep_again d t made = elim (result-sleep d t) [
    | inl same ↦ same ∙ made
    | inr again ↦ again
  ]

  -- The value read is that of the last conversion, if that was made with what is set.
  data_read_lem :
      (d : D)
      → selected d ≡ false
      → register d 9 % 2 ≡ 1
      → result d ≡ setting d
      → (data_read bus d).1 ≡ value_at (setting d)
  unfolding data_read shift_in select
  data_read_lem d idle status made =
      let (on, start) = select_lem d idle in
      let s = select bus d in
      let made1 : result s ≡ setting d =
        result-sleep_again (bus.digital_write d cs_pin 0) 1 (
          result-pin d cs_pin 0 (inl refl)
          ∙ made
          ∙ sym (setting_congr _ _ (register-pin d cs_pin 0 (inl refl))))
        ∙ setting_congr _ _ (register-pin d cs_pin 0 (inl refl)) in
      let d1 = (bus.transceive s (0 ∷ []) (0 ∷ [])).0 in
      let on1 : selected d1 ≡ true = selected-transceive s _ _ ∙ on in
      let at1 : clocked d1 ≡ 1 = clocked-status s on start in
      let status1 : register d1 9 % 2 ≡ 1 =
        ap (λ (x : ℕ). x % 2) (register-command s 0 9 on start (inl refl) ∙ register-select d 9)
        ∙ status in
      let made2 : result d1 ≡ setting d = result-status s on start ∙ made1 in
      rw (conversion d1 on1 at1 status1, made2)
        (omega (arith, high_byte (setting d), middle_byte (setting d), low_byte (setting d)))

  selected-data_read : (d : D) → selected (data_read bus d).0 ≡ false
  unfolding data_read release
  selected-data_read d = selected-sleep _ 1 ∙ selected-cs_high _

  -- Whatever was set before, the value of a channel is that of its input against the common one, and
  -- the converter is idle again.
  pub sample_channel_lem :
      (c : ℕ) (d : D)
      → IsIdle d
      → ((sample_channel bus c d).1 ≡ value_at (bit_or c n_aincom, 0, 0x30))
        × IsIdle (sample_channel bus c d).0
  unfolding sample_channel start_conversion stop_conversion
  sample_channel_lem c d idle =
      let (idle1, set, status, made) = configure_adc_lem c d idle in
      let d1 = configure_adc bus c d in
      let pin = bus.digital_write d1 start_pin 1 in
      let d2 = bus.sleep pin 1 in
      let same : (r : ℕ) → register d2 r ≡ register d1 r =
        λ r. register-sleep pin 1 r ∙ register-pin d1 start_pin 1 (inr refl) r in
      let made_pin : result pin ≡ setting pin =
        result-pin d1 start_pin 1 (inr refl)
        ∙ made
        ∙ sym (setting_congr _ _ (register-pin d1 start_pin 1 (inr refl))) in
      let made2 : result d2 ≡ setting d2 =
        result-sleep_again pin 1 made_pin ∙ sym (setting_congr _ _ (register-sleep pin 1)) in
      let off : selected d2 ≡ false = selected-sleep pin 1 ∙ selected-start d1 1 ∙ idle1.0 in
      let status2 : register d2 9 % 2 ≡ 1 = rw (same 9, status) refl in
      (
        data_read_lem d2 off status2 made2 ∙ ap value_at (setting_congr _ _ same ∙ set),
        (
          selected-sleep _ 1 ∙ selected-start _ 0 ∙ selected-data_read d2,
          start_level-sleep _ 1 ∙ start_level-low _,
        ),
      )
