-- ===== src/Board/Adc/Contract.antt =====
-- What the documentation of the ADS124S08, the converter behind Firmware/src/ads124s08.c, says.
use air_quality_sensor_node.Base.{
  ℕ, ◌+◌, ◌%◌, ◌≤◌, ◌<◌, ◌≡◌, ◌⊎◌, Bool, true, false, [], ◌∷◌, Bytes, ◌==◌, if◌then◌else◌,
}
use air_quality_sensor_node.Board.Adc.{Bus, cs_pin, start_pin}

-- The commands of one byte that the code sends, and the byte that is sent to read another.
abbrev pub IsCommand : ℕ → Type 0
IsCommand op = (op ≡ 0x00) ⊎ ((op ≡ 0x02) ⊎ ((op ≡ 0x08) ⊎ (op ≡ 0x0A)))

-- The inputs of the converter that the code moves while it samples.
abbrev pub IsInput : ℕ → Type 0
IsInput pin = (pin ≡ cs_pin) ⊎ (pin ≡ start_pin)

-- What the documentation of the ADS124S08 says, as far as the code relies on it. Its inputs are the
-- levels of CS and of START; `clocked` counts the bytes since it was selected. Commands and the
-- frames that set a register are heard at the beginning of a selection only. Conversions run behind
-- the command START, which is heard while the pin START is low; 100 ms are enough for one with the
-- input, the gain and the reference that are set (`register` 2, 3 and 5), and `result` is what the
-- last one was made with. A rise of the pin START begins another conversion and leaves the last
-- result as it is. With bit 0 of register 9 set, the three bytes of the last conversion, high byte
-- first, stand behind a byte of status.
pub record Converter {D : Type 0} (bus : Bus D) : Type 0 where
  pub selected : D → Bool
  pub start_level : D → Bool
  pub clocked : D → ℕ
  pub register : D → ℕ → ℕ
  pub running : D → Bool
  pub result : D → ℕ × ℕ × ℕ
  pub high : ℕ × ℕ × ℕ → ℕ
  pub middle : ℕ × ℕ × ℕ → ℕ
  pub low : ℕ × ℕ × ℕ → ℕ
  pub high_byte : (m : ℕ × ℕ × ℕ) → high m < 256
  pub middle_byte : (m : ℕ × ℕ × ℕ) → middle m < 256
  pub low_byte : (m : ℕ × ℕ × ℕ) → low m < 256
  -- The pins.
  pub selected-cs_low : (d : D) → selected (bus.digital_write d cs_pin 0) ≡ true
  pub clocked-cs_low : (d : D) → selected d ≡ false → clocked (bus.digital_write d cs_pin 0) ≡ 0
  pub selected-cs_high : (d : D) → selected (bus.digital_write d cs_pin 1) ≡ false
  pub start_level-cs : (d : D) (v : ℕ) → start_level (bus.digital_write d cs_pin v) ≡ start_level d
  pub running-cs : (d : D) (v : ℕ) → running (bus.digital_write d cs_pin v) ≡ running d
  pub selected-start : (d : D) (v : ℕ) → selected (bus.digital_write d start_pin v) ≡ selected d
  pub start_level-low : (d : D) → start_level (bus.digital_write d start_pin 0) ≡ false
  pub register-pin :
      (d : D) (pin v : ℕ)
      → IsInput pin
      → (r : ℕ) → register (bus.digital_write d pin v) r ≡ register d r
  pub result-pin : (d : D) (pin v : ℕ) → IsInput pin → result (bus.digital_write d pin v) ≡ result d
  -- Time. While it lasts, conversions may be made with what is set.
  pub selected-sleep : (d : D) (t : ℕ) → selected (bus.sleep d t) ≡ selected d
  pub start_level-sleep : (d : D) (t : ℕ) → start_level (bus.sleep d t) ≡ start_level d
  pub clocked-sleep : (d : D) (t : ℕ) → clocked (bus.sleep d t) ≡ clocked d
  pub register-sleep : (d : D) (t r : ℕ) → register (bus.sleep d t) r ≡ register d r
  pub running-sleep : (d : D) (t : ℕ) → running (bus.sleep d t) ≡ running d
  pub result-sleep :
      (d : D) (t : ℕ)
      → (result (bus.sleep d t) ≡ result d)
        ⊎ (result (bus.sleep d t) ≡ (register d 2, register d 3, register d 5))
  pub result-sleep_running :
      (d : D) (t : ℕ)
      → running d ≡ true
      → 100 ≤ t
      → result (bus.sleep d t) ≡ (register d 2, register d 3, register d 5)
  -- A frame that sets the register `a`.
  pub selected-write : (d : D) (tx : Bytes) → selected (bus.write d tx) ≡ selected d
  pub start_level-write : (d : D) (tx : Bytes) → start_level (bus.write d tx) ≡ start_level d
  pub register-write :
      (d : D) (a v r : ℕ)
      → selected d ≡ true
      → clocked d ≡ 0
      → a < 32
      → register (bus.write d ((0x40 + a) ∷ 0 ∷ v ∷ [])) r ≡ (if r == a then v else register d r)
  -- A command, and the bytes of a conversion.
  pub selected-transceive :
      (d : D) (tx rx : Bytes) → selected (bus.transceive d tx rx).0 ≡ selected d
  pub start_level-transceive :
      (d : D) (tx rx : Bytes) → start_level (bus.transceive d tx rx).0 ≡ start_level d
  pub register-command :
      (d : D) (op r : ℕ)
      → selected d ≡ true
      → clocked d ≡ 0
      → IsCommand op
      → register (bus.transceive d (op ∷ []) (0 ∷ [])).0 r ≡ register d r
  pub running-start_command :
      (d : D)
      → selected d ≡ true
      → clocked d ≡ 0
      → start_level d ≡ false
      → running (bus.transceive d (0x08 ∷ []) (0 ∷ [])).0 ≡ true
  pub clocked-status :
      (d : D)
      → selected d ≡ true
      → clocked d ≡ 0
      → clocked (bus.transceive d (0 ∷ []) (0 ∷ [])).0 ≡ 1
  pub result-status :
      (d : D)
      → selected d ≡ true
      → clocked d ≡ 0
      → result (bus.transceive d (0 ∷ []) (0 ∷ [])).0 ≡ result d
  pub conversion :
      (d : D)
      → selected d ≡ true
      → clocked d ≡ 1
      → register d 9 % 2 ≡ 1
      → (bus.transceive d (0 ∷ 0 ∷ 0 ∷ []) (0 ∷ 0 ∷ 0 ∷ [])).1
        ≡ high (result d) ∷ middle (result d) ∷ low (result d) ∷ []
