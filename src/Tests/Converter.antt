-- ===== src/Tests/Converter.antt =====
-- A gas sensor front end at concrete inputs.
use air_quality_sensor_node.Base.{
  ℕ, ◌+◌, ◌%◌, ◌≤◌, ◌<◌, ◌≡◌, ◌⊎◌, inl, inr, refl, Bool, true, false, not, ◌&&◌, [], ◌∷◌, Bytes,
  leb, Bool-cases, ◌==◌, if◌then◌else◌, arith,
}
use air_quality_sensor_node.Board.Adc.{Bus}
use air_quality_sensor_node.Board.Adc.Contract.{Converter}

-- A converter that makes a conversion in 100 ms; its inputs give the setting of the multiplexer.
record Chip : Type 0 where
  selected : Bool
  start_level : Bool
  clocked : ℕ
  register : ℕ → ℕ
  running : Bool
  result : ℕ × ℕ × ℕ

abbrev chip_pin : Chip → ℕ → ℕ → Chip
chip_pin c pin v = record c {
  selected = if pin == 28 then v == 0 else c.selected;
  clocked = if c.selected then c.clocked else 0;
  start_level = if pin == 31 then not (v == 0) else c.start_level;
}

abbrev chip_sleep : Chip → ℕ → Chip
chip_sleep c t = record c {
  result = if c.running && leb 100 t then (c.register 2, c.register 3, c.register 5) else c.result;
}

-- The register that a frame sets, and its value.
abbrev frame_address : Bytes → ℕ
frame_address [] = 256
frame_address (op ∷ _) = op

abbrev frame_value : Bytes → ℕ
frame_value (op ∷ z ∷ v ∷ []) = v
frame_value _ = 0

abbrev chip_write : Chip → Bytes → Chip
chip_write c tx = record c {
  clocked = c.clocked + 3;
  register = λ r.
      if c.selected && ((c.clocked == 0) && (frame_address tx == 64 + r))
      then frame_value tx
      else c.register r;
}

abbrev chip_command : Chip → Bytes → Bool
chip_command c [] = c.running
chip_command c (op ∷ _) =
    if op == 8 then not c.start_level else if op == 10 then false else c.running

abbrev chip_answer : Chip → Bytes → Bytes
chip_answer c rx =
    if c.selected && ((c.clocked == 1) && (c.register 9 % 2 == 1))
    then 0 ∷ 0 ∷ (c.result.0 % 256) ∷ []
    else rx

abbrev chip_transceive : Chip → Bytes → Bytes → Chip × Bytes
chip_transceive c tx rx =
    (record c { clocked = c.clocked + 1; running = chip_command c tx }, chip_answer c rx)

abbrev chip_bus : Bus Chip
chip_bus = record {
  transceive = chip_transceive;
  write = chip_write;
  digital_write = chip_pin;
  gpio_pin_write = λ d pin v. d;
  sleep = chip_sleep;
}

mod_small : (m : ℕ) → m % 256 < 256
mod_small m = omega arith

written :
    (c : Chip) (a v r : ℕ)
    → c.selected ≡ true
    → c.clocked ≡ 0
    → a < 32
    → (chip_write c ((64 + a) ∷ 0 ∷ v ∷ [])).register r ≡ (if r == a then v else c.register r)
written c a v r on start small = ground arith

answered :
    (c : Chip)
    → c.selected ≡ true
    → c.clocked ≡ 1
    → c.register 9 % 2 ≡ 1
    → chip_answer c (0 ∷ 0 ∷ 0 ∷ []) ≡ 0 ∷ 0 ∷ (c.result.0 % 256) ∷ []
answered c on one status = rw (on, one, status)

slept :
    (c : Chip) (t : ℕ)
    → ((chip_sleep c t).result ≡ c.result)
      ⊎ ((chip_sleep c t).result ≡ (c.register 2, c.register 3, c.register 5))
slept c t = elim (Bool-cases (c.running && leb 100 t)) [
  | inl e ↦ rw e (inr refl)
  | inr e ↦ rw e (inl refl)
]

slept_running :
    (c : Chip) (t : ℕ)
    → c.running ≡ true
    → 100 ≤ t
    → (chip_sleep c t).result ≡ (c.register 2, c.register 3, c.register 5)
slept_running c t on long = let e : leb 100 t ≡ true = ground arith in rw (on, e)

abbrev converter : Converter chip_bus
converter = record {
  selected = λ c. c.selected;
  start_level = λ c. c.start_level;
  clocked = λ c. c.clocked;
  register = λ c. c.register;
  running = λ c. c.running;
  result = λ c. c.result;
  high = λ m. 0;
  middle = λ m. 0;
  low = λ m. m.0 % 256;
  high_byte = λ m. mod_small 0;
  middle_byte = λ m. mod_small 0;
  low_byte = λ m. mod_small m.0;
  selected-cs_low = λ c. refl;
  clocked-cs_low = λ c idle. rw idle;
  selected-cs_high = λ c. refl;
  start_level-cs = λ c v. refl;
  running-cs = λ c v. refl;
  selected-start = λ c v. refl;
  start_level-low = λ c. refl;
  register-pin = λ c pin v input r. refl;
  result-pin = λ c pin v input. refl;
  selected-sleep = λ c t. refl;
  start_level-sleep = λ c t. refl;
  clocked-sleep = λ c t. refl;
  register-sleep = λ c t r. refl;
  running-sleep = λ c t. refl;
  result-sleep = slept;
  result-sleep_running = slept_running;
  selected-write = λ c tx. refl;
  start_level-write = λ c tx. refl;
  register-write = written;
  selected-transceive = λ c tx rx. refl;
  start_level-transceive = λ c tx rx. refl;
  register-command = λ c op r on start known. refl;
  running-start_command = λ c on start low. rw low;
  clocked-status = λ c on start. omega (arith, start);
  result-status = λ c on start. refl;
  conversion = answered;
}

abbrev idle : Chip
idle = record {
  selected = false;
  start_level = false;
  clocked = 3;
  register = λ r. 0;
  running = false;
  result = (0, 0, 0);
}
