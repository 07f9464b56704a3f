-- ===== src/Tests/Bridge.antt =====
-- A bridge to the modem that sends, at a concrete input.
use air_quality_sensor_node.Base.{
  ℕ, suc, ◌/◌, ◌%◌, ◌≤◌, ◌<◌, ◌≡◌, refl, sym, Bool, ◌==◌, ==_iff, if◌then◌else◌, [], ◌∷◌, ◌++◌,
  Bytes, codes, length, length-append, take, append-nil, append_assoc, Bool-cases, inl, inr, arith,
}
use air_quality_sensor_node.Base.Outcome.{ok}
use air_quality_sensor_node.Board.Uart.{I2c, max_read, modem_write}
use air_quality_sensor_node.Board.Uart.Contract.{Bridge}
use air_quality_sensor_node.Board.Uart.Line.{Drains, modem_write_lem}

-- While the transmitter is on, the FIFO is sent in each sleep.
record Wire : Type 0 where
  mode : ℕ
  fifo : Bytes
  sent : Bytes

abbrev is_on : Wire → Bool
is_on d = d.mode % 256 / 2 % 2 == 0

abbrev wire_write : Wire → ℕ → Bytes → Wire
wire_write d a (reg ∷ v ∷ []) =
    if reg == 9
    then record d { mode = v }
    else if is_on d
    then record d { fifo = d.fifo ++ v ∷ [] }
    else d
wire_write d a _ = d

abbrev wire_read : Wire → Bytes → ℕ
wire_read d [] = 0
wire_read d (reg ∷ _) = if reg == 9 then d.mode % 256 else if reg == 17 then length d.fifo else 0

abbrev wire_sleep : Wire → Wire
wire_sleep d = if is_on d then record d { sent = d.sent ++ d.fifo; fifo = [] } else d

abbrev sender : I2c Wire
sender = record {
  write = wire_write;
  write_read = λ d a tx. (d, wire_read d tx);
  gpio_pin_read = λ d pin. (d, 1);
  sleep = λ d t. wire_sleep d;
}

mod_small : (m : ℕ) → m % 256 < 256
mod_small m = omega arith

mode-write : (d : Wire) (b : ℕ) → (wire_write d 0x61 (0 ∷ b ∷ [])).mode % 256 ≡ d.mode % 256
mode-write d b = elim (Bool-cases (is_on d)) [ inl e ↦ rw e | inr e ↦ rw e ]

mode-sleep : (d : Wire) → (wire_sleep d).mode % 256 ≡ d.mode % 256
mode-sleep d = elim (Bool-cases (is_on d)) [ inl e ↦ rw e | inr e ↦ rw e ]

order-sleep : (d : Wire) → (wire_sleep d).sent ++ (wire_sleep d).fifo ≡ d.sent ++ d.fifo
order-sleep d = elim (Bool-cases (is_on d)) [
  | inl e ↦ rw e (append-nil (d.sent ++ d.fifo))
  | inr e ↦ rw e
]

level-sleep : (d : Wire) → length (wire_sleep d).fifo ≤ length d.fifo
level-sleep d = elim (Bool-cases (is_on d)) [
  | inl e ↦ rw e (omega arith)
  | inr e ↦ rw e (omega arith)
]

order-write :
    (d : Wire) (b : ℕ)
    → d.mode % 256 / 2 % 2 ≡ 0
    → length d.fifo < 128
    → (wire_write d 0x61 (0 ∷ b ∷ [])).sent ++ (wire_write d 0x61 (0 ∷ b ∷ [])).fifo
      ≡ (d.sent ++ d.fifo) ++ b ∷ []
order-write d b on room = rw on (sym (append_assoc d.sent d.fifo (b ∷ [])))

level-write :
    (d : Wire) (b : ℕ) → length (wire_write d 0x61 (0 ∷ b ∷ [])).fifo ≤ suc (length d.fifo)
level-write d b = elim (Bool-cases (is_on d)) [
  | inl e ↦ rw (e, length-append d.fifo (b ∷ [])) (omega arith)
  | inr e ↦ rw e (omega arith)
]

length-zero : (xs : Bytes) → length xs ≡ 0 → xs ≡ []
length-zero [] h = refl
length-zero (x ∷ xs) h = absurd (omega arith)

abbrev bridge : Bridge sender
bridge = record {
  sent = λ d. d.sent;
  fifo = λ d. d.fifo;
  mode = λ d. d.mode % 256;
  mode_byte = λ d. mod_small d.mode;
  read_mode = λ d. refl;
  mode-read = λ d tx. refl;
  mode-sleep = λ d t. mode-sleep d;
  mode-write_mode = λ d v small. omega (arith, small);
  mode-write = mode-write;
  order-read = λ d tx. refl;
  level-read = λ d tx. omega arith;
  order-sleep = λ d t. order-sleep d;
  level-sleep = λ d t. level-sleep d;
  order-write = order-write;
  level-write = level-write;
  sent-write_mode = λ d v e. refl;
  fifo-write_mode = λ d v e. e;
  fifo-level_zero = λ d e. length-zero d.fifo e;
}

abbrev silent : Wire
silent = record { mode = 2; fifo = []; sent = [] }

-- One sleep empties the FIFO.
drains :
    (d : Wire)
    → d.mode % 256 / 2 % 2 ≡ 0
    → length d.fifo ≤ 128
    → (n : ℕ) × (n < 2) × Drains sender bridge n d
unfolding max_read
drains d on short = elim (Bool-cases (length d.fifo == 0)) [
  | inl e ↦ (0, omega arith, (==_iff _ 0).0 e)
  | inr e ↦ (1, omega arith, (ground (arith, e), rw on refl))
]

modem_write_lem_example :
    (d' : Wire) × (modem_write sender 2 (codes "AT\r") silent ≡ ok d')
    × (d'.sent ≡ take 3 (codes "AT\r"))
    × (d'.fifo ≡ [])
    × (d'.mode % 256 / 2 % 2 ≡ 1)
    × (3 ≤ 128 → d'.sent ≡ codes "AT\r")
modem_write_lem_example =
    modem_write_lem sender bridge 2 (codes "AT\r") silent
      (omega arith, (omega arith, (omega arith, tt))) (omega arith) refl drains
