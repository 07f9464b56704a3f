-- ===== src/Board/Gpio/Levels.antt =====
-- The levels of the pins behind the set-up of Firmware/src/gpio.c.
use air_quality_sensor_node.Base.{
  ℕ, ◌≡◌, refl, sym, ◌∙◌, ap, Bool, true, false, ◌==◌, ◌&&◌, if◌then◌else◌, List, [], ◌∷◌,
}
use air_quality_sensor_node.Base.Int.{pos}
use air_quality_sensor_node.Board.Gpio.{
  Direction, dir_out, dir_in, dir_in_pull_up, Pins, configure_output_pin, configure_input_pin,
  output, write, pause, init_adc_pins, init_gps_pins, init_bridge_pins, init_gpio, bound_device,
  get_gpio_device,
}

-- The pins as the driver's documentation sees them: which are outputs, and the levels they are at.
pub record Levels : Type 0 where
  pub is_output : ℕ → Bool
  pub level : ℕ → ℕ

abbrev pub is_out : Direction → Bool
is_out dir_out = true
is_out dir_in = false
is_out dir_in_pull_up = false

abbrev pub configured : ℕ → Direction → Levels → Levels
configured pin dir l = record l { is_output = λ p. if p == pin then is_out dir else l.is_output p }

-- A write moves the pin if it is an output.
abbrev pub written : ℕ → ℕ → Levels → Levels
written pin value l = record l {
  level = λ p. if (p == pin) && l.is_output p then value else l.level p;
}

abbrev pub documented : Pins Levels
documented = record {
  device_get_binding = λ l. (l, true);
  gpio_pin_configure = λ l pin dir. (configured pin dir l, pos 0);
  gpio_pin_write = λ l pin value. (written pin value l, pos 0);
  sleep = λ l t. l;
}

abbrev pub levels_at : List ℕ → Levels → List (Bool × ℕ)
levels_at [] l = []
levels_at (p ∷ ps) l = (l.is_output p, l.level p) ∷ levels_at ps l

-- The three chip selects, the four reset lines, ADC_SYNC and GPS_FORCE_ON.
abbrev pub pins_set : List ℕ
pins_set = 28 ∷ 29 ∷ 22 ∷ 30 ∷ 6 ∷ 4 ∷ 2 ∷ 31 ∷ 17 ∷ []

-- They are outputs, and all but ADC_SYNC are high.
abbrev pub set_up : List (Bool × ℕ)
set_up =
    (true, 1)
    ∷ (true, 1)
    ∷ (true, 1)
    ∷ (true, 1)
    ∷ (true, 1)
    ∷ (true, 1)
    ∷ (true, 1)
    ∷ (true, 0)
    ∷ (true, 1)
    ∷ []

levels_documented : (l : Levels) → levels_at pins_set (init_gpio documented l) ≡ set_up
unfolding init_gpio init_adc_pins init_gps_pins init_bridge_pins output configure_output_pin
    configure_input_pin write pause
levels_documented l = refl

interrupt_documented : (l : Levels) → (init_gpio documented l).is_output 3 ≡ false
unfolding init_gpio init_adc_pins init_gps_pins init_bridge_pins output configure_output_pin
    configure_input_pin write pause
interrupt_documented l = refl

-- A driver that does what its documentation says, seen through `view`.
pub record IsDriver {D : Type 0} (pins : Pins D) : Type 0 where
  pub view : D → Levels
  pub view-configure :
      (d : D) (pin : ℕ) (dir : Direction)
      → view (pins.gpio_pin_configure d pin dir).0 ≡ configured pin dir (view d)
  pub view-write :
      (d : D) (pin value : ℕ)
      → view (pins.gpio_pin_write d pin value).0 ≡ written pin value (view d)
  pub view-sleep : (d : D) (t : ℕ) → view (pins.sleep d t) ≡ view d
  pub view-bind : (d : D) → view (pins.device_get_binding d).0 ≡ view d

module _ {D : Type 0} (pins : Pins D) (driver : IsDriver pins) where
  open driver use {view, view-configure, view-write, view-sleep, view-bind}

  -- One call on the board is the same call on the levels.
  seen_output :
      (pin : ℕ) {d : D} {l : Levels}
      → view d ≡ l
      → view (output pins pin d) ≡ output documented pin l
  unfolding output configure_output_pin
  seen_output pin {d} e = view-configure d pin dir_out ∙ ap (configured pin dir_out) e

  seen_write :
      (pin value : ℕ) {d : D} {l : Levels}
      → view d ≡ l
      → view (write pins pin value d) ≡ write documented pin value l
  unfolding write
  seen_write pin value {d} e = view-write d pin value ∙ ap (written pin value) e

  seen_pause : {d : D} {l : Levels} → view d ≡ l → view (pause pins d) ≡ pause documented l
  unfolding pause
  seen_pause {d} e = view-sleep d 100 ∙ e

  seen_configure :
      (pin : ℕ) (dir : Direction) {d : D} {l : Levels}
      → view d ≡ l
      → view (pins.gpio_pin_configure d pin dir).0 ≡ configured pin dir l
  seen_configure pin dir {d} e = view-configure d pin dir ∙ ap (configured pin dir) e

  seen_adc :
      {d : D} {l : Levels} → view d ≡ l → view (init_adc_pins pins d) ≡ init_adc_pins documented l
  unfolding init_adc_pins
  seen_adc e =
      let outputs = seen_output 30 (seen_output 31 (seen_output 28 e)) in
      seen_write 28 1 (seen_write 30 1 (seen_pause (seen_write 30 0 (seen_write 31 0 outputs))))

  seen_gps :
      {d : D} {l : Levels} → view d ≡ l → view (init_gps_pins pins d) ≡ init_gps_pins documented l
  unfolding init_gps_pins configure_input_pin
  seen_gps e =
      let outputs = seen_output 5 (seen_output 6 (seen_output 8 (seen_output 17 e))) in
      let reset = seen_write 6 1 (seen_write 6 0 (seen_configure 7 dir_in outputs)) in
      seen_write 17 1 (seen_pause (seen_write 17 0 reset))

  seen_bridge :
      {d : D} {l : Levels}
      → view d ≡ l
      → view (init_bridge_pins pins d) ≡ init_bridge_pins documented l
  unfolding init_bridge_pins
  seen_bridge e =
      let lowered = seen_pause (seen_write 4 0 (seen_write 4 1 (seen_output 4 e))) in
      seen_configure 3 dir_in_pull_up (seen_pause (seen_write 4 1 lowered))

  seen_init : {d : D} {l : Levels} → view d ≡ l → view (init_gpio pins d) ≡ init_gpio documented l
  unfolding init_gpio
  seen_init e =
      let adc = seen_adc (seen_write 22 1 (seen_output 22 e)) in
      let gps = seen_gps (seen_write 29 1 (seen_output 29 adc)) in
      seen_write 2 1 (seen_output 2 (seen_bridge gps))

  -- Whatever the pins were before, behind the first call that gets the device both chip selects of
  -- the bus and that of the radio are raised, the converter, the receiver, the bridge and the modem
  -- are out of reset, the converter does not convert and the receiver is forced on, all of these
  -- being outputs; the bridge's interrupt is an input, and further calls change nothing.
  pub get_gpio_device_lem :
      (d d1 : D)
      → get_gpio_device pins false d ≡ (d1, true)
      → (levels_at pins_set (view d1) ≡ set_up)
        × ((view d1).is_output 3 ≡ false)
        × (get_gpio_device pins true d1 ≡ (d1, true))
  unfolding get_gpio_device bound_device
  get_gpio_device_lem d d1 e = by_binding (pins.device_get_binding d) e
    where
      by_binding :
          (p : D × Bool)
          → bound_device pins p ≡ (d1, true)
          → (levels_at pins_set (view d1) ≡ set_up)
            × ((view d1).is_output 3 ≡ false)
            × (get_gpio_device pins true d1 ≡ (d1, true))
      by_binding (d0, true) e =
          let seen = ap view (sym (ap (λ (r : D × Bool). r.0) e)) ∙ seen_init {d = d0} refl in
          (
            ap (levels_at pins_set) seen ∙ levels_documented (view d0),
            ap (λ (l : Levels). l.is_output 3) seen ∙ interrupt_documented (view d0),
            refl,
          )
      by_binding (d0, false) e = absurd (cc)
