-- ===== src/Modem/Urc.antt =====
-- The receive path of Firmware/src/comms.c: `comms_handle_char`, which gets each byte of the modem,
-- `modem_read`, and the thread that looks for notifications. Zephyr's ring buffers and semaphores
-- are a parameter with what their documentation says.
pub mod Woken
pub mod Interleaving
pub mod Lines
pub mod Notify
pub mod Nsonmi
pub mod Delivery
use air_quality_sensor_node.Base.{
  ℕ, zero, suc, ◌+◌, ◌%◌, ◌^◌, ◌<◌, ◌≡◌, ◌≢◌, Bool, true, false, ◌&&◌, [], ◌∷◌, ◌++◌, Bytes, codes,
  ltb, ◌==◌, if◌then◌else◌, length, set, take, drop, eqb, Option, none, some,
}
use air_quality_sensor_node.Base.Int.{ℤ}
use air_quality_sensor_node.Base.Libc.{Libc}
use air_quality_sensor_node.Base.Outcome.{Outcome, ok, out_of_bounds, ◌>>=◌, in_bounds}
use air_quality_sensor_node.At.Receive.{c_string}

-- Ring buffers in a state `R` and semaphores in a state `S`. `put` and `get` are `ring_buf_put` and
-- `ring_buf_get` of one byte; `take` is `k_sem_take`, with `none` for its time-out. `room` is how
-- many bytes still fit, `limit` the limit of `k_sem_init`.
pub record Kernel (R S : Type 0) : Type 0 where
  pub put : ℕ → R → R × Bool
  pub get : R → R × Option ℕ
  pub contents : R → Bytes
  pub room : R → ℕ
  pub give : S → S
  pub take_sem : S → Option S
  pub count : S → ℕ
  pub limit : S → ℕ
  pub put_room :
      (b : ℕ) (r : R)
      → 0 < room r
      → ((put b r).1 ≡ true)
        × (contents (put b r).0 ≡ contents r ++ b ∷ [])
        × (suc (room (put b r).0) ≡ room r)
  pub put_full : (b : ℕ) (r : R) → room r ≡ 0 → put b r ≡ (r, false)
  pub get_some :
      (r : R) (b : ℕ) (bs : Bytes)
      → contents r ≡ b ∷ bs
      → ((get r).1 ≡ some b) × (contents (get r).0 ≡ bs) × (room (get r).0 ≡ suc (room r))
  pub get_none : (r : R) → contents r ≡ [] → get r ≡ (r, none)
  pub give_below : (s : S) → count s < limit s → count (give s) ≡ suc (count s)
  pub give_limit : (s : S) → count s ≡ limit s → count (give s) ≡ count s
  pub limit-give : (s : S) → limit (give s) ≡ limit s
  pub take_none : (s : S) → count s ≡ 0 → take_sem s ≡ none
  pub take_some :
      (s : S) (n : ℕ)
      → count s ≡ suc n
      → (s' : S) × (take_sem s ≡ some s') × (count s' ≡ n) × (limit s' ≡ limit s)

abbrev pub rb_size : ℕ
rb_size = 255

abbrev pub urc_size : ℕ
urc_size = 64

-- The static variables of comms.c and of `comms_handle_char`.
pub record Comms (R S : Type 0) : Type 0 where
  pub prev : ℕ
  pub in_urc : Bool
  pub rx_rb : R
  pub rx_sem : S
  pub urc_rb : R
  pub urc_sem : S

-- The local variables of `urc_threadproc`: `buf` has 64 bytes, `index` is a `uint8_t`.
pub record Thread : Type 0 where
  pub buf : Bytes
  pub index : ℕ

-- A write that must stay inside its array.
unfoldable pub store : Bytes → ℕ → ℕ → Outcome Bytes
store xs i b = if ltb i (length xs) then ok (set xs i b) else out_of_bounds

-- The loop over the text: each comma becomes a zero, and the last one is where the count begins.
unfoldable pub cut : ℕ → ℕ → Bytes → Option ℕ → Bytes × Option ℕ
cut zero i bs countptr = (bs, countptr)
cut (suc left) i [] countptr = ([], countptr)
cut (suc left) i (b ∷ bs) countptr =
    let comma = b == b',' in
    let (rest, last) = cut left (i + 1) bs (if comma then some (i + 1) else countptr) in
    ((if comma then 0 else b) ∷ rest, last)

-- A call of `recv_cb`, with its two arguments.
abbrev pub Call : Type 0
Call = ℤ × ℤ

module _ (libc : Libc) (registered : Bool) where
  -- What is done with a text of `index` bytes; `strncmp` reads the first eight.
  unfoldable pub notification : ℕ → Bytes → Outcome (Bytes × Option Call)
  notification index buf =
      let (cut_buf, countptr) = cut index 0 buf none in
      let call = (do
        count_at ← in_bounds countptr
        ok (
          cut_buf,
          some
              (libc.atoi (c_string (drop 9 cut_buf)), libc.atoi (c_string (drop count_at cut_buf))),
        )) in
      if ltb 0 index && (registered && eqb (take 8 buf) (codes "+NSONMI:"))
      then call
      else ok (buf, none)

  -- The body of the thread's loop for a byte `b` of the ring buffer.
  unfoldable pub urc_byte : ℕ → Thread → Outcome (Thread × Option Call)
  urc_byte b t =
      let ended = (do
        terminated ← store t.buf t.index 0
        (buf', call) ← notification t.index terminated
        ok (record { buf = buf'; index = 0 }, call)) in
      let added = (do
        buf' ← store t.buf t.index b
        ok (record { buf = buf'; index = (t.index + 1) % 2 ^ 8 }, none)) in
      if b == b'\r' then ended else if b == b'\n' then ok (t, none) else added

module _ {R S : Type 0} (kernel : Kernel R S) where
  open kernel use {put, get, give, take_sem}

  -- The byte goes to the URC ring buffer inside a notification, and always to the other one.
  unfoldable pub to_urc : ℕ → Comms R S → Comms R S
  to_urc b c =
      let in_urc' = if (c.prev == b'\n') && (b == b'+') then true else c.in_urc in
      if in_urc'
      then record c {
        in_urc = if b == b'\r' then false else true;
        urc_rb = (put b c.urc_rb).0;
        urc_sem = give c.urc_sem;
      }
      else c

  unfoldable pub to_rx : ℕ → Comms R S → Comms R S
  to_rx b c =
      if (put b c.rx_rb).1
      then record c { prev = b; rx_rb = (put b c.rx_rb).0; rx_sem = give c.rx_sem }
      else record c { rx_rb = (put b c.rx_rb).0 }

  unfoldable pub comms_handle_char : ℕ → Comms R S → Comms R S
  unfolding to_rx to_urc
  comms_handle_char b c = to_rx b (to_urc b c)

  -- What `modem_read` does with a permit, and without one; `none` is a return of false.
  unfoldable pub read_after : Comms R S → Option S → Comms R S × Option ℕ
  read_after c none = (c, none)
  read_after c (some s) = (record c { rx_sem = s; rx_rb = (get c.rx_rb).0 }, (get c.rx_rb).1)

  unfoldable pub modem_read : Comms R S → Comms R S × Option ℕ
  unfolding read_after
  modem_read c = read_after c (take_sem c.rx_sem)

  module _ (libc : Libc) (registered : Bool) where
    unfoldable pub round_on :
        Comms R S → Thread → Option ℕ → Outcome (Option (Comms R S × Thread × Option Call))
    round_on c t none = ok (some (c, t, none))
    round_on c t (some b) = do (t', call) ← urc_byte libc registered b t; ok (some (c, t', call))

    unfoldable pub round_after :
        Comms R S → Thread → Option S → Outcome (Option (Comms R S × Thread × Option Call))
    unfolding round_on
    round_after c t none = ok none
    round_after c t (some s) =
        round_on (record c { urc_sem = s; urc_rb = (get c.urc_rb).0 }) t (get c.urc_rb).1

    -- One round of the thread; without a permit it waits, which is no step.
    unfoldable pub urc_round :
        Comms R S → Thread → Outcome (Option (Comms R S × Thread × Option Call))
    unfolding round_after
    urc_round c t = round_after c t (take_sem c.urc_sem)
