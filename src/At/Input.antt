-- ===== src/At/Input.antt =====
-- `decode_input`: the loop over the bytes of a reply.
pub mod Lines
use air_quality_sensor_node.Base.{
  ℕ, Bool, true, false, ◌&&◌, [], ◌∷◌, Bytes, ltb, leb, ◌==◌, if◌then◌else◌, codes,
}
use air_quality_sensor_node.Base.Outcome.{Outcome, ok, ◌>>=◌}
use air_quality_sensor_node.At.Buffer.{Buf, b_reset, b_add, b_is}

-- AT_OK, AT_ERROR and AT_TIMEOUT
pub data AtResult : Type 0 where
  at_ok at_error at_timeout : AtResult

-- The callbacks over the context `C`: for a byte with the buffer, `is_urc` and `is_space`, and for
-- the end of a line. A callback that is NULL leaves the context alone.
pub record Callbacks (C : Type 0) : Type 0 where
  pub char_cb : C → Buf → ℕ → Bool → Bool → Outcome C
  pub eol_cb : C → Buf → Bool → Outcome C

abbrev pub no_char : {C : Type 0} → C → Buf → ℕ → Bool → Bool → Outcome C
no_char c rb b is_urc is_space = ok c

abbrev pub no_eol : {C : Type 0} → C → Buf → Bool → Outcome C
no_eol c rb is_urc = ok c

-- The local variables of the loop.
pub record Reader (C : Type 0) : Type 0 where
  pub rb : Buf
  pub prev : ℕ
  pub is_urc : Bool
  pub ctx : C

pub data Step (C : Type 0) : Type 0 where
  return : AtResult → C → Step C
  continue : Reader C → Step C

abbrev pub ok_line : Bytes
ok_line = codes "OK\r\n"

abbrev pub error_line : Bytes
error_line = codes "ERROR\r\n"

module _ {C : Type 0} (isspace : ℕ → Bool) (cb : Callbacks C) where
  open cb use {char_cb, eol_cb}

  -- Behind the tests for OK and ERROR: the end of a line.
  unfoldable pub end_line : Reader C → ℕ → Outcome (Step C)
  end_line r b =
      let ended = (do
        ctx' ← eol_cb r.ctx r.rb r.is_urc
        ok (continue (record { rb = b_reset; prev = b; is_urc = false; ctx = ctx' }))) in
      if (r.prev == b'\r') && (b == b'\n') then ended else ok (continue (record r { prev = b }))

  -- Behind the callback for the byte: the tests for OK and ERROR.
  unfoldable pub test_line : Reader C → ℕ → Outcome (Step C)
  test_line r b =
      if leb 4 r.rb.size && b_is r.rb ok_line
      then ok (return at_ok r.ctx)
      else if leb 4 r.rb.size && b_is r.rb error_line
      then ok (return at_error r.ctx)
      else end_line r b

  -- One round of the loop.
  unfoldable pub read_byte : Reader C → ℕ → Outcome (Step C)
  read_byte r b =
      let is_urc' = if (b == b'+') && (r.rb.size == 0) then true else r.is_urc in
      let rb' = b_add r.rb b in
      do
        ctx' ← char_cb r.ctx rb' b is_urc' (isspace b)
        test_line (record { rb = rb'; prev = r.prev; is_urc = is_urc'; ctx = ctx' }) b

  -- The bytes are those that `modem_read` delivers before it times out. Gives the result, the
  -- context and the bytes that are not read.
  unfoldable pub read_all : Reader C → Bytes → Outcome (AtResult × C × Bytes)
  read_all r [] = ok (at_timeout, r.ctx, [])
  read_all r (b ∷ bs) = do
    s ← read_byte r b
    elim s [ return res ctx ↦ ok (res, ctx, bs) | continue r' ↦ read_all r' bs ]

  unfoldable pub decode_input : C → Bytes → Outcome (AtResult × C × Bytes)
  decode_input ctx bytes =
      read_all (record { rb = b_reset; prev = b' '; is_urc = false; ctx = ctx }) bytes
