-- ===== src/At/Socket.antt =====
-- The replies to AT+NSOCR and AT+NSOST: `nsocr_eol`, `atnsocr_decode`, `nsost_eol`,
-- `atnsost_decode`, and the decoders that wait for OK alone.
use air_quality_sensor_node.Base.{
  ℕ, ◌-◌, Bool, not, ◌&&◌, Bytes, ltb, leb, ◌==◌, if◌then◌else◌, get_or, drop,
}
use air_quality_sensor_node.Base.Int.{ℤ, pos, negsuc, to_unsigned}
use air_quality_sensor_node.Base.Libc.{Libc}
use air_quality_sensor_node.Base.Outcome.{Outcome, ok}
use air_quality_sensor_node.At.Buffer.{Buf}
use air_quality_sensor_node.At.Input.{AtResult, Callbacks, no_char, no_eol, decode_input}

module _ (libc : Libc) where
  open libc use {isspace, atoi}

  -- `at_decode`, which is also `atnsocl_decode`, `atcpsms_decode`, `at_generic_decode` and, with
  -- another timeout, `atnrb_decode`.
  unfoldable pub at_decode : Bytes → Outcome (AtResult × Unit {0} × Bytes)
  at_decode bytes = decode_input isspace (record { char_cb = no_char; eol_cb = no_eol }) tt bytes

  unfoldable pub nsocr_eol : ℤ → Buf → Bool → Outcome ℤ
  nsocr_eol sockfd rb is_urc = ok (if not is_urc && ltb 2 rb.size then atoi rb.bytes else sockfd)

  abbrev pub nsocr_callbacks : Callbacks ℤ
  nsocr_callbacks = record { char_cb = no_char; eol_cb = nsocr_eol }

  -- `*sockfd` is -2 until a line gives it a value.
  unfoldable pub atnsocr_decode : Bytes → Outcome (AtResult × ℤ × Bytes)
  atnsocr_decode bytes = decode_input isspace nsocr_callbacks (negsuc 1) bytes

  -- `struct nsost_ctx`; `len` is a `size_t` of 32 bits.
  pub record NsostCtx : Type 0 where
    pub sockfd : ℤ
    pub len : ℕ

  unfoldable pub nsost_eol : NsostCtx → Buf → Bool → Outcome NsostCtx
  nsost_eol c rb is_urc =
      let first = get_or rb.bytes 0 0 in
      if not is_urc && ((c.len == 0) && (ltb 2 rb.size && (get_or rb.bytes 1 0 == b',')))
      then ok (record {
        sockfd = if leb b'0' first then pos (first - b'0') else negsuc (b'0' - first - 1);
        len = to_unsigned 32 (atoi (drop 2 rb.bytes));
      })
      else ok c

  unfoldable pub atnsost_decode : ℤ → ℕ → Bytes → Outcome (AtResult × NsostCtx × Bytes)
  atnsost_decode sock_fd sent bytes =
      decode_input isspace (record { char_cb = no_char; eol_cb = nsost_eol })
        (record { sockfd = sock_fd; len = sent }) bytes
