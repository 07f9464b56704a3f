-- ===== src/Modem/Init/Imei.antt =====
-- The number of the modem (`read_imei` of Firmware/src/comms.c), from its reply to AT+CGSN=1.
use air_quality_sensor_node.Base.{
  ℕ, ◌≤◌, ◌≡◌, refl, ap, ◌∙◌, true, false, [], ◌∷◌, ◌++◌, Bytes, codes, All, All-append, ◌==◌,
  replicate, length, length-append, arith, inl, inr, Bool-cases,
}
use air_quality_sensor_node.Base.Libc.{Libc, is_digit}
use air_quality_sensor_node.Base.Outcome.{ok}
use air_quality_sensor_node.At.Buffer.Prefix.{IsNot, add_all}
use air_quality_sensor_node.At.Input.{at_ok, ok_line, decode_input, read_all}
use air_quality_sensor_node.At.Input.Lines.{
  IsPlain, crlf, within, read_line, read_all-line, read_all-ok,
}
use air_quality_sensor_node.At.Identity.{IdCtx, cgsn_callbacks, atcgsn_decode}
use air_quality_sensor_node.At.Identity.Reply.{
  kept, at, blank_line, first_line, done_line, feed_done,
}
use air_quality_sensor_node.Modem.{Line, receive}
use air_quality_sensor_node.Modem.Init.{ends, copy_imei, imei_of, read_imei}
use air_quality_sensor_node.Modem.Urc.Nsonmi.{c_string-digits}

abbrev pub cgsn_line : Bytes → Bytes
cgsn_line digits = codes "+CGSN: " ++ digits

-- The reply with blank lines around the number, and what the modem sends behind it.
abbrev pub cgsn_reply : Bytes → Bytes → Bytes
cgsn_reply digits tail = crlf ++ (cgsn_line digits ++ (crlf ++ (crlf ++ (ok_line ++ tail))))

digits-IsPlain : (ds : Bytes) → All (λ d. is_digit d ≡ true) ds → IsPlain ds
digits-IsPlain [] h = (tt, tt)
digits-IsPlain (d ∷ ds) h =
    let (no_cr, no_lf) = digits-IsPlain ds h.1 in
    ((ground (arith, h.0), no_cr), (ground (arith, h.0), no_lf))

ends-append : (ds rest : Bytes) → ends (ds ++ 0 ∷ rest) ≡ true
ends-append [] rest = refl
ends-append (d ∷ ds) rest = elim (Bool-cases (d == 0)) [
  | inl zero_byte ↦ rw zero_byte refl
  | inr other ↦ rw other (ends-append ds rest)
]

module _ (libc : Libc) where
  open libc use {isspace, isspace_ascii}

  kept-digits : (ds : Bytes) → All (λ d. is_digit d ≡ true) ds → kept isspace ds ≡ ds
  kept-digits [] h = refl
  kept-digits (d ∷ ds) h =
      let other : isspace d ≡ false = isspace_ascii d (ground (arith, h.0)) ∙ ground (arith, h.0) in
      rw other (ap (◌∷◌ d) (kept-digits ds h.1))

  kept-cgsn_line :
      (ds : Bytes)
      → All (λ d. is_digit d ≡ true) ds
      → kept isspace (cgsn_line ds) ≡ codes "+CGSN:" ++ ds
  kept-cgsn_line ds h =
      rw
        (
          isspace_ascii 43 (omega arith),
          isspace_ascii 67 (omega arith),
          isspace_ascii 71 (omega arith),
          isspace_ascii 83 (omega arith),
          isspace_ascii 78 (omega arith),
          isspace_ascii 58 (omega arith),
          isspace_ascii 32 (omega arith),
          kept-digits ds h,
        )
        refl

  -- The context behind the first line of the reply that is not blank.
  abbrev stored_id : Bytes → Bytes → IdCtx
  stored_id ds behind = record {
    bytes = (codes "+CGSN:" ++ ds) ++ 0 ∷ behind;
    index = length (codes "+CGSN:" ++ ds);
    done = true;
  }

  cgsn_line-IsPlain : (ds : Bytes) → All (λ d. is_digit d ≡ true) ds → IsPlain (cgsn_line ds)
  cgsn_line-IsPlain ds h = (
    All-append (IsNot 13) (codes "+CGSN: ") ds (omega arith) (digits-IsPlain ds h).0,
    All-append (IsNot 10) (codes "+CGSN: ") ds (omega arith) (digits-IsPlain ds h).1,
  )

  store_line :
      (ds : Bytes)
      → All (λ d. is_digit d ≡ true) ds
      → length ds ≤ 17
      → (behind : Bytes) × (read_line isspace cgsn_callbacks
            (at isspace [] (replicate 24 0) false)
            (cgsn_line ds)
          ≡ ok (stored_id ds behind))
  store_line ds h short =
      let same = kept-cgsn_line ds h in
      let grown = length-append (codes "+CGSN:") ds in
      let (behind, stored) =
        first_line isspace (cgsn_line ds) (replicate 24 0) (isspace_ascii 13 (omega arith))
          (isspace_ascii 10 (omega arith)) (rw same (omega (arith, grown)))
          (rw same (omega (arith, grown))) (omega arith) in
      (behind, rw same at stored)

  -- Behind the number there is nothing left to store.
  end_reply :
      (ds tail behind : Bytes) (prev : ℕ)
      → read_all isspace cgsn_callbacks
          (within isspace cgsn_callbacks [] prev (stored_id ds behind))
          (crlf ++ (ok_line ++ tail))
        ≡ ok (at_ok, stored_id ds behind, tail)
  end_reply ds tail behind prev =
      let text = codes "+CGSN:" ++ ds in
      let rest = 0 ∷ behind in
      rw
        (
          read_all-line isspace cgsn_callbacks [] (ok_line ++ tail) prev (stored_id ds behind)
              (tt, tt) (λ e. cc) (λ e. cc) (omega arith),
          done_line isspace [] text rest,
          read_all-ok isspace cgsn_callbacks tail 10 (stored_id ds behind),
          feed_done isspace ok_line [] text rest,
        )
        refl

  decode_reply :
      (ds tail : Bytes)
      → All (λ d. is_digit d ≡ true) ds
      → length ds ≤ 17
      → (behind : Bytes) × (atcgsn_decode isspace (replicate 24 0) (cgsn_reply ds tail)
          ≡ ok (at_ok, stored_id ds behind, tail))
  unfolding atcgsn_decode decode_input read_all add_all
  decode_reply ds tail h short =
      let (behind, stored) = store_line ds h short in
      let start = at isspace [] (replicate 24 0) false in
      let blank =
        blank_line isspace (isspace_ascii 13 (omega arith)) (isspace_ascii 10 (omega arith))
          (replicate 24 0) (omega arith) in
      let before =
        read_all-line isspace cgsn_callbacks []
          (cgsn_line ds ++ (crlf ++ (crlf ++ (ok_line ++ tail)))) 32 start (tt, tt) (λ e. cc)
          (λ e. cc) (omega arith) in
      let number =
        read_all-line isspace cgsn_callbacks (cgsn_line ds) (crlf ++ (ok_line ++ tail)) 10 start
          (cgsn_line-IsPlain ds h) (λ e. cc) (λ e. cc)
          (omega (arith, length-append (codes "+CGSN: ") ds)) in
      (behind, before ∙ rw (blank, number, stored) (end_reply ds tail behind 10))

module _ {W : Type 0} (libc : Libc) (line : Line W) where
  -- If the modem replies to AT+CGSN=1 with a number of at most 17 digits, blank lines around it, and OK,
  -- then `imei` is exactly the digits, and what follows OK stays unread.
  pub read_imei_lem :
      (ds tail : Bytes) (w : W)
      → All (λ d. is_digit d ≡ true) ds
      → length ds ≤ 17
      → line.readable (line.write (codes "AT+CGSN=1\r") w) ≡ cgsn_reply ds tail
      → (unparsed : Bytes) × (read_imei libc line w
          ≡ ok (unparsed, ds, line.left_unread tail (line.write (codes "AT+CGSN=1\r") w)))
  unfolding read_imei imei_of copy_imei receive
  read_imei_lem ds tail w h short replied =
      let (behind, decoded) = decode_reply libc ds tail h short in
      (
        (codes "+CGSN:" ++ ds) ++ 0 ∷ behind,
        rw (replied, decoded, ends-append ds behind, c_string-digits ds behind h),
      )
