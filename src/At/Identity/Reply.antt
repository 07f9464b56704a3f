-- ===== src/At/Identity/Reply.antt =====
-- What `cgsn_char` and `cgsn_eol` of Firmware/src/at_commands.c keep of a reply: the bytes of its first
-- line that are not white space.
use air_quality_sensor_node.Base.{
  ℕ, suc, ◌+◌, ◌%◌, ◌≤◌, ◌<◌, ◌≡◌, refl, ap, ◌∙◌, Bool, true, false, [], ◌∷◌, ◌++◌, Bytes, lt→ltb,
  if◌then◌else◌, drop, set-append, length, length-append, length-drop, append_assoc, append-nil,
  arith, inl, inr, Bool-cases,
}
use air_quality_sensor_node.Base.Outcome.{ok}
use air_quality_sensor_node.At.Buffer.{Buf}
use air_quality_sensor_node.At.Input.Lines.{feed, read_line, crlf}
use air_quality_sensor_node.At.Identity.{IdCtx, store_digit, cgsn_char, id_eol, cgsn_callbacks}

module _ (isspace : ℕ → Bool) where
  abbrev pub kept : Bytes → Bytes
  kept [] = []
  kept (b ∷ bs) = if isspace b then kept bs else b ∷ kept bs

  -- The array with `text` at its beginning.
  abbrev pub at : Bytes → Bytes → Bool → IdCtx
  at text rest done = record { bytes = text ++ rest; index = length text; done = done }

  store_digit-at :
      (text : Bytes) (y : ℕ) (ys : Bytes) (b : ℕ)
      → length text < 255
      → store_digit (at text (y ∷ ys) false) b ≡ ok (at (text ++ b ∷ []) ys false)
  unfolding store_digit
  store_digit-at text y ys b short =
      let inside =
        lt→ltb (length text) (length (text ++ y ∷ ys))
          (omega (arith, length-append text (y ∷ ys))) in
      let next : (length text + 1) % 256 ≡ length (text ++ b ∷ []) =
        omega (arith, length-append text (b ∷ [])) in
      rw (inside, next, set-append text y ys b, append_assoc text (b ∷ []) ys)

  pub feed-kept :
      (bs xs text rest : Bytes)
      → length (kept bs) ≤ length rest
      → length text + length rest ≤ 255
      → feed isspace cgsn_callbacks (at text rest false) xs bs
        ≡ ok (at (text ++ kept bs) (drop (length (kept bs)) rest) false)
  unfolding feed cgsn_char
  feed-kept [] xs text rest fits small = rw (append-nil text)
  feed-kept (b ∷ bs) xs text [] fits small = elim (Bool-cases (isspace b)) [
    | inl space ↦ rw space (feed-kept bs (xs ++ b ∷ []) text [] (rw space at fits) small)
    | inr other ↦ absurd (omega (arith, rw other at fits))
  ]
  feed-kept (b ∷ bs) xs text (y ∷ ys) fits small = elim (Bool-cases (isspace b)) [
    | inl space ↦ rw space (feed-kept bs (xs ++ b ∷ []) text (y ∷ ys) (rw space at fits) small)
    | inr other ↦
        let grown = length-append text (b ∷ []) in
        let fits' : suc (length (kept bs)) ≤ suc (length ys) = rw other at fits in
        rw (other, store_digit-at text y ys b (omega arith))
          (feed-kept bs (xs ++ b ∷ []) (text ++ b ∷ []) ys (omega arith) (omega (arith, grown))
            ∙ rw (append_assoc text (b ∷ []) (kept bs)) refl)
  ]

  -- Behind its first line the decoder keeps what it has.
  pub feed_done :
      (bs xs text rest : Bytes)
      → feed isspace cgsn_callbacks (at text rest true) xs bs ≡ ok (at text rest true)
  unfolding feed cgsn_char
  feed_done [] xs text rest = refl
  feed_done (b ∷ bs) xs text rest = feed_done bs (xs ++ b ∷ []) text rest

  pub kept-append : (xs ys : Bytes) → kept (xs ++ ys) ≡ kept xs ++ kept ys
  kept-append [] ys = refl
  kept-append (x ∷ xs) ys = elim (Bool-cases (isspace x)) [
    | inl space ↦ rw space (kept-append xs ys)
    | inr other ↦ rw other (ap (◌∷◌ x) (kept-append xs ys))
  ]

  eol_ends :
      (text : Bytes) (y : ℕ) (ys : Bytes) (rb : Buf) (is_urc : Bool)
      → 0 < length text
      → id_eol (at text (y ∷ ys) false) rb is_urc
        ≡ ok (record { bytes = text ++ 0 ∷ ys; index = length text; done = true })
  unfolding id_eol
  eol_ends text y ys rb is_urc some_text =
      let inside =
        lt→ltb (length text) (length (text ++ y ∷ ys))
          (omega (arith, length-append text (y ∷ ys))) in
      rw (lt→ltb 0 (length text) some_text, inside, set-append text y ys 0)

  -- A blank line before it is passed over, and the first line that is not blank is stored with a zero behind it.
  pub blank_line :
      isspace b'\r' ≡ true
      → isspace b'\n' ≡ true
      → (rest : Bytes) → length rest ≤ 255
      → read_line isspace cgsn_callbacks (at [] rest false) [] ≡ ok (at [] rest false)
  unfolding read_line id_eol
  blank_line cr lf rest small =
      rw (feed-kept crlf [] [] rest (rw (cr, lf) (omega arith)) (omega arith), cr, lf)

  pub first_line :
      (l rest : Bytes)
      → isspace b'\r' ≡ true
      → isspace b'\n' ≡ true
      → 0 < length (kept l)
      → length (kept l) < length rest
      → length rest ≤ 255
      → (behind : Bytes) × (read_line isspace cgsn_callbacks (at [] rest false) l
          ≡ ok (record { bytes = kept l ++ 0 ∷ behind; index = length (kept l); done = true }))
  unfolding read_line
  first_line l rest cr lf some_text fits small =
      let same : kept (l ++ crlf) ≡ kept l =
        kept-append l crlf ∙ rw (cr, lf) (append-nil (kept l)) in
      let fed = feed-kept (l ++ crlf) [] [] rest (rw same (omega arith)) (omega arith) in
      by_rest (drop (length (kept l)) rest) (length-drop (length (kept l)) rest (omega arith))
        (rw same at fed)
    where
      by_rest :
          (rest' : Bytes)
          → length rest' + length (kept l) ≡ length rest
          → feed isspace cgsn_callbacks (at [] rest false) [] (l ++ crlf)
            ≡ ok (at (kept l) rest' false)
          → (behind : Bytes) × (read_line isspace cgsn_callbacks (at [] rest false) l
              ≡ ok (record { bytes = kept l ++ 0 ∷ behind; index = length (kept l); done = true }))
      by_rest [] e fed = absurd (omega (arith, e))
      by_rest (y ∷ ys) e fed = (ys, rw fed (eol_ends (kept l) y ys _ _ some_text))

  pub done_line :
      (l text rest : Bytes)
      → read_line isspace cgsn_callbacks (at text rest true) l ≡ ok (at text rest true)
  unfolding read_line id_eol
  done_line l text rest = rw (feed_done (l ++ crlf) [] text rest)
