-- ===== src/Modem/Urc/Nsonmi.antt =====
-- What `urc_threadproc` of Firmware/src/comms.c makes of a notification of received data.
use native.Mathlib.Numerals.{add-one}
use air_quality_sensor_node.Base.{
  length-drop, ℕ, suc, ◌+◌, ◌<◌, ◌≡◌, refl, ap, ◌∙◌, true, false, [], ◌∷◌, ◌++◌, Bytes, codes, ◌==◌,
  length, length-append, append_assoc, drop, Option, none, some, All, All-append, arith,
}
use air_quality_sensor_node.Base.Int.{pos}
use air_quality_sensor_node.Base.Libc.{Libc, is_digit, decimal}
use air_quality_sensor_node.Base.Outcome.{ok}
use air_quality_sensor_node.At.Receive.{c_string}
use air_quality_sensor_node.Modem.Urc.{Thread, Call, cut, notification, urc_byte}
use air_quality_sensor_node.Modem.Urc.Lines.{is_plain, IsLine}
use air_quality_sensor_node.Modem.Urc.Notify.{feed, feed-plain, store-append}

-- The first text up to a zero, and the loop over a text without commas.
pub c_string-digits :
    (ds rest : Bytes) → All (λ d. is_digit d ≡ true) ds → c_string (ds ++ 0 ∷ rest) ≡ ds
unfolding c_string
c_string-digits [] rest h = refl
c_string-digits (d ∷ ds) rest h =
    let no_zero : (d == 0) ≡ false = ground (arith, h.0) in
    rw no_zero (ap (◌∷◌ d) (c_string-digits ds rest h.1))

abbrev HasNoComma : Bytes → Type 0
HasNoComma l = All (λ b. (b == b',') ≡ false) l

cut-append :
    (xs ys : Bytes) (n i : ℕ) (p : Option ℕ)
    → HasNoComma xs
    → cut (length xs + n) i (xs ++ ys) p
      ≡ (xs ++ (cut n (i + length xs) ys p).0, (cut n (i + length xs) ys p).1)
unfolding cut
cut-append [] ys n i p h =
    let e : 0 + n ≡ n = omega arith in let f : i + 0 ≡ i = omega arith in rw (e, f)
cut-append (x ∷ xs) ys n i p h =
    let e : suc (length xs) + n ≡ suc (length xs + n) = omega arith in
    let f : i + suc (length xs) ≡ i + 1 + length xs = omega arith in
    rw (e, f, cut, h.0, cut-append xs ys n (i + 1) p h.1)

-- The last comma is the one behind `xs`.
cut_at_comma :
    (xs ys rest : Bytes)
    → HasNoComma xs
    → HasNoComma ys
    → cut (length (xs ++ b',' ∷ ys)) 0 (xs ++ b',' ∷ (ys ++ rest)) none
      ≡ (xs ++ 0 ∷ (ys ++ rest), some (length xs + 1))
unfolding cut
cut_at_comma xs ys rest hx hy =
    let long : length (xs ++ 44 ∷ ys) ≡ length xs + suc (length ys + 0) =
      omega (arith, length-append xs (44 ∷ ys)) in
    let start : 0 + length xs ≡ length xs = omega arith in
    let step : cut (suc (length ys + 0)) (length xs) (44 ∷ (ys ++ rest)) none
        ≡ (0 ∷ (ys ++ rest), some (length xs + 1)) =
      rw (cut-append ys rest 0 (length xs + 1) (some (length xs + 1)) hy) in
    let tail = λ (r : Bytes × Option ℕ). (let s : Bytes × Option ℕ = (xs ++ r.0, r.1) in s) in
    rw long
      (cut-append xs (44 ∷ (ys ++ rest)) (suc (length ys + 0)) 0 none hx ∙ rw start (ap tail step))

digits-HasNoComma : (ds : Bytes) → All (λ d. is_digit d ≡ true) ds → HasNoComma ds
digits-HasNoComma [] h = tt
digits-HasNoComma (d ∷ ds) h = (ground (arith, h.0), digits-HasNoComma ds h.1)

digits-IsLine : (ds : Bytes) → All (λ d. is_digit d ≡ true) ds → IsLine ds
digits-IsLine [] h = tt
digits-IsLine (d ∷ ds) h = (ground (arith, h.0), digits-IsLine ds h.1)

-- A notification with the byte `x` behind its colon, for which `fdptr + 9` leaves room.
abbrev pub nsonmi : ℕ → Bytes → Bytes → Bytes
nsonmi x fd count = codes "+NSONMI:" ++ x ∷ (fd ++ b',' ∷ count)

drop_behind : (xs : Bytes) (y : ℕ) (ys : Bytes) → drop (length xs + 1) (xs ++ y ∷ ys) ≡ ys
drop_behind xs y ys = rw add-one (drop_all xs)
  where
    drop_all : (xs : Bytes) → drop (suc (length xs)) (xs ++ y ∷ ys) ≡ ys
    drop_all [] = refl
    drop_all (x ∷ xs) = drop_all xs

module _ (libc : Libc) where
  notification_lem :
      (x : ℕ) (fd count rest : Bytes)
      → (x == b',') ≡ false
      → All (λ d. is_digit d ≡ true) fd
      → All (λ d. is_digit d ≡ true) count
      → decimal 0 fd < 2147483648
      → decimal 0 count < 2147483648
      → notification libc true (length (nsonmi x fd count)) (nsonmi x fd count ++ 0 ∷ rest)
        ≡ ok (
          codes "+NSONMI:" ++ x ∷ (fd ++ 0 ∷ (count ++ 0 ∷ rest)),
          some (pos (decimal 0 fd), pos (decimal 0 count)),
        )
  unfolding notification
  notification_lem x fd count rest hx hf hc sf sc =
      let pre = codes "+NSONMI:" ++ x ∷ fd in
      let parts =
        cut_at_comma pre count (0 ∷ rest)
          (
            refl,
            (refl, (refl, (refl, (refl, (refl, (refl, (refl, (hx, digits-HasNoComma fd hf)))))))),
          )
          (digits-HasNoComma count hc) in
      let split : fd ++ 44 ∷ count ++ 0 ∷ rest ≡ fd ++ 44 ∷ (count ++ 0 ∷ rest) =
        append_assoc fd (44 ∷ count) (0 ∷ rest) in
      let behind : drop (length pre + 1) (pre ++ 0 ∷ (count ++ 0 ∷ rest)) ≡ count ++ 0 ∷ rest =
        drop_behind pre 0 (count ++ 0 ∷ rest) in
      rw
        (
          split,
          parts,
          behind,
          c_string-digits fd (count ++ 0 ∷ rest) hf,
          c_string-digits count rest hc,
          libc.atoi_all_digits fd hf sf,
          libc.atoi_all_digits count hc sc,
        )
        (ground arith)

pub nsonmi-IsLine :
    (x : ℕ) (fd count : Bytes)
    → is_plain x ≡ true
    → All (λ d. is_digit d ≡ true) fd
    → All (λ d. is_digit d ≡ true) count
    → IsLine (nsonmi x fd count)
nsonmi-IsLine x fd count plain hf hc =
    let fields =
      All-append (λ b. is_plain b ≡ true) fd (44 ∷ count) (digits-IsLine fd hf)
        (refl, digits-IsLine count hc) in
    (refl, (refl, (refl, (refl, (refl, (refl, (refl, (refl, (plain, fields)))))))))

module _ (libc : Libc) where
  urc_byte-cr :
      (text ys : Bytes) (y : ℕ) (buf' : Bytes) (call : Option Call)
      → notification libc true (length text) (text ++ 0 ∷ ys) ≡ ok (buf', call)
      → urc_byte libc true b'\r' (record { buf = text ++ y ∷ ys; index = length text })
        ≡ ok (record { buf = buf'; index = 0 }, call)
  unfolding urc_byte
  urc_byte-cr text ys y buf' call e = rw (store-append text y ys 0, e)

  feed_one :
      (b : ℕ) (t t' : Thread) (call : Call)
      → urc_byte libc true b t ≡ ok (t', some call)
      → feed libc true (b ∷ []) t ≡ ok (t', call ∷ [])
  unfolding feed
  feed_one b t t' call e = rw e

  -- With a callback registered and whatever `buf` holds, a notification of data of fewer than 64
  -- bytes makes one call, with the numbers of its two fields, the second byte behind its colon being
  -- the first that counts; the thread is then at the start of a line.
  pub feed-nsonmi :
      (x : ℕ) (fd count buf : Bytes)
      → is_plain x ≡ true
      → (x == b',') ≡ false
      → All (λ d. is_digit d ≡ true) fd
      → All (λ d. is_digit d ≡ true) count
      → decimal 0 fd < 2147483648
      → decimal 0 count < 2147483648
      → length (nsonmi x fd count) < 64
      → length buf ≡ 64
      → (buf' : Bytes) × (length buf' ≡ 64)
        × (feed libc true (nsonmi x fd count ++ b'\r' ∷ []) (record { buf = buf; index = 0 })
            ≡ ok (
              record { buf = buf'; index = 0 },
              (pos (decimal 0 fd), pos (decimal 0 count)) ∷ [],
            ))
  feed-nsonmi x fd count buf plain hx hf hc sf sc short full =
      let line = nsonmi x fd count in
      let is_line = nsonmi-IsLine x fd count plain hf hc in
      let fed = feed-plain libc true line [] buf (13 ∷ []) is_line (omega arith) (omega arith) in
      let left = length-drop (length line) buf (omega arith) in
      by_rest (drop (length line) buf) refl fed left
    where
      line : Bytes
      line = nsonmi x fd count

      by_rest :
          (rest : Bytes)
          → drop (length line) buf ≡ rest
          → feed libc true (line ++ 13 ∷ []) (record { buf = buf; index = 0 })
            ≡ feed libc true
                (13 ∷ [])
                (record { buf = line ++ drop (length line) buf; index = length line })
          → length (drop (length line) buf) + length line ≡ length buf
          → (buf' : Bytes) × (length buf' ≡ 64)
            × (feed libc true (line ++ 13 ∷ []) (record { buf = buf; index = 0 })
                ≡ ok (
                  record { buf = buf'; index = 0 },
                  (pos (decimal 0 fd), pos (decimal 0 count)) ∷ [],
                ))
      by_rest [] e fed left = absurd (omega (arith, ap (length {A = ℕ}) e))
      by_rest (y ∷ ys) e fed left =
          let buf' = codes "+NSONMI:" ++ x ∷ (fd ++ 0 ∷ (count ++ 0 ∷ ys)) in
          let same = notification_lem libc x fd count ys hx hf hc sf sc in
          let ended = feed_one _ _ _ _ (urc_byte-cr line ys y buf' _ same) in
          (
            buf',
            omega (
              arith,
              ap (length {A = ℕ}) e,
              length-append fd (0 ∷ (count ++ 0 ∷ ys)),
              length-append count (0 ∷ ys),
              length-append fd (44 ∷ count),
            ),
            fed ∙ rw e ended,
          )
