-- ===== src/Modem/Urc/Notify.antt =====
-- What the thread for notifications makes of the bytes of a line.
use air_quality_sensor_node.Base.{
  ℕ, ◌+◌, ◌%◌, ◌≤◌, ◌<◌, ◌≡◌, refl, ap, ◌∙◌, Bool, Bool-cases, inl, inr, List, append-nil, true,
  false, [], ◌∷◌, ◌++◌, Bytes, ◌==◌, length, length-append, append_assoc, set-append, drop, Option,
  none, some, arith, lt→ltb,
}
use air_quality_sensor_node.Base.Libc.{Libc}
use air_quality_sensor_node.Base.Outcome.{Outcome, ok, failed, out_of_bounds, out_of_fuel, ◌>>=◌}
use air_quality_sensor_node.Modem.Urc.{Thread, Call, store, urc_byte}
use air_quality_sensor_node.Modem.Urc.Lines.{is_plain, IsLine}

pub store-append :
    (xs : Bytes) (y : ℕ) (ys : Bytes) (b : ℕ)
    → store (xs ++ y ∷ ys) (length xs) b ≡ ok (xs ++ b ∷ ys)
unfolding store
store-append xs y ys b =
    rw (lt→ltb (length xs) (length (xs ++ y ∷ ys)) (omega (arith, length-append xs (y ∷ ys))))
      (ap ok (set-append xs y ys b))

store_full : (xs : Bytes) (b : ℕ) → store xs (length xs) b ≡ out_of_bounds
unfolding store
store_full xs b = ground arith

abbrev pub to_list : Option Call → List Call
to_list none = []
to_list (some c) = c ∷ []

no_call : (m : Outcome (Thread × List Call)) → (m >>= λ r. ok (r.0, [] ++ r.1)) ≡ m
no_call (ok r) = refl
no_call failed = refl
no_call out_of_bounds = refl
no_call out_of_fuel = refl

module _ (libc : Libc) (registered : Bool) where
  -- The bytes in turn, and the calls that are made.
  unfoldable pub feed : Bytes → Thread → Outcome (Thread × List Call)
  feed [] t = ok (t, [])
  feed (b ∷ bs) t = do
    (t1, call) ← urc_byte libc registered b t
    (t2, calls) ← feed bs t1
    ok (t2, to_list call ++ calls)

  -- A plain byte goes behind the text.
  urc_byte-plain :
      (b : ℕ) (text : Bytes) (x : ℕ) (rest : Bytes)
      → is_plain b ≡ true
      → length text < 255
      → urc_byte libc registered b (record { buf = text ++ x ∷ rest; index = length text })
        ≡ ok (record { buf = text ++ b ∷ rest; index = length text + 1 }, none)
  unfolding urc_byte
  urc_byte-plain b text x rest plain short =
      let not_cr : (b == 13) ≡ false = ground arith in
      let not_lf : (b == 10) ≡ false = ground arith in
      let small : (length text + 1) % 256 ≡ length text + 1 = omega arith in
      rw (not_cr, not_lf, store-append text x rest b, small)

  urc_byte_full :
      (b : ℕ) (text : Bytes)
      → (b == b'\n') ≡ false
      → urc_byte libc registered b (record { buf = text; index = length text }) ≡ out_of_bounds
  unfolding urc_byte
  urc_byte_full b text not_lf = elim (Bool-cases (b == 13)) [
    | inl cr ↦ rw (cr, store_full text 0)
    | inr other ↦ rw (other, not_lf, store_full text b)
  ]

  abbrev at : Bytes → Bytes → Thread
  at text rest = record { buf = text ++ rest; index = length text }

  -- The state behind a byte, with the byte counted to the text.
  move :
      (b : ℕ) (text rest : Bytes)
      → let t : Thread = record { buf = text ++ b ∷ rest; index = length text + 1 } in
        t ≡ at (text ++ b ∷ []) rest
  move b text rest = rw (append_assoc text (b ∷ []) rest, length-append text (b ∷ [])) refl

  pub feed-plain :
      (l text rest more : Bytes)
      → IsLine l
      → length l ≤ length rest
      → length text + length rest ≤ 64
      → feed (l ++ more) (at text rest) ≡ feed more (at (text ++ l) (drop (length l) rest))
  unfolding feed
  feed-plain [] text rest more plain fits small = rw (append-nil text)
  feed-plain (b ∷ l) text [] more plain fits small = absurd (omega arith)
  feed-plain (b ∷ l) text (x ∷ rest) more plain fits small =
      let ind =
        feed-plain l (text ++ b ∷ []) rest more plain.1 (omega arith)
          (omega (arith, length-append text (b ∷ []))) in
      rw (urc_byte-plain b text x rest plain.0 (omega arith), move b text rest)
        (no_call _
          ∙ ind
          ∙ ap (λ (t : Bytes). feed more (at t (drop (length l) rest)))
              (append_assoc text (b ∷ []) l))

  -- A line of 64 bytes or more does not fit: the thread writes behind `buf`.
  overflow :
      (l text rest more : Bytes)
      → IsLine l
      → length rest ≤ length l
      → length text + length rest ≡ 64
      → feed (l ++ b'\r' ∷ more) (at text rest) ≡ out_of_bounds
  unfolding feed
  overflow [] text [] more plain long small = rw (append-nil text, urc_byte_full 13 text refl)
  overflow [] text (x ∷ rest) more plain long small = absurd (omega arith)
  overflow (b ∷ l) text [] more plain long small =
      rw (append-nil text, urc_byte_full b text (ground (arith, plain.0)))
  overflow (b ∷ l) text (x ∷ rest) more plain long small =
      let ind =
        overflow l (text ++ b ∷ []) rest more plain.1 (omega arith)
          (omega (arith, length-append text (b ∷ []))) in
      rw (urc_byte-plain b text x rest plain.0 (omega arith), move b text rest) (no_call _ ∙ ind)

-- A line of 64 bytes or more, up to its CR, makes the thread write behind `buf`.
pub feed_overflows :
    (libc : Libc) (registered : Bool) (l more buf : Bytes)
    → IsLine l
    → length buf ≡ 64
    → 64 ≤ length l
    → feed libc registered (l ++ b'\r' ∷ more) (record { buf = buf; index = 0 }) ≡ out_of_bounds
feed_overflows libc registered l more buf plain full long =
    overflow libc registered l [] buf more plain (omega arith) (omega arith)
