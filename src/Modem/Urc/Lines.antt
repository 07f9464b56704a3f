-- ===== src/Modem/Urc/Lines.antt =====
-- What the interrupt makes of the lines that the modem sends.
use air_quality_sensor_node.Base.{
  ℕ, ◌+◌, ◌≤◌, ◌<◌, ◌≡◌, refl, ap, ◌∙◌, Bool, true, false, not, ◌&&◌, List, [], ◌∷◌, ◌++◌, Bytes,
  ◌==◌, if◌then◌else◌, length, length-append, append_assoc, append-nil, All, arith,
}
use air_quality_sensor_node.Modem.Urc.{Kernel, Comms, to_urc, to_rx, comms_handle_char}

-- A byte inside a line.
abbrev pub is_plain : ℕ → Bool
is_plain b = not (b == b'\r') && not (b == b'\n')

abbrev pub IsLine : Bytes → Type 0
IsLine l = All (λ b. is_plain b ≡ true) l

abbrev pub starts_urc : Bytes → Bool
starts_urc [] = false
starts_urc (b ∷ l) = b == b'+'

-- The lines as they are sent, and what the thread is to see of them.
abbrev pub sent : List Bytes → Bytes
sent [] = []
sent (l ∷ ls) = (l ++ b'\r' ∷ b'\n' ∷ []) ++ sent ls

abbrev pub notifications : List Bytes → Bytes
notifications [] = []
notifications (l ∷ ls) = (if starts_urc l then l ++ b'\r' ∷ [] else []) ++ notifications ls

module _ {R S : Type 0} (kernel : Kernel R S) where
  open kernel use {put, contents, room, put_room}

  unfoldable pub deliver : Bytes → Comms R S → Comms R S
  deliver [] c = c
  deliver (b ∷ bs) c = deliver bs (comms_handle_char kernel b c)

  -- From `c` to `c'` the ring buffers have taken `rx` and `urc`.
  pub record Took (c c' : Comms R S) (rx urc : Bytes) : Type 0 where
    pub rx_took : contents c'.rx_rb ≡ contents c.rx_rb ++ rx
    pub urc_took : contents c'.urc_rb ≡ contents c.urc_rb ++ urc
    pub rx_room : room c'.rx_rb + length rx ≡ room c.rx_rb
    pub urc_room : room c'.urc_rb + length urc ≡ room c.urc_rb

  Took-refl : (c : Comms R S) → Took c c [] []
  Took-refl c = record {
    rx_took = rw append-nil;
    urc_took = rw append-nil;
    rx_room = omega arith;
    urc_room = omega arith;
  }

  Took-trans :
      (c d e : Comms R S) (rx urc rx' urc' : Bytes)
      → Took c d rx urc
      → Took d e rx' urc'
      → Took c e (rx ++ rx') (urc ++ urc')
  Took-trans c d e rx urc rx' urc' h k = record {
    rx_took = k.rx_took ∙ ap (λ (t : Bytes). t ++ rx') h.rx_took ∙ append_assoc _ rx rx';
    urc_took = k.urc_took ∙ ap (λ (t : Bytes). t ++ urc') h.urc_took ∙ append_assoc _ urc urc';
    rx_room = omega (arith, h.rx_room, k.rx_room, length-append rx rx');
    urc_room = omega (arith, h.urc_room, k.urc_room, length-append urc urc');
  }

  abbrev inside : ℕ → Comms R S → Bool
  inside b c = if (c.prev == b'\n') && (b == b'+') then true else c.in_urc

  abbrev part : Bool → Bytes → Bytes
  part u bs = if u then bs else []

  -- One byte, where there is room.
  handle-Took :
      (b : ℕ) (c : Comms R S) (u : Bool)
      → inside b c ≡ u
      → 0 < room c.rx_rb
      → length (part u (b ∷ [])) ≤ room c.urc_rb
      → Took c (comms_handle_char kernel b c) (b ∷ []) (part u (b ∷ []))
        × ((comms_handle_char kernel b c).prev ≡ b)
        × ((comms_handle_char kernel b c).in_urc ≡ (if b == b'\r' then false else u))
  unfolding comms_handle_char to_urc to_rx
  handle-Took b c true i rx urc =
      let (kept, took, less) = put_room b c.rx_rb rx in
      let (_, urc_took, urc_less) = put_room b c.urc_rb (omega arith) in
      rw (i, kept)
        (
          record {
            rx_took = took;
            urc_took = urc_took;
            rx_room = omega arith;
            urc_room = omega arith;
          },
          refl,
          refl,
        )
  handle-Took b c false i rx urc =
      let (kept, took, less) = put_room b c.rx_rb rx in
      rw (i, kept)
        (
          record {
            rx_took = took;
            urc_took = rw append-nil;
            rx_room = omega arith;
            urc_room = omega arith;
          },
          refl,
          ground arith,
        )

  part-append : (u : Bool) (xs ys : Bytes) → part u xs ++ part u ys ≡ part u (xs ++ ys)
  part-append true xs ys = refl
  part-append false xs ys = refl

  length-part-append :
      (u : Bool) (xs ys : Bytes)
      → length (part u (xs ++ ys)) ≡ length (part u xs) + length (part u ys)
  length-part-append true xs ys = length-append xs ys
  length-part-append false xs ys = refl

  -- What is left of a line whose beginning decided whether it is a notification.
  rest-Took :
      (l : Bytes) (c : Comms R S) (u : Bool)
      → IsLine l
      → (c.prev == b'\n') ≡ false
      → c.in_urc ≡ u
      → length l + 2 ≤ room c.rx_rb
      → length (part u (l ++ b'\r' ∷ [])) ≤ room c.urc_rb
      → Took c
          (deliver (l ++ b'\r' ∷ b'\n' ∷ []) c)
          (l ++ b'\r' ∷ b'\n' ∷ [])
          (part u (l ++ b'\r' ∷ []))
        × ((deliver (l ++ b'\r' ∷ b'\n' ∷ []) c).prev ≡ b'\n')
        × ((deliver (l ++ b'\r' ∷ b'\n' ∷ []) c).in_urc ≡ false)
  unfolding deliver
  rest-Took [] c u plain p i rx urc =
      let c1 = comms_handle_char kernel 13 c in
      let (t1, p1, i1) = handle-Took 13 c u (rw p i) (omega arith) urc in
      let (t2, p2, i2) =
        handle-Took 10 c1 false (rw p1 i1) (omega (arith, t1.rx_room)) (omega arith) in
      (rw (append-nil (part u (13 ∷ []))) at (Took-trans c c1 _ _ _ _ _ t1 t2), p2, i2)
  rest-Took (b ∷ l) c u plain p i rx urc =
      let c1 = comms_handle_char kernel b c in
      let long = length-part-append u (b ∷ []) (l ++ 13 ∷ []) in
      let (t1, p1, i1) = handle-Took b c u (rw p i) (omega arith) (omega (arith, long)) in
      let (t2, p2, i2) =
        rest-Took l c1 u plain.1 (rw p1 (ground (arith, plain.0))) (i1 ∙ ground (arith, plain.0))
          (omega (arith, t1.rx_room)) (omega (arith, t1.urc_room, long)) in
      (rw (part-append u (b ∷ []) (l ++ 13 ∷ [])) at (Took-trans c c1 _ _ _ _ _ t1 t2), p2, i2)

  deliver-append :
      (xs ys : Bytes) (c : Comms R S) → deliver (xs ++ ys) c ≡ deliver ys (deliver xs c)
  unfolding deliver
  deliver-append [] ys c = refl
  deliver-append (x ∷ xs) ys c = deliver-append xs ys (comms_handle_char kernel x c)

  line-Took :
      (l : Bytes) (c : Comms R S)
      → IsLine l
      → c.prev ≡ b'\n'
      → c.in_urc ≡ false
      → length l + 2 ≤ room c.rx_rb
      → length (part (starts_urc l) (l ++ b'\r' ∷ [])) ≤ room c.urc_rb
      → Took c
          (deliver (l ++ b'\r' ∷ b'\n' ∷ []) c)
          (l ++ b'\r' ∷ b'\n' ∷ [])
          (part (starts_urc l) (l ++ b'\r' ∷ []))
        × ((deliver (l ++ b'\r' ∷ b'\n' ∷ []) c).prev ≡ b'\n')
        × ((deliver (l ++ b'\r' ∷ b'\n' ∷ []) c).in_urc ≡ false)
  unfolding deliver
  line-Took [] c plain p i rx urc =
      let c1 = comms_handle_char kernel 13 c in
      let (t1, p1, i1) = handle-Took 13 c false (rw p i) (omega arith) urc in
      let (t2, p2, i2) =
        handle-Took 10 c1 false (rw p1 i1) (omega (arith, t1.rx_room)) (omega arith) in
      (Took-trans c c1 _ _ _ _ _ t1 t2, p2, i2)
  line-Took (b ∷ l) c plain p i rx urc =
      let u = b == 43 in
      let c1 = comms_handle_char kernel b c in
      let long = length-part-append u (b ∷ []) (l ++ 13 ∷ []) in
      let (t1, p1, i1) = handle-Took b c u (ground arith) (omega arith) (omega (arith, long)) in
      let (t2, p2, i2) =
        rest-Took l c1 u plain.1 (rw p1 (ground (arith, plain.0))) (i1 ∙ ground (arith, plain.0))
          (omega (arith, t1.rx_room)) (omega (arith, t1.urc_room, long)) in
      (rw (part-append u (b ∷ []) (l ++ 13 ∷ [])) at (Took-trans c c1 _ _ _ _ _ t1 t2), p2, i2)

  lines-Took :
      (ls : List Bytes) (c : Comms R S)
      → All IsLine ls
      → c.prev ≡ b'\n'
      → c.in_urc ≡ false
      → length (sent ls) ≤ room c.rx_rb
      → length (notifications ls) ≤ room c.urc_rb
      → Took c (deliver (sent ls) c) (sent ls) (notifications ls)
        × ((deliver (sent ls) c).prev ≡ b'\n')
        × ((deliver (sent ls) c).in_urc ≡ false)
  lines-Took [] c plain p i rx urc = unfold deliver in (Took-refl c, p, i)
  lines-Took (l ∷ ls) c plain p i rx urc =
      let now = l ++ 13 ∷ 10 ∷ [] in
      let seen = part (starts_urc l) (l ++ 13 ∷ []) in
      let c1 = deliver now c in
      let whole = length-append now (sent ls) in
      let one = length-append l (13 ∷ 10 ∷ []) in
      let both = length-append seen (notifications ls) in
      let (t1, p1, i1) =
        line-Took l c plain.0 p i (omega (arith, whole, one)) (omega (arith, both)) in
      let (t2, p2, i2) =
        lines-Took ls c1 plain.1 p1 i1 (omega (arith, whole, t1.rx_room))
          (omega (arith, both, t1.urc_room)) in
      rw (deliver-append now (sent ls) c) (Took-trans c c1 _ _ _ _ _ t1 t2, p2, i2)

  -- At the start of a line, where the ring buffers have room, lines without CR and LF in them are
  -- stored whole for the readers of replies; the notifications' ring buffer gets, in order, those
  -- that begin with a plus sign, each with its CR, and nothing else.
  pub deliver_lines :
      (ls : List Bytes) (c : Comms R S)
      → All IsLine ls
      → c.prev ≡ b'\n'
      → c.in_urc ≡ false
      → length (sent ls) ≤ room c.rx_rb
      → length (notifications ls) ≤ room c.urc_rb
      → (contents (deliver (sent ls) c).rx_rb ≡ contents c.rx_rb ++ sent ls)
        × (contents (deliver (sent ls) c).urc_rb ≡ contents c.urc_rb ++ notifications ls)
  deliver_lines ls c plain p i rx urc =
      let (t, _, _) = lines-Took ls c plain p i rx urc in (t.rx_took, t.urc_took)
