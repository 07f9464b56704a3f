-- ===== src/Modem/Urc/Interleaving.antt =====
-- The interrupt, the readers of replies and the thread for notifications in any order.
use air_quality_sensor_node.Base.{
  ℕ, ◌≤◌, ◌<◌, ◌≡◌, refl, sym, ap, ◌∙◌, inl, inr, Bool, true, ◌&&◌, [], ◌∷◌, ◌++◌, Bytes, ◌==◌,
  if◌then◌else◌, length, append_assoc, append-nil, append_cancel, Option, none, some, arith,
  Bool-cases,
}
use air_quality_sensor_node.Base.Libc.{Libc}
use air_quality_sensor_node.Base.Outcome.{ok, bind-eq-ok}
use air_quality_sensor_node.Modem.Urc.Woken.{IsWoken, put-IsWoken, put-matched, get-IsWoken}
use air_quality_sensor_node.Modem.Urc.{
  Kernel, Comms, Thread, Call, to_urc, to_rx, comms_handle_char, read_after, modem_read, round_on,
  round_after, urc_round, urc_byte,
}

abbrev pub to_list : Option ℕ → Bytes
to_list none = []
to_list (some b) = b ∷ []

module _ {R S : Type 0} (kernel : Kernel R S) where
  open kernel use {
    put, get, contents, room, give, take_sem, count, limit, put_room, put_full, get_some, get_none,
    give_below, give_limit, limit-give, take_none, take_some,
  }

  -- What holds between two steps, when `stored` has been put to the ring buffer for replies and
  -- `read` has been read.
  pub record Holds (c : Comms R S) (stored read : Bytes) : Type 0 where
    pub rx_woken : IsWoken kernel c.rx_rb c.rx_sem
    pub urc_woken : IsWoken kernel c.urc_rb c.urc_sem
    pub matched : length (contents c.rx_rb) ≡ count c.rx_sem
    pub in_order : stored ≡ read ++ contents c.rx_rb

  -- The bytes that the interrupt stores for the readers of replies.
  abbrev pub accepted : ℕ → Comms R S → Bytes
  accepted b c = if (put b c.rx_rb).1 then b ∷ [] else []

  module _ (libc : Libc) (registered : Bool) where
    -- The bytes stored and the bytes read so far are the last two indices.
    pub data Reachable : Comms R S → Thread → Bytes → Bytes → Type 0 where
      start :
          (c : Comms R S) (t : Thread)
          → contents c.rx_rb ≡ []
          → contents c.urc_rb ≡ []
          → count c.rx_sem ≡ 0
          → count c.urc_sem ≡ 0
          → room c.rx_rb ≤ limit c.rx_sem
          → room c.urc_rb ≤ limit c.urc_sem
          → Reachable c t [] []
      interrupt :
          (b : ℕ) {c c' : Comms R S} {t : Thread} {stored stored' read : Bytes}
          → Reachable c t stored read
          → c' ≡ comms_handle_char kernel b c
          → stored' ≡ stored ++ accepted b c
          → Reachable c' t stored' read
      reader :
          {c c' : Comms R S} {t : Thread} {stored read read' : Bytes} (o : Option ℕ)
          → Reachable c t stored read
          → modem_read kernel c ≡ (c', o)
          → read' ≡ read ++ to_list o
          → Reachable c' t stored read'
      thread :
          {c c' : Comms R S} {t t' : Thread} {stored read : Bytes} {call : Option Call}
          → Reachable c t stored read
          → urc_round kernel libc registered c t ≡ ok (some (c', t', call))
          → Reachable c' t' stored read

  to_urc_keeps :
      (b : ℕ) (c : Comms R S)
      → ((to_urc kernel b c).rx_rb ≡ c.rx_rb) × ((to_urc kernel b c).rx_sem ≡ c.rx_sem)
  unfolding to_urc
  to_urc_keeps b c = ground arith

  to_urc-IsWoken :
      (b : ℕ) (c : Comms R S)
      → IsWoken kernel c.urc_rb c.urc_sem
      → IsWoken kernel (to_urc kernel b c).urc_rb (to_urc kernel b c).urc_sem
  unfolding to_urc
  to_urc-IsWoken b c h =
      elim (Bool-cases (if (c.prev == 10) && (b == 43) then true else c.in_urc)) [
        | inl inside ↦ rw inside (put-IsWoken kernel b c.urc_rb c.urc_sem h)
        | inr outside ↦ rw outside h
      ]

  to_rx-Holds :
      (b : ℕ) (c : Comms R S) (stored read : Bytes)
      → Holds c stored read
      → Holds (to_rx kernel b c) (stored ++ accepted b c) read
  unfolding to_rx
  to_rx-Holds b c stored read h = elim (Bool-cases (room c.rx_rb == 0)) [
    | inl full ↦ rw (put_full b c.rx_rb (ground arith), append-nil stored) h
    | inr free ↦
        let fits : 0 < room c.rx_rb = ground arith in
        let (kept, stored_last, _) = put_room b c.rx_rb fits in
        rw kept (record {
          rx_woken = put-IsWoken kernel b c.rx_rb c.rx_sem h.rx_woken;
          urc_woken = h.urc_woken;
          matched = put-matched kernel b c.rx_rb c.rx_sem h.rx_woken fits h.matched;
          in_order = rw (stored_last, h.in_order) (append_assoc read (contents c.rx_rb) (b ∷ []));
        })
  ]

  interrupt-Holds :
      (b : ℕ) (c : Comms R S) (stored read : Bytes)
      → Holds c stored read
      → Holds (comms_handle_char kernel b c) (stored ++ accepted b c) read
  unfolding comms_handle_char
  interrupt-Holds b c stored read h =
      let (rb, sem) = to_urc_keeps b c in
      rw (ap (λ (r : R). stored ++ (if (put b r).1 then b ∷ [] else [])) (sym rb)) (
        to_rx-Holds b (to_urc kernel b c) stored read (record {
          rx_woken = rw (rb, sem) h.rx_woken;
          urc_woken = to_urc-IsWoken b c h.urc_woken;
          matched = rw (rb, sem) h.matched;
          in_order = rw rb h.in_order;
        }))

  -- Reading in terms of what waits in the ring buffer.
  read_none :
      (c : Comms R S)
      → contents c.rx_rb ≡ []
      → length (contents c.rx_rb) ≡ count c.rx_sem
      → modem_read kernel c ≡ (c, none)
  unfolding modem_read
  read_none c e m = ap (read_after kernel c) (take_none c.rx_sem (sym m ∙ ap length e))

  read_some :
      (c : Comms R S) (b : ℕ) (bs : Bytes)
      → contents c.rx_rb ≡ b ∷ bs
      → length (contents c.rx_rb) ≡ count c.rx_sem
      → (s : S) × (take_sem c.rx_sem ≡ some s)
        × (count s ≡ length bs)
        × (modem_read kernel c ≡ (record c { rx_sem = s; rx_rb = (get c.rx_rb).0 }, some b))
  unfolding modem_read
  read_some c b bs e m =
      let (s, taken, counted, _) = take_some c.rx_sem (length bs) (sym m ∙ ap length e) in
      let (got, _, _) = get_some c.rx_rb b bs e in
      (
        s,
        taken,
        counted,
        ap (read_after kernel c) taken
            ∙ ap
                (λ (o : Option ℕ).
                  (let r : Comms R S × Option ℕ =
                      (record c { rx_sem = s; rx_rb = (get c.rx_rb).0 }, o) in
                    r))
                got,
      )

  read-Holds :
      (c c' : Comms R S) (o : Option ℕ) (stored read : Bytes)
      → Holds c stored read
      → modem_read kernel c ≡ (c', o)
      → Holds c' stored (read ++ to_list o)
  read-Holds c c' o stored read h e = by_contents (contents c.rx_rb) refl
    where
      by_contents : (bs : Bytes) → contents c.rx_rb ≡ bs → Holds c' stored (read ++ to_list o)
      by_contents [] w =
          let same = sym e ∙ read_none c w h.matched in
          rw
            (
              ap (λ (p : Comms R S × Option ℕ). p.0) same,
              ap (λ (p : Comms R S × Option ℕ). p.1) same,
              append-nil read,
            )
            h
      by_contents (b ∷ bs) w =
          let (s, taken, counted, result) = read_some c b bs w h.matched in
          let (_, gone, _) = get_some c.rx_rb b bs w in
          let same = sym e ∙ result in
          rw
            (
              ap (λ (p : Comms R S × Option ℕ). p.0) same,
              ap (λ (p : Comms R S × Option ℕ). p.1) same,
            )
            (record {
              rx_woken = get-IsWoken kernel c.rx_rb c.rx_sem s h.rx_woken taken;
              urc_woken = h.urc_woken;
              matched = ap length gone ∙ sym counted;
              in_order = rw gone (rw w at h.in_order ∙ sym (append_assoc read (b ∷ []) bs));
            })

  thread-Holds :
      (libc : Libc) (registered : Bool) (c c' : Comms R S) (t t' : Thread) (call : Option Call)
      (stored read : Bytes)
      → Holds c stored read
      → urc_round kernel libc registered c t ≡ ok (some (c', t', call))
      → Holds c' stored read
  unfolding urc_round round_on
  thread-Holds libc registered c c' t t' call stored read h e = by_sem (take_sem c.urc_sem) refl e
    where
      by_byte :
          (s : S) (o : Option ℕ)
          → Holds (record c { urc_sem = s; urc_rb = (get c.urc_rb).0 }) stored read
          → round_on kernel libc registered
              (record c { urc_sem = s; urc_rb = (get c.urc_rb).0 })
              t
              o
            ≡ ok (some (c', t', call))
          → Holds c' stored read
      by_byte s none k e =
          let same : c' ≡ record c { urc_sem = s; urc_rb = (get c.urc_rb).0 } = cc in rw same k
      by_byte s (some b) k e =
          let (_, _, e1) = bind-eq-ok (urc_byte libc registered b t) _ e in
          let same : c' ≡ record c { urc_sem = s; urc_rb = (get c.urc_rb).0 } = cc in rw same k

      by_sem :
          (o : Option S)
          → take_sem c.urc_sem ≡ o
          → round_after kernel libc registered c t o ≡ ok (some (c', t', call))
          → Holds c' stored read
      by_sem none w e = absurd cc
      by_sem (some s) w e =
          by_byte s (get c.urc_rb).1
            (record {
              rx_woken = h.rx_woken;
              urc_woken = get-IsWoken kernel c.urc_rb c.urc_sem s h.urc_woken w;
              matched = h.matched;
              in_order = h.in_order;
            })
            e

  -- In whatever order the interrupt, the readers and the thread run: every byte that waits in a
  -- ring buffer has a permit of its semaphore, for the replies exactly one, and the bytes read so far,
  -- followed by those that wait, are the bytes that were stored.
  pub reachable-Holds :
      (libc : Libc) (registered : Bool) {c : Comms R S} {t : Thread} {stored read : Bytes}
      → Reachable libc registered c t stored read
      → Holds c stored read
  reachable-Holds libc registered (start c t e1 e2 e3 e4 f1 f2) = record {
    rx_woken = ground (arith, ap length e1);
    urc_woken = ground (arith, ap length e2);
    matched = omega (arith, ap length e1);
    in_order = sym e1;
  }
  reachable-Holds libc registered (interrupt b {c} {c'} {t} {stored} {stored'} {read} before e f) =
      rw (e, f) (interrupt-Holds b c stored read (reachable-Holds libc registered before))
  reachable-Holds libc registered (reader {c} {c'} {t} {stored} {read} {read'} o before e f) =
      rw f (read-Holds c c' o stored read (reachable-Holds libc registered before) e)
  reachable-Holds libc registered (thread {c} {c'} {t} {t'} {stored} {read} {call} before e) =
      thread-Holds libc registered c c' t t' call stored read
        (reachable-Holds libc registered before) e

  -- In every reachable state `modem_read` gives the first byte that was stored and not yet read, and
  -- times out only where there is none.
  pub modem_read_next :
      (libc : Libc) (registered : Bool) {c : Comms R S} {t : Thread} {stored read : Bytes}
      → Reachable libc registered c t stored read
      → ((b : ℕ) (bs : Bytes) → stored ≡ read ++ b ∷ bs → (modem_read kernel c).1 ≡ some b)
        × (stored ≡ read → modem_read kernel c ≡ (c, none))
  modem_read_next libc registered {c} {t} {stored} {read} reached =
      let h = reachable-Holds libc registered reached in
      (
        (λ b bs e.
            let waits = append_cancel read _ _ (sym h.in_order ∙ e) in
            let (_, _, _, result) = read_some c b bs waits h.matched in ap (λ p. p.1) result),
        (λ e.
            let waits = append_cancel read _ [] (sym h.in_order ∙ e ∙ sym (append-nil read)) in
            read_none c waits h.matched),
      )
