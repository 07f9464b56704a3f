-- ===== src/Modem/Urc/Delivery.antt =====
-- From the interrupt to the sockets' callback: `comms_handle_char` and `urc_threadproc` of
-- Firmware/src/comms.c together.
use air_quality_sensor_node.Base.{
  ℕ, zero, suc, ◌+◌, ◌-◌, ◌≤◌, ◌<◌, ◌≡◌, refl, ap, ◌∙◌, sym, Bool, true, false, List, [], ◌∷◌, ◌++◌,
  Bytes, ◌==◌, length, length-append, append-nil, Option, none, some, All, arith,
}
use air_quality_sensor_node.Base.Int.{pos}
use air_quality_sensor_node.Base.Libc.{Libc, is_digit, decimal}
use air_quality_sensor_node.Base.Outcome.{Outcome, ok, ◌>>=◌, bind-eq-ok}
use air_quality_sensor_node.Modem.Urc.{
  Kernel, Comms, Thread, Call, round_on, round_after, urc_round, urc_byte,
}
use air_quality_sensor_node.Modem.Urc.Woken.{IsWoken, get-IsWoken}
use air_quality_sensor_node.Modem.Urc.Interleaving.{Reachable, interrupt, reachable-Holds}
use air_quality_sensor_node.Modem.Urc.Lines.{deliver, is_plain, sent, deliver_lines}
use air_quality_sensor_node.Modem.Urc.Notify.{feed, to_list}
use air_quality_sensor_node.Modem.Urc.Nsonmi.{nsonmi, nsonmi-IsLine, feed-nsonmi}

module _ {R S : Type 0} (kernel : Kernel R S) (libc : Libc) (registered : Bool) where
  open kernel use {contents, take_sem, get, count, take_some, get_some}

  -- A number of rounds of the thread, and the calls that are made; without a permit it stays.
  unfoldable pub rounds : ℕ → Comms R S → Thread → Outcome (Comms R S × Thread × List Call)
  rounds zero c t = ok (c, t, [])
  rounds (suc n) c t = urc_round kernel libc registered c t >>= λ o. elim o [
    | none ↦ ok (c, t, [])
    | some s ↦ (rounds n s.0 s.1 >>= λ r. ok (r.0, r.1, to_list s.2 ++ r.2))
  ]

  -- A round takes the first byte that waits.
  urc_round-waiting :
      (c : Comms R S) (t : Thread) (b : ℕ) (bs : Bytes)
      → contents c.urc_rb ≡ b ∷ bs
      → IsWoken kernel c.urc_rb c.urc_sem
      → (c1 : Comms R S) × (contents c1.urc_rb ≡ bs)
        × IsWoken kernel c1.urc_rb c1.urc_sem
        × (c1.rx_rb ≡ c.rx_rb)
        × (urc_round kernel libc registered c t
            ≡ (urc_byte libc registered b t >>= λ r. ok (some (c1, r.0, r.1))))
  unfolding urc_round round_on
  urc_round-waiting c t b bs e h =
      let (s, taken, _, _) =
        take_some c.urc_sem (count c.urc_sem - 1) (omega (arith, ap length e, h.counted)) in
      let (got, gone, _) = get_some c.urc_rb b bs e in
      let c1 : Comms R S = record c { urc_sem = s; urc_rb = (get c.urc_rb).0 } in
      (
        c1,
        gone,
        get-IsWoken kernel c.urc_rb c.urc_sem s h taken,
        refl,
        ap (round_after kernel libc registered c t) taken
            ∙ ap (round_on kernel libc registered c1 t) got,
      )

  round_then :
      (n b : ℕ) (c c1 c' : Comms R S) (t t1 t2 : Thread) (call : Option Call) (calls : List Call)
      → urc_round kernel libc registered c t
        ≡ (urc_byte libc registered b t >>= λ r. ok (some (c1, r.0, r.1)))
      → urc_byte libc registered b t ≡ ok (t1, call)
      → rounds n c1 t1 ≡ ok (c', t2, calls)
      → rounds (suc n) c t ≡ ok (c', t2, to_list call ++ calls)
  unfolding rounds
  round_then n b c c1 c' t t1 t2 call calls round taken ran = rw (round, taken, ran)

  -- As many rounds as bytes wait make of them what `feed` makes.
  rounds-feed :
      (bs : Bytes) (c : Comms R S) (t t' : Thread) (calls : List Call)
      → contents c.urc_rb ≡ bs
      → IsWoken kernel c.urc_rb c.urc_sem
      → feed libc registered bs t ≡ ok (t', calls)
      → (c' : Comms R S) × (rounds (length bs) c t ≡ ok (c', t', calls))
        × (contents c'.urc_rb ≡ [])
        × (c'.rx_rb ≡ c.rx_rb)
  unfolding rounds feed
  rounds-feed [] c t t' calls e h fed = (c, cc, e, refl)
  rounds-feed (b ∷ bs) c t t' calls e h fed =
      let ((t1, call), taken, fed1) = bind-eq-ok (urc_byte libc registered b t) _ fed in
      let ((t2, calls2), later, same) = bind-eq-ok (feed libc registered bs t1) _ fed1 in
      let (c1, left, woken, rx, round) = urc_round-waiting c t b bs e h in
      let (c', ran, empty, rx') = rounds-feed bs c1 t1 t2 calls2 left woken later in
      (
        c',
        round_then (length bs) b c c1 c' t t1 t2 call calls2 round taken ran
            ∙ ap (λ (o : Outcome (Thread × List Call)). o >>= λ r. ok (c', r.0, r.1)) same,
        empty,
        rx' ∙ rx,
      )

module _ {R S : Type 0} (kernel : Kernel R S) (libc : Libc) (registered : Bool) where
  reachable-deliver :
      (bs : Bytes) {c : Comms R S} {t : Thread} {stored read : Bytes}
      → Reachable kernel libc registered c t stored read
      → (stored' : Bytes) × Reachable kernel libc registered (deliver kernel bs c) t stored' read
  unfolding deliver
  reachable-deliver [] {stored = stored} h = (stored, h)
  reachable-deliver (b ∷ bs) h = reachable-deliver bs (interrupt b h refl refl)

module _ {R S : Type 0} (kernel : Kernel R S) (libc : Libc) where
  open kernel use {contents, room}

  -- With a callback registered, in a reachable state between two lines, with no notification waiting
  -- and room in the ring buffers: a notification of data of fewer than 64 bytes, with two decimal
  -- fields below 2147483648, received by the interrupt, makes the thread call the sockets once, with
  -- the numbers of its fields, in as many rounds as it has bytes up to its CR; nothing waits for the
  -- thread then, and the readers of replies get the line as well.
  pub rounds-nsonmi :
      (x : ℕ) (fd count : Bytes) {c : Comms R S} {t : Thread} {stored read : Bytes}
      → Reachable kernel libc true c t stored read
      → c.prev ≡ b'\n'
      → c.in_urc ≡ false
      → contents c.urc_rb ≡ []
      → t.index ≡ 0
      → length t.buf ≡ 64
      → is_plain x ≡ true
      → (x == b',') ≡ false
      → All (λ d. is_digit d ≡ true) fd
      → All (λ d. is_digit d ≡ true) count
      → decimal 0 fd < 2147483648
      → decimal 0 count < 2147483648
      → length (nsonmi x fd count) < 64
      → length (nsonmi x fd count) + 2 ≤ room c.rx_rb
      → length (nsonmi x fd count) + 1 ≤ room c.urc_rb
      → (c' : Comms R S) × (t' : Thread) × (rounds kernel libc true
            (length (nsonmi x fd count) + 1)
            (deliver kernel (sent (nsonmi x fd count ∷ [])) c)
            t
          ≡ ok (c', t', (pos (decimal 0 fd), pos (decimal 0 count)) ∷ []))
        × (contents c'.urc_rb ≡ [])
        × (contents c'.rx_rb ≡ contents c.rx_rb ++ sent (nsonmi x fd count ∷ []))
        × (t'.index ≡ 0)
        × (length t'.buf ≡ 64)
  rounds-nsonmi x fd count {c} {t} {stored} {read} reached p i none_waits at_start full plain hx hf
        hc sf sc short rx urc =
      let line = nsonmi x fd count in
      let c1 = deliver kernel (sent (line ∷ [])) c in
      let whole = length-append (line ++ 13 ∷ 10 ∷ []) [] in
      let two = length-append line (13 ∷ 10 ∷ []) in
      let one = length-append line (13 ∷ []) in
      let seen = length-append (line ++ 13 ∷ []) [] in
      let (rx_got, urc_got) =
        deliver_lines kernel (line ∷ []) c (nsonmi-IsLine x fd count plain hf hc, tt) p i
          (omega (arith, whole, two)) (omega (arith, seen, one)) in
      let waits : contents c1.urc_rb ≡ line ++ 13 ∷ [] =
        urc_got
        ∙ ap (λ (bs : Bytes). bs ++ ((line ++ 13 ∷ []) ++ [])) none_waits
        ∙ append-nil (line ++ 13 ∷ []) in
      let (_, reached1) = reachable-deliver kernel libc true (sent (line ∷ [])) reached in
      let (buf', full', fed) = feed-nsonmi libc x fd count t.buf plain hx hf hc sf sc short full in
      let at_zero : t ≡ record { buf = t.buf; index = 0 } =
        ap (λ (n : ℕ). (let t' : Thread = record { buf = t.buf; index = n } in t')) at_start in
      let (c', ran, empty, rx_kept) =
        rounds-feed kernel libc true (line ++ 13 ∷ []) c1 t (record { buf = buf'; index = 0 }) _
          waits (reachable-Holds kernel libc true reached1).urc_woken
          (ap (feed libc true (line ++ 13 ∷ [])) at_zero ∙ fed) in
      (
        c',
        record { buf = buf'; index = 0 },
        ap (λ (n : ℕ). rounds kernel libc true n c1 t) (sym one) ∙ ran,
        empty,
        ap contents rx_kept ∙ rx_got,
        refl,
        full',
      )
