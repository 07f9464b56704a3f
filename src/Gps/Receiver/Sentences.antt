-- ===== src/Gps/Receiver/Sentences.antt =====
-- Whole lines in the receive buffer.
use mathlib.Core.Option
use air_quality_sensor_node.Base.{
  ℕ, zero, suc, ◌+◌, ◌-◌, ◌%◌, ◌≤◌, ◌<◌, ◌≡◌, refl, sym, ap, ◌∙◌, Bool, true, false, [], ◌∷◌, ◌++◌,
  Bytes, ltb, leb, ◌==◌, length, length-append, append_assoc, append-nil, replicate, All, some,
  none, map, arith, List, codes, lt→ltb, drop,
}
use air_quality_sensor_node.Base.Outcome.{
  Outcome, ok, failed, out_of_bounds, out_of_fuel, ◌>>=◌, in_bounds,
}
use air_quality_sensor_node.Gps.Cache.{GpsFix, GpsRmc, update_gga}
use air_quality_sensor_node.Gps.Decode.{Floats}
use air_quality_sensor_node.Gps.Decode.Layout.{
  GgaTexts, gga_texts, gga_of, nmea_decode_gga_lem, text_at-cons,
}
use air_quality_sensor_node.Gps.Nmea.{nmea_valid}
use air_quality_sensor_node.Gps.Nmea.Loop.{is_text, IsText, joined, is_stop, set-behind}
use air_quality_sensor_node.Gps.Nmea.Parse.{NmeaSentence, text_at}
use air_quality_sensor_node.Gps.Nmea.Fields.{nmea_parse_lem}
use air_quality_sensor_node.Gps.Receiver.{Receiver, rx_data, end_line, use_sentence, dispatch}

-- A line feed ends a line.
abbrev pub IsInLine : Bytes → Type 0
IsInLine l = All (λ b. (b == b'\n') ≡ false) l

-- A GGA sentence up to the byte that ends it, and what follows before the line feed.
abbrev pub gga_line : ℕ → ℕ → List Bytes → ℕ → Bytes → Bytes
gga_line t0 t1 fs stop tail = b'$' ∷ (joined b',' (t0 ∷ t1 ∷ codes "GGA") fs ++ stop ∷ tail)

-- The buffer with a line in it.
abbrev pub with_zeros : Bytes → Bytes
with_zeros l = l ++ b'\n' ∷ 0 ∷ replicate (252 - length l) 0

module _ {F : Type 0} (floats : Floats F) (stale : GpsRmc F) where
  -- The bytes in turn.
  unfoldable pub rx_all : Bytes → Receiver F → Outcome (Receiver F)
  rx_all [] r = ok r
  rx_all (b ∷ bs) r = rx_data floats stale b r >>= λ (p : Receiver F × Bool). rx_all bs p.0

  abbrev at : Bytes → Bytes → GpsFix F → Receiver F
  at text rest fix = record { buffer = text ++ rest; at = length text; fix = fix }

  rx_data-stored :
      (b x : ℕ) (text rest : Bytes) (fix : GpsFix F)
      → (b == b'\n') ≡ false
      → length text < 253
      → rx_data floats stale b (at text (x ∷ rest) fix) ≡ ok (at (text ++ b ∷ []) rest fix, true)
  unfolding rx_data
  rx_data-stored b x text rest fix inside small =
      let fits : ltb (length text) (length (text ++ x ∷ rest)) ≡ true =
        lt→ltb _ _ (omega (arith, length-append text (x ∷ rest))) in
      let room : leb 254 ((length text + 1) % 256) ≡ false = ground arith in
      let next : (length text + 1) % 256 ≡ length (text ++ b ∷ []) =
        omega (arith, length-append text (b ∷ [])) in
      rw (fits, room, inside, set-behind text x rest b, next, append_assoc text (b ∷ []) rest)

  rx_all-stored :
      (l text rest more : Bytes) (fix : GpsFix F)
      → IsInLine l
      → length l ≤ length rest
      → length text + length l ≤ 253
      → rx_all (l ++ more) (at text rest fix)
        ≡ rx_all more (at (text ++ l) (drop (length l) rest) fix)
  unfolding rx_all
  rx_all-stored [] text rest more fix h fits small = rw (append-nil text)
  rx_all-stored (b ∷ l) text [] more fix h fits small = absurd (omega arith)
  rx_all-stored (b ∷ l) text (x ∷ rest) more fix h fits small =
      let ind =
        rx_all-stored l (text ++ b ∷ []) rest more fix h.1 (omega arith)
          (omega (arith, length-append text (b ∷ []))) in
      rw (rx_data-stored b x text rest fix h.0 (omega arith)) (
        ind
        ∙ ap (λ (t : Bytes). rx_all more (at t (drop (length l) rest) fix))
            (append_assoc text (b ∷ []) l))

  -- Between two lines.
  abbrev pub empty : GpsFix F → Receiver F
  empty fix = record { buffer = replicate 254 0; at = 0; fix = fix }

  rx_data-line_feed :
      (l rest : Bytes) (fix : GpsFix F)
      → length l ≤ 252
      → rx_data floats stale b'\n' (at l (0 ∷ 0 ∷ rest) fix)
        ≡ (end_line floats stale (l ++ b'\n' ∷ 0 ∷ rest) fix >>= λ r. ok (r, true))
  unfolding rx_data
  rx_data-line_feed l rest fix short =
      let fits : ltb (length l) (length (l ++ 0 ∷ 0 ∷ rest)) ≡ true =
        lt→ltb _ _ (omega (arith, length-append l (0 ∷ 0 ∷ rest))) in
      let room : leb 254 ((length l + 1) % 256) ≡ false = ground arith in
      let next : (length l + 1) % 256 ≡ length (l ++ 10 ∷ []) =
        omega (arith, length-append l (10 ∷ [])) in
      let regroup : l ++ 10 ∷ 0 ∷ rest ≡ (l ++ 10 ∷ []) ++ 0 ∷ rest =
        sym (append_assoc l (10 ∷ []) (0 ∷ rest)) in
      rw (
        fits,
        room,
        set-behind l 0 (0 ∷ rest) 10,
        next,
        regroup,
        set-behind (l ++ 10 ∷ []) 0 rest 0,
      )

  -- A line of at most 252 bytes is handed over whole, with zeros behind it.
  rx_all-line :
      (l : Bytes) (fix : GpsFix F)
      → IsInLine l
      → length l ≤ 252
      → rx_all (l ++ b'\n' ∷ []) (empty fix)
        ≡ end_line floats stale (l ++ b'\n' ∷ 0 ∷ replicate (252 - length l) 0) fix
  unfolding rx_all
  rx_all-line l fix h short =
      let zeros : Bytes = replicate (252 - length l) 0 in
      let split : 254 ≡ length l + suc (suc (252 - length l)) = omega arith in
      let left : drop (length l) (replicate 254 0) ≡ 0 ∷ 0 ∷ zeros =
        ap (λ (n : ℕ). drop (length l) (replicate n 0)) split ∙ drop-replicate (length l) _ 0 in
      rx_all-stored l [] (replicate 254 0) (10 ∷ []) fix h (omega arith) (omega arith)
      ∙ rw (left, rx_data-line_feed l zeros fix short) (returned _)
    where
      drop-replicate : (n k a : ℕ) → drop n (replicate (n + k) a) ≡ replicate k a
      drop-replicate zero k a = let e : 0 + k ≡ k = omega arith in rw e
      drop-replicate (suc n) k a =
          let e : suc n + k ≡ suc (n + k) = omega arith in rw e (drop-replicate n k a)

      returned :
          (m : Outcome (Receiver F))
          → ((m >>= λ r. let p : Outcome (Receiver F × Bool) = ok (r, true) in p) >>= λ p.
              let q : Outcome (Receiver F) = ok p.0 in q)
            ≡ m
      returned (ok r) = refl
      returned failed = refl
      returned out_of_bounds = refl
      returned out_of_fuel = refl

  -- 254 bytes without a line feed are dropped: nothing reaches the cache.
  pub rx_all_overlong :
      (l : Bytes) (b : ℕ) (fix : GpsFix F)
      → IsInLine l
      → length l ≡ 253
      → rx_all (l ++ b ∷ []) (empty fix) ≡ ok (record { buffer = l ++ b ∷ []; at = 0; fix = fix })
  unfolding rx_all rx_data
  rx_all_overlong l b fix h long =
      let left : drop (length l) (replicate {A = ℕ} 254 0) ≡ 0 ∷ [] = rw long in
      let fits : ltb (length l) (length (l ++ 0 ∷ [])) ≡ true =
        lt→ltb _ _ (omega (arith, length-append l (0 ∷ []))) in
      let full : leb 254 ((length l + 1) % 256) ≡ true = rw long in
      rx_all-stored l [] (replicate 254 0) (b ∷ []) fix h (omega arith) (omega arith)
      ∙ rw (left, fits, full, set-behind l 0 [] b)

  dispatch-gga :
      (s : NmeaSentence) (g : GgaTexts) (k : ℕ) (fix : GpsFix F)
      → map (text_at s.buffer) s.fields ≡ gga_texts g
      → text_at s.buffer k ≡ codes "GGA"
      → dispatch floats stale s k fix ≡ ok (update_gga (gga_of floats g) fix)
  unfolding dispatch
  dispatch-gga s g k fix texts name =
      let (g0, _, h1) = text_at-cons s.buffer k 71 (71 ∷ 65 ∷ []) name in
      let (g1, _, h2) = text_at-cons s.buffer (k + 1) 71 (65 ∷ []) h1 in
      let (g2, _, _) = text_at-cons s.buffer (k + 1 + 1) 65 [] h2 in
      let e0 : k + 0 ≡ k = omega arith in
      let e2 : k + 1 + 1 ≡ k + 2 = omega arith in
      rw (e0, g0, rw e2 at g2, g1, nmea_decode_gga_lem floats s g texts)

  use_gga_sentence :
      (s : NmeaSentence) (g : GgaTexts) (fix : GpsFix F)
      → map (text_at s.buffer) s.fields ≡ gga_texts g
      → Option.map (text_at s.buffer) s.kind ≡ some (codes "GGA")
      → use_sentence floats stale (some s) fix ≡ ok (update_gga (gga_of floats g) fix)
  unfolding use_sentence
  use_gga_sentence s g fix texts named = by_kind s.kind refl named
    where
      by_kind :
          (o : Option.Option ℕ)
          → s.kind ≡ o
          → Option.map (text_at s.buffer) o ≡ some (codes "GGA")
          → (in_bounds s.kind >>= λ kind. dispatch floats stale s kind fix)
            ≡ ok (update_gga (gga_of floats g) fix)
      by_kind none e h = absurd (cc)
      by_kind (some k) e h =
          ap (λ (o : Option.Option ℕ). in_bounds o >>= λ kind. dispatch floats stale s kind fix) e
          ∙ dispatch-gga s g k fix texts (cc)

  -- A line of at most 252 bytes that is a valid GGA sentence with a position, between two lines: its
  -- bytes and a line feed leave the receiver between two lines again, with the cache updated by what
  -- the fields of the sentence say.
  pub rx_all-gga :
      (t0 t1 stop : ℕ) (tail : Bytes) (fs : List Bytes) (g : GgaTexts) (fix : GpsFix F)
      → gga_texts g ≡ (t0 ∷ t1 ∷ codes "GGA") ∷ fs
      → is_text t0 ≡ true
      → is_text t1 ≡ true
      → (t0 == b'P') ≡ false
      → All IsText fs
      → is_stop stop ≡ true
      → length fs < 64
      → IsInLine (gga_line t0 t1 fs stop tail)
      → length (gga_line t0 t1 fs stop tail) ≤ 252
      → nmea_valid (with_zeros (gga_line t0 t1 fs stop tail)) ≡ ok true
      → rx_all (gga_line t0 t1 fs stop tail ++ b'\n' ∷ []) (empty fix)
        ≡ ok (empty (update_gga (gga_of floats g) fix))
  unfolding end_line
  rx_all-gga t0 t1 stop tail fs g fix same l0 l1 not_p plain end few inside short valid =
      let line = gga_line t0 t1 fs stop tail in
      let text = joined 44 (t0 ∷ t1 ∷ codes "GGA") fs in
      let rest : Bytes = tail ++ 10 ∷ 0 ∷ replicate (252 - length line) 0 in
      let regroup : with_zeros line ≡ 36 ∷ (text ++ stop ∷ rest) =
        ap (λ (t : Bytes). 36 ∷ t)
          (append_assoc text (stop ∷ tail) (10 ∷ 0 ∷ replicate (252 - length line) 0)) in
      let (s, parsed, texts, _, kind) =
        nmea_parse_lem t0 t1 (codes "GGA") rest fs stop l0 l1 not_p (refl, (refl, (refl, tt))) plain
          end (omega (arith, length-append text (stop ∷ tail))) few (rw regroup at valid) in
      let used = use_gga_sentence s g fix (texts ∙ sym same) kind in
      rx_all-line line fix inside short ∙ rw (regroup, parsed, used)
