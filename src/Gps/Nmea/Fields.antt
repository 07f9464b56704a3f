-- ===== src/Gps/Nmea/Fields.antt =====
-- The fields that `nmea_parse` finds in a sentence.
use air_quality_sensor_node.Base.{
  ℕ, suc, ◌+◌, ◌-◌, ◌≤◌, ◌<◌, ◌≡◌, refl, sym, ap, ◌∙◌, true, false, [], ◌∷◌, ◌++◌, List, Bytes, ltb,
  ◌==◌, length, length-append, append_assoc, drop, map, some, All, arith, lt→ltb,
}
use air_quality_sensor_node.Base.Outcome.{ok, out_of_bounds}
use air_quality_sensor_node.Gps.Nmea.{nmea_valid}
use air_quality_sensor_node.At.Receive.{c_string}
use air_quality_sensor_node.Gps.Nmea.Parse.{
  NmeaSentence, init_parse, add_field, parse_byte, parse_loop, add_last, name_sentence,
  parse_fields, text_at, nmea_parse,
}
use air_quality_sensor_node.Gps.Nmea.Loop.{
  is_text, IsText, joined, starts, last_start, set-behind, inside, finished, is_stop,
  parse_loop-joined, parse_loop_overflows,
}
use mathlib.Core.Option
use mathlib.Core.Path.{subst}

-- Behind any text: a field that a zero ends.
drop_behind : (don r : Bytes) → drop (length don) (don ++ r) ≡ r
drop_behind [] r = refl
drop_behind (x ∷ don) r = drop_behind don r

c_string-text : (f rest : Bytes) → IsText f → c_string (f ++ 0 ∷ rest) ≡ f
unfolding c_string
c_string-text [] rest h = refl
c_string-text (b ∷ f) rest h =
    let e : (b == 0) ≡ false = ground (arith, h.0) in rw e (ap (◌∷◌ b) (c_string-text f rest h.1))

text_at-behind : (don f rest : Bytes) → IsText f → text_at (don ++ (f ++ 0 ∷ rest)) (length don) ≡ f
unfolding text_at
text_at-behind don f rest h = rw (drop_behind don (f ++ 0 ∷ rest)) (c_string-text f rest h)

texts_of :
    (f : Bytes) (fs : List Bytes) (don rest : Bytes)
    → IsText f
    → All IsText fs
    → map
        (text_at (don ++ (joined 0 f fs ++ 0 ∷ rest)))
        (starts (length don) f fs ++ last_start (length don) f fs ∷ [])
      ≡ f ∷ fs
texts_of f [] don rest hf hs = ap (λ (t : Bytes). t ∷ []) (text_at-behind don f rest hf)
texts_of f (g ∷ gs) don rest hf hs =
    let split : (f ++ 0 ∷ joined 0 g gs) ++ 0 ∷ rest ≡ f ++ 0 ∷ (joined 0 g gs ++ 0 ∷ rest) =
      append_assoc f (0 ∷ joined 0 g gs) (0 ∷ rest) in
    let don' = (don ++ f) ++ 0 ∷ [] in
    let longer : length don' ≡ length don + length f + 1 =
      omega (arith, length-append don f, length-append (don ++ f) (0 ∷ [])) in
    let regroup : don ++ (f ++ 0 ∷ (joined 0 g gs ++ 0 ∷ rest))
        ≡ don' ++ (joined 0 g gs ++ 0 ∷ rest) =
      simp (append_assoc) in
    let first : text_at (don ++ (f ++ 0 ∷ (joined 0 g gs ++ 0 ∷ rest))) (length don) ≡ f =
      text_at-behind don f (joined 0 g gs ++ 0 ∷ rest) hf in
    let others = texts_of g gs don' rest hs.0 hs.1 in
    let here = rw (longer, ← regroup) at others in
    subst
      (λ (b : Bytes).
        map (text_at b) (starts (length don) f (g ∷ gs) ++ last_start (length don) f (g ∷ gs) ∷ [])
        ≡ f ∷ g ∷ gs)
      (ap (λ (t : Bytes). don ++ t) (sym split)) (λ j. first j ∷ here j)

length-starts : (start : ℕ) (f : Bytes) (fs : List Bytes) → length (starts start f fs) ≡ length fs
length-starts start f [] = refl
length-starts start f (g ∷ fs) = ap suc (length-starts (start + length f + 1) g fs)

last_start-le :
    (start sep : ℕ) (f : Bytes) (fs : List Bytes)
    → last_start start f fs ≤ start + length (joined sep f fs)
last_start-le start sep f [] = omega arith
last_start-le start sep f (g ∷ fs) =
    omega (
      arith,
      last_start-le (start + length f + 1) sep g fs,
      length-append f (sep ∷ joined sep g fs),
    )

length-joined :
    (a b : ℕ) (f : Bytes) (fs : List Bytes) → length (joined a f fs) ≡ length (joined b f fs)
length-joined a b f [] = refl
length-joined a b f (g ∷ fs) = omega (
  arith,
  length-joined a b g fs,
  length-append f (a ∷ joined a g fs),
  length-append f (b ∷ joined b g fs),
)

add_last-joined :
    (f : Bytes) (fs : List Bytes) (rest : Bytes) (stop : ℕ)
    → length fs < 64
    → add_last
        (length (36 ∷ joined b',' f fs) + 1)
        (finished (last_start 1 f fs) (36 ∷ (joined 0 f fs ++ stop ∷ rest)) (starts 1 f fs))
      ≡ ok (
          finished
            (last_start 1 f fs)
            (36 ∷ (joined 0 f fs ++ 0 ∷ rest))
            (starts 1 f fs ++ last_start 1 f fs ∷ []))
unfolding add_last
add_last-joined f fs rest stop few =
    let e : length (36 ∷ joined 44 f fs) + 1 - 1 ≡ length (36 ∷ joined 0 f fs) =
      omega (arith, length-joined 44 0 f fs) in
    let before : ltb (last_start 1 f fs) (length (36 ∷ joined 44 f fs) + 1) ≡ true =
      lt→ltb _ _ (omega (arith, last_start-le 1 44 f fs)) in
    let fits : ltb (length (starts 1 f fs)) 64 ≡ true =
      lt→ltb _ _ (omega (arith, length-starts 1 f fs)) in
    rw (before, e, set-behind (36 ∷ joined 0 f fs) stop rest 0) (rw (add_field, fits))

-- The round for the preamble.
begin_sentence :
    (rounds : ℕ) (body : Bytes)
    → parse_loop (suc rounds) 0 (init_parse (b'$' ∷ body))
      ≡ parse_loop rounds 1 (inside 1 (b'$' ∷ body) [])
unfolding parse_loop parse_byte
begin_sentence rounds body = refl

module _ (t0 t1 : ℕ) (ident rest : Bytes) (fs : List Bytes) (stop : ℕ) (letter : is_text t0 ≡ true)
    (letter' : is_text t1 ≡ true) (proprietary : (t0 == b'P') ≡ false) (plain : IsText ident)
    (plains : All IsText fs) (end : is_stop stop ≡ true)
    (short : length (joined b',' (t0 ∷ t1 ∷ ident) fs) ≤ 252) (few : length fs < 64) where
  abbrev first : Bytes
  first = t0 ∷ t1 ∷ ident

  abbrev result : NmeaSentence
  result = record {
    buffer = b'$' ∷ (joined 0 first fs ++ 0 ∷ rest);
    fields = starts 1 first fs ++ last_start 1 first fs ∷ [];
    talker = t0 ∷ t1 ∷ [];
    kind = some 3;
  }

  two : c_string (t0 ∷ t1 ∷ []) ≡ t0 ∷ t1 ∷ []
  unfolding c_string
  two = ground (arith, letter, letter')

  name_sentence-joined : name_sentence result.buffer result.fields ≡ ok result
  unfolding name_sentence
  name_sentence-joined = by_fields fs
    where
      by_fields :
          (gs : List Bytes)
          → name_sentence
              (36 ∷ (joined 0 first gs ++ 0 ∷ rest))
              (starts 1 first gs ++ last_start 1 first gs ∷ [])
            ≡ ok (record {
              buffer = 36 ∷ (joined 0 first gs ++ 0 ∷ rest);
              fields = starts 1 first gs ++ last_start 1 first gs ∷ [];
              talker = t0 ∷ t1 ∷ [];
              kind = some 3;
            })
      by_fields [] = rw (proprietary, two)
      by_fields (g ∷ gs) = rw (proprietary, two)

  parse_fields-joined : parse_fields (b'$' ∷ (joined b',' first fs ++ stop ∷ rest)) ≡ ok result
  unfolding parse_fields
  parse_fields-joined =
      let buffer = 36 ∷ (joined 44 first fs ++ stop ∷ rest) in
      let rounds = 252 - length (joined 44 first fs) in
      let split : 253 ≡ length (joined 44 first fs) + suc rounds = omega arith in
      let loop : parse_loop 254 0 (init_parse buffer)
          ≡ ok (
            1 + length (joined 44 first fs) + 1,
            finished (last_start 1 first fs) (36 ∷ (joined 0 first fs ++ stop ∷ rest))
                (starts 1 first fs),
          ) =
        begin_sentence 253 (joined 44 first fs ++ stop ∷ rest)
        ∙ rw split (
            parse_loop-joined first fs (36 ∷ []) rest stop rounds [] (letter, (letter', plain))
              plains end (omega arith) (omega arith)) in
      let e : 1 + length (joined 44 first fs) + 1 ≡ length (36 ∷ joined 44 first fs) + 1 =
        omega arith in
      rw (loop, e, add_last-joined first fs rest stop few) name_sentence-joined

  ident_at_three : text_at result.buffer 3 ≡ ident
  ident_at_three = by_fields fs
    where
      by_fields : (gs : List Bytes) → text_at (36 ∷ (joined 0 first gs ++ 0 ∷ rest)) 3 ≡ ident
      by_fields [] = text_at-behind (36 ∷ t0 ∷ t1 ∷ []) ident rest plain
      by_fields (g ∷ gs) =
          ap (λ (t : Bytes). text_at (36 ∷ t0 ∷ t1 ∷ t) 3)
            (append_assoc ident (0 ∷ joined 0 g gs) (0 ∷ rest))
          ∙ text_at-behind (36 ∷ t0 ∷ t1 ∷ []) ident (joined 0 g gs ++ 0 ∷ rest) plain

  -- A valid sentence with at most 64 fields between its preamble and the byte that ends it, which
  -- fits the buffer and whose talker is not proprietary, is parsed to exactly the texts of its
  -- fields, in order; the talker is the first two letters of the first field, and what the
  -- pointer to the type shows is the rest of that field.
  pub nmea_parse_lem :
      nmea_valid (b'$' ∷ (joined b',' first fs ++ stop ∷ rest)) ≡ ok true
      → (s : NmeaSentence) × (nmea_parse (b'$' ∷ (joined b',' first fs ++ stop ∷ rest))
          ≡ ok (some s))
        × (map (text_at s.buffer) s.fields ≡ (t0 ∷ t1 ∷ ident) ∷ fs)
        × (s.talker ≡ t0 ∷ t1 ∷ [])
        × (Option.map (text_at s.buffer) s.kind ≡ some ident)
  unfolding nmea_parse
  nmea_parse_lem valid = (
    result,
    rw (valid, parse_fields-joined),
    texts_of first fs (36 ∷ []) rest (letter, (letter', plain)) plains,
    refl,
    ap some ident_at_three,
  )

-- A valid sentence with 66 fields or more, which fits the buffer, makes the parser write behind
-- the array of fields.
pub nmea_parse_overflows :
    (f rest : Bytes) (fs : List Bytes)
    → IsText f
    → All IsText fs
    → length (joined b',' f fs) ≤ 252
    → 64 < length fs
    → nmea_valid (b'$' ∷ (joined b',' f fs ++ rest)) ≡ ok true
    → nmea_parse (b'$' ∷ (joined b',' f fs ++ rest)) ≡ out_of_bounds
unfolding nmea_parse parse_fields
nmea_parse_overflows f rest fs plain plains short many valid =
    let body = joined 44 f fs ++ rest in
    let split : 253 ≡ length (joined 44 f fs) + (253 - length (joined 44 f fs)) = omega arith in
    let loop : parse_loop 254 0 (init_parse (36 ∷ body)) ≡ out_of_bounds =
      begin_sentence 253 body
      ∙ rw split (
          parse_loop_overflows f fs (36 ∷ []) rest (253 - length (joined 44 f fs)) [] plain plains
            (omega arith) (omega arith) (omega arith)) in
    rw (valid, loop)
