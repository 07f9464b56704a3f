-- ===== src/Gps/Nmea/Loop.antt =====
-- The loop of `nmea_parse` over a sentence.
use air_quality_sensor_node.Base.{
  ℕ, zero, suc, ◌+◌, ◌%◌, ◌≤◌, ◌<◌, ◌≡◌, refl, sym, ap, ◌∙◌, Bool, true, false, not, ◌||◌, [], ◌∷◌,
  ◌++◌, List, Bytes, ltb, ◌==◌, length, length-append, append_assoc, append-nil, get_elem?, set,
  some, All, arith, lt→ltb,
}
use air_quality_sensor_node.Base.Outcome.{ok, out_of_bounds}
use native.Mathlib.Decide.{dec_lt}
use air_quality_sensor_node.Gps.Nmea.Parse.{Parse, parse_byte, parse_loop}

-- A byte inside a field.
abbrev pub is_text : ℕ → Bool
is_text b =
    not (
      (b == b',') || ((b == b'$') || ((b == b'*') || ((b == b'\r') || ((b == b'\n') || (b == 0))))))

abbrev pub IsText : Bytes → Type 0
IsText f = All (λ b. is_text b ≡ true) f

-- Fields with the byte `sep` between them.
abbrev pub joined : ℕ → Bytes → List Bytes → Bytes
joined sep f [] = f
joined sep f (g ∷ fs) = f ++ sep ∷ joined sep g fs

-- Where the fields begin, the last one apart, if the first begins at `start`.
abbrev pub starts : ℕ → Bytes → List Bytes → List ℕ
starts start f [] = []
starts start f (g ∷ fs) = start ∷ starts (start + length f + 1) g fs

abbrev pub last_start : ℕ → Bytes → List Bytes → ℕ
last_start start f [] = start
last_start start f (g ∷ fs) = last_start (start + length f + 1) g fs

get_elem?-behind : (xs : Bytes) (y : ℕ) (ys : Bytes) → get_elem? (xs ++ y ∷ ys) (length xs) ≡ some y
get_elem?-behind [] y ys = refl
get_elem?-behind (x ∷ xs) y ys = get_elem?-behind xs y ys

pub set-behind :
    (xs : Bytes) (y : ℕ) (ys : Bytes) (v : ℕ) → set (xs ++ y ∷ ys) (length xs) v ≡ xs ++ v ∷ ys
set-behind [] y ys v = refl
set-behind (x ∷ xs) y ys v = ap (◌∷◌ x) (set-behind xs y ys v)

-- Inside a sentence.
abbrev pub inside : ℕ → Bytes → List ℕ → Parse
inside start buffer fields = record {
  in_field = true;
  start_of_field = start;
  complete = false;
  in_sentence = true;
  buffer = buffer;
  fields = fields;
}

parse_byte-text :
    (i b start : ℕ) (buffer : Bytes) (fields : List ℕ)
    → is_text b ≡ true
    → parse_byte i b (inside start buffer fields) ≡ ok (inside start buffer fields)
unfolding parse_byte
parse_byte-text i b start buffer fields h = ground arith

parse_byte-comma :
    (i start : ℕ) (buffer : Bytes) (fields : List ℕ)
    → i < 255
    → length fields < 64
    → parse_byte i b',' (inside start buffer fields)
      ≡ ok (inside (i + 1) (set buffer i 0) (fields ++ start ∷ []))
unfolding parse_byte
parse_byte-comma i start buffer fields small few =
    let e : (i + 1) % 256 ≡ i + 1 = omega arith in rw (e, lt→ltb (length fields) 64 few)

-- Over a text the variables stay.
parse_loop-text :
    (f don rest : Bytes) (rounds start : ℕ) (fields : List ℕ)
    → IsText f
    → parse_loop (length f + rounds) (length don) (inside start (don ++ (f ++ rest)) fields)
      ≡ parse_loop rounds (length (don ++ f)) (inside start ((don ++ f) ++ rest) fields)
unfolding parse_loop
parse_loop-text [] don rest rounds start fields h =
    let e : 0 + rounds ≡ rounds = omega arith in rw (e, append-nil don)
parse_loop-text (b ∷ f) don rest rounds start fields h =
    let e : suc (length f) + rounds ≡ suc (length f + rounds) = omega arith in
    let next : length don + 1 ≡ length (don ++ b ∷ []) =
      omega (arith, length-append don (b ∷ [])) in
    let regroup : don ++ b ∷ (f ++ rest) ≡ (don ++ b ∷ []) ++ (f ++ rest) =
      sym (append_assoc don (b ∷ []) (f ++ rest)) in
    let ind = parse_loop-text f (don ++ b ∷ []) rest rounds start fields h.1 in
    rw
      (
        e,
        get_elem?-behind don b (f ++ rest),
        parse_byte-text (length don) b start (don ++ b ∷ (f ++ rest)) fields h.0,
        next,
        regroup,
      )
      (ind ∙ rw (append_assoc don (b ∷ []) f))

-- A byte that ends a sentence.
abbrev pub is_stop : ℕ → Bool
is_stop b = (b == b'*') || ((b == b'\r') || ((b == b'\n') || (b == 0)))

abbrev pub finished : ℕ → Bytes → List ℕ → Parse
finished start buffer fields = record (inside start buffer fields) { complete = true }

parse_byte-stop :
    (i b start : ℕ) (buffer : Bytes) (fields : List ℕ)
    → is_stop b ≡ true
    → parse_byte i b (inside start buffer fields) ≡ ok (finished start buffer fields)
unfolding parse_byte
parse_byte-stop i b start buffer fields h = ground arith

parse_loop_done :
    (rounds i start : ℕ) (buffer : Bytes) (fields : List ℕ)
    → parse_loop rounds i (finished start buffer fields) ≡ ok (i, finished start buffer fields)
unfolding parse_loop
parse_loop_done zero i start buffer fields = refl
parse_loop_done (suc rounds) i start buffer fields = refl

-- The round for a byte that ends the sentence, and that for a comma.
parse_loop-stop :
    (don rest : Bytes) (b rounds start : ℕ) (fields : List ℕ)
    → is_stop b ≡ true
    → parse_loop (suc rounds) (length don) (inside start (don ++ b ∷ rest) fields)
      ≡ ok (length don + 1, finished start (don ++ b ∷ rest) fields)
unfolding parse_loop
parse_loop-stop don rest b rounds start fields h =
    rw
      (get_elem?-behind don b rest, parse_byte-stop (length don) b start (don ++ b ∷ rest) fields h)
      (parse_loop_done rounds (length don + 1) start (don ++ b ∷ rest) fields)

parse_loop-comma :
    (don rest : Bytes) (rounds start : ℕ) (fields : List ℕ)
    → length don < 255
    → length fields < 64
    → parse_loop (suc rounds) (length don) (inside start (don ++ b',' ∷ rest) fields)
      ≡ parse_loop rounds
          (length (don ++ 0 ∷ []))
          (inside (length (don ++ 0 ∷ [])) ((don ++ 0 ∷ []) ++ rest) (fields ++ start ∷ []))
unfolding parse_loop
parse_loop-comma don rest rounds start fields small few =
    let next : length don + 1 ≡ length (don ++ 0 ∷ []) =
      omega (arith, length-append don (0 ∷ [])) in
    rw (
      get_elem?-behind don 44 rest,
      parse_byte-comma (length don) start (don ++ 44 ∷ rest) fields small few,
      set-behind don 44 rest 0,
      next,
      append_assoc don (0 ∷ []) rest,
    )

pub parse_loop-joined :
    (f : Bytes) (fs : List Bytes) (don rest : Bytes) (stop rounds : ℕ) (fields : List ℕ)
    → IsText f
    → All IsText fs
    → is_stop stop ≡ true
    → length don + length (joined b',' f fs) < 255
    → length fields + length fs ≤ 64
    → parse_loop
        (length (joined b',' f fs) + suc rounds)
        (length don)
        (inside (length don) (don ++ (joined b',' f fs ++ stop ∷ rest)) fields)
      ≡ ok (
        length don + length (joined b',' f fs) + 1,
        finished
            (last_start (length don) f fs)
            (don ++ (joined 0 f fs ++ stop ∷ rest))
            (fields ++ starts (length don) f fs),
      )
parse_loop-joined f [] don rest stop rounds fields hf hs end small few =
    let long : length (don ++ f) + 1 ≡ length don + length f + 1 =
      omega (arith, length-append don f) in
    parse_loop-text f don (stop ∷ rest) (suc rounds) (length don) fields hf
    ∙ parse_loop-stop (don ++ f) rest stop rounds (length don) fields end
    ∙ rw (long, append_assoc don f (stop ∷ rest), append-nil fields)
parse_loop-joined f (g ∷ gs) don rest stop rounds fields hf hs end small few =
    let tail = joined 44 g gs ++ stop ∷ rest in
    let split : (f ++ 44 ∷ joined 44 g gs) ++ stop ∷ rest ≡ f ++ 44 ∷ tail =
      append_assoc f (44 ∷ joined 44 g gs) (stop ∷ rest) in
    let long = length-append f (44 ∷ joined 44 g gs) in
    let count : length (f ++ 44 ∷ joined 44 g gs) + suc rounds
        ≡ length f + suc (length (joined 44 g gs) + suc rounds) =
      omega (arith, long) in
    let don' = (don ++ f) ++ 0 ∷ [] in
    let longer : length don' ≡ length don + length f + 1 =
      omega (arith, length-append don f, length-append (don ++ f) (0 ∷ [])) in
    let ind =
      parse_loop-joined g gs don' rest stop rounds (fields ++ length don ∷ []) hs.0 hs.1 end
        (omega (arith, long, longer)) (omega (arith, length-append fields (length don ∷ []))) in
    let e1 : length don' + length (joined 44 g gs) + 1
        ≡ length don + length (f ++ 44 ∷ joined 44 g gs) + 1 =
      omega (arith, long, longer) in
    let e3 : don' ++ (joined 0 g gs ++ stop ∷ rest)
        ≡ don ++ ((f ++ 0 ∷ joined 0 g gs) ++ stop ∷ rest) =
      simp (append_assoc) in
    let e4 : (fields ++ length don ∷ []) ++ starts (length don') g gs
        ≡ fields ++ length don ∷ starts (length don + length f + 1) g gs =
      rw longer (append_assoc fields (length don ∷ []) (starts (length don + length f + 1) g gs)) in
    rw (count, split)
      (parse_loop-text f don (44 ∷ tail) (suc (length (joined 44 g gs) + suc rounds)) (length don)
          fields hf
        ∙ parse_loop-comma (don ++ f) tail (length (joined 44 g gs) + suc rounds) (length don)
            fields (omega (arith, long, length-append don f)) (omega arith)
        ∙ ind
        ∙ (λ j. ok (e1 j, finished (last_start (longer j) g gs) (e3 j) (e4 j))))

parse_loop-comma_full :
    (don rest : Bytes) (rounds start : ℕ) (fields : List ℕ)
    → 64 ≤ length fields
    → parse_loop (suc rounds) (length don) (inside start (don ++ b',' ∷ rest) fields)
      ≡ out_of_bounds
unfolding parse_loop parse_byte
parse_loop-comma_full don rest rounds start fields full =
    let e : ltb (length fields) 64 ≡ false = ground arith in rw (get_elem?-behind don 44 rest, e)

-- The sixty-fifth comma stores a field behind the array.
pub parse_loop_overflows :
    (f : Bytes) (fs : List Bytes) (don rest : Bytes) (rounds : ℕ) (fields : List ℕ)
    → IsText f
    → All IsText fs
    → length don + length (joined b',' f fs) < 255
    → length fields ≤ 64
    → 64 < length fields + length fs
    → parse_loop
        (length (joined b',' f fs) + rounds)
        (length don)
        (inside (length don) (don ++ (joined b',' f fs ++ rest)) fields)
      ≡ out_of_bounds
parse_loop_overflows f [] don rest rounds fields hf hs small few many = absurd (omega arith)
parse_loop_overflows f (g ∷ gs) don rest rounds fields hf hs small few many =
    let tail = joined 44 g gs ++ rest in
    let left = length (joined 44 g gs) + rounds in
    let split : (f ++ 44 ∷ joined 44 g gs) ++ rest ≡ f ++ 44 ∷ tail =
      append_assoc f (44 ∷ joined 44 g gs) rest in
    let long = length-append f (44 ∷ joined 44 g gs) in
    let count : length (f ++ 44 ∷ joined 44 g gs) + rounds ≡ length f + suc left =
      omega (arith, long) in
    let longer = length-append don f in
    let last = length-append (don ++ f) (0 ∷ []) in
    let reach = parse_loop-text f don (44 ∷ tail) (suc left) (length don) fields hf in
    elim (dec_lt (length fields) 64) [
      | yes room ↦
          rw (count, split)
            (reach
              ∙ parse_loop-comma (don ++ f) tail left (length don) fields
                  (omega (arith, long, longer)) room
              ∙ parse_loop_overflows g gs ((don ++ f) ++ 0 ∷ []) rest rounds
                  (fields ++ length don ∷ []) hs.0 hs.1 (omega (arith, long, longer, last))
                  (omega (arith, length-append fields (length don ∷ [])))
                  (omega (arith, length-append fields (length don ∷ []))))
      | no full ↦
          rw (count, split)
            (reach ∙ parse_loop-comma_full (don ++ f) tail left (length don) fields (omega arith))
    ]
