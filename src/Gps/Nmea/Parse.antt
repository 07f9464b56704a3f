-- ===== src/Gps/Nmea/Parse.antt =====
-- `nmea_parse` of Firmware/src/nmealib.c. A field is where its text begins in the buffer, which the
-- parser changes: it ends the fields with zeros.
use air_quality_sensor_node.Base.{
  ℕ, zero, suc, ◌+◌, ◌-◌, ◌%◌, ◌^◌, Bool, true, false, ◌&&◌, ◌||◌, [], ◌∷◌, ◌++◌, List, Bytes, ltb,
  ◌==◌, if◌then◌else◌, length, get_elem?, set, drop, Option, none, some,
}
use air_quality_sensor_node.Base.Outcome.{Outcome, ok, out_of_bounds, ◌>>=◌, in_bounds}
use air_quality_sensor_node.At.Receive.{c_string}
use air_quality_sensor_node.Gps.Nmea.{max_nmea_buffer, nmea_valid}

abbrev pub max_nmea_fields : ℕ
max_nmea_fields = 64

-- `nmea_sentence_t` with the buffer that its pointers lead to. `talker` is a text; `kind` is its
-- member `type`, which is null where there is no field.
pub record NmeaSentence : Type 0 where
  pub buffer : Bytes
  pub fields : List ℕ
  pub talker : Bytes
  pub kind : Option ℕ

-- The text that a pointer into the buffer leads to.
unfoldable pub text_at : Bytes → ℕ → Bytes
unfolding c_string
text_at buffer start = c_string (drop start buffer)

-- The local variables of `nmea_parse`, with the buffer and the fields so far.
pub record Parse : Type 0 where
  pub in_field : Bool
  pub start_of_field : ℕ
  pub complete : Bool
  pub in_sentence : Bool
  pub buffer : Bytes
  pub fields : List ℕ

abbrev pub init_parse : Bytes → Parse
init_parse buffer = record {
  in_field = false;
  start_of_field = 0;
  complete = false;
  in_sentence = false;
  buffer = buffer;
  fields = [];
}

-- `output->fields[output->field_count++] = ...`
unfoldable pub add_field : ℕ → List ℕ → Outcome (List ℕ)
add_field start fields =
    if ltb (length fields) max_nmea_fields then ok (fields ++ start ∷ []) else out_of_bounds

-- The `switch` on the byte `b` at `i`.
unfoldable pub parse_byte : ℕ → ℕ → Parse → Outcome Parse
unfolding add_field
parse_byte i b p =
    let next = (i + 1) % 2 ^ 8 in
    let ended = (do
      fields ← add_field p.start_of_field p.fields
      ok (record p { buffer = set p.buffer i 0; fields = fields; start_of_field = next })) in
    if b == b','
    then (if p.in_field then ended else ok (record p { start_of_field = next }))
    else if b == b'$'
    then ok (record p { in_sentence = true; in_field = true; start_of_field = next })
    else if (b == b'*') || ((b == b'\r') || ((b == b'\n') || (b == 0)))
    then ok (if p.in_sentence then record p { complete = true } else p)
    else ok p

-- The loop, with the rounds that are left; it returns `i` and the variables.
unfoldable pub parse_loop : ℕ → ℕ → Parse → Outcome (ℕ × Parse)
parse_loop zero i p = ok (i, p)
parse_loop (suc rounds) i p =
    let round = (do
      b ← in_bounds (get_elem? p.buffer i)
      p' ← parse_byte i b p
      parse_loop rounds (i + 1) p') in
    if p.complete then ok (i, p) else round

-- Behind the loop: the last field. `i` is positive where a sentence has begun.
unfoldable pub add_last : ℕ → Parse → Outcome Parse
unfolding add_field
add_last i p =
    let added = (do
      fields ← add_field p.start_of_field p.fields
      ok (record p { buffer = set p.buffer (i - 1) 0; fields = fields })) in
    if p.in_sentence && ltb p.start_of_field i then added else ok p

-- Talker and type are the begin of the first field.
unfoldable pub name_sentence : Bytes → List ℕ → Outcome NmeaSentence
name_sentence buffer [] = ok (record { buffer = buffer; fields = []; talker = []; kind = none })
name_sentence buffer (start ∷ starts) =
    let named = λ (talker : Bytes) (skipped : ℕ).
      (let s : NmeaSentence = record {
        buffer = buffer;
        fields = start ∷ starts;
        talker = talker;
        kind = some (start + skipped);
      } in
        s) in
    let ordinary = λ (first : ℕ). (do
      second ← in_bounds (get_elem? buffer (start + 1))
      ok (named (c_string (first ∷ second ∷ [])) 2)) in
    in_bounds (get_elem? buffer start) >>= λ first.
    if first == b'P' then ok (named (b'P' ∷ []) 1) else ordinary first

unfoldable pub parse_fields : Bytes → Outcome NmeaSentence
parse_fields buffer = do
  (i, p) ← parse_loop max_nmea_buffer 0 (init_parse buffer)
  p' ← add_last i p
  name_sentence p'.buffer p'.fields

-- `none` is a return of false.
unfoldable pub nmea_parse : Bytes → Outcome (Option NmeaSentence)
nmea_parse buffer = do
  valid ← nmea_valid buffer
  let parsed = parse_fields buffer >>= λ s. ok (some s)
  if valid then parsed else ok none
