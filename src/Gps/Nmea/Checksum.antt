-- ===== src/Gps/Nmea/Checksum.antt =====
-- Which sentences `nmea_valid` takes.
use air_quality_sensor_node.Base.{
  ℕ, zero, suc, ◌+◌, ◌-◌, ◌/◌, ◌%◌, ◌≤◌, ◌<◌, ◌≡◌, ◌≢◌, refl, bit_xor, true, ◌&&◌, [], ◌∷◌, ◌++◌,
  Bytes, All, ◌==◌, get_elem?, length, some, arith,
}
use air_quality_sensor_node.Base.Outcome.{ok}
use air_quality_sensor_node.Gps.Nmea.{
  Scan, init_scan, scan_byte, scan, check_sum, nmea_valid, to_hexchar, max_nmea_buffer,
}

-- A byte of the body of a sentence: printable, and neither the preamble nor the checksum sign.
abbrev pub IsBody : ℕ → Type 0
IsBody b = (32 ≤ b) × (b ≤ 126) × (b ≢ b'$') × (b ≢ b'*')

-- The exclusive or of the bytes.
abbrev pub xor_all : ℕ → Bytes → ℕ
xor_all c [] = c
xor_all c (b ∷ bs) = xor_all (bit_xor c b) bs

-- Inside a sentence, behind bytes whose checksum is `c`.
abbrev inside : ℕ → Scan
inside c = record init_scan { checksum = c; in_sentence = true; has_preamble = true }

abbrev ended : ℕ → ℕ → Scan
ended c i = record (inside c) { has_checksum = true; checksum_pos = i; end = i }

scan_byte-body : (i b c : ℕ) → IsBody b → scan_byte i b (inside c) ≡ some (inside (bit_xor c b))
unfolding scan_byte
scan_byte-body i b c h = ground arith

scan_byte-end : (i c : ℕ) → i < 256 → scan_byte i b'*' (inside c) ≡ some (ended c i)
unfolding scan_byte
scan_byte-end i c h = let e : i % 256 ≡ i = omega arith in rw e

scan_done :
    (rounds i k : ℕ) (bytes : Bytes) (c : ℕ)
    → 0 < k
    → scan rounds i bytes (ended c k) ≡ ok (some (ended c k))
unfolding scan
scan_done zero i k bytes c h = refl
scan_done (suc rounds) i k [] c h = ground arith
scan_done (suc rounds) i k (b ∷ bytes) c h = ground arith

scan-body :
    (body tail : Bytes) (rounds i c : ℕ)
    → All IsBody body
    → 0 < i
    → i + length body < 256
    → scan (length body + suc rounds) i (body ++ b'*' ∷ tail) (inside c)
      ≡ ok (some (ended (xor_all c body) (i + length body)))
unfolding scan
scan-body [] tail rounds i c h pos short =
    let e : 0 + suc rounds ≡ suc rounds = omega arith in
    let e' : i + 0 ≡ i = omega arith in
    rw (e, e', scan_byte-end i c (omega (arith, short))) (scan_done rounds (i + 1) i tail c pos)
scan-body (b ∷ body) tail rounds i c h pos short =
    let e : suc (length body) + suc rounds ≡ suc (length body + suc rounds) = omega arith in
    let e' : i + suc (length body) ≡ i + 1 + length body = omega arith in
    rw (e, e', scan_byte-body i b c h.0)
      (scan-body body tail rounds (i + 1) (bit_xor c b) h.1 (omega arith) (omega (arith, short)))

get_elem?-behind : (xs ys : Bytes) (k : ℕ) → get_elem? (xs ++ ys) (length xs + k) ≡ get_elem? ys k
get_elem?-behind [] ys k = let e : 0 + k ≡ k = omega arith in rw e
get_elem?-behind (x ∷ xs) ys k =
    let e : suc (length xs) + k ≡ suc (length xs + k) = omega arith in
    rw e (get_elem?-behind xs ys k)

scan_start :
    (bytes : Bytes) → scan max_nmea_buffer 0 (b'$' ∷ bytes) init_scan ≡ scan 253 1 bytes (inside 0)
unfolding scan scan_byte
scan_start bytes = refl

scan_sentence :
    (body tail : Bytes) (total : ℕ)
    → total ≡ 253
    → All IsBody body
    → length body ≤ 252
    → scan total 1 (body ++ b'*' ∷ tail) (inside 0)
      ≡ ok (some (ended (xor_all 0 body) (1 + length body)))
scan_sentence body tail total e h short =
    let rounds : total ≡ length body + suc (252 - length body) = omega (arith, e, short) in
    rw rounds (scan-body body tail (252 - length body) 1 0 h (omega arith) (omega (arith, short)))

digit_at :
    (body tail : Bytes) (k : ℕ)
    → get_elem? (b'$' ∷ (body ++ b'*' ∷ tail)) (1 + length body + suc k) ≡ get_elem? tail k
digit_at body tail k =
    let e : 1 + length body + suc k ≡ suc (length body + suc k) = omega arith in
    rw e (get_elem?-behind body (b'*' ∷ tail) (suc k))

-- A sentence of at most 252 printable bytes between its preamble and its checksum sign, none of them
-- one of these two signs, is valid exactly if the two bytes behind the checksum sign are the
-- hexadecimal digits of the exclusive or of the bytes between the signs, whatever follows.
pub nmea_valid_lem :
    (body rest : Bytes) (high low : ℕ)
    → All IsBody body
    → length body ≤ 252
    → nmea_valid (b'$' ∷ (body ++ b'*' ∷ high ∷ low ∷ rest))
      ≡ ok ((high == to_hexchar (xor_all 0 body / 16)) && (low == to_hexchar (xor_all 0 body % 16)))
unfolding nmea_valid check_sum
nmea_valid_lem body rest high low h short = rw (
  scan_start (body ++ b'*' ∷ high ∷ low ∷ rest),
  scan_sentence body (high ∷ low ∷ rest) 253 refl h short,
  digit_at body (high ∷ low ∷ rest) 0,
  digit_at body (high ∷ low ∷ rest) 1,
)
