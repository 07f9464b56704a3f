-- ===== src/Opc/Crc/Detects.antt =====
-- What the checksum of `OPC_calcCRC` detects.
use air_quality_sensor_node.Base.{
  ℕ, zero, suc, ◌+◌, ◌*◌, ◌/◌, ◌%◌, ◌^◌, ◌<◌, bit_xor, ◌≡◌, refl, sym, ◌∙◌, ap, ◌≢◌, true, [], ◌∷◌,
  ◌++◌, Bytes, All, ◌==◌, ==_iff, ltb, if◌then◌else◌, arith, passes_below, passes_below_sound,
  bit_xor-cancel, bit_xor-lt, bit_xor_low, bit_xor_self, bit_xor_comm, take_of_length_le, length,
  length-append,
}
use native.Mathlib.Nat.{pow-suc}
use air_quality_sensor_node.Opc.Crc.{
  crc_bit, crc_bits, crc_byte, crc_from, calc_crc, polynomial, init_crc_val,
}

abbrev pub IsByte : ℕ → Type 0
IsByte b = b < 256

-- The state before a round, from the state behind it: the top bit tells which branch was taken.
unstep : ℕ → ℕ
unstep r = if ltb r 32768 then 2 * r else 2 * bit_xor r polynomial + 1

unstep_table : passes_below (λ c. unstep (crc_bit c) == c) 65536 ≡ true
unfolding passes_below unstep crc_bit
unstep_table = refl

unstep-crc_bit : (c : ℕ) → c < 2 ^ 16 → unstep (crc_bit c) ≡ c
unstep-crc_bit c h = (==_iff _ c).0 (passes_below_sound _ 65536 c h unstep_table)

crc_bit-lt : (c : ℕ) → c < 2 ^ 16 → crc_bit c < 2 ^ 16
unfolding crc_bit
crc_bit-lt c h = ground (arith, bit_xor-lt 16 (c / 2) polynomial (omega arith) (omega arith))

crc_bits-lt : (n c : ℕ) → c < 2 ^ 16 → crc_bits n c < 2 ^ 16
unfolding crc_bits
crc_bits-lt zero c h = h
crc_bits-lt (suc n) c h = crc_bits-lt n (crc_bit c) (crc_bit-lt c h)

crc_bits-injective : (n c d : ℕ) → c < 2 ^ 16 → d < 2 ^ 16 → crc_bits n c ≡ crc_bits n d → c ≡ d
unfolding crc_bits
crc_bits-injective zero c d hc hd e = e
crc_bits-injective (suc n) c d hc hd e =
    let same = crc_bits-injective n (crc_bit c) (crc_bit d) (crc_bit-lt c hc) (crc_bit-lt d hd) e in
    sym (unstep-crc_bit c hc) ∙ ap unstep same ∙ unstep-crc_bit d hd

crc_byte-lt : (c b : ℕ) → c < 2 ^ 16 → IsByte b → crc_byte c b < 2 ^ 16
unfolding crc_byte
crc_byte-lt c b hc hb = crc_bits-lt 8 (bit_xor c b) (bit_xor-lt 16 c b hc (omega arith))

-- Different states stay different over the same byte.
crc_byte-injective :
    (c d b : ℕ) → c < 2 ^ 16 → d < 2 ^ 16 → IsByte b → crc_byte c b ≡ crc_byte d b → c ≡ d
unfolding crc_byte
crc_byte-injective c d b hc hd hb e =
    let wide : b < 2 ^ 16 = omega arith in
    let same =
      crc_bits-injective 8 (bit_xor c b) (bit_xor d b) (bit_xor-lt 16 c b hc wide)
        (bit_xor-lt 16 d b hd wide) e in
    sym (bit_xor-cancel c b) ∙ ap (λ x. bit_xor x b) same ∙ bit_xor-cancel d b

-- Different bytes lead one state to different states.
crc_byte-injective_byte :
    (c x y : ℕ) → c < 2 ^ 16 → IsByte x → IsByte y → crc_byte c x ≡ crc_byte c y → x ≡ y
unfolding crc_byte
crc_byte-injective_byte c x y hc hx hy e =
    let same =
      crc_bits-injective 8 (bit_xor c x) (bit_xor c y) (bit_xor-lt 16 c x hc (omega arith))
        (bit_xor-lt 16 c y hc (omega arith)) e in
    sym (bit_xor-cancel x c)
    ∙ ap (λ t. bit_xor t c) (bit_xor_comm x c ∙ same ∙ bit_xor_comm c y)
    ∙ bit_xor-cancel y c

pub crc_from-lt : (c : ℕ) (bs : Bytes) → c < 2 ^ 16 → All IsByte bs → crc_from c bs < 2 ^ 16
unfolding crc_from
crc_from-lt c [] hc h = hc
crc_from-lt c (b ∷ bs) hc h = crc_from-lt (crc_byte c b) bs (crc_byte-lt c b hc h.0) h.1

crc_from-injective :
    (c d : ℕ) (bs : Bytes)
    → c < 2 ^ 16
    → d < 2 ^ 16
    → All IsByte bs
    → crc_from c bs ≡ crc_from d bs
    → c ≡ d
unfolding crc_from
crc_from-injective c d [] hc hd h e = e
crc_from-injective c d (b ∷ bs) hc hd h e = crc_byte-injective c d b hc hd h.0 (
    crc_from-injective (crc_byte c b) (crc_byte d b) bs (crc_byte-lt c b hc h.0)
      (crc_byte-lt d b hd h.0) h.1 e)

pub crc_from-append : (c : ℕ) (xs ys : Bytes) → crc_from c (xs ++ ys) ≡ crc_from (crc_from c xs) ys
unfolding crc_from
crc_from-append c [] ys = refl
crc_from-append c (x ∷ xs) ys = crc_from-append (crc_byte c x) xs ys

crc_from-changed :
    (c : ℕ) (xs : Bytes) (x y : ℕ) (ys : Bytes)
    → c < 2 ^ 16
    → All IsByte xs
    → IsByte x
    → IsByte y
    → All IsByte ys
    → crc_from c (xs ++ x ∷ ys) ≡ crc_from c (xs ++ y ∷ ys)
    → x ≡ y
unfolding crc_from
crc_from-changed c [] x y ys hc hxs hx hy hys e = crc_byte-injective_byte c x y hc hx hy (
    crc_from-injective (crc_byte c x) (crc_byte c y) ys (crc_byte-lt c x hc hx)
      (crc_byte-lt c y hc hy) hys e)
crc_from-changed c (b ∷ bs) x y ys hc hxs hx hy hys e =
    crc_from-changed (crc_byte c b) bs x y ys (crc_byte-lt c b hc hxs.0) hxs.1 hx hy hys e

crc_bit-twice : (m : ℕ) → crc_bit (m * 2) ≡ m
unfolding crc_bit
crc_bit-twice m = ground arith

crc_bits-shift : (n q : ℕ) → crc_bits n (q * 2 ^ n) ≡ q
unfolding crc_bits
crc_bits-shift zero q = omega arith
crc_bits-shift (suc n) q =
    let e : q * 2 ^ suc n ≡ q * 2 ^ n * 2 = omega (arith, ap (λ (t : ℕ). q * t) (pow-suc 2 n)) in
    rw (e, crc_bit-twice (q * 2 ^ n)) (crc_bits-shift n q)

-- The counter does not wrap below 256 bytes.
calc_crc-length :
    (bs : Bytes) → length bs < 256 → calc_crc bs (length bs) ≡ crc_from init_crc_val bs
unfolding calc_crc
calc_crc-length bs h =
    ap (crc_from init_crc_val) (take_of_length_le (length bs % 2 ^ 8) bs (omega arith))

-- The two bytes of a state, low byte first, lead it to zero.
crc_from-own_bytes : (c : ℕ) → crc_from c ((c % 256) ∷ (c / 256) ∷ []) ≡ 0
unfolding crc_from crc_byte
crc_from-own_bytes c =
    let low = bit_xor_low 8 (c / 256) (c % 256) (omega arith) in
    let e : c / 256 * 2 ^ 8 + c % 256 ≡ c = omega arith in
    rw (rw e at low, crc_bits-shift 8 (c / 256), bit_xor_self (c / 256)) (crc_bits-shift 8 0)

-- Behind its own checksum, low byte first, a message of at most 253 bytes has the checksum 0.
pub calc_crc-residue :
    (bs : Bytes)
    → length bs + 2 < 256
    → let crc = calc_crc bs (length bs) in
      let sealed = bs ++ (crc % 256) ∷ (crc / 256) ∷ [] in calc_crc sealed (length sealed) ≡ 0
calc_crc-residue bs h = rw (calc_crc-length bs (omega arith)) (
    calc_crc-length _ (
      rw (length-append bs (crc_from init_crc_val bs % 256 ∷ crc_from init_crc_val bs / 256 ∷ []))
        h)
    ∙ crc_from-append init_crc_val bs _
    ∙ crc_from-own_bytes (crc_from init_crc_val bs))

-- In a message of fewer than 256 bytes, one byte that differs changes the checksum, wherever it
-- stands and whatever the other bytes are.
pub calc_crc-ne_of_changed :
    (xs : Bytes) (x y : ℕ) (ys : Bytes)
    → All IsByte xs
    → IsByte x
    → IsByte y
    → All IsByte ys
    → length xs + suc (length ys) < 256
    → x ≢ y
    → calc_crc (xs ++ x ∷ ys) (length (xs ++ x ∷ ys))
      ≢ calc_crc (xs ++ y ∷ ys) (length (xs ++ y ∷ ys))
calc_crc-ne_of_changed xs x y ys hxs hx hy hys short ne e =
    let short_x : length (xs ++ x ∷ ys) < 256 = rw (length-append xs (x ∷ ys)) short in
    let short_y : length (xs ++ y ∷ ys) < 256 = rw (length-append xs (y ∷ ys)) short in
    ne (
      crc_from-changed init_crc_val xs x y ys (omega arith) hxs hx hy hys
        (sym (calc_crc-length (xs ++ x ∷ ys) short_x) ∙ e ∙ calc_crc-length (xs ++ y ∷ ys) short_y))
