-- ===== src/At/Buffer/Prefix.antt =====
-- The buffer after the bytes of a line: what it holds, and what its tests say.
use air_quality_sensor_node.Base.{
  ℕ, zero, suc, ◌%◌, ◌^◌, ◌≤◌, ◌<◌, min, ◌≡◌, ◌≢◌, refl, ap, true, false, [], ◌∷◌, ◌++◌, Bytes, All,
  set, length, length-append, append_assoc, append-nil, arith,
}
use air_quality_sensor_node.At.Buffer.{Buf, b_size, b_reset, b_add, is_prefix}

unfoldable pub add_all : Buf → Bytes → Buf
add_all rb [] = rb
add_all rb (b ∷ bs) = add_all (b_add rb b) bs

-- The first `k` bytes of a line, with zeros behind a shorter one.
abbrev pub padded : ℕ → Bytes → Bytes
padded zero xs = []
padded (suc k) [] = 0 ∷ padded k []
padded (suc k) (x ∷ xs) = x ∷ padded k xs

set-padded :
    (k : ℕ) (xs : Bytes) (b : ℕ)
    → length xs < k
    → set (padded k xs) (length xs) b ≡ padded k (xs ++ b ∷ [])
set-padded zero xs b h = absurd (omega arith)
set-padded (suc k) [] b h = refl
set-padded (suc k) (x ∷ xs) b h = ap (◌∷◌ x) (set-padded k xs b (omega arith))

padded_full : (k : ℕ) (xs : Bytes) (b : ℕ) → k ≤ length xs → padded k (xs ++ b ∷ []) ≡ padded k xs
padded_full zero xs b h = refl
padded_full (suc k) [] b h = absurd (omega arith)
padded_full (suc k) (x ∷ xs) b h = ap (◌∷◌ x) (padded_full k xs b (omega arith))

-- The buffer holds the line `xs`.
pub record Holds (rb : Buf) (xs : Bytes) : Type 0 where
  pub first : rb.bytes ≡ padded b_size xs
  pub at : rb.index ≡ min b_size (length xs)
  pub count : rb.size ≡ length xs % 2 ^ 16

b_add-Holds : (rb : Buf) (xs : Bytes) (b : ℕ) → Holds rb xs → Holds (b_add rb b) (xs ++ b ∷ [])
unfolding b_add
b_add-Holds rb xs b h =
    ground (arith, length-append xs (b ∷ []), set-padded b_size xs b, padded_full b_size xs b)

pub add_all-Holds :
    (ys : Bytes) (rb : Buf) (xs : Bytes) → Holds rb xs → Holds (add_all rb ys) (xs ++ ys)
unfolding add_all
add_all-Holds [] rb xs h = rw append-nil h
add_all-Holds (y ∷ ys) rb xs h =
    rw append_assoc at (add_all-Holds ys (b_add rb y) (xs ++ y ∷ []) (b_add-Holds rb xs y h))

pub b_reset-Holds : Holds b_reset []
b_reset-Holds = record { first = refl; at = omega arith; count = omega arith }

pub add_all-append : (ys zs : Bytes) (rb : Buf) → add_all rb (ys ++ zs) ≡ add_all (add_all rb ys) zs
unfolding add_all
add_all-append [] zs rb = refl
add_all-append (y ∷ ys) zs rb = add_all-append ys zs (b_add rb y)

pub add_all_one : (rb : Buf) (b : ℕ) → add_all rb (b ∷ []) ≡ b_add rb b
unfolding add_all
add_all_one rb b = refl

abbrev pub line_holds : (xs : Bytes) → Holds (add_all b_reset xs) xs
line_holds xs = add_all-Holds xs b_reset [] b_reset-Holds

abbrev pub IsNot : ℕ → ℕ → Type 0
IsNot d c = c ≢ d

-- A text that ends in `d` is no prefix of a line without `d`.
pub is_prefix-without :
    (d : ℕ) (pre : Bytes) (k : ℕ) (xs : Bytes)
    → d ≢ 0
    → All (IsNot d) xs
    → is_prefix (pre ++ d ∷ []) (padded k xs) ≡ false
unfolding is_prefix
is_prefix-without d [] zero xs nz h = refl
is_prefix-without d [] (suc k) [] nz h = ground arith
is_prefix-without d [] (suc k) (x ∷ xs) nz h = ground arith
is_prefix-without d (p ∷ pre) zero xs nz h = refl
is_prefix-without d (p ∷ pre) (suc k) [] nz h = ground (arith, is_prefix-without d pre k [] nz h)
is_prefix-without d (p ∷ pre) (suc k) (x ∷ xs) nz h =
    ground (arith, is_prefix-without d pre k xs nz h.1)

-- Of two texts without a CR, each ended by one, only equal ones are in prefix relation.
pub is_prefix-ended :
    (w : Bytes) (k : ℕ) (xs tail tail' : Bytes)
    → All (IsNot b'\r') w
    → All (IsNot b'\r') xs
    → is_prefix (w ++ b'\r' ∷ tail) (padded k (xs ++ b'\r' ∷ tail')) ≡ true
    → w ≡ xs
unfolding is_prefix
is_prefix-ended [] zero xs tail tail' hw hx e = cc
is_prefix-ended [] (suc k) [] tail tail' hw hx e = refl
is_prefix-ended [] (suc k) (x ∷ xs) tail tail' hw hx e = ground arith
is_prefix-ended (c ∷ w) zero xs tail tail' hw hx e = cc
is_prefix-ended (c ∷ w) (suc k) [] tail tail' hw hx e = ground arith
is_prefix-ended (c ∷ w) (suc k) (x ∷ xs) tail tail' hw hx e =
    ground (arith, is_prefix-ended w k xs tail tail' hw.1 hx.1)
