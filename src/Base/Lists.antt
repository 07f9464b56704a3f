-- ===== src/Base/Lists.antt =====
-- C arrays and strings as lists measured and indexed by native numbers.
use Prim.Native.Nat.{ℕ, zero, suc, ◌+◌, ◌≤◌, ◌<◌, min}
use mathlib.Core.Path.{◌≡◌, refl, ap}
use mathlib.Core.Logic.{◌≢◌}
use mathlib.Core.List.{List, [], ◌∷◌, ◌++◌}
use mathlib.Core.Option.{Option, none, some}
use mathlib.Core.Bool.{Bool, true, false, ◌&&◌}
use Prim.Native.Char.{code}
use Prim.Native.String.{String}
use native.Mathlib.Omega.{arith}
use native.Mathlib.Numerals.{add-one}
use air_quality_sensor_node.Base.Tests.{◌==◌}

abbrev pub Bytes : Type 0
Bytes = List ℕ

-- The code points of a text literal: its bytes, since every literal of the program is ASCII.
abbrev pub codes : String → Bytes
codes String.[] = []
codes (String.◌∷◌ c s) = code c ∷ codes s

cons-injective_tail {ℓ} : {A : Type ℓ} {x y : A} {xs ys : List A} → x ∷ xs ≡ y ∷ ys → xs ≡ ys
cons-injective_tail h = cc

module _ {ℓ} {A : Type ℓ} where
  abbrev pub length : List A → ℕ
  length [] = 0
  length (x ∷ xs) = suc (length xs)

  -- `none` is an access out of bounds.
  abbrev pub get_elem? : List A → ℕ → Option A
  get_elem? [] i = none
  get_elem? (x ∷ xs) zero = some x
  get_elem? (x ∷ xs) (suc i) = get_elem? xs i

  abbrev pub get_or : List A → ℕ → A → A
  get_or [] i d = d
  get_or (x ∷ xs) zero d = x
  get_or (x ∷ xs) (suc i) d = get_or xs i d

  -- A write out of bounds changes nothing.
  abbrev pub set : List A → ℕ → A → List A
  set [] i v = []
  set (x ∷ xs) zero v = v ∷ xs
  set (x ∷ xs) (suc i) v = x ∷ set xs i v

  abbrev pub take : ℕ → List A → List A
  take zero xs = []
  take (suc n) [] = []
  take (suc n) (x ∷ xs) = x ∷ take n xs

  abbrev pub drop : ℕ → List A → List A
  drop zero xs = xs
  drop (suc n) [] = []
  drop (suc n) (x ∷ xs) = drop n xs

  abbrev pub replicate : ℕ → A → List A
  replicate zero a = []
  replicate (suc n) a = a ∷ replicate n a

  pub length-append : (xs ys : List A) → length (xs ++ ys) ≡ length xs + length ys
  length-append [] ys = omega arith
  length-append (x ∷ xs) ys = omega (arith, length-append xs ys)

  pub length-drop : (n : ℕ) (xs : List A) → n ≤ length xs → length (drop n xs) + n ≡ length xs
  length-drop zero xs h = omega arith
  length-drop (suc n) [] h = absurd (omega arith)
  length-drop (suc n) (x ∷ xs) h = omega (arith, length-drop n xs (omega arith))

  pub append_cancel : (xs ys zs : List A) → xs ++ ys ≡ xs ++ zs → ys ≡ zs
  append_cancel [] ys zs h = h
  append_cancel (x ∷ xs) ys zs h = append_cancel xs ys zs (cons-injective_tail h)

  pub set-append :
      (xs : List A) (y : A) (ys : List A) (v : A) → set (xs ++ y ∷ ys) (length xs) v ≡ xs ++ v ∷ ys
  set-append [] y ys v = refl
  set-append (x ∷ xs) y ys v = ap (◌∷◌ x) (set-append xs y ys v)

  pub length-set : (xs : List A) (i : ℕ) (v : A) → length (set xs i v) ≡ length xs
  length-set [] i v = refl
  length-set (x ∷ xs) zero v = refl
  length-set (x ∷ xs) (suc i) v = ap suc (length-set xs i v)

  pub length-replicate : (n : ℕ) (a : A) → length (replicate n a) ≡ n
  length-replicate zero a = refl
  length-replicate (suc n) a = ap suc (length-replicate n a)

  pub length-take : (n : ℕ) (xs : List A) → length (take n xs) ≡ min n (length xs)
  length-take zero xs = omega arith
  length-take (suc n) [] = omega arith
  length-take (suc n) (x ∷ xs) = omega (arith, length-take n xs)

  pub take_of_length_le : (n : ℕ) (xs : List A) → length xs ≤ n → take n xs ≡ xs
  take_of_length_le zero [] h = refl
  take_of_length_le zero (x ∷ xs) h = absurd (omega arith)
  take_of_length_le (suc n) [] h = refl
  take_of_length_le (suc n) (x ∷ xs) h = ap (◌∷◌ x) (take_of_length_le n xs (omega arith))

  pub get_elem?-set_self :
      (xs : List A) (i : ℕ) (v : A) → i < length xs → get_elem? (set xs i v) i ≡ some v
  get_elem?-set_self [] i v h = absurd (omega arith)
  get_elem?-set_self (x ∷ xs) zero v h = refl
  get_elem?-set_self (x ∷ xs) (suc i) v h = get_elem?-set_self xs i v (omega arith)

  pub get_elem?-set_ne :
      (xs : List A) {i j : ℕ} (v : A) → i ≢ j → get_elem? (set xs i v) j ≡ get_elem? xs j
  get_elem?-set_ne [] v h = refl
  get_elem?-set_ne (x ∷ xs) {i = zero} {j = zero} v h = absurd (h refl)
  get_elem?-set_ne (x ∷ xs) {i = zero} {j = suc j} v h = refl
  get_elem?-set_ne (x ∷ xs) {i = suc i} {j = zero} v h = refl
  get_elem?-set_ne (x ∷ xs) {i = suc i} {j = suc j} v h = get_elem?-set_ne xs v (λ e. h (ap suc e))

  pub get_elem?_of_lt : (xs : List A) (i : ℕ) → i < length xs → (x : A) × (get_elem? xs i ≡ some x)
  get_elem?_of_lt [] i h = absurd (omega arith)
  get_elem?_of_lt (x ∷ xs) zero h = (x, refl)
  get_elem?_of_lt (x ∷ xs) (suc i) h = get_elem?_of_lt xs i (omega arith)

  -- Reading at `idx`, and stepping over what was read, in terms of what is left of the array.
  pub get_elem?_of_drop :
      (buf : List A) (idx : ℕ) {x : A} {r : List A}
      → drop idx buf ≡ x ∷ r
      → get_elem? buf idx ≡ some x
  get_elem?_of_drop [] zero h = cc
  get_elem?_of_drop [] (suc idx) h = cc
  get_elem?_of_drop (y ∷ buf) zero h = cc
  get_elem?_of_drop (y ∷ buf) (suc idx) h = get_elem?_of_drop buf idx h

  pub get_elem?-add_of_drop :
      (buf : List A) (idx k : ℕ) {r : List A}
      → drop idx buf ≡ r
      → get_elem? buf (idx + k) ≡ get_elem? r k
  get_elem?-add_of_drop buf zero k h = rw (← h) (ap (get_elem? buf) (omega arith))
  get_elem?-add_of_drop [] (suc idx) k h = rw (← h)
  get_elem?-add_of_drop (y ∷ buf) (suc idx) k h =
      let e : suc idx + k ≡ suc (idx + k) = omega arith in rw e (get_elem?-add_of_drop buf idx k h)

  pub drop-append_length :
      (buf : List A) (idx : ℕ) (xs : List A) {r : List A}
      → drop idx buf ≡ xs ++ r
      → drop (idx + length xs) buf ≡ r
  drop-append_length buf zero [] h = h
  drop-append_length [] zero (x ∷ xs) h = cc
  drop-append_length (y ∷ buf) zero (x ∷ xs) {r} h =
      let e : 0 + suc (length xs) ≡ suc (0 + length xs) = omega arith in
      rw e (drop-append_length buf zero xs (cons-injective_tail h))
  drop-append_length [] (suc idx) [] h = let e : suc idx + 0 ≡ suc idx = omega arith in rw e h
  drop-append_length [] (suc idx) (x ∷ xs) h = cc
  drop-append_length (y ∷ buf) (suc idx) xs h =
      let e : suc idx + length xs ≡ suc (idx + length xs) = omega arith in
      rw e (drop-append_length buf idx xs h)

  pub drop-suc_of_drop :
      (buf : List A) (idx : ℕ) {x : A} {r : List A} → drop idx buf ≡ x ∷ r → drop (suc idx) buf ≡ r
  drop-suc_of_drop [] zero h = cc
  drop-suc_of_drop [] (suc idx) h = cc
  drop-suc_of_drop (y ∷ buf) zero h = cc
  drop-suc_of_drop (y ∷ buf) (suc idx) h = drop-suc_of_drop buf idx h

  pub drop-add_one_of_drop :
      (buf : List A) (idx : ℕ) {x : A} {r : List A} → drop idx buf ≡ x ∷ r → drop (idx + 1) buf ≡ r
  drop-add_one_of_drop buf idx h = rw add-one (drop-suc_of_drop buf idx h)

  -- A predicate of every element, by recursion, which the tactics read and build.
  abbrev pub All {κ} : (A → Type κ) → List A → Type κ
  All P [] = Unit
  All P (x ∷ xs) = P x × All P xs

  pub All-append {κ} : (P : A → Type κ) (xs ys : List A) → All P xs → All P ys → All P (xs ++ ys)
  All-append P [] ys hx hy = hy
  All-append P (x ∷ xs) ys hx hy = (hx.0, All-append P xs ys hx.1 hy)

-- A test of every element decides such a predicate.
abbrev pub all {ℓ} : {A : Type ℓ} → (A → Bool) → List A → Bool
all p [] = true
all p (x ∷ xs) = p x && all p xs

pub all_sound {ℓ} :
    {A : Type ℓ} (p : A → Bool) (xs : List A) → all p xs ≡ true → All (λ x. p x ≡ true) xs
all_sound p [] h = tt
all_sound p (x ∷ xs) h = (ground (arith, h), all_sound p xs (ground (arith, h)))

-- `strcmp(a, b) == 0`
abbrev pub eqb : Bytes → Bytes → Bool
eqb [] [] = true
eqb (x ∷ xs) (y ∷ ys) = (x == y) && eqb xs ys
eqb _ _ = false

pub eqb_refl : (xs : Bytes) → eqb xs xs ≡ true
eqb_refl [] = refl
eqb_refl (x ∷ xs) = ground (arith, eqb_refl xs)

pub eqb_sound : (xs ys : Bytes) → eqb xs ys ≡ true → xs ≡ ys
eqb_sound [] [] h = refl
eqb_sound [] (y ∷ ys) h = cc
eqb_sound (x ∷ xs) [] h = cc
eqb_sound (x ∷ xs) (y ∷ ys) h = ground (arith, eqb_sound xs ys)
