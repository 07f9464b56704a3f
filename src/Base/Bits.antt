-- ===== src/Base/Bits.antt =====
-- Laws of `bit_xor` at variables, and tables over a small range.
use Prim.Native.Nat.{ℕ, zero, suc, ◌+◌, ◌*◌, ◌/◌, ◌%◌, ◌^◌, ◌≤◌, ◌<◌, bit_xor, digits, differ}
use Prim.Native.Nat.{bit_xor-bitwise}
use mathlib.Core.Path.{ap}
use native.Mathlib.Nat.{pow-suc}
use mathlib.Core.Path.{◌≡◌, refl}
use mathlib.Core.Bool.{Bool, true, ◌&&◌}
use native.Mathlib.Omega.{arith}

-- Whether a test passes at every number below a bound.
unfoldable pub passes_below : (ℕ → Bool) → ℕ → Bool
passes_below test zero = true
passes_below test (suc bound) = test bound && passes_below test bound

pub passes_below_sound :
    (test : ℕ → Bool) (bound k : ℕ) → k < bound → passes_below test bound ≡ true → test k ≡ true
unfolding passes_below
passes_below_sound test zero k lt e = absurd (omega arith)
passes_below_sound test (suc bound) k lt e = ground (arith, passes_below_sound test bound k)

abbrev xor_digits : ℕ → ℕ → ℕ → ℕ
xor_digits n a b = digits (λ b. b) differ n a b

-- Enough fuel is any fuel that reaches the number of digits of `a`.
xor_digits_fuel : (n m a b : ℕ) → a ≤ n → a ≤ m → xor_digits n a b ≡ xor_digits m a b
xor_digits_fuel zero zero a b p q = refl
xor_digits_fuel zero (suc m) zero b p q = refl
xor_digits_fuel zero (suc m) (suc a) b p q = absurd (omega arith)
xor_digits_fuel (suc n) zero zero b p q = refl
xor_digits_fuel (suc n) zero (suc a) b p q = absurd (omega arith)
xor_digits_fuel (suc n) (suc m) zero b p q = refl
xor_digits_fuel (suc n) (suc m) (suc a) b p q =
    omega (arith, xor_digits_fuel n m (suc a / 2) (b / 2) (omega arith) (omega arith))

pub zero-bit_xor : (b : ℕ) → bit_xor 0 b ≡ b
zero-bit_xor b = bit_xor-bitwise 0 b

-- The lowest digit, and the others.
pub bit_xor_step : (a b : ℕ) → bit_xor a b ≡ bit_xor (a / 2) (b / 2) * 2 + differ (a % 2) (b % 2)
bit_xor_step zero b = omega (arith, zero-bit_xor b, zero-bit_xor (b / 2))
bit_xor_step (suc a) b = omega (
  arith,
  bit_xor-bitwise (suc a) b,
  bit_xor-bitwise (suc a / 2) (b / 2),
  xor_digits_fuel a (suc a / 2) (suc a / 2) (b / 2) (omega arith) (omega arith),
)

differ_self : (x y : ℕ) → x < 2 → y < 2 → differ (differ x y) y ≡ x
differ_self zero zero p q = refl
differ_self zero (suc zero) p q = refl
differ_self (suc zero) zero p q = refl
differ_self (suc zero) (suc zero) p q = refl
differ_self zero (suc (suc y)) p q = absurd (omega arith)
differ_self (suc zero) (suc (suc y)) p q = absurd (omega arith)
differ_self (suc (suc x)) y p q = absurd (omega arith)

differ-lt : (x y : ℕ) → x < 2 → y < 2 → differ x y < 2
differ-lt zero y p q = q
differ-lt (suc x) zero p q = p
differ-lt (suc x) (suc y) p q = differ-lt x y (omega arith) (omega arith)

-- The two parts of a number from `bit_xor_step`.
xor_parts :
    (a b : ℕ)
    → (bit_xor a b / 2 ≡ bit_xor (a / 2) (b / 2)) × (bit_xor a b % 2 ≡ differ (a % 2) (b % 2))
xor_parts a b = (
  omega (arith, bit_xor_step a b, differ-lt (a % 2) (b % 2) (omega arith) (omega arith)),
  omega (arith, bit_xor_step a b, differ-lt (a % 2) (b % 2) (omega arith) (omega arith)),
)

bit_xor-cancel_fuel : (n a b : ℕ) → a ≤ n → b ≤ n → bit_xor (bit_xor a b) b ≡ a
bit_xor-cancel_fuel zero zero zero p q = refl
bit_xor-cancel_fuel zero zero (suc b) p q = absurd (omega arith)
bit_xor-cancel_fuel zero (suc a) b p q = absurd (omega arith)
bit_xor-cancel_fuel (suc n) a b p q =
    let (halves, digit) = xor_parts a b in
    let low = differ_self (a % 2) (b % 2) (omega arith) (omega arith) in
    rw (bit_xor_step (bit_xor a b) b) (
      rw (halves, digit, low)
        (omega (arith, bit_xor-cancel_fuel n (a / 2) (b / 2) (omega arith) (omega arith))))

-- Each operand comes back from the sum.
pub bit_xor-cancel : (a b : ℕ) → bit_xor (bit_xor a b) b ≡ a
bit_xor-cancel a b = bit_xor-cancel_fuel (a + b) a b (omega arith) (omega arith)

pub bit_xor-lt : (k a b : ℕ) → a < 2 ^ k → b < 2 ^ k → bit_xor a b < 2 ^ k
bit_xor-lt zero zero zero p q = omega arith
bit_xor-lt zero zero (suc b) p q = absurd (omega arith)
bit_xor-lt zero (suc a) b p q = absurd (omega arith)
bit_xor-lt (suc k) a b p q = omega (
  arith,
  pow-suc 2 k,
  bit_xor_step a b,
  differ-lt (a % 2) (b % 2) (omega arith) (omega arith),
  bit_xor-lt k (a / 2) (b / 2) (omega (arith, pow-suc 2 k)) (omega (arith, pow-suc 2 k)),
)

differ_same : (x : ℕ) → differ x x ≡ 0
differ_same zero = refl
differ_same (suc x) = differ_same x

bit_xor_same : (n a : ℕ) → a ≤ n → bit_xor a a ≡ 0
bit_xor_same zero zero p = refl
bit_xor_same zero (suc a) p = absurd (omega arith)
bit_xor_same (suc n) zero p = refl
bit_xor_same (suc n) (suc a) p = omega (
  arith,
  bit_xor_step (suc a) (suc a),
  differ_same (suc a % 2),
  bit_xor_same n (suc a / 2) (omega arith),
)

pub bit_xor_self : (a : ℕ) → bit_xor a a ≡ 0
bit_xor_self a = bit_xor_same a a (omega arith)

differ-zero : (x : ℕ) → differ x 0 ≡ x
differ-zero zero = refl
differ-zero (suc x) = refl

bit_xor-zero_fuel : (n a : ℕ) → a ≤ n → bit_xor a 0 ≡ a
bit_xor-zero_fuel n zero p = refl
bit_xor-zero_fuel zero (suc a) p = absurd (omega arith)
bit_xor-zero_fuel (suc n) (suc a) p = omega (
  arith,
  bit_xor_step (suc a) 0,
  differ-zero (suc a % 2),
  bit_xor-zero_fuel n (suc a / 2) (omega arith),
)

pub bit_xor-zero : (a : ℕ) → bit_xor a 0 ≡ a
bit_xor-zero a = bit_xor-zero_fuel a a (omega arith)

-- The low bits cancel, the others stay.
pub bit_xor_low : (k q r : ℕ) → r < 2 ^ k → bit_xor (q * 2 ^ k + r) r ≡ q * 2 ^ k
bit_xor_low zero q zero p = rw bit_xor-zero (omega arith)
bit_xor_low zero q (suc r) p = absurd (omega arith)
bit_xor_low (suc k) q r p =
    let e : q * 2 ^ suc k ≡ 2 * (q * 2 ^ k) = omega (arith, ap (λ (t : ℕ). q * t) (pow-suc 2 k)) in
    let h : (q * 2 ^ suc k + r) / 2 ≡ q * 2 ^ k + r / 2 = omega (arith, e) in
    let l : (q * 2 ^ suc k + r) % 2 ≡ r % 2 = omega (arith, e) in
    let ih = bit_xor_low k q (r / 2) (omega (arith, pow-suc 2 k)) in
    rw (bit_xor_step (q * 2 ^ suc k + r) r) (rw (h, l, ih, differ_same (r % 2)) (omega (arith, e)))

differ_comm : (x y : ℕ) → differ x y ≡ differ y x
differ_comm zero zero = refl
differ_comm zero (suc y) = refl
differ_comm (suc x) zero = refl
differ_comm (suc x) (suc y) = differ_comm x y

bit_xor_comm_fuel : (n a b : ℕ) → a ≤ n → b ≤ n → bit_xor a b ≡ bit_xor b a
bit_xor_comm_fuel zero zero zero p q = refl
bit_xor_comm_fuel zero zero (suc b) p q = absurd (omega arith)
bit_xor_comm_fuel zero (suc a) b p q = absurd (omega arith)
bit_xor_comm_fuel (suc n) a b p q = omega (
  arith,
  bit_xor_step a b,
  bit_xor_step b a,
  differ_comm (a % 2) (b % 2),
  bit_xor_comm_fuel n (a / 2) (b / 2) (omega arith) (omega arith),
)

pub bit_xor_comm : (a b : ℕ) → bit_xor a b ≡ bit_xor b a
bit_xor_comm a b = bit_xor_comm_fuel (a + b) a b (omega arith) (omega arith)
