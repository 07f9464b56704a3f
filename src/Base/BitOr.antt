-- ===== src/Base/BitOr.antt =====
-- `bit_or` of numbers whose digits do not overlap.
use Prim.Native.Nat.{
  ℕ, zero, suc, ◌+◌, ◌*◌, ◌/◌, ◌%◌, ◌^◌, ◌≤◌, ◌<◌, bit_or, bit_or-bitwise, digits, max,
}
use mathlib.Core.Path.{◌≡◌, refl, ap}
use native.Mathlib.Nat.{pow-suc}
use native.Mathlib.Omega.{arith}

abbrev or_digits : ℕ → ℕ → ℕ → ℕ
or_digits n a b = digits (λ b. b) max n a b

-- Enough fuel is any fuel that reaches the number of digits of `a`.
or_digits_fuel : (n m a b : ℕ) → a ≤ n → a ≤ m → or_digits n a b ≡ or_digits m a b
or_digits_fuel zero zero a b p q = refl
or_digits_fuel zero (suc m) zero b p q = refl
or_digits_fuel zero (suc m) (suc a) b p q = absurd (omega arith)
or_digits_fuel (suc n) zero zero b p q = refl
or_digits_fuel (suc n) zero (suc a) b p q = absurd (omega arith)
or_digits_fuel (suc n) (suc m) zero b p q = refl
or_digits_fuel (suc n) (suc m) (suc a) b p q =
    omega (arith, or_digits_fuel n m (suc a / 2) (b / 2) (omega arith) (omega arith))

zero-bit_or : (b : ℕ) → bit_or 0 b ≡ b
zero-bit_or b = bit_or-bitwise 0 b

-- The lowest digit, and the others.
bit_or_step : (a b : ℕ) → bit_or a b ≡ bit_or (a / 2) (b / 2) * 2 + max (a % 2) (b % 2)
bit_or_step zero b = omega (arith, zero-bit_or b, zero-bit_or (b / 2))
bit_or_step (suc a) b = omega (
  arith,
  bit_or-bitwise (suc a) b,
  bit_or-bitwise (suc a / 2) (b / 2),
  or_digits_fuel a (suc a / 2) (suc a / 2) (b / 2) (omega arith) (omega arith),
)

bit_or-zero_fuel : (n a : ℕ) → a ≤ n → bit_or a 0 ≡ a
bit_or-zero_fuel n zero p = refl
bit_or-zero_fuel zero (suc a) p = absurd (omega arith)
bit_or-zero_fuel (suc n) (suc a) p =
    omega (arith, bit_or_step (suc a) 0, bit_or-zero_fuel n (suc a / 2) (omega arith))

-- A number below `2 ^ k` fills the low digits of a multiple of `2 ^ k`.
pub bit_or_low : (k q r : ℕ) → r < 2 ^ k → bit_or (q * 2 ^ k) r ≡ q * 2 ^ k + r
bit_or_low zero q zero p = omega (arith, bit_or-zero_fuel (q * 2 ^ 0) (q * 2 ^ 0) (omega arith))
bit_or_low zero q (suc r) p = absurd (omega arith)
bit_or_low (suc k) q r p =
    let e : q * 2 ^ suc k ≡ 2 * (q * 2 ^ k) = omega (arith, ap (λ (t : ℕ). q * t) (pow-suc 2 k)) in
    let h : q * 2 ^ suc k / 2 ≡ q * 2 ^ k = omega (arith, e) in
    let l : q * 2 ^ suc k % 2 ≡ 0 = omega (arith, e) in
    omega (
      arith,
      bit_or_step (q * 2 ^ suc k) r,
      e,
      l,
      ap (λ (t : ℕ). bit_or t (r / 2)) h,
      bit_or_low k q (r / 2) (omega (arith, pow-suc 2 k)),
    )
