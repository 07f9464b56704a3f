-- ===== src/Base/Outcome.antt =====
-- What a call of a C function comes to.
use mathlib.Core.Path.{◌≡◌, refl}
use mathlib.Core.Option.{Option, none, some}

-- `failed` is a negative return value. `out_of_bounds` is an access outside an array or to memory
-- never written, after which C promises nothing. `out_of_fuel` is a loop that has not ended.
pub data Outcome {ℓ} (A : Type ℓ) : Type ℓ where
  ok : A → Outcome A
  failed : Outcome A
  out_of_bounds : Outcome A
  out_of_fuel : Outcome A

infixl 5 ◌>>=◌ ◌>>◌
abbrev pub ◌>>=◌ {ℓ κ} : {A : Type ℓ} {B : Type κ} → Outcome A → (A → Outcome B) → Outcome B
ok a >>= f = f a
failed >>= f = failed
out_of_bounds >>= f = out_of_bounds
out_of_fuel >>= f = out_of_fuel

abbrev pub ◌>>◌ {ℓ} : {B : Type ℓ} → Outcome (Unit {0}) → Outcome B → Outcome B
m >> k = m >>= λ _. k

-- A read that must stay inside its array.
abbrev pub in_bounds {ℓ} : {A : Type ℓ} → Option A → Outcome A
in_bounds none = out_of_bounds
in_bounds (some a) = ok a

pub bind-eq-ok {ℓ κ} :
    {A : Type ℓ} {B : Type κ} (m : Outcome A) (f : A → Outcome B) {b : B}
    → (m >>= f) ≡ ok b
    → (a : A) × (m ≡ ok a) × (f a ≡ ok b)
bind-eq-ok (ok a) f h = (a, refl, h)
bind-eq-ok failed f h = cc
bind-eq-ok out_of_bounds f h = cc
bind-eq-ok out_of_fuel f h = cc

pub bind_assoc {ℓ κ ν} :
    {A : Type ℓ} {B : Type κ} {D : Type ν} (m : Outcome A) (f : A → Outcome B) (g : B → Outcome D)
    → ((m >>= f) >>= g) ≡ (m >>= λ a. f a >>= g)
bind_assoc (ok a) f g = refl
bind_assoc failed f g = refl
bind_assoc out_of_bounds f g = refl
bind_assoc out_of_fuel f g = refl

pub bind_congr {ℓ κ} :
    {A : Type ℓ} {B : Type κ} (m : Outcome A) (f g : A → Outcome B)
    → ((a : A) → f a ≡ g a)
    → (m >>= f) ≡ (m >>= g)
bind_congr (ok a) f g h = h a
bind_congr failed f g h = refl
bind_congr out_of_bounds f g h = refl
bind_congr out_of_fuel f g h = refl
