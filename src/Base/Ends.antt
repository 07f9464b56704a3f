-- ===== src/Base/Ends.antt =====
-- A call that does not run out of fuel.
use mathlib.Core.Path.{refl}
use mathlib.Core.Logic.{◌≢◌}
use mathlib.Core.Bool.{Bool, true, false}
use air_quality_sensor_node.Base.Tests.{if◌then◌else◌}
use air_quality_sensor_node.Base.Outcome.{Outcome, ok, failed, out_of_bounds, out_of_fuel, ◌>>=◌}

abbrev pub Ends {ℓ} : {A : Type ℓ} → Outcome A → Type 0
Ends (ok a) = Unit
Ends failed = Unit
Ends out_of_bounds = Unit
Ends out_of_fuel = ⊥

pub Ends-bind {ℓ κ} :
    {A : Type ℓ} {B : Type κ} (m : Outcome A) (f : A → Outcome B)
    → Ends m
    → ((a : A) → Ends (f a))
    → Ends (m >>= f)
Ends-bind (ok a) f h k = k a
Ends-bind failed f h k = tt
Ends-bind out_of_bounds f h k = tt
Ends-bind out_of_fuel f h k = h

pub Ends-if {ℓ} :
    {A : Type ℓ} (b : Bool) (x y : Outcome A) → Ends x → Ends y → Ends (if b then x else y)
Ends-if true x y hx hy = hx
Ends-if false x y hx hy = hy

pub Ends-ne {ℓ} : {A : Type ℓ} (m : Outcome A) → Ends m → m ≢ out_of_fuel
Ends-ne (ok a) h = λ e. cc
Ends-ne failed h = λ e. cc
Ends-ne out_of_bounds h = λ e. cc
Ends-ne out_of_fuel h = absurd h

pub Ends-of_ne {ℓ} : {A : Type ℓ} (m : Outcome A) → m ≢ out_of_fuel → Ends m
Ends-of_ne (ok a) h = tt
Ends-of_ne failed h = tt
Ends-of_ne out_of_bounds h = tt
Ends-of_ne out_of_fuel h = h refl
