-- ===== src/Common/Memory.antt =====
-- The outcome of code that walks raw memory: a result, a read outside of the buffer (which is
-- undefined in C++), or a loop bound that was too small (which no theorem allows to happen).
use mathlib.Core.Path.{refl}
use mathlib.Core.Logic.{◌≢◌}

pub data Run {ℓ} (A : Type ℓ) : Type ℓ where
  done : A → Run A
  fault : Run A
  out_of_fuel : Run A

infixl 5 ◌>>=◌
abbrev pub ◌>>=◌ {ℓ κ} : {A : Type ℓ} {B : Type κ} → Run A → (A → Run B) → Run B
done a >>= f = f a
fault >>= f = fault
out_of_fuel >>= f = out_of_fuel

pub bind-ne-out_of_fuel {ℓ κ} :
    {A : Type ℓ} {B : Type κ} (m : Run A) (f : A → Run B)
    → m ≢ out_of_fuel
    → ((a : A) → f a ≢ out_of_fuel)
    → (m >>= f) ≢ out_of_fuel
bind-ne-out_of_fuel (done a) f hm hf = hf a
bind-ne-out_of_fuel fault f hm hf = λ e. cc
bind-ne-out_of_fuel out_of_fuel f hm hf = absurd (hm refl)

-- What a returned result satisfies; nothing is said where there is none.
abbrev pub Holds {ℓ κ} : {A : Type ℓ} → (A → Type κ) → Run A → Type κ
Holds P (done a) = P a
Holds P fault = Unit {κ}
Holds P out_of_fuel = Unit {κ}

pub bind-Holds {ℓ κ μ ν} :
    {A : Type ℓ} {B : Type κ} (P : A → Type μ) (Q : B → Type ν) (m : Run A) (f : A → Run B)
    → Holds P m
    → ((a : A) → P a → Holds Q (f a))
    → Holds Q (m >>= f)
bind-Holds P Q (done a) f h k = k a h
bind-Holds P Q fault f h k = tt
bind-Holds P Q out_of_fuel f h k = tt

-- The same, whatever the first part returns.
pub bind-Holds-all {ℓ κ ν} :
    {A : Type ℓ} {B : Type κ} (Q : B → Type ν) (m : Run A) (f : A → Run B)
    → ((a : A) → Holds Q (f a))
    → Holds Q (m >>= f)
bind-Holds-all Q (done a) f k = k a
bind-Holds-all Q fault f k = tt
bind-Holds-all Q out_of_fuel f k = tt
