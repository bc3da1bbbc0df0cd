-- ===== src/Util/Outcome.antt =====
-- The outcome of kernel code: a value, a call of `panic`, or an access outside every object
-- that the model represents (for C, undefined behaviour), or more rounds of a loop than its fuel.
use mathlib.Core.Path.{◌≡◌, refl}
use mathlib.Core.Bool.{Bool, true, false}
use mathlib.Core.Logic.{◌≢◌}

pub data Run {ℓ} (A : Type ℓ) : Type ℓ where
  ok : A → Run A
  panic : Run A
  fault : Run A
  out_of_fuel : Run A

infixl 5 ◌>>=◌ ◌>>◌
abbrev pub ◌>>=◌ {κ ℓ} : {X : Type κ} {Y : Type ℓ} (first : Run X) (next : X → Run Y) → Run Y
ok x >>= next = next x
panic >>= next = panic
fault >>= next = fault
out_of_fuel >>= next = out_of_fuel

abbrev pub map_run {κ ℓ} : {X : Type κ} {Y : Type ℓ} → (X → Y) → Run X → Run Y
map_run f (ok x) = ok (f x)
map_run f panic = panic
map_run f fault = fault
map_run f out_of_fuel = out_of_fuel

-- A step whose value does not matter.
abbrev pub ◌>>◌ {κ ℓ} : {X : Type κ} {Y : Type ℓ} (first : Run X) (next : Run Y) → Run Y
first >> next = first >>= λ done. next

-- A test that must hold; the kernel stops otherwise.
abbrev pub ensure : Bool → Run (Unit {0})
ensure true = ok tt
ensure false = panic

pub ok-injective {ℓ} : {A : Type ℓ} {a b : A} → ok a ≡ ok b → a ≡ b
ok-injective h = cc

-- What a successful chain has gone through.
pub >>=-eq-ok {κ ℓ} :
    {X : Type κ} {Y : Type ℓ} (first : Run X) (next : X → Run Y) {y : Y}
    (h : (first >>= next) ≡ ok y)
    → (x : X) × (first ≡ ok x) × (next x ≡ ok y)
>>=-eq-ok (ok x) next h = (x, refl, h)
>>=-eq-ok panic next h = cc
>>=-eq-ok fault next h = cc
>>=-eq-ok out_of_fuel next h = cc

-- A chain has fuel enough where both of its parts have.
pub >>=-ne-out_of_fuel {κ ℓ} :
    {X : Type κ} {Y : Type ℓ} (first : Run X) (next : X → Run Y)
    → first ≢ out_of_fuel
    → ((x : X) → first ≡ ok x → next x ≢ out_of_fuel)
    → (first >>= next) ≢ out_of_fuel
>>=-ne-out_of_fuel (ok x) next a b h = b x refl h
>>=-ne-out_of_fuel panic next a b h = cc
>>=-ne-out_of_fuel fault next a b h = cc
>>=-ne-out_of_fuel out_of_fuel next a b h = a refl
