-- ===== src/Common/Outcomes.antt =====
-- How a call of the kernel ends.
use mathlib.Core.Path.{◌≡◌, refl}
use mathlib.Core.Bool.{Bool, true, false}
use mathlib.Core.Option.{Option, none, some}
use ferret_os.Common.Tests.{if◌then◌else◌}

-- A returned value; a Rust panic (failed `assert!`, index out of bounds, arithmetic overflow check);
-- `halt()`, which never returns; or the fuel of the model's loops used up.
pub data Run {ℓ} (A : Type ℓ) : Type ℓ where
  ok : A → Run A
  panic halted out_of_fuel : Run A

infixl 5 ◌>>=◌
abbrev pub ◌>>=◌ {ℓ κ} : {A : Type ℓ} {B : Type κ} → Run A → (A → Run B) → Run B
ok a >>= f = f a
panic >>= f = panic
halted >>= f = halted
out_of_fuel >>= f = out_of_fuel

-- `assert!(b)`
abbrev pub assert_then {ℓ} : {A : Type ℓ} → Bool → Run A → Run A
assert_then true r = r
assert_then false r = panic

abbrev pub or_panic {ℓ} : {A : Type ℓ} → Option A → Run A
or_panic (some a) = ok a
or_panic none = panic

-- The steps of a successful chain.
pub >>=-eq-ok {ℓ κ} :
    {A : Type ℓ} {B : Type κ} (first : Run A) (next : A → Run B) {result : B}
    → (first >>= next) ≡ ok result
    → (a : A) × (next a ≡ ok result) × (first ≡ ok a)
>>=-eq-ok panic next h = cc
>>=-eq-ok halted next h = cc
>>=-eq-ok out_of_fuel next h = cc
>>=-eq-ok (ok a) next h = (a, h, refl)

pub >>=-ext {ℓ κ} :
    {A : Type ℓ} {B : Type κ} (first : Run A) (f g : A → Run B)
    → ((a : A) → f a ≡ g a)
    → (first >>= f) ≡ (first >>= g)
>>=-ext (ok a) f g h = h a
>>=-ext panic f g h = refl
>>=-ext halted f g h = refl
>>=-ext out_of_fuel f g h = refl

-- What the value satisfies, if one is returned.
abbrev pub Ensures {ℓ κ} : {A : Type ℓ} → (A → Type κ) → Run A → Type κ
Ensures P (ok a) = P a
Ensures P panic = Unit
Ensures P halted = Unit
Ensures P out_of_fuel = Unit

pub Ensures->>= {ℓ κ} :
    {A B : Type ℓ} (P : A → Type κ) (Q : B → Type κ) (first : Run A) (next : A → Run B)
    → Ensures P first
    → ((a : A) → P a → Ensures Q (next a))
    → Ensures Q (first >>= next)
Ensures->>= P Q (ok a) next h g = g a h
Ensures->>= P Q panic next h g = tt
Ensures->>= P Q halted next h g = tt
Ensures->>= P Q out_of_fuel next h g = tt

pub Ensures-if {ℓ κ} :
    {A : Type ℓ} (P : A → Type κ) (b : Bool) (r r' : Run A)
    → Ensures P r
    → Ensures P r'
    → Ensures P (if b then r else r')
Ensures-if P true r r' h h' = h
Ensures-if P false r r' h h' = h'

-- When nothing is known of the first value.
pub Ensures-next {ℓ κ} :
    {A B : Type ℓ} (Q : B → Type κ) (first : Run A) (next : A → Run B)
    → ((a : A) → Ensures Q (next a))
    → Ensures Q (first >>= next)
Ensures-next Q (ok a) next g = g a
Ensures-next Q panic next g = tt
Ensures-next Q halted next g = tt
Ensures-next Q out_of_fuel next g = tt

pub Ensures-weaken {ℓ κ} :
    {A : Type ℓ} (P Q : A → Type κ) (r : Run A) → ((a : A) → P a → Q a) → Ensures P r → Ensures Q r
Ensures-weaken P Q (ok a) h p = h a p
Ensures-weaken P Q panic h p = tt
Ensures-weaken P Q halted h p = tt
Ensures-weaken P Q out_of_fuel h p = tt
