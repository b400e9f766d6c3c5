-- ===== src/Common/Calls.antt =====
-- What a call does: it returns, it panics, or (in a model with fuel only) the fuel runs out.
use mathlib.Core.Path.{◌≡◌, refl}
use mathlib.Core.Option.{Option, none, some}

pub data Call {ℓ} (A : Type ℓ) : Type ℓ where
  returned : A → Call A
  panicked out_of_fuel : Call A

infixl 5 ◌>>=◌
abbrev pub ◌>>=◌ {ℓ κ} : {A : Type ℓ} {B : Type κ} → Call A → (A → Call B) → Call B
returned a >>= f = f a
panicked >>= f = panicked
out_of_fuel >>= f = out_of_fuel

-- `expect` and `unwrap`: no value is a panic.
abbrev pub expect {ℓ} : {A : Type ℓ} → Option A → Call A
expect none = panicked
expect (some a) = returned a

-- The `?` operator inside a function that returns an option.
abbrev pub or_none {ℓ κ} :
    {A : Type ℓ} {B : Type κ} → Option A → (A → Call (Option B)) → Call (Option B)
or_none none f = returned none
or_none (some a) f = f a

-- A call that returned went through both of its parts.
pub >>=-eq-returned {ℓ κ} :
    {A : Type ℓ} {B : Type κ} (m : Call A) (f : A → Call B) {b : B}
    → (m >>= f) ≡ returned b
    → (a : A) × (m ≡ returned a) × (f a ≡ returned b)
>>=-eq-returned (returned a) f h = (a, refl, h)
>>=-eq-returned panicked f h = cc
>>=-eq-returned out_of_fuel f h = cc

-- The same for `?`.
pub or_none-eq-some {ℓ κ} :
    {A : Type ℓ} {B : Type κ} (o : Option A) (f : A → Call (Option B)) {b : B}
    → or_none o f ≡ returned (some b)
    → (a : A) × (o ≡ some a) × (f a ≡ returned (some b))
or_none-eq-some none f h = cc
or_none-eq-some (some a) f h = (a, refl, h)

pub >>=_assoc {ℓ κ ν} :
    {A : Type ℓ} {B : Type κ} {D : Type ν} (m : Call A) (f : A → Call B) (g : B → Call D)
    → (m >>= f >>= g) ≡ (m >>= λ a. f a >>= g)
>>=_assoc (returned a) f g = refl
>>=_assoc panicked f g = refl
>>=_assoc out_of_fuel f g = refl
