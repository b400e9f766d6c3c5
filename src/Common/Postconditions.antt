-- ===== src/Common/Postconditions.antt =====
-- A postcondition of a call: the fuel suffices, and what is returned satisfies the predicate.
use mathlib.Core.Path.{◌≡◌, refl, subst}
use mathlib.Core.Logic.{◌≢◌}
use mathlib.Core.Bool.{Bool, true, false}
use mathlib.Core.Option.{Option, none, some}
use bellman.Common.Tests.{if◌then◌else◌}
use bellman.Common.Calls.{Call, returned, panicked, out_of_fuel, ◌>>=◌, expect, or_none}

pub data Ensures {ℓ κ} {A : Type ℓ} (P : A → Type κ) : Call A → Type (ℓ ⊔ κ) where
  returns : {a : A} → P a → Ensures P (returned a)
  panics : Ensures P panicked

module _ {ℓ κ} {A : Type ℓ} (P : A → Type κ) where
  -- The predicate holds of what a call returned.
  pub Ensures-returned : {m : Call A} (a : A) → Ensures P m → m ≡ returned a → P a
  Ensures-returned a (returns {a = b} p) e = let same : b ≡ a = cc in subst P same p
  Ensures-returned a panics e = absurd (cc)

  -- A call with a postcondition has enough fuel.
  pub Ensures-ne-out_of_fuel : {m : Call A} → Ensures P m → m ≢ out_of_fuel
  Ensures-ne-out_of_fuel (returns p) e = cc
  Ensures-ne-out_of_fuel panics e = cc

module _ {ℓ κ μ ν} {A : Type ℓ} {B : Type κ} {P : A → Type μ} (Q : B → Type ν) where
  pub Ensures->>= :
      {m : Call A} {f : A → Call B}
      → Ensures P m
      → ((a : A) → P a → Ensures Q (f a))
      → Ensures Q (m >>= f)
  Ensures->>= (returns p) k = k _ p
  Ensures->>= panics k = panics

module _ {ℓ ν} {B : Type ℓ} (Q : B → Type ν) where
  pub Ensures-if :
      (b : Bool) {x y : Call B}
      → (b ≡ true → Ensures Q x)
      → (b ≡ false → Ensures Q y)
      → Ensures Q (if b then x else y)
  Ensures-if true h k = h refl
  Ensures-if false h k = k refl

  pub Ensures-mono {κ} :
      {R : B → Type κ} {m : Call B} → Ensures R m → ((b : B) → R b → Q b) → Ensures Q m
  Ensures-mono (returns p) k = returns (k _ p)
  Ensures-mono panics k = panics

-- A predicate on an optional result: `none` satisfies it.
abbrev pub OnSome {ℓ κ} : {A : Type ℓ} → (A → Type κ) → Option A → Type κ
OnSome P none = Unit
OnSome P (some a) = P a

module _ {ℓ κ ν} {A : Type ℓ} {B : Type κ} (Q : B → Type ν) where
  pub Ensures-or_none :
      (o : Option A) {f : A → Call (Option B)}
      → ((a : A) → o ≡ some a → Ensures (OnSome Q) (f a))
      → Ensures (OnSome Q) (or_none o f)
  Ensures-or_none none k = returns tt
  Ensures-or_none (some a) k = k a refl

pub Ensures-expect {ℓ} : {A : Type ℓ} (o : Option A) → Ensures (λ _. Unit {0}) (expect o)
Ensures-expect none = panics
Ensures-expect (some a) = returns tt

-- The postcondition from its parts.
pub Ensures-of {ℓ κ} :
    {A : Type ℓ} (P : A → Type κ) (m : Call (Option A))
    → m ≢ out_of_fuel
    → ((a : A) → m ≡ returned (some a) → P a)
    → Ensures (OnSome P) m
Ensures-of P (returned none) h k = returns tt
Ensures-of P (returned (some a)) h k = returns (k a refl)
Ensures-of P panicked h k = panics
Ensures-of P out_of_fuel h k = absurd (h refl)

-- A split on an optional value, which hands a property of it to the case.
pub Ensures-Option {ℓ κ μ ν} :
    {A : Type ℓ} {B : Type κ} {P : A → Type μ} (Q : B → Type ν) (o : Option A) {x : Call B}
    {f : A → Call B}
    → OnSome P o
    → Ensures Q x
    → ((a : A) → P a → Ensures Q (f a))
    → Ensures Q (elim o [ none ↦ x | some a ↦ f a ])
Ensures-Option Q none p h k = h
Ensures-Option Q (some a) p h k = k a p

-- The postcondition with the equation of what was returned.
pub Ensures-eq {ℓ κ} :
    {A : Type ℓ} (P : A → Type κ) {m : Call A}
    → Ensures P m
    → Ensures (λ a. P a × (m ≡ returned a)) m
Ensures-eq P (returns p) = returns (p, refl)
Ensures-eq P panics = panics
