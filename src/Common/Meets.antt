-- ===== src/Common/Meets.antt =====
-- What an effect does when it returns: the change of its state, and its result if that is no error.
use mathlib.Core.Path.{◌≡◌, refl}
use mathlib.Core.Bool.{Bool, true, false}
use mathlib.Core.Option.{Option, none, some}
use bellman.Common.Calls.{Call, returned, panicked, out_of_fuel}
use bellman.Common.Tests.{if◌then◌else◌}
use bellman.Common.Results.{
  Result, ok, err, Effect, on_result, ◌>>=◌, ◌>>◌, done, fail, calls, after,
}

-- A predicate on what a call returns, if it returns.
abbrev pub Partial {ℓ κ} : {A : Type ℓ} → (A → Type κ) → Call A → Type κ
Partial P (returned a) = P a
Partial P panicked = Unit
Partial P out_of_fuel = Unit

abbrev pub OnOk {ℓ κ ν} : {E : Type ℓ} {A : Type κ} → (A → Type ν) → Result E A → Type ν
OnOk P (ok a) = P a
OnOk P (err e) = Unit

pub Partial-any {ℓ} : {A : Type ℓ} (m : Call A) → Partial (λ a. Unit {0}) m
Partial-any (returned a) = tt
Partial-any panicked = tt
Partial-any out_of_fuel = tt

pub Partial-mono {ℓ κ μ} :
    {A : Type ℓ} (P : A → Type κ) (Q : A → Type μ) (m : Call A)
    → Partial P m
    → ((a : A) → P a → Q a)
    → Partial Q m
Partial-mono P Q (returned a) p k = k a p
Partial-mono P Q panicked p k = tt
Partial-mono P Q out_of_fuel p k = tt

pub Partial-after {ℓ κ μ ν} :
    {A : Type ℓ} {B : Type κ} (P : A → Type μ) (Q : B → Type ν) (m : Call A) (f : A → Call B)
    → Partial P m
    → ((a : A) → P a → Partial Q (f a))
    → Partial Q (after m f)
Partial-after P Q (returned a) f p k = k a p
Partial-after P Q panicked f p k = tt
Partial-after P Q out_of_fuel f p k = tt

-- From each state, a result that is no error satisfies `Q`, and the state changes by `R` in any case.
pub record Meets {ℓ κ ν μ ο} {E : Type ℓ} {S : Type κ} {A : Type ν} (R : S → S → Type μ)
    (Q : A → Type ο) (m : Effect E S A) : Type (κ ⊔ μ ⊔ ο) where
  pub meets : (s : S) → Partial (λ r. R s r.1 × OnOk Q r.0) (m s)

pub record IsPreorder {κ μ} {S : Type κ} (R : S → S → Type μ) : Type (κ ⊔ μ) where
  pub same : (s : S) → R s s
  pub trans : (s t u : S) → R s t → R t u → R s u

module _ {κ μ} {S : Type κ} {R : S → S → Type μ} (pre : IsPreorder R) where
  call_meets {ν ο ℓ} :
      {A : Type ν} (F : Type ℓ) (Q : A → Type ο) (m : Call A) (s : S)
      → Partial Q m
      → Partial (λ r. R s r.1 × OnOk Q r.0) (calls {E = F} m s)
  unfolding calls
  call_meets F Q (returned a) s q = (pre.same s, q)
  call_meets F Q panicked s q = tt
  call_meets F Q out_of_fuel s q = tt

module _ {ℓ κ μ} {E : Type ℓ} {S : Type κ} {R : S → S → Type μ} (pre : IsPreorder R) where
  pub Meets-done {ν ο} : {A : Type ν} {Q : A → Type ο} (a : A) → Q a → Meets {E = E} R Q (done a)
  unfolding done
  Meets-done a q = record { meets = λ s. (pre.same s, q) }

  pub Meets-fail {ν ο} : {A : Type ν} {Q : A → Type ο} (e : E) → Meets R Q (fail e)
  unfolding fail
  Meets-fail e = record { meets = λ s. (pre.same s, tt) }

  pub Meets-calls {ν ο} :
      {A : Type ν} {Q : A → Type ο} (m : Call A) → Partial Q m → Meets {E = E} R Q (calls m)
  Meets-calls m q = record { meets = λ s. call_meets pre E _ m s q }

  widened {ν ο} :
      {A : Type ν} (Q : A → Type ο) (s t : S) (m : Call (Result E A × S))
      → R s t
      → Partial (λ q. R t q.1 × OnOk Q q.0) m
      → Partial (λ q. R s q.1 × OnOk Q q.0) m
  widened Q s t (returned (r, u)) h (k, q) = (pre.trans s t u h k, q)
  widened Q s t panicked h q = tt
  widened Q s t out_of_fuel h q = tt

  result-Meets {ν ξ ο π} :
      {A : Type ν} {B : Type ξ} (P : A → Type ο) (Q : B → Type π) (f : A → Effect E S B) (s : S)
      (r : Result E A × S)
      → R s r.1 × OnOk P r.0
      → ((a : A) → P a → Meets R Q (f a))
      → Partial (λ q. R s q.1 × OnOk Q q.0) (on_result f r)
  result-Meets P Q f s (ok a, t) (change, p) k = widened Q s t (f a t) change ((k a p).meets t)
  result-Meets P Q f s (err e, t) (change, p) k = (change, tt)

  pub Meets->>= {ν ξ ο π} :
      {A : Type ν} {B : Type ξ} {P : A → Type ο} {Q : B → Type π} {m : Effect E S A}
      {f : A → Effect E S B}
      → Meets R P m
      → ((a : A) → P a → Meets R Q (f a))
      → Meets R Q (m >>= f)
  unfolding ◌>>=◌
  Meets->>= {m = m} {f = f} p k = record {
    meets =
        λ s. Partial-after _ _ (m s) (on_result f) (p.meets s) (λ r h. result-Meets _ _ f s r h k);
  }

  pub Meets->> {ν ξ ο π} :
      {A : Type ν} {B : Type ξ} {P : A → Type ο} {Q : B → Type π} {m : Effect E S A}
      {n : Effect E S B}
      → Meets R P m
      → Meets R Q n
      → Meets R Q (m >> n)
  unfolding ◌>>◌
  Meets->> {m = m} {n = n} p q = record {
    meets = λ s.
        Partial-after _ _ (m s) (on_result (λ a. n)) (p.meets s)
          (λ r h. result-Meets _ _ (λ a. n) s r h (λ a _. q));
  }

weakened {ℓ κ μ ν ο π} :
    {E : Type ℓ} {S : Type κ} {A : Type ν} (R : S → S → Type μ) (P : A → Type ο) (Q : A → Type π)
    (s : S) (m : Call (Result E A × S))
    → ((a : A) → P a → Q a)
    → Partial (λ r. R s r.1 × OnOk P r.0) m
    → Partial (λ r. R s r.1 × OnOk Q r.0) m
weakened R P Q s (returned (ok a, t)) k (change, p) = (change, k a p)
weakened R P Q s (returned (err e, t)) k (change, p) = (change, tt)
weakened R P Q s panicked k p = tt
weakened R P Q s out_of_fuel k p = tt

pub Meets-mono {ℓ κ μ ν ο π} :
    {E : Type ℓ} {S : Type κ} {A : Type ν} {R : S → S → Type μ} {P : A → Type ο} (Q : A → Type π)
    {m : Effect E S A}
    → Meets R P m
    → ((a : A) → P a → Q a)
    → Meets R Q m
Meets-mono {R = R} {P = P} Q {m = m} p k = record {
  meets = λ s. weakened R P Q s (m s) k (p.meets s);
}

module _ {ℓ κ μ ν ο} {E : Type ℓ} {S : Type κ} {R : S → S → Type μ} {A : Type ν}
    {Q : A → Type ο} where
  pub Meets-if :
      (b : Bool) {m n : Effect E S A}
      → (b ≡ true → Meets R Q m)
      → (b ≡ false → Meets R Q n)
      → Meets R Q (if b then m else n)
  Meets-if true h k = h refl
  Meets-if false h k = k refl

  -- The same for the cases of an `elim`.
  pub Meets-test :
      (b : Bool) {m n : Effect E S A}
      → Meets R Q m
      → Meets R Q n
      → Meets R Q (elim b [ true ↦ m | false ↦ n ])
  Meets-test true h k = h
  Meets-test false h k = k

  pub Meets-Option {ξ} :
      {B : Type ξ} (o : Option B) {m : Effect E S A} {f : B → Effect E S A}
      → Meets R Q m
      → ((b : B) → Meets R Q (f b))
      → Meets R Q (elim o [ none ↦ m | some b ↦ f b ])
  Meets-Option none h k = h
  Meets-Option (some b) h k = k b
