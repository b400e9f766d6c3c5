-- ===== src/Common/Results.antt =====
-- Results and errors, and the effects of code that changes a state, fails and may panic.
use bellman.Common.Calls
use bellman.Common.Calls.{Call, returned}

pub data Result {ℓ κ} (E : Type ℓ) (A : Type κ) : Type (ℓ ⊔ κ) where
  ok : A → Result E A
  err : E → Result E A

-- From a state to a result and the state left behind. An error keeps the changes made before it.
abbrev pub Effect {ℓ κ ν} : Type ℓ → Type κ → Type ν → Type (ℓ ⊔ κ ⊔ ν)
Effect E S A = S → Call (Result E A × S)

abbrev pub on_result {ℓ κ ν μ} :
    {E : Type ℓ} {S : Type κ} {A : Type ν} {B : Type μ}
    → (A → Effect E S B)
    → Result E A × S
    → Call (Result E B × S)
on_result f (ok a, s) = f a s
on_result f (err e, s) = returned (err e, s)

-- The `>>=` of calls, where that of effects has its name.
abbrev pub after {ℓ κ} : {A : Type ℓ} {B : Type κ} → Call A → (A → Call B) → Call B
after m f = Calls.◌>>=◌ m f

infixl 5 ◌>>=◌ ◌>>◌
unfoldable pub ◌>>=◌ {ℓ κ ν μ} :
    {E : Type ℓ} {S : Type κ} {A : Type ν} {B : Type μ}
    → Effect E S A
    → (A → Effect E S B)
    → Effect E S B
(m >>= f) s = after (m s) (on_result f)

unfoldable pub ◌>>◌ {ℓ κ ν μ} :
    {E : Type ℓ} {S : Type κ} {A : Type ν} {B : Type μ} → Effect E S A → Effect E S B → Effect E S B
(m >> k) s = after (m s) (on_result (λ a. k))

unfoldable pub done {ℓ κ ν} : {E : Type ℓ} {S : Type κ} {A : Type ν} → A → Effect E S A
done a s = returned (ok a, s)

unfoldable pub fail {ℓ κ ν} : {E : Type ℓ} {S : Type κ} {A : Type ν} → E → Effect E S A
fail e s = returned (err e, s)

-- A call that may panic, as an effect.
unfoldable pub calls {ℓ κ ν} : {E : Type ℓ} {S : Type κ} {A : Type ν} → Call A → Effect E S A
calls m s = after m (λ a. returned (ok a, s))
