-- ===== src/Common/Runs.antt =====
-- Runs: finite sequences of steps of a relation.
module _ {ℓ} {A : Type ℓ} where
  -- The steps go from left to right.
  pub data Steps {κ} (R : A → A → Type κ) : A → A → Type (ℓ ⊔ κ) where
    done : {s : A} → Steps R s s
    and_then : {s t u : A} → R s t → Steps R t u → Steps R s u

  -- What every step keeps holds at the end of a run.
  pub Steps-invariant {κ μ} :
      {R : A → A → Type κ} {P : A → Type μ}
      → ((s t : A) → R s t → P s → P t)
      → {s t : A} → Steps R s t
      → P s
      → P t
  Steps-invariant keep done p = p
  Steps-invariant keep (and_then r rs) p = Steps-invariant keep rs (keep _ _ r p)

  pub Steps_trans {κ} : {R : A → A → Type κ} {s t u : A} → Steps R s t → Steps R t u → Steps R s u
  Steps_trans done q = q
  Steps_trans (and_then r rs) q = and_then r (Steps_trans rs q)
