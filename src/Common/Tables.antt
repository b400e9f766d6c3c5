-- ===== src/Common/Tables.antt =====
-- Tables as lists of rows: updates, counts and tests by a condition, and the order of a query.
use Prim.Native.Nat.{ℕ, ◌+◌}
use mathlib.Core.Bool.{Bool, true, false, ◌||◌}
use mathlib.Core.List.{List, [], ◌∷◌}
use bellman.Common.Tests.{if◌then◌else◌}
use bellman.Common.Lists.{All}

module _ {ℓ} {A : Type ℓ} where
  -- `UPDATE … SET … WHERE …`: the table after it, and the number of rows that it changed.
  unfoldable pub update_where : (A → Bool) → (A → A) → List A → List A
  update_where test change [] = []
  update_where test change (r ∷ rows) =
      (if test r then change r else r) ∷ update_where test change rows

  unfoldable pub count_where : (A → Bool) → List A → ℕ
  count_where test [] = 0
  count_where test (r ∷ rows) = (if test r then 1 else 0) + count_where test rows

  unfoldable pub any_where : (A → Bool) → List A → Bool
  any_where test [] = false
  any_where test (r ∷ rows) = test r || any_where test rows

  -- `WHERE …` of a query, and of a removal with the opposite test.
  unfoldable pub keep_where : (A → Bool) → List A → List A
  keep_where test [] = []
  keep_where test (r ∷ rows) = let rest = keep_where test rows in if test r then r ∷ rest else rest

  -- `ORDER BY`: a row goes in front of the first row that it may precede.
  unfoldable pub insert_by : (A → A → Bool) → A → List A → List A
  insert_by before r [] = r ∷ []
  insert_by before r (q ∷ rows) =
      let rest = insert_by before r rows in if before r q then r ∷ q ∷ rows else q ∷ rest

  unfoldable pub order_by : (A → A → Bool) → List A → List A
  unfolding insert_by
  order_by before [] = []
  order_by before (r ∷ rows) = insert_by before r (order_by before rows)

  module _ {κ} (P : A → Type κ) where
    All-if :
        (b : Bool) (r : A) (rows : List A) → P r → All P rows → All P (if b then r ∷ rows else rows)
    All-if true r rows p all = (p, all)
    All-if false r rows p all = all

    -- What holds of all rows holds of those that a query returns.
    pub All-keep_where :
        (test : A → Bool) (rows : List A) → All P rows → All P (keep_where test rows)
    unfolding keep_where
    All-keep_where test [] all = tt
    All-keep_where test (r ∷ rows) all =
        All-if (test r) r (keep_where test rows) all.0 (All-keep_where test rows all.1)
