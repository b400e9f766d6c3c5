-- ===== src/Common/Queries.antt =====
-- What a query returns: the rows that pass its condition, in its order.
use Prim.Native.Nat.{◌+◌}
use mathlib.Core.Path.{◌≡◌, refl}
use mathlib.Core.Bool.{Bool, true, false, ◌&&◌}
use mathlib.Core.List.{List, [], ◌∷◌}
use native.Mathlib.Omega.{arith}
use bellman.Common.Tests.{if◌then◌else◌, if_cases}
use bellman.Common.Lists.{All}
use bellman.Common.Tables.{count_where, keep_where, insert_by, order_by}

module _ {ℓ} {A : Type ℓ} where
  -- Each row may precede all later ones.
  abbrev pub IsOrdered : (A → A → Bool) → List A → Type ℓ
  IsOrdered before [] = Unit
  IsOrdered before (r ∷ rows) = All (λ q. before r q ≡ true) rows × IsOrdered before rows

  -- A total and transitive order of rows.
  pub record IsOrder (before : A → A → Bool) : Type ℓ where
    pub total : (r q : A) → before r q ≡ false → before q r ≡ true
    pub trans : (r q p : A) → before r q ≡ true → before q p ≡ true → before r p ≡ true

  All-map {κ μ} :
      {P : A → Type κ} (Q : A → Type μ) (rows : List A)
      → ((r : A) → P r → Q r)
      → All P rows
      → All Q rows
  All-map Q [] f all = tt
  All-map Q (r ∷ rows) f all = (f r all.0, All-map Q rows f all.1)

  module _ (before : A → A → Bool) where
    count-insert_by :
        (test : A → Bool) (r : A) (rows : List A)
        → count_where test (insert_by before r rows)
          ≡ (if test r then 1 else 0) + count_where test rows
    unfolding count_where insert_by
    count-insert_by test r [] = refl
    count-insert_by test r (q ∷ rows) = ground (arith, count-insert_by test r rows)

    count-order_by :
        (test : A → Bool) (rows : List A)
        → count_where test (order_by before rows) ≡ count_where test rows
    unfolding count_where order_by
    count-order_by test [] = refl
    count-order_by test (r ∷ rows) =
        omega (arith, count-insert_by test r (order_by before rows), count-order_by test rows)

    All-insert_by {κ} :
        (P : A → Type κ) (r : A) (rows : List A)
        → P r
        → All P rows
        → All P (insert_by before r rows)
    unfolding insert_by
    All-insert_by P r [] p all = (p, tt)
    All-insert_by P r (q ∷ rows) p all =
        if_cases (All P) (before r q) (λ e. (p, all)) (λ e. (all.0, All-insert_by P r rows p all.1))

    pub All-order_by {κ} :
        (P : A → Type κ) (rows : List A) → All P rows → All P (order_by before rows)
    unfolding order_by
    All-order_by P [] all = tt
    All-order_by P (r ∷ rows) all =
        All-insert_by P r (order_by before rows) all.0 (All-order_by P rows all.1)

    module _ (order : IsOrder before) where
      insert_by-IsOrdered :
          (r : A) (rows : List A)
          → IsOrdered before rows
          → IsOrdered before (insert_by before r rows)
      unfolding insert_by
      insert_by-IsOrdered r [] all = (tt, tt)
      insert_by-IsOrdered r (q ∷ rows) all =
          if_cases (IsOrdered before) (before r q)
            (λ e. ((e, All-map _ rows (λ p h. order.trans r q p e h) all.0), all))
            (λ e. (
              All-insert_by (λ p. before q p ≡ true) r rows (order.total r q e) all.0,
              insert_by-IsOrdered r rows all.1,
            ))

      pub order_by-IsOrdered : (rows : List A) → IsOrdered before (order_by before rows)
      unfolding order_by
      order_by-IsOrdered [] = tt
      order_by-IsOrdered (r ∷ rows) =
          insert_by-IsOrdered r (order_by before rows) (order_by-IsOrdered rows)

  count-keep_where :
      (test keep : A → Bool) (rows : List A)
      → count_where test (keep_where keep rows) ≡ count_where (λ r. keep r && test r) rows
  unfolding count_where keep_where
  count-keep_where test keep [] = refl
  count-keep_where test keep (r ∷ rows) = ground (arith, count-keep_where test keep rows)

  -- The query returns each row that passes its condition as often as the table has it.
  pub count-query :
      (before : A → A → Bool) (test keep : A → Bool) (rows : List A)
      → count_where test (order_by before (keep_where keep rows))
        ≡ count_where (λ r. keep r && test r) rows
  count-query before test keep rows =
      omega
        (arith, count-order_by before test (keep_where keep rows), count-keep_where test keep rows)

  pub keep_where-passes :
      (keep : A → Bool) (rows : List A) → All (λ r. keep r ≡ true) (keep_where keep rows)
  unfolding keep_where
  keep_where-passes keep [] = tt
  keep_where-passes keep (r ∷ rows) =
      if_cases (All (λ p. keep p ≡ true)) (keep r) (λ e. (e, keep_where-passes keep rows))
        (λ e. keep_where-passes keep rows)
