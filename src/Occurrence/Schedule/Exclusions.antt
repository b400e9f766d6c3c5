-- ===== src/Occurrence/Schedule/Exclusions.antt =====
-- The excluded dates behave as a set.
use bellman.Common.{ℕ, ◌≡◌, arith, true, not, ◌&&◌, ◌||◌, List, [], ◌∷◌, contains, ◌==◌}
use bellman.Occurrence.Schedule.{Occurrence, exclude_date, clear_exclusion, remove_date}

contains-remove_date :
    (d e : ℕ) (xs : List ℕ) → contains d (remove_date e xs) ≡ (not (d == e)) && contains d xs
unfolding remove_date
contains-remove_date d e [] = ground arith
contains-remove_date d e (x ∷ xs) = ground (arith, contains-remove_date d e xs)

contains-same :
    (d e : ℕ) (xs : List ℕ) → (d == e) ≡ true → contains e xs ≡ true → contains d xs ≡ true
contains-same d e [] same h = h
contains-same d e (x ∷ xs) same h = ground (arith, contains-same d e xs)

contains-exclude_date :
    (o : Occurrence) (d e : ℕ)
    → contains d (exclude_date o e).exclusions ≡ (d == e) || contains d o.exclusions
unfolding exclude_date
contains-exclude_date o d e = ground (arith, contains-same d e o.exclusions)

-- A date is excluded after `exclude_date e` if it is `e` or was excluded before, and after
-- `clear_exclusion e` if it is not `e` and was excluded before.
exclusions_set :
    (o : Occurrence) (d e : ℕ)
    → (contains d (exclude_date o e).exclusions ≡ (d == e) || contains d o.exclusions)
      × (contains d (clear_exclusion o e).exclusions ≡ (not (d == e)) && contains d o.exclusions)
unfolding clear_exclusion
exclusions_set o d e = (contains-exclude_date o d e, contains-remove_date d e o.exclusions)
