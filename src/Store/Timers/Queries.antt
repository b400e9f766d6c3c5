-- ===== src/Store/Timers/Queries.antt =====
-- The query of due timers: timers_due_by in crates/bellman-core/src/store/mod.rs.
use bellman.Common.{
  refl, ap, ◌∙◌, fun_ext, ◌<◌, ◌≤◌, ◌⊎◌, false, leb, Option, none, some, [], ◌∷◌, unwrap_or, ℕ, ◌≡◌,
  arith, Bool, true, ◌&&◌, All, count_where, keep_where, IsOrdered, IsOrder, order_by-IsOrdered,
  All-order_by, count-query, keep_where-passes,
}
use bellman.Store.Models.{Timer}
use bellman.Store.Timers.{Timers, timers_due_by, is_due_by, fires_by, by_fire}

by_fire-IsOrder : IsOrder by_fire
unfolding by_fire
by_fire-IsOrder = record { total = λ r q h. ground arith; trans = λ r q p h k. ground arith }

-- A timer that is enabled and has its next fire at the horizon or before.
abbrev pub IsDue : ℕ → Timer → Type 0
IsDue horizon t = (t.enabled ≡ true) × (at : ℕ) × (t.next_fire_utc ≡ some at) × (at ≤ horizon)

-- What a timer adds to a count of the due timers.
abbrev pub due_at : ℕ → Bool → Option ℕ → Bool
due_at horizon false next = false
due_at horizon true none = false
due_at horizon true (some at) = leb at horizon

-- A timer comes before one with a later fire, and with the same fire before one with a greater id.
abbrev pub Precedes : Timer → Timer → Type 0
Precedes t u =
    (a b : ℕ)
    → t.next_fire_utc ≡ some a
    → u.next_fire_utc ≡ some b
    → (a < b) ⊎ ((a ≡ b) × (t.id ≤ u.id))

-- Each element comes before all later ones.
abbrev pub IsSorted : Timers → Type 0
IsSorted [] = Unit
IsSorted (t ∷ rows) = All (λ u. Precedes t u) rows × IsSorted rows

mapped :
    (P Q : Timer → Type 0) (rows : Timers) → ((t : Timer) → P t → Q t) → All P rows → All Q rows
mapped P Q [] f all = tt
mapped P Q (t ∷ rows) f (p, all) = (f t p, mapped P Q rows f all)

is_due_by-IsDue :
    (horizon : ℕ) (t : Timer) (next : Option ℕ)
    → t.next_fire_utc ≡ next
    → is_due_by horizon t ≡ true
    → IsDue horizon t
is_due_by-IsDue horizon t none e h = absurd (ground (arith, e))
is_due_by-IsDue horizon t (some at) e h = (ground arith, at, e, ground (arith, e))

by_fire-Precedes : (t u : Timer) → by_fire t u ≡ true → Precedes t u
unfolding by_fire
by_fire-Precedes t u h a b ea eb =
    fire_order (ap (λ n. unwrap_or n 0) ea) (ap (λ n. unwrap_or n 0) eb)
  where
    fire_order :
        unwrap_or t.next_fire_utc 0 ≡ a
        → unwrap_or u.next_fire_utc 0 ≡ b
        → (a < b) ⊎ ((a ≡ b) × (t.id ≤ u.id))
    fire_order same same' = ground arith

IsOrdered-IsSorted : (rows : Timers) → IsOrdered by_fire rows → IsSorted rows
IsOrdered-IsSorted [] all = tt
IsOrdered-IsSorted (t ∷ rows) (first, all) = (
  mapped (λ u. by_fire t u ≡ true) (Precedes t) rows (by_fire-Precedes t) first,
  IsOrdered-IsSorted rows all,
)

same_due :
    (horizon : ℕ) (enabled : Bool) (next : Option ℕ)
    → enabled && fires_by horizon next ≡ due_at horizon enabled next
same_due horizon true none = refl
same_due horizon true (some at) = refl
same_due horizon false next = refl

-- The query returns enabled timers with a fire by the horizon, ordered by their next fire and then by id;
-- each such row comes out as often as the table has it, whatever Boolean test tells the rows apart.
pub timers_due_by-exact :
    (horizon : ℕ) (rows : Timers)
    → All (λ t. IsDue horizon t) (timers_due_by horizon rows)
      × IsSorted (timers_due_by horizon rows)
      × ((test : Timer → Bool)
          → count_where test (timers_due_by horizon rows)
            ≡ count_where (λ t. due_at horizon t.enabled t.next_fire_utc && test t) rows)
unfolding timers_due_by
timers_due_by-exact horizon rows = (
  mapped (λ t. is_due_by horizon t ≡ true) (λ t. IsDue horizon t) (timers_due_by horizon rows)
      (λ t h. is_due_by-IsDue horizon t t.next_fire_utc refl h)
      (All-order_by by_fire _ _ (keep_where-passes (is_due_by horizon) rows)),
  IsOrdered-IsSorted (timers_due_by horizon rows)
      (order_by-IsOrdered by_fire by_fire-IsOrder (keep_where (is_due_by horizon) rows)),
  λ test.
      count-query by_fire test (is_due_by horizon) rows
      ∙ ap (λ (due : Timer → Bool). count_where (λ t. due t && test t) rows)
          (fun_ext (λ (t : Timer). same_due horizon t.enabled t.next_fire_utc)),
)
