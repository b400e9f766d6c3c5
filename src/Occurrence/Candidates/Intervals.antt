-- ===== src/Occurrence/Candidates/Intervals.antt =====
-- Interval candidates: multiples of the period past the anchor, in elapsed time.
use native.Mathlib.Decide.{dec_le}
use bellman.Common.{
  ℕ, suc, ◌+◌, ◌-◌, ◌*◌, ◌/◌, ◌<◌, ◌≤◌, ◌≡◌, refl, arith, none, some, returned, panicked, ◌⊎◌, inl,
  inr, i64_max,
}
use bellman.Occurrence.Chrono.{Chrono, second}
use bellman.Occurrence.Kind.{interval, validate}
use bellman.Occurrence.Candidates.{interval_offset, add_seconds, next_interval, next_interval_of}

-- The first multiple of the period past the time gone by.
abbrev IsNextMultiple : ℕ → ℕ → ℕ → Type 0
IsNextMultiple every elapsed secs =
    (secs ≡ (elapsed / every + 1) * every) × (elapsed < secs) × (secs ≤ elapsed + every)

multiple_bounds :
    (every elapsed : ℕ) → 0 < every → IsNextMultiple every elapsed ((elapsed / every + 1) * every)
multiple_bounds every elapsed h = (refl, grind arith, grind arith)

interval_offset-bounds :
    (every elapsed secs : ℕ)
    → 0 < every
    → interval_offset every elapsed ≡ some secs
    → IsNextMultiple every elapsed secs
unfolding interval_offset
interval_offset-bounds every elapsed secs h e = ground (arith, multiple_bounds every elapsed h)

interval_offset-fits :
    (every elapsed : ℕ)
    → 0 < every
    → elapsed + every ≤ i64_max
    → interval_offset every elapsed ≡ some ((elapsed / every + 1) * every)
unfolding interval_offset
interval_offset-fits every elapsed h fits =
    ground (arith, multiple_bounds every elapsed h, le_mul (elapsed / every + 1) every h)
  where
    le_mul : (n m : ℕ) → 0 < m → n ≤ n * m
    le_mul n m p = grind arith

-- The seconds between the anchor and the fire after `after`.
abbrev offset_of : ℕ → ℕ → ℕ → ℕ
offset_of every anchor after = ((after - anchor) / second / every + 1) * every

least_multiple : (p x j k : ℕ) → k * p ≤ x + p → x < j * p → k * p ≤ j * p
least_multiple p x j k h lt = elim (dec_le k j) [
  | yes le ↦ grind arith
  | no gt ↦ absurd (omega (arith, crossed (omega arith), lt, h))
]
  where
    crossed : suc j ≤ k → suc j * p ≤ k * p
    crossed le = grind arith

div_small : (e m : ℕ) → e < m → e / m ≡ 0
div_small e m h = grind arith

module _ (c : Chrono) where
  -- What `next_interval` returns past the anchor.
  next_interval_of-past :
      (every anchor after t : ℕ)
      → 0 < every
      → anchor ≤ after
      → next_interval_of c every anchor after ≡ returned (some t)
      → t ≡ anchor + offset_of every anchor after * second
  unfolding next_interval_of interval_offset
  next_interval_of-past every anchor after t h past e = ground arith

  -- Its two cases.
  next_interval-cases :
      (every_secs anchor after t : ℕ)
      → next_interval c every_secs anchor after ≡ returned (some t)
      → (0 < every_secs)
        × (((after < anchor) × (t ≡ anchor))
            ⊎ ((anchor ≤ after) × (t ≡ anchor + offset_of every_secs anchor after * second)))
  unfolding next_interval next_interval_of
  next_interval-cases every_secs anchor after t h =
      ground (arith, next_interval_of-past every_secs anchor after t)

  pub next_interval_later :
      (every_secs anchor after t : ℕ)
      → next_interval c every_secs anchor after ≡ returned (some t)
      → after < t
  next_interval_later every_secs anchor after t h =
      let (positive, cases) = next_interval-cases every_secs anchor after t h in
      ground (arith, positive, cases, multiple_bounds every_secs ((after - anchor) / second))

  -- An interval fires at the first instant anchor + k * period that lies strictly after `after`:
  -- what is returned is such an instant, and no other one after `after` is earlier.
  pub next_interval_least :
      (every_secs anchor after t : ℕ)
      → next_interval c every_secs anchor after ≡ returned (some t)
      → ((k : ℕ) × (t ≡ anchor + k * every_secs * second))
        × (after < t)
        × ((j : ℕ)
            → after < anchor + j * every_secs * second
            → t ≤ anchor + j * every_secs * second)
  next_interval_least every_secs anchor after t h =
      least_of (next_interval-cases every_secs anchor after t h)
    where
      elapsed : ℕ
      elapsed = (after - anchor) / second

      least_of :
          (0 < every_secs)
            × (((after < anchor) × (t ≡ anchor))
                ⊎ ((anchor ≤ after) × (t ≡ anchor + offset_of every_secs anchor after * second)))
          → ((k : ℕ) × (t ≡ anchor + k * every_secs * second))
            × (after < t)
            × ((j : ℕ)
                → after < anchor + j * every_secs * second
                → t ≤ anchor + j * every_secs * second)
      least_of (positive, inl (before, e)) = ((0, omega arith), omega arith, λ j lt. omega arith)
      least_of (positive, inr (past, e)) =
          let bounds = multiple_bounds every_secs elapsed positive in
          (
            (elapsed / every_secs + 1, e),
            omega (arith, bounds),
            λ j lt. omega (
              arith,
              least_multiple every_secs elapsed j (elapsed / every_secs + 1) (bounds.2)
                  (omega arith),
            ),
          )

  total_past :
      (every_secs anchor after : ℕ)
      → 0 < every_secs
      → (after - anchor) / second + every_secs ≤ i64_max / 1000
      → anchor ≤ after
      → after + every_secs * second ≤ c.last_instant
      → next_interval c every_secs anchor after
        ≡ returned (some (anchor + offset_of every_secs anchor after * second))
  unfolding next_interval next_interval_of add_seconds
  total_past every_secs anchor after h short past room = ground (
    arith,
    interval_offset-fits every_secs ((after - anchor) / second),
    multiple_bounds every_secs ((after - anchor) / second),
  )

  -- With a positive period it returns a fire, before the anchor and past it, if the seconds gone by since the
  -- anchor and the period together are at most i64::MAX / 1000, and the calendar goes on for a period past
  -- `after` and up to the anchor.
  pub next_interval_total :
      (every_secs anchor after : ℕ)
      → 0 < every_secs
      → (after - anchor) / second + every_secs ≤ i64_max / 1000
      → after + every_secs * second ≤ c.last_instant
      → (t : ℕ) × (next_interval c every_secs anchor after ≡ returned (some t))
  unfolding next_interval
  next_interval_total every_secs anchor after h short room = elim (dec_le anchor after) [
    | yes past ↦ (_, total_past every_secs anchor after h short past room)
    | no before ↦ (anchor, ground (arith, h, before))
  ]

  -- A period above i64::MAX / 1000 seconds and at most i64::MAX passes the validation of a kind, and a search
  -- less than a period past the anchor panics instead of returning nothing.
  pub next_interval_panics :
      (every_secs anchor after : ℕ)
      → i64_max / 1000 < every_secs
      → every_secs ≤ i64_max
      → anchor ≤ after
      → (after - anchor) / second < every_secs
      → (validate (interval every_secs anchor) ≡ none)
        × (next_interval c every_secs anchor after ≡ panicked)
  unfolding next_interval next_interval_of interval_offset add_seconds validate
  next_interval_panics every_secs anchor after long fits past first =
      (ground arith, ground (arith, div_small ((after - anchor) / second) every_secs))
