-- ===== src/Occurrence/NextFire/Searches.antt =====
-- The loop of `next_fire` as a relation, without its bound on the candidates.
use bellman.Common.{
  ℕ, zero, suc, ◌+◌, ◌≤◌, ◌≡◌, refl, arith, Option, none, some, Call, returned, Ensures, returns,
  Ensures->>=, Ensures-eq, Ensures-mono, OnSome,
}
use bellman.Occurrence.Chrono.{Chrono, CronIsExclusive}
use bellman.Occurrence.Schedule.{Occurrence}
use bellman.Occurrence.Candidates.{raw_next_after}
use bellman.Occurrence.Candidates.Later.{raw_next_after-Ensures}
use bellman.Occurrence.NextFire.{
  try_next, jump_day, skip_one, fire, judge, consume, or_candidate, jump_past_exclusion_day,
  fire_from,
}
use bellman.Occurrence.NextFire.Admissible.{DatesInOrder, jump-Ensures}
use bellman.Occurrence.NextFire.Order.{on_found-Ensures}

-- A search that ends in a fire, as a relation: the rounds it takes, the cursor and the skips at its
-- start, the fire, and the skips at its end.
pub data Search (c : Chrono) (o : Occurrence) : ℕ → ℕ → ℕ → ℕ → ℕ → Type 0 where
  fires :
      {cursor skipped t : ℕ}
      → raw_next_after c o cursor ≡ returned (some t)
      → judge o skipped t ≡ fire
      → Search c o (suc zero) cursor skipped t skipped
  passes :
      {n cursor skipped candidate t s : ℕ}
      → raw_next_after c o cursor ≡ returned (some candidate)
      → judge o skipped candidate ≡ try_next
      → Search c o n candidate skipped t s
      → Search c o (suc n) cursor skipped t s
  jumps :
      {n cursor skipped candidate t s : ℕ} (jumped : Option ℕ)
      → raw_next_after c o cursor ≡ returned (some candidate)
      → judge o skipped candidate ≡ jump_day
      → jump_past_exclusion_day c o candidate ≡ returned jumped
      → Search c o n (or_candidate jumped candidate) skipped t s
      → Search c o (suc n) cursor skipped t s
  skips :
      {n cursor skipped candidate t s : ℕ}
      → raw_next_after c o cursor ≡ returned (some candidate)
      → judge o skipped candidate ≡ skip_one
      → Search c o n candidate (skipped + 1) t s
      → Search c o (suc n) cursor skipped t s

module _ (c : Chrono) (o : Occurrence) where
  -- The loop runs such a search whenever its candidates suffice.
  pub fire_from_complete :
      {m cursor skipped t s : ℕ}
      → Search c o m cursor skipped t s
      → (n : ℕ) → m ≤ n
      → fire_from c n o cursor skipped ≡ returned (some t, consume o s)
  unfolding fire_from
  fire_from_complete (fires r j) zero h = absurd (omega arith)
  fire_from_complete (passes r j rest) zero h = absurd (omega arith)
  fire_from_complete (jumps jumped r j e rest) zero h = absurd (omega arith)
  fire_from_complete (skips r j rest) zero h = absurd (omega arith)
  fire_from_complete (fires r j) (suc n) h = rw r (rw j)
  fire_from_complete (passes r j rest) (suc n) h =
      rw r (rw j (fire_from_complete rest n (omega arith)))
  fire_from_complete (jumps jumped r j e rest) (suc n) h =
      rw r (rw j (rw e (fire_from_complete rest n (omega arith))))
  fire_from_complete (skips r j rest) (suc n) h =
      rw r (rw j (fire_from_complete rest n (omega arith)))

-- What a fire of the loop says: there is such a search.
abbrev pub SearchResult : Chrono → Occurrence → ℕ → ℕ → ℕ → Option ℕ × Occurrence → Type 0
SearchResult c o n cursor skipped (none, o') = Unit
SearchResult c o n cursor skipped (some t, o') =
    (m : ℕ) × (s : ℕ) × (m ≤ n) × Search c o m cursor skipped t s × (o' ≡ consume o s)

found_at {ℓ} :
    {A : Type ℓ} (m : Call (Option A)) (found : Option A)
    → m ≡ returned found
    → OnSome (λ t. m ≡ returned (some t)) found
found_at m none e = tt
found_at m (some t) e = e

-- One round more in front of a search.
longer :
    (c : Chrono) (o : Occurrence) (n cursor skipped low k : ℕ) (r : Option ℕ × Occurrence)
    → ((m t s : ℕ) → Search c o m low k t s → Search c o (suc m) cursor skipped t s)
    → SearchResult c o n low k r
    → SearchResult c o (suc n) cursor skipped r
longer c o n cursor skipped low k (none, o') step h = tt
longer c o n cursor skipped low k (some t, o') step (m, s, le, found, e) =
    (suc m, s, omega arith, step m t s found, e)

module _ (c : Chrono) (o : Occurrence) (law : CronIsExclusive c) (order : DatesInOrder o.tz) where
  pub fire_from_sound :
      (n cursor skipped : ℕ)
      → Ensures (SearchResult c o n cursor skipped) (fire_from c n o cursor skipped)
  unfolding fire_from
  fire_from_sound zero cursor skipped = returns tt
  fire_from_sound (suc n) cursor skipped =
      Ensures->>= _ (Ensures-eq _ (raw_next_after-Ensures c o cursor law)) λ found (_, e).
        on_found-Ensures _ (λ t s. fire_from c n o t s) o (λ t. jump_past_exclusion_day c o t)
          skipped found (found_at (raw_next_after c o cursor) found e) tt
          (λ t r j.
            Ensures-mono _ (fire_from_sound n t skipped)
              (λ f. longer c o n cursor skipped t skipped f (λ m u s. passes r j)))
          (λ t r j. Ensures->>= _ (Ensures-eq _ (jump-Ensures c o order t)) λ jumped (_, e).
            Ensures-mono _ (fire_from_sound n (or_candidate jumped t) skipped)
              (λ f. longer c o n cursor skipped _ skipped f (λ m u s. jumps jumped r j e)))
          (λ t r j.
            Ensures-mono _ (fire_from_sound n t (skipped + 1))
              (λ f. longer c o n cursor skipped t (skipped + 1) f (λ m u s. skips r j)))
          (λ t r j. (suc zero, skipped, omega arith, fires r j, refl))
