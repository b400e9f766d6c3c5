-- ===== src/Occurrence/NextFire/Order.antt =====
-- The search of `next_fire`: that it ends, what it returns, and what it consumes.
use bellman.Common.{
  ℕ, zero, suc, ◌+◌, ◌<◌, ◌≤◌, ◌≡◌, refl, ap, arith, Option, none, some, Call, ◌>>=◌, returns,
  Ensures, Ensures-if, Ensures->>=, Ensures-mono, OnSome, ◌+◌, ◌⊎◌, inl, inr, true, false,
}
use bellman.Occurrence.Chrono.{Chrono, CronIsExclusive}
use bellman.Occurrence.Schedule.{Occurrence}
use bellman.Occurrence.Candidates.Later.{raw_next_after-Ensures}
use bellman.Occurrence.NextFire.{
  Verdict, give_up, try_next, jump_day, skip_one, fire, judge, consume, or_candidate, is_spent,
  search_floor, jump_past_exclusion_day, fire_from, on_verdict, on_found, next_fire, max_candidates,
}
use bellman.Occurrence.NextFire.Admissible.{
  DatesInOrder, IsAdmissible, judge-fire, IsAdmissible-of, jump-Ensures,
}

-- A fire is later than `low` and admissible, and uses up every pending skip. Without a fire some
-- skips may be gone. Nothing else of the schedule changes.
abbrev pub FireResult : Occurrence → ℕ → Option ℕ × Occurrence → Type 0
FireResult o low (none, o') =
    (o' ≡ record o { pending_skips = o'.pending_skips }) × (o'.pending_skips ≤ o.pending_skips)
FireResult o low (some t, o') = (low < t) × IsAdmissible o t × (o' ≡ record o { pending_skips = 0 })

-- A round keeps a postcondition that holds of its ways out and of the rest of the loop.
pub on_found-Ensures {κ μ} :
    {P : ℕ → Type μ} (Q : Option ℕ × Occurrence → Type κ)
    (again : ℕ → ℕ → Call (Option ℕ × Occurrence)) (o : Occurrence) (jump : ℕ → Call (Option ℕ))
    (skipped : ℕ) (found : Option ℕ)
    → OnSome P found
    → Q (none, consume o skipped)
    → ((t : ℕ) → P t → judge o skipped t ≡ try_next → Ensures Q (again t skipped))
    → ((t : ℕ)
        → P t
        → judge o skipped t ≡ jump_day
        → Ensures Q (jump t >>= λ jumped. again (or_candidate jumped t) skipped))
    → ((t : ℕ) → P t → judge o skipped t ≡ skip_one → Ensures Q (again t (skipped + 1)))
    → ((t : ℕ) → P t → judge o skipped t ≡ fire → Q (some t, consume o skipped))
    → Ensures Q (on_found again o jump skipped found)
unfolding on_found
on_found-Ensures Q again o jump skipped none p q1 q2 q3 q4 q5 = returns q1
on_found-Ensures Q again o jump skipped (some t) p q1 q2 q3 q4 q5 =
    by_verdict (judge o skipped t) (q2 t p) (q3 t p) (q4 t p) (q5 t p)
  where
    by_verdict :
        (v : Verdict)
        → (v ≡ try_next → Ensures Q (again t skipped))
        → (v ≡ jump_day → Ensures Q (jump t >>= λ jumped. again (or_candidate jumped t) skipped))
        → (v ≡ skip_one → Ensures Q (again t (skipped + 1)))
        → (v ≡ fire → Q (some t, consume o skipped))
        → Ensures Q (on_verdict again o (jump t) skipped t v)
    by_verdict give_up h2 h3 h4 h5 = returns q1
    by_verdict try_next h2 h3 h4 h5 = h2 refl
    by_verdict jump_day h2 h3 h4 h5 = h3 refl
    by_verdict skip_one h2 h3 h4 h5 = h4 refl
    by_verdict fire h2 h3 h4 h5 = returns (h5 refl)

or_candidate-le :
    (jumped : Option ℕ) (candidate low : ℕ)
    → low ≤ candidate
    → OnSome (λ t. candidate ≤ t) jumped
    → low ≤ or_candidate jumped candidate
or_candidate-le none candidate low h j = h
or_candidate-le (some t) candidate low h j = omega arith

module _ (c : Chrono) (o : Occurrence) (low : ℕ) where
  no_fire : (skipped : ℕ) → FireResult o low (none, consume o skipped)
  unfolding consume
  no_fire skipped = (refl, omega arith)

  one_fire :
      (skipped t : ℕ)
      → low < t
      → judge o skipped t ≡ fire
      → FireResult o low (some t, consume o skipped)
  unfolding consume
  one_fire skipped t h e =
      let (_, _, _, spent) = judge-fire o skipped t e in
      (
        h,
        IsAdmissible-of o skipped t e,
        ap (λ k. record o { pending_skips = k }) (omega (arith, spent)),
      )

  module _ (law : CronIsExclusive c) (order : DatesInOrder o.tz) where
    pub fire_from-Ensures :
        (left cursor skipped : ℕ)
        → low ≤ cursor
        → Ensures (FireResult o low) (fire_from c left o cursor skipped)
    unfolding fire_from
    fire_from-Ensures zero cursor skipped h = returns (no_fire skipped)
    fire_from-Ensures (suc left) cursor skipped h =
        Ensures->>= _ (raw_next_after-Ensures c o cursor law) λ found later.
          on_found-Ensures _ (λ t s. fire_from c left o t s) o (λ t. jump_past_exclusion_day c o t)
            skipped found later (no_fire skipped)
            (λ t after _. fire_from-Ensures left t skipped (omega (arith, after)))
            (λ t after _. Ensures->>= _ (jump-Ensures c o order t) λ jumped j.
              fire_from-Ensures left (or_candidate jumped t) skipped
                (or_candidate-le jumped t low (omega (arith, after)) j))
            (λ t after _. fire_from-Ensures left t (skipped + 1) (omega (arith, after)))
            (λ t after e. one_fire skipped t (omega (arith, after)) e)

pub search_floor-le : (from : Option ℕ) (after : ℕ) → after ≤ search_floor from after
search_floor-le none after = omega arith
search_floor-le (some from) after = ground arith

-- Fewer runs were recorded than the cap allows.
abbrev pub HasRunsLeft : Option ℕ → ℕ → Type 0
HasRunsLeft none runs_done = Unit
HasRunsLeft (some max) runs_done = runs_done < max

runs_left_of : (max : Option ℕ) (runs : ℕ) → is_spent max runs ≡ false → HasRunsLeft max runs
runs_left_of none runs h = tt
runs_left_of (some max) runs h = ground arith

spent_of : (max : Option ℕ) (runs : ℕ) → is_spent max runs ≡ true → ¬ HasRunsLeft max runs
spent_of none runs h left = cc
spent_of (some max) runs h left = ground arith

-- Nothing fires once the cap is reached, and then nothing changes.
abbrev pub NextFireResult : Occurrence → ℕ → Option ℕ × Occurrence → Type 0
NextFireResult o after (t, o') =
    (HasRunsLeft o.max_runs o.runs_done × FireResult o after (t, o'))
    ⊎ ((¬ HasRunsLeft o.max_runs o.runs_done) × (t ≡ none) × (o' ≡ o))

-- The search of `next_fire` always ends. While runs are left, a fire that it returns is strictly later
-- than `after`, lies inside the validity window and on no excluded date, and leaves the schedule
-- unchanged but for its pending skips, which are used up; without a fire at most skips are consumed.
-- With no run left there is no fire and nothing changes. The zone is assumed to have no fold over
-- midnight, and croner to search strictly after the given instant.
pub next_fire-Ensures :
    (c : Chrono) (o : Occurrence) (after : ℕ)
    → CronIsExclusive c
    → DatesInOrder o.tz
    → Ensures (NextFireResult o after) (next_fire c o after)
unfolding next_fire
next_fire-Ensures c o after law order =
    Ensures-if _ (is_spent o.max_runs o.runs_done)
      (λ spent. returns (inr (spent_of o.max_runs o.runs_done spent, refl, refl)))
      (λ left.
        Ensures-mono _
          (fire_from-Ensures c o after law order max_candidates (search_floor o.valid_from after) 0
            (search_floor-le o.valid_from after))
          (λ r f. inl (runs_left_of o.max_runs o.runs_done left, f)))
