-- ===== src/Occurrence/NextFire/Skips.antt =====
-- Skipping the next occurrence is the same as letting it fire and asking again.
use bellman.Common.{
  ℕ, suc, ◌+◌, ◌<◌, ◌≤◌, ◌≡◌, refl, sym, ap, ◌∙◌, subst, arith, ◌≢◌, inl, inr, Option, none, some,
  Bool-cases, false, Call, returned, u32_max, Ensures-returned,
}
use bellman.Occurrence.Chrono.{Chrono, CronIsExclusive}
use bellman.Occurrence.Kind.{OccurrenceKind, once, interval, daily, weekly, monthly, yearly, cron}
use bellman.Occurrence.Schedule.{Occurrence, skip_next}
use bellman.Occurrence.Candidates.{
  next_once, next_daily, next_weekly, next_monthly, next_yearly, next_cron, raw_next_of,
  raw_next_after,
}
use bellman.Occurrence.NextFire.{
  Verdict, try_next, jump_day, skip_one, fire, judge, consume, is_spent, search_floor,
  jump_past_exclusion_day, fire_from, next_fire_within, next_fire, max_candidates,
}
use bellman.Occurrence.NextFire.Admissible.{DatesInOrder, StartsBy}
use bellman.Occurrence.NextFire.Searches.{
  Search, fires, passes, jumps, skips, fire_from_complete, fire_from_sound,
}
use bellman.Occurrence.NextFire.Order.{fire_from-Ensures}

-- The schedule with `k` skips pending.
abbrev with_skips : Occurrence → ℕ → Occurrence
with_skips o k = record o { pending_skips = k }

module _ (c : Chrono) (o : Occurrence) (k : ℕ) where
  raw_next_of-with_skips :
      (kind : OccurrenceKind) (t : ℕ)
      → raw_next_of c kind (with_skips o k) t ≡ raw_next_of c kind o t
  unfolding raw_next_of next_once next_daily next_weekly next_monthly next_yearly next_cron
  raw_next_of-with_skips (once at) t = refl
  raw_next_of-with_skips (interval every_secs anchor) t = refl
  raw_next_of-with_skips (daily at) t = refl
  raw_next_of-with_skips (weekly days at) t = refl
  raw_next_of-with_skips (monthly day at) t = refl
  raw_next_of-with_skips (yearly month day at) t = refl
  raw_next_of-with_skips (cron expr) t = refl

  -- Pending skips do not matter to the candidates.
  raw_next_after-with_skips : (t : ℕ) → raw_next_after c (with_skips o k) t ≡ raw_next_after c o t
  unfolding raw_next_after
  raw_next_after-with_skips t = raw_next_of-with_skips o.kind t

  jump-with_skips :
      (t : ℕ) → jump_past_exclusion_day c (with_skips o k) t ≡ jump_past_exclusion_day c o t
  unfolding jump_past_exclusion_day
  jump-with_skips t = refl

-- One skip more than `o` has pending.
abbrev one_more : Occurrence → Occurrence
one_more o = with_skips o (o.pending_skips + 1)

judge-past :
    (o : Occurrence) (k t : ℕ)
    → judge (one_more o) (o.pending_skips + 1) t ≡ judge (with_skips o 0) k t
unfolding judge
judge-past o k t = ground arith

judge-no_skip : (o : Occurrence) (k t : ℕ) → judge (with_skips o 0) k t ≢ skip_one
unfolding judge
judge-no_skip o k t e = ground arith

judge-fire_skips :
    (o : Occurrence) (k t : ℕ)
    → k ≤ o.pending_skips
    → judge o k t ≡ fire
    → (judge (one_more o) k t ≡ skip_one) × (k ≡ o.pending_skips)
unfolding judge
judge-fire_skips o k t h e = ground arith

judge-skip_lt : (o : Occurrence) (k t : ℕ) → judge o k t ≡ skip_one → k + 1 ≤ o.pending_skips
unfolding judge
judge-skip_lt o k t e = ground arith

judge-same :
    (o : Occurrence) (k t : ℕ) (v : Verdict)
    → judge o k t ≡ v
    → v ≢ fire
    → judge (one_more o) k t ≡ v
unfolding judge
judge-same o k t v e h = ground arith

module _ (c : Chrono) (o : Occurrence) where
  -- The candidates and the jumps do not see the skips.
  raw_more :
      (cursor k l : ℕ) {r : Call (Option ℕ)}
      → raw_next_after c (with_skips o k) cursor ≡ r
      → raw_next_after c (with_skips o l) cursor ≡ r
  raw_more cursor k l e =
      raw_next_after-with_skips c o l cursor ∙ sym (raw_next_after-with_skips c o k cursor) ∙ e

  -- With all its skips behind it the search goes on as if there had been none.
  Search-past :
      {m cursor k t s : ℕ}
      → Search c (with_skips o 0) m cursor k t s
      → Search c (one_more o) m cursor (o.pending_skips + 1) t (o.pending_skips + 1)
  Search-past {k = k} {t = t} (fires r j) =
      fires (raw_more _ 0 (o.pending_skips + 1) r) (judge-past o k t ∙ j)
  Search-past {k = k} (passes {candidate = d} r j rest) =
      passes (raw_more _ 0 (o.pending_skips + 1) r) (judge-past o k d ∙ j) (Search-past rest)
  Search-past {k = k} (jumps {candidate = d} jumped r j e rest) =
      jumps jumped (raw_more _ 0 (o.pending_skips + 1) r) (judge-past o k d ∙ j)
        (jump-with_skips c o (o.pending_skips + 1) d ∙ sym (jump-with_skips c o 0 d) ∙ e)
        (Search-past rest)
  Search-past {k = k} (skips {candidate = d} r j rest) = absurd (judge-no_skip o k d j)

  -- Up to its fire a search goes the same way with one skip more; the fire is skipped.
  Search-through :
      {m cursor k t s : ℕ}
      → Search c o m cursor k t s
      → (n u v : ℕ) → k ≤ o.pending_skips
      → Search c (one_more o) n t (o.pending_skips + 1) u v
      → (r : ℕ) × (r ≤ m + n) × Search c (one_more o) r cursor k u v
  Search-through {k = k} {t = t} (fires r j) n u v h rest =
      let (j', k≡) = judge-fire_skips o k t h j in
      (
        suc n,
        omega arith,
        skips (raw_next_after-with_skips c o (o.pending_skips + 1) _ ∙ r) j'
            (subst (λ p. Search c (one_more o) n t (p + 1) u v) (sym k≡) rest),
      )
  Search-through {k = k} (passes {candidate = d} r j found) n u v h rest =
      let (m, le, search') = Search-through found n u v h rest in
      (
        suc m,
        omega arith,
        passes (raw_next_after-with_skips c o (o.pending_skips + 1) _ ∙ r)
            (judge-same o k d try_next j (λ e. cc)) search',
      )
  Search-through {k = k} (jumps {candidate = d} jumped r j e found) n u v h rest =
      let (m, le, search') = Search-through found n u v h rest in
      (
        suc m,
        omega arith,
        jumps jumped (raw_next_after-with_skips c o (o.pending_skips + 1) _ ∙ r)
            (judge-same o k d jump_day j (λ e. cc))
            (jump-with_skips c o (o.pending_skips + 1) d ∙ e) search',
      )
  Search-through {k = k} (skips {candidate = d} r j found) n u v h rest =
      let (m, le, search') = Search-through found n u v (judge-skip_lt o k d j) rest in
      (
        suc m,
        omega arith,
        skips (raw_next_after-with_skips c o (o.pending_skips + 1) _ ∙ r)
            (judge-same o k d skip_one j (λ e. cc)) search',
      )

floor_of_started : (from : Option ℕ) (t : ℕ) → StartsBy from t → search_floor from t ≡ t
floor_of_started none t h = refl
floor_of_started (some from) t h = ground arith

module _ (c : Chrono) where
  -- A search that fires had runs left, and is a run of the loop.
  within_fires :
      (n : ℕ) (o : Occurrence) (after t : ℕ) (o' : Occurrence)
      → next_fire_within c n o after ≡ returned (some t, o')
      → (is_spent o.max_runs o.runs_done ≡ false)
        × (fire_from c n o (search_floor o.valid_from after) 0 ≡ returned (some t, o'))
  unfolding next_fire_within
  within_fires n o after t o' h = elim (Bool-cases (is_spent o.max_runs o.runs_done)) [
    | inl spent ↦
        let bad : ◌≡◌ {A = Call (Option ℕ × Occurrence)} (returned (none, o))
            (returned (some t, o')) =
          rw spent at h in
        cc
    | inr live ↦ (live, (rw live at h))
  ]

  within_live :
      (n : ℕ) (o : Occurrence) (after : ℕ)
      → is_spent o.max_runs o.runs_done ≡ false
      → next_fire_within c n o after ≡ fire_from c n o (search_floor o.valid_from after) 0
  unfolding next_fire_within
  within_live n o after live = rw live

  -- The two searches, put together.
  skipped_search :
      (o o2 : Occurrence) (n m floor t u : ℕ)
      → CronIsExclusive c
      → DatesInOrder o.tz
      → fire_from c n o floor 0 ≡ returned (some t, with_skips o 0)
      → fire_from c m (with_skips o 0) t 0 ≡ returned (some u, o2)
      → n + m ≤ max_candidates
      → fire_from c max_candidates (one_more o) floor 0 ≡ returned (some u, o2)
  unfolding consume
  skipped_search o o2 n m floor t u law order first second fits =
      let (m1, s1, le1, found1, e1) =
        Ensures-returned _ (some t, with_skips o 0) (fire_from_sound c o law order n floor 0)
          first in
      let (m2, s2, le2, found2, e2) =
        Ensures-returned _ (some u, o2) (fire_from_sound c (with_skips o 0) law order m t 0)
          second in
      let (r, le, found) =
        Search-through c o found1 m2 u (o.pending_skips + 1) (omega arith)
          (Search-past c o found2) in
      fire_from_complete c (one_more o) found max_candidates (omega arith)
      ∙ ap (λ w. returned (some u, w)) (spent_skips s2 ∙ sym e2)
    where
      spent_skips :
          (s : ℕ) → consume (one_more o) (o.pending_skips + 1) ≡ consume (with_skips o 0) s
      spent_skips s = ap (with_skips o) (omega arith)

skip_next-one_more : (o : Occurrence) → o.pending_skips < u32_max → skip_next o ≡ one_more o
unfolding skip_next
skip_next-one_more o h = ap (with_skips o) (omega arith)

-- Skipping the next occurrence is the same as letting it fire and asking again. If a first search finds
-- `t` within `n` candidates and leaves the schedule `o1`, and the search of `o1` past `t` finds `u`
-- within `m` candidates and leaves `o2`, then the schedule with `skip_next` fires next at `u` and leaves
-- `o2`, as long as n + m is within the candidate cap and fewer than 2^32 - 1 skips are pending. No run is
-- recorded in between. The zone is assumed to have no fold over midnight, and croner to search strictly after
-- the given instant.
pub next_fire-skip_next :
    (c : Chrono) (o o1 o2 : Occurrence) (n m after t u : ℕ)
    → CronIsExclusive c
    → DatesInOrder o.tz
    → o.pending_skips < u32_max
    → n + m ≤ max_candidates
    → next_fire_within c n o after ≡ returned (some t, o1)
    → next_fire_within c m o1 t ≡ returned (some u, o2)
    → next_fire c (skip_next o) after ≡ returned (some u, o2)
unfolding next_fire
next_fire-skip_next c o o1 o2 n m after t u law order room fits first second =
    let floor = search_floor o.valid_from after in
    let (live, first') = within_fires c n o after t o1 first in
    let (_, admissible, left) =
      Ensures-returned _ (some t, o1)
        (fire_from-Ensures c o floor law order n floor 0 (omega arith)) first' in
    let (_, second') = within_fires c m (with_skips o 0) t u o2 (rw left at second) in
    rw (skip_next-one_more o room) (
      within_live c max_candidates (one_more o) after live
      ∙ skipped_search c o o2 n m floor t u law order (first' ∙ ap (λ w. returned (some t, w)) left)
          (subst (λ f. fire_from c m (with_skips o 0) f 0 ≡ returned (some u, o2))
            (floor_of_started o.valid_from t admissible.started) second')
          fits)
