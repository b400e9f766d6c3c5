-- ===== src/Occurrence/NextFire/Previews.antt =====
-- Previews of coming fires, as a list and as an iterator.
use bellman.Common.{
  ℕ, zero, suc, ◌+◌, ◌-◌, ◌<◌, ◌≤◌, ◌≡◌, refl, ap, ◌∙◌, fun_ext, >>=_assoc, arith, inl, inr, Option,
  none, some, List, [], ◌∷◌, Call, returned, ◌>>=◌, returns, Ensures, Ensures->>=, All, length,
  u64_max, min,
}
use bellman.Occurrence.Chrono.{Chrono, CronIsExclusive}
use bellman.Occurrence.Schedule.{Occurrence, record_run}
use bellman.Occurrence.NextFire.{
  next_fire, preview, iter_after, next, collect, iter_at, advance, gather, list_fire,
}
use bellman.Occurrence.NextFire.Admissible.{DatesInOrder, IsAdmissible}
use bellman.Occurrence.NextFire.Order.{NextFireResult, HasRunsLeft, next_fire-Ensures}

module _ (c : Chrono) where
  same_item :
      (n : ℕ) (working : Occurrence) (cursor : ℕ)
      → ((o : Occurrence) (t : ℕ) → collect c n (iter_at o t) ≡ preview c o t n)
      → (r : Option ℕ × Occurrence)
      → (advance (iter_at working cursor) r >>= gather (λ it. collect c n it))
        ≡ list_fire (λ o t. preview c o t n) r
  unfolding advance gather list_fire
  same_item n working cursor ih (none, o) = refl
  same_item n working cursor ih (some t, o) =
      ap (λ m. m >>= λ rest. returned (t ∷ rest)) (ih (record_run o) t)

  collect-preview :
      (n : ℕ) (working : Occurrence) (cursor : ℕ)
      → collect c n (iter_at working cursor) ≡ preview c working cursor n
  unfolding collect preview next
  collect-preview zero working cursor = refl
  collect-preview (suc n) working cursor =
      >>=_assoc (next_fire c working cursor) (advance (iter_at working cursor))
        (gather (λ it. collect c n it))
      ∙ ap (λ f. next_fire c working cursor >>= f)
          (fun_ext (same_item n working cursor (collect-preview n)))

-- The lazy iterator yields, in its first `n` items, exactly the list that `preview` computes.
pub collect-iter_after :
    (c : Chrono) (o : Occurrence) (after n : ℕ)
    → collect c n (iter_after o after) ≡ preview c o after n
unfolding iter_after
collect-iter_after c o after n = collect-preview c n o after

-- Each instant is later than the one before, and the first than `low`.
abbrev pub Climbs : ℕ → List ℕ → Type 0
Climbs low [] = Unit
Climbs low (t ∷ ts) = (low < t) × Climbs t ts

-- The runs that the cap leaves, out of `n`.
abbrev pub runs_left : Option ℕ → ℕ → ℕ → ℕ
runs_left none runs_done n = n
runs_left (some max) runs_done n = min n (max - runs_done)

abbrev pub FitsU64 : Option ℕ → Type 0
FitsU64 none = Unit
FitsU64 (some max) = max ≤ u64_max

abbrev pub Upcoming : Occurrence → ℕ → ℕ → List ℕ → Type 0
Upcoming o low n ts =
    Climbs low ts × All (IsAdmissible o) ts × (length ts ≤ runs_left o.max_runs o.runs_done n)

-- The schedule that goes on after a fire: no skips pending, one more run.
abbrev ran : Occurrence → Occurrence
ran o = record o { pending_skips = 0; runs_done = min (o.runs_done + 1) u64_max }

IsAdmissible-back :
    (o : Occurrence) (ts : List ℕ) → All (IsAdmissible (ran o)) ts → All (IsAdmissible o) ts
IsAdmissible-back o [] h = tt
IsAdmissible-back o (t ∷ ts) h = (
  record { started = h.0.started; not_ended = h.0.not_ended; not_excluded = h.0.not_excluded },
  IsAdmissible-back o ts h.1,
)

runs_left-suc :
    (max : Option ℕ) (runs n len : ℕ)
    → FitsU64 max
    → HasRunsLeft max runs
    → len ≤ runs_left max (min (runs + 1) u64_max) n
    → suc len ≤ runs_left max runs (suc n)
runs_left-suc none runs n len fits left h = omega arith
runs_left-suc (some max) runs n len fits left h = omega arith

module _ (c : Chrono) (law : CronIsExclusive c) where
  Upcoming-more :
      (o : Occurrence) (cursor n : ℕ) (more : Occurrence → ℕ → Call (List ℕ))
      → FitsU64 o.max_runs
      → ((t : ℕ) → Ensures (Upcoming (ran o) t n) (more (ran o) t))
      → (r : Option ℕ × Occurrence) → NextFireResult o cursor r
      → Ensures (Upcoming o cursor (suc n)) (list_fire more r)
  unfolding list_fire record_run
  Upcoming-more o cursor n more fits ih (none, w) r = returns (tt, tt, omega arith)
  Upcoming-more o cursor n more fits ih (some t, w) (inr (_, no_fire, _)) = cc
  Upcoming-more o cursor n more fits ih (some t, w) (inl (left, (later, admissible, e))) = rw e (
      Ensures->>= _ (ih t) λ rest (climbs, all, count). returns (
        (later, climbs),
        (admissible, IsAdmissible-back o rest all),
        runs_left-suc o.max_runs o.runs_done n (length rest) fits left count,
      ))

  preview-Upcoming :
      (n : ℕ) (o : Occurrence) (cursor : ℕ)
      → DatesInOrder o.tz
      → FitsU64 o.max_runs
      → Ensures (Upcoming o cursor n) (preview c o cursor n)
  unfolding preview
  preview-Upcoming zero o cursor order fits = returns (tt, tt, omega arith)
  preview-Upcoming (suc n) o cursor order fits =
      Ensures->>= _ (next_fire-Ensures c o cursor law order) (
        Upcoming-more o cursor n (λ w t. preview c w t n) fits
          (λ t. preview-Upcoming n (ran o) t order fits))

-- A preview of `n` fires ends, and lists at most `n` instants and at most as many as the run cap
-- leaves, each strictly later than the one before and the first than `after`, all of them inside the
-- validity window and on no excluded date. The zone is assumed to have no fold over midnight, croner to
-- search strictly after the given instant, and the cap to be a u64.
pub preview-Ensures :
    (c : Chrono) (o : Occurrence) (after n : ℕ)
    → CronIsExclusive c
    → DatesInOrder o.tz
    → FitsU64 o.max_runs
    → Ensures (Upcoming o after n) (preview c o after n)
preview-Ensures c o after n law order fits = preview-Upcoming c law n o after order fits
