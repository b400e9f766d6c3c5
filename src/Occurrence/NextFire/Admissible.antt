-- ===== src/Occurrence/NextFire/Admissible.antt =====
-- What `next_fire` promises of a fire, and of the schedule that it leaves behind.
use mathlib.Core.List.{Mem, mem-cons, not-mem-nil}
use mathlib.Core.Logic.Or
use bellman.Common.{
  ℕ, zero, suc, subst, ◌+◌, ◌*◌, ◌<◌, ◌≤◌, ◌≡◌, arith, false, Option, none, some, List, [], ◌∷◌,
  returned, ◌>>=◌, returns, panics, Ensures, Ensures->>=, Ensures-or_none, OnSome, contains,
}
use bellman.Occurrence.Chrono.{Chrono, Zone, day_length, succ_opt, date_naive, nanosecond_before}
use bellman.Occurrence.Civil.Resolved.{
  MapsFrom, maps_at, earliest, resolve_local-Ensures, LocalResult-Ensures,
}
use bellman.Occurrence.Schedule.{Occurrence}
use bellman.Occurrence.NextFire.{fire, judge, is_past_end, is_before_start, jump_past_exclusion_day}

-- The wall clock of a later calendar date shows later instants: the zone has no fold over midnight.
abbrev pub DatesInOrder : Zone → Type 0
DatesInOrder z =
    (t naive u : ℕ)
    → (date_naive z t + 1) * day_length ≤ naive
    → earliest (z.from_local_datetime naive) ≡ some u
    → t < u

abbrev pub StartsBy : Option ℕ → ℕ → Type 0
StartsBy none t = Unit
StartsBy (some from) t = from ≤ t

abbrev pub EndsAfter : Option ℕ → ℕ → Type 0
EndsAfter none t = Unit
EndsAfter (some until) t = t < until

-- Inside the validity window, and not on an excluded date of the zone.
pub record IsAdmissible (o : Occurrence) (t : ℕ) : Type 0 where
  pub started : StartsBy o.valid_from t
  pub not_ended : EndsAfter o.valid_until t
  pub not_excluded : ¬ Mem (date_naive o.tz t) o.exclusions

contains_complete : (a : ℕ) (xs : List ℕ) → contains a xs ≡ false → ¬ Mem a xs
contains_complete a [] h m = not-mem-nil m
contains_complete a (x ∷ xs) h m =
    Or.elim ⊥_prop (mem-cons.0 m) (λ e. ground arith) (contains_complete a xs (ground arith))
  where
    ⊥_prop : IsProp ⊥
    ⊥_prop = hlevel

started_of : (from : Option ℕ) (t : ℕ) → is_before_start from t ≡ false → StartsBy from t
started_of none t h = tt
started_of (some from) t h = ground arith

not_ended_of : (until : Option ℕ) (t : ℕ) → is_past_end until t ≡ false → EndsAfter until t
not_ended_of none t h = tt
not_ended_of (some until) t h = ground arith

module _ (o : Occurrence) (skipped t : ℕ) where
  pub judge-fire :
      judge o skipped t ≡ fire
      → (is_past_end o.valid_until t ≡ false)
        × (is_before_start o.valid_from t ≡ false)
        × (contains (date_naive o.tz t) o.exclusions ≡ false)
        × (o.pending_skips ≤ skipped)
  unfolding judge
  judge-fire e = ground arith

  pub IsAdmissible-of : judge o skipped t ≡ fire → IsAdmissible o t
  IsAdmissible-of e =
      let (ended, started, excluded, _) = judge-fire e in
      record {
        started = started_of o.valid_from t started;
        not_ended = not_ended_of o.valid_until t ended;
        not_excluded = contains_complete _ o.exclusions excluded;
      }

module _ (c : Chrono) (o : Occurrence) (order : DatesInOrder o.tz) where
  jump_back-Ensures :
      (candidate naive : ℕ)
      → (date_naive o.tz candidate + 1) * day_length ≤ naive
      → (u : ℕ) → MapsFrom o.tz naive u
      → Ensures (OnSome (λ t. candidate ≤ t)) (nanosecond_before u >>= λ t. returned (some t))
  jump_back-Ensures candidate naive h zero m = panics
  jump_back-Ensures candidate naive h (suc t) (maps_at n le e) =
      returns (omega (arith, order candidate n (suc t) (omega arith) e))

  -- The jump over an excluded day never goes back.
  pub jump-Ensures :
      (candidate : ℕ)
      → Ensures (OnSome (λ t. candidate ≤ t)) (jump_past_exclusion_day c o candidate)
  unfolding jump_past_exclusion_day
  jump-Ensures candidate = Ensures-or_none _ (succ_opt c (date_naive o.tz candidate)) λ next_day e.
      let midnight : (date_naive o.tz candidate + 1) * day_length ≤ next_day * day_length =
        ground arith in
      LocalResult-Ensures _ (o.tz.from_local_datetime (next_day * day_length))
        (λ t r. jump_back-Ensures candidate _ midnight t (maps_at _ (omega arith) r))
        (λ t latest r. jump_back-Ensures candidate _ midnight t (maps_at _ (omega arith) r))
        (Ensures->>= _ (resolve_local-Ensures c o.tz next_day 0 o.dst_gap o.dst_fold) λ found m.
          Ensures-or_none _ found λ dt e.
            jump_back-Ensures candidate (next_day * day_length + 0) (omega (arith, midnight)) dt
              (subst (OnSome (MapsFrom o.tz (next_day * day_length + 0))) e m))
