-- ===== src/Occurrence/Candidates/Later.antt =====
-- The candidate search of every kind ends, and what it finds lies strictly after the instant asked.
use bellman.Common.{
  ℕ, zero, suc, ◌+◌, ◌<◌, ◌≡◌, refl, arith, true, Option, none, some, String, Call, returned,
  returns, Ensures, Ensures-if, Ensures->>=, Ensures-or_none, Ensures-expect, Ensures-mono,
  Ensures-of, OnSome, if◌then◌else◌, Bool-cases, ◌>>=◌, ◌/◌, ◌%◌, ltb, ◌==◌, inl, inr, or_none,
}
use bellman.Occurrence.Chrono.{Chrono, CronIsExclusive, succ_opt, pred_opt, day_length}
use bellman.Occurrence.Weekdays
use bellman.Occurrence.Weekdays.{Weekdays}
use bellman.Occurrence.Kind.{
  OccurrenceKind, once, interval, daily, weekly, monthly, yearly, cron, days_in_month,
}
use bellman.Occurrence.Schedule.{Occurrence}
use bellman.Occurrence.Civil.{InvalidMonthDayPolicy, clamp, clamp_month_day}
use bellman.Occurrence.Civil.Resolved.{resolve_local-Ensures}
use bellman.Occurrence.Candidates.{
  is_later, resolve, next_once, next_interval, next_interval_of, add_seconds, daily_from,
  weekly_from, monthly_from, yearly_from, next_cron, next_daily, next_weekly, next_monthly,
  next_yearly, raw_next_of, raw_next_after, interval_offset,
}
use bellman.Occurrence.Candidates.Intervals.{next_interval_later}

abbrev pub IsAfter : ℕ → ℕ → Type 0
IsAfter after t = after < t

later_of : (fire : Option ℕ) (after : ℕ) → is_later fire after ≡ true → OnSome (IsAfter after) fire
later_of none after h = tt
later_of (some t) after h = ground arith

module _ (c : Chrono) where
  days_in_month-Ensures : (year month : ℕ) → Ensures (λ _. Unit {0}) (days_in_month c year month)
  unfolding days_in_month
  days_in_month-Ensures year month =
      Ensures->>= _
        (Ensures-expect (
          c.from_ymd_opt (if month == 12 then year + 1 else year)
            (if month == 12 then 1 else month + 1) 1))
        λ first _. Ensures->>= _ (Ensures-expect (pred_opt first)) λ last _. returns tt

  clamp_month_day-Ensures :
      (year month day : ℕ) (policy : InvalidMonthDayPolicy)
      → Ensures (λ _. Unit {0}) (clamp_month_day c year month day policy)
  unfolding clamp_month_day
  clamp_month_day-Ensures year month day clamp =
      Ensures->>= _ (days_in_month-Ensures year month) (λ last _. returns tt)

-- The loops, over any way to find the fire of a date that comes to an end.
module _ (c : Chrono) (fire_on : ℕ → Call (Option ℕ))
    (ends : (date : ℕ) → Ensures (λ _. Unit {0}) (fire_on date)) (after : ℕ) where
  -- A round of a search: a fire that is later is returned, else the search goes on.
  fire_or_later :
      (date : ℕ) {later : Call (Option ℕ)}
      → Ensures (OnSome (IsAfter after)) later
      → Ensures
          (OnSome (IsAfter after))
          (fire_on date >>= λ fire. if is_later fire after then returned fire else later)
  fire_or_later date rest = Ensures->>= _ (ends date) λ fire _.
      Ensures-if _ (is_later fire after) (λ l. returns (later_of fire after l)) (λ _. rest)

  daily_from-Ensures :
      (left date : ℕ) → Ensures (OnSome (IsAfter after)) (daily_from c left fire_on after date)
  unfolding daily_from
  daily_from-Ensures zero date = returns tt
  daily_from-Ensures (suc left) date =
      fire_or_later date (Ensures-or_none _ (succ_opt c date) (λ d _. daily_from-Ensures left d))

  weekly_from-Ensures :
      (left : ℕ) (days : Weekdays) (date : ℕ)
      → Ensures (OnSome (IsAfter after)) (weekly_from c left fire_on days after date)
  unfolding weekly_from
  weekly_from-Ensures zero days date = returns tt
  weekly_from-Ensures (suc left) days date =
      let rest : Ensures (OnSome (IsAfter after))
          (or_none (succ_opt c date) (λ d. weekly_from c left fire_on days after d)) =
        Ensures-or_none _ (succ_opt c date) (λ d _. weekly_from-Ensures left days d) in
      Ensures-if _ (Weekdays.contains days (c.weekday date)) (λ _. fire_or_later date rest)
        (λ _. rest)

  monthly_from-Ensures :
      (left : ℕ) (policy : InvalidMonthDayPolicy) (day year month : ℕ)
      → Ensures (OnSome (IsAfter after)) (monthly_from c left fire_on policy day after year month)
  unfolding monthly_from
  monthly_from-Ensures zero policy day year month = returns tt
  monthly_from-Ensures (suc left) policy day year month =
      Ensures->>= _ (clamp_month_day-Ensures c year month day policy) λ date _.
        Ensures-or_none _ date λ d _. fire_or_later d (
          monthly_from-Ensures left policy day (if month == 12 then year + 1 else year)
            (if month == 12 then 1 else month + 1))

  yearly_from-Ensures :
      (left : ℕ) (policy : InvalidMonthDayPolicy) (month day year : ℕ)
      → Ensures (OnSome (IsAfter after)) (yearly_from c left fire_on policy month day after year)
  unfolding yearly_from
  yearly_from-Ensures zero policy month day year = returns tt
  yearly_from-Ensures (suc left) policy month day year =
      Ensures->>= _ (clamp_month_day-Ensures c year month day policy) λ date _.
        Ensures-or_none _ date
          λ d _. fire_or_later d (yearly_from-Ensures left policy month day (year + 1))

module _ (c : Chrono) (o : Occurrence) (after : ℕ) where
  resolve-ends : (time date : ℕ) → Ensures (λ _. Unit {0}) (resolve c o date time)
  unfolding resolve
  resolve-ends time date =
      Ensures-mono _ (resolve_local-Ensures c o.tz date time o.dst_gap o.dst_fold) (λ _ _. tt)

  next_once-Ensures : (at : ℕ) → Ensures (OnSome (IsAfter after)) (next_once c o at after)
  unfolding next_once resolve
  next_once-Ensures at =
      Ensures->>= _
        (resolve_local-Ensures c o.tz (at / day_length) (at % day_length) o.dst_gap o.dst_fold)
        λ fire _. returns (chosen fire)
    where
      chosen :
          (fire : Option ℕ) → OnSome (IsAfter after) (if is_later fire after then fire else none)
      chosen none = tt
      chosen (some t) = elim (Bool-cases (ltb after t)) [
        | inl l ↦ rw l (ground arith)
        | inr l ↦ rw l tt
      ]

  next_interval-Ensures :
      (every_secs anchor : ℕ)
      → Ensures (OnSome (IsAfter after)) (next_interval c every_secs anchor after)
  unfolding next_interval next_interval_of interval_offset add_seconds
  next_interval-Ensures every_secs anchor =
      Ensures-of (IsAfter after) (next_interval c every_secs anchor after) (ground arith)
        (next_interval_later c every_secs anchor after)

  next_cron-Ensures :
      CronIsExclusive c
      → (expr : String) → Ensures (OnSome (IsAfter after)) (next_cron c o expr after)
  unfolding next_cron
  next_cron-Ensures law expr =
      Ensures-or_none _ (c.parse_cron expr)
        λ find e. returns (found (find o.tz after) (λ t. law expr find o.tz after t e))
    where
      found : (r : Option ℕ) → ((t : ℕ) → r ≡ some t → after < t) → OnSome (IsAfter after) r
      found none h = tt
      found (some t) h = h t refl

  raw_next_of-Ensures :
      CronIsExclusive c
      → (k : OccurrenceKind) → Ensures (OnSome (IsAfter after)) (raw_next_of c k o after)
  unfolding raw_next_of next_daily next_weekly next_monthly next_yearly
  raw_next_of-Ensures law (once at) = next_once-Ensures at
  raw_next_of-Ensures law (interval every_secs anchor) = next_interval-Ensures every_secs anchor
  raw_next_of-Ensures law (daily at) =
      daily_from-Ensures c (λ d. resolve c o d at) (resolve-ends at) after 1830 _
  raw_next_of-Ensures law (weekly days at) =
      Ensures-if _ (Weekdays.is_empty days) (λ _. returns tt)
        (λ _. weekly_from-Ensures c (λ d. resolve c o d at) (resolve-ends at) after 1830 days _)
  raw_next_of-Ensures law (monthly day at) =
      monthly_from-Ensures c (λ d. resolve c o d at) (resolve-ends at) after 600 o.invalid_monthday
        day _ _
  raw_next_of-Ensures law (yearly month day at) =
      yearly_from-Ensures c (λ d. resolve c o d at) (resolve-ends at) after 200 o.invalid_monthday
        month day _
  raw_next_of-Ensures law (cron expr) = next_cron-Ensures law expr

-- For every kind of schedule the search for a candidate ends, and the candidate is strictly later
-- than the instant that it was asked for, provided croner keeps its promise.
pub raw_next_after-Ensures :
    (c : Chrono) (o : Occurrence) (after : ℕ)
    → CronIsExclusive c
    → Ensures (OnSome (IsAfter after)) (raw_next_after c o after)
unfolding raw_next_after
raw_next_after-Ensures c o after law = raw_next_of-Ensures c o after law o.kind
