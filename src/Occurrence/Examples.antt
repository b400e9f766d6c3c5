-- ===== src/Occurrence/Examples.antt =====
-- Schedules in UTC over a calendar of equal months: the theorems at concrete inputs, and test runs.
use mathlib.Core.Option.{some-injective}
use bellman.Common.{
  ℕ, zero, suc, ◌+◌, ◌-◌, ◌*◌, ◌/◌, ◌%◌, ◌<◌, ◌≤◌, ◌≡◌, refl, sym, subst, arith, Option, none, some,
  [], ◌∷◌, returned, panicked, Ensures, OnSome, ◌^◌, ltb, if◌then◌else◌,
}
use bellman.Occurrence.Chrono.{
  Chrono, Zone, single, ambiguous, Weekday, mon, tue, wed, thu, fri, sat, sun, second, day_length,
  CronIsExclusive,
}
use bellman.Occurrence.Weekdays.{num_days_from_monday}
use bellman.Occurrence.Weekdays
use bellman.Occurrence.Weekdays.Sets.{from_slice-iter}
use bellman.Occurrence.Kind.{OccurrenceKind, interval, daily, cron, validate}
use bellman.Occurrence.Civil.{first_valid_after_gap, first_occurrence, clamp, resolve_local}
use bellman.Occurrence.Schedule.{Occurrence, skip_next}
use bellman.Occurrence.Candidates.{next_interval, raw_next_after, daily_from, next_daily}
use bellman.Occurrence.NextFire.{
  next_fire, next_fire_within, fire_from, judge, consume, preview, collect, iter_after,
  jump_past_exclusion_day,
}
use bellman.Occurrence.NextFire.Admissible.{DatesInOrder}
use bellman.Occurrence.Candidates.Intervals.{
  next_interval_least, next_interval_total, next_interval_panics,
}
use bellman.Occurrence.Candidates.Later.{IsAfter, raw_next_after-Ensures}
use bellman.Occurrence.Civil.Resolved.{MapsFrom, resolve_local-Ensures}
use bellman.Occurrence.NextFire.Order.{NextFireResult, next_fire-Ensures}
use bellman.Occurrence.NextFire.Previews.{Upcoming, preview-Ensures, collect-iter_after}
use bellman.Occurrence.NextFire.Skips.{next_fire-skip_next}

abbrev weekday_of : ℕ → Weekday
weekday_of zero = mon
weekday_of (suc zero) = tue
weekday_of (suc (suc zero)) = wed
weekday_of (suc (suc (suc zero))) = thu
weekday_of (suc (suc (suc (suc zero)))) = fri
weekday_of (suc (suc (suc (suc (suc zero))))) = sat
weekday_of _ = sun

-- Twelve months of 31 days, and one cron expression that fires at every nanosecond.
abbrev pub calendar : Chrono
calendar = record {
  last_date = 1000000;
  last_instant = 90000000000000000000;
  from_ymd_opt = λ y m d. some (y * 372 + (m - 1) * 31 + (d - 1));
  year = λ d. d / 372;
  month = λ d. d % 372 / 31 + 1;
  day = λ d. d % 31 + 1;
  weekday = λ d. weekday_of (d % 7);
  parse_cron = λ expr. some (λ z after. some (after + 1));
}

abbrev pub utc : Zone
utc = record { from_local_datetime = λ n. single n; naive_local = λ t. t }

pub calendar-CronIsExclusive : CronIsExclusive calendar
calendar-CronIsExclusive expr find z after t e h =
    let same : some (after + 1) ≡ some t =
      subst (λ (g : Zone → ℕ → Option ℕ). g z after ≡ some t) (sym (some-injective _ _ e)) h in
    ground arith

pub utc-DatesInOrder : DatesInOrder utc
utc-DatesInOrder t naive u h e = ground arith

abbrev schedule : OccurrenceKind → Occurrence
schedule kind = record {
  kind = kind;
  tz = utc;
  dst_gap = first_valid_after_gap;
  dst_fold = first_occurrence;
  invalid_monthday = clamp;
  valid_from = some 5;
  valid_until = some 2000000000000000;
  max_runs = some 3;
  runs_done = 1;
  exclusions = 2 ∷ [];
  pending_skips = 0;
}

-- Daily at one in the morning.
abbrev mornings : Occurrence
mornings = schedule (daily 3600000000000)

-- Every ten seconds.
abbrev pub ticks : Occurrence
ticks = schedule (interval 10 0)

-- One in the morning of day `d`.
abbrev one_o_clock : ℕ → ℕ
one_o_clock d = d * day_length + 3600000000000

first_morning : next_fire_within calendar 5 mornings 0 ≡ returned (some (one_o_clock 0), mornings)
unfolding next_fire_within fire_from raw_next_after next_daily daily_from resolve_local judge
    consume
first_morning = refl

second_morning :
    next_fire_within calendar 5 mornings (one_o_clock 0) ≡ returned (some (one_o_clock 1), mornings)
unfolding next_fire_within fire_from raw_next_after next_daily daily_from resolve_local judge
    consume
second_morning = refl

-- Day 2 is excluded.
third_morning :
    next_fire calendar mornings (one_o_clock 1) ≡ returned (some (one_o_clock 3), mornings)
unfolding next_fire fire_from raw_next_after next_daily daily_from resolve_local judge consume
    jump_past_exclusion_day
third_morning = refl

next_fire-skip_next_example :
    next_fire calendar (skip_next mornings) 0 ≡ returned (some (one_o_clock 1), mornings)
next_fire-skip_next_example =
    next_fire-skip_next calendar mornings mornings mornings 5 5 0 (one_o_clock 0) (one_o_clock 1)
      calendar-CronIsExclusive utc-DatesInOrder (omega arith) (omega arith) first_morning
      second_morning

next_fire-Ensures_example :
    Ensures (NextFireResult mornings (one_o_clock 1)) (next_fire calendar mornings (one_o_clock 1))
next_fire-Ensures_example =
    next_fire-Ensures calendar mornings (one_o_clock 1) calendar-CronIsExclusive utc-DatesInOrder

preview-Ensures_example : Ensures (Upcoming mornings 0 2) (preview calendar mornings 0 2)
preview-Ensures_example =
    preview-Ensures calendar mornings 0 2 calendar-CronIsExclusive utc-DatesInOrder (omega arith)

collect-iter_after_example :
    collect calendar 2 (iter_after mornings 0) ≡ preview calendar mornings 0 2
collect-iter_after_example = collect-iter_after calendar mornings 0 2

raw_next_after-Ensures_example :
    Ensures (OnSome (IsAfter 7)) (raw_next_after calendar (schedule (cron "* * * * *")) 7)
raw_next_after-Ensures_example =
    raw_next_after-Ensures calendar (schedule (cron "* * * * *")) 7 calendar-CronIsExclusive

resolve_local-Ensures_example :
    Ensures
      (OnSome (MapsFrom utc (2 * day_length + 7)))
      (resolve_local calendar utc 2 7 first_valid_after_gap first_occurrence)
resolve_local-Ensures_example =
    resolve_local-Ensures calendar utc 2 7 first_valid_after_gap first_occurrence

next_interval_25 : next_interval calendar 10 0 (25 * second) ≡ returned (some (30 * second))
unfolding next_interval
next_interval_25 = refl

next_interval_least_example :
    ((k : ℕ) × (30 * second ≡ 0 + k * 10 * second))
    × (25 * second < 30 * second)
    × ((j : ℕ) → 25 * second < 0 + j * 10 * second → 30 * second ≤ 0 + j * 10 * second)
next_interval_least_example =
    next_interval_least calendar 10 0 (25 * second) (30 * second) next_interval_25

next_interval_total_example :
    (t : ℕ) × (next_interval calendar 10 0 (25 * second) ≡ returned (some t))
next_interval_total_example =
    next_interval_total calendar 10 0 (25 * second) (omega arith) (omega arith) (omega arith)

-- A period of 2^62 seconds.
next_interval_panics_example :
    (validate (interval (2 ^ 62) 0) ≡ none) × (next_interval calendar (2 ^ 62) 0 second ≡ panicked)
next_interval_panics_example =
    next_interval_panics calendar (2 ^ 62) 0 second (omega arith) (omega arith) (omega arith)
      (omega arith)

from_slice-iter_example :
    Weekdays.from_slice (Weekdays.iter (Weekdays.from_u8 213)) ≡ Weekdays.from_u8 213
from_slice-iter_example = from_slice-iter 213 (omega arith)

-- Clocks that go back by an hour at half past midnight of day 1.
abbrev folded : Zone
folded = record {
  from_local_datetime = λ n.
      if ltb n (day_length - 1800000000000)
      then single n
      else if ltb n (day_length + 1800000000000)
      then ambiguous n (n + 3600000000000)
      else single (n + 3600000000000);
  naive_local = λ t. if ltb t (day_length + 1800000000000) then t else t - 3600000000000;
}

-- Every ten minutes, but not on day 0.
abbrev fold_ticks : Occurrence
fold_ticks = record {
  kind = interval 600 0;
  tz = folded;
  dst_gap = first_valid_after_gap;
  dst_fold = first_occurrence;
  invalid_monthday = clamp;
  valid_from = none;
  valid_until = none;
  max_runs = none;
  runs_done = 0;
  exclusions = 0 ∷ [];
  pending_skips = 0;
}

-- Asked in the repeated half hour of day 0, the jump to the first midnight of day 1 goes back in time.
fold_goes_back :
    next_fire calendar fold_ticks (day_length + 2400000000000)
    ≡ returned (some day_length, fold_ticks)
unfolding next_fire fire_from raw_next_after next_interval judge consume jump_past_exclusion_day
fold_goes_back = refl
