-- ===== src/Occurrence/Candidates.antt =====
-- The candidates of each kind: the internal generation in
-- crates/bellman-core/src/occurrence/schedule.rs.
pub mod Intervals
pub mod Later
use bellman.Common.{
  ℕ, zero, suc, ◌+◌, ◌-◌, ◌*◌, ◌/◌, ◌%◌, Bool, false, Option, none, some, String, Call, returned,
  panicked, ◌>>=◌, or_none, ltb, ◌==◌, if◌then◌else◌, i64_max, checked,
}
use bellman.Occurrence.Chrono.{Chrono, second, day_length, succ_opt, date_naive}
use bellman.Occurrence.Weekdays
use bellman.Occurrence.Weekdays.{Weekdays}
use bellman.Occurrence.Kind.{OccurrenceKind, once, interval, daily, weekly, monthly, yearly, cron}
use bellman.Occurrence.Civil.{InvalidMonthDayPolicy, clamp_month_day, resolve_local}
use bellman.Occurrence.Schedule.{Occurrence}

-- `if let Some(fire) = … { if fire > after { … } }`.
abbrev pub is_later : Option ℕ → ℕ → Bool
is_later none after = false
is_later (some fire) after = ltb after fire

-- The offset in seconds of the first multiple of the period past `elapsed_secs`, in i64.
interval_offset : ℕ → ℕ → Option ℕ
interval_offset every elapsed_secs = elim (checked i64_max (elapsed_secs / every + 1)) [
  | none ↦ none
  | some next_n ↦ checked i64_max (next_n * every)
]

module _ (c : Chrono) where
  unfoldable pub resolve : Occurrence → ℕ → ℕ → Call (Option ℕ)
  resolve o date time = resolve_local c o.tz date time o.dst_gap o.dst_fold

  unfoldable pub next_once : Occurrence → ℕ → ℕ → Call (Option ℕ)
  next_once o at after = resolve o (at / day_length) (at % day_length) >>= λ fire.
      returned (if is_later fire after then fire else none)

  -- `Duration::seconds` panics past `i64::MAX / 1000`; `checked_add_signed` is `None` past the end.
  add_seconds : ℕ → ℕ → Call (Option ℕ)
  add_seconds anchor secs =
      if ltb (i64_max / 1000) secs
      then panicked
      else returned (checked c.last_instant (anchor + secs * second))

  -- `every` passed `i64::try_from` and is not 0.
  unfoldable pub next_interval_of : ℕ → ℕ → ℕ → Call (Option ℕ)
  unfolding interval_offset add_seconds
  next_interval_of every anchor after =
      if ltb after anchor
      then returned (some anchor)
      else or_none (interval_offset every ((after - anchor) / second)) (add_seconds anchor)

  unfoldable pub next_interval : ℕ → ℕ → ℕ → Call (Option ℕ)
  unfolding next_interval_of
  next_interval every_secs anchor after =
      if every_secs == 0
      then returned none
      else or_none (checked i64_max every_secs) (λ every. next_interval_of every anchor after)

  -- The loop of `next_daily`, with the days left to try. `fire_on` is `self.resolve(date, at)`, here
  -- and below.
  unfoldable pub daily_from : ℕ → (ℕ → Call (Option ℕ)) → ℕ → ℕ → Call (Option ℕ)
  daily_from zero fire_on after date = returned none
  daily_from (suc left) fire_on after date = fire_on date >>= λ fire.
      let later = or_none (succ_opt c date) (λ d. daily_from left fire_on after d) in
      if is_later fire after then returned fire else later

  unfoldable pub next_daily : Occurrence → ℕ → ℕ → Call (Option ℕ)
  unfolding resolve
  next_daily o at after =
      daily_from (366 * 5) (λ date. resolve o date at) after (date_naive o.tz after)

  -- The loop of `next_weekly`.
  unfoldable pub weekly_from : ℕ → (ℕ → Call (Option ℕ)) → Weekdays → ℕ → ℕ → Call (Option ℕ)
  weekly_from zero fire_on days after date = returned none
  weekly_from (suc left) fire_on days after date =
      let later = or_none (succ_opt c date) (λ d. weekly_from left fire_on days after d) in
      let today = fire_on date >>= λ fire. if is_later fire after then returned fire else later in
      if Weekdays.contains days (c.weekday date) then today else later

  unfoldable pub next_weekly : Occurrence → Weekdays → ℕ → ℕ → Call (Option ℕ)
  unfolding resolve
  next_weekly o days at after =
      if Weekdays.is_empty days
      then returned none
      else weekly_from (366 * 5) (λ date. resolve o date at) days after (date_naive o.tz after)

  -- The loop of `next_monthly`.
  unfoldable pub monthly_from :
      ℕ → (ℕ → Call (Option ℕ)) → InvalidMonthDayPolicy → ℕ → ℕ → ℕ → ℕ → Call (Option ℕ)
  monthly_from zero fire_on policy day after year month = returned none
  monthly_from (suc left) fire_on policy day after year month =
      clamp_month_day c year month day policy >>= λ date. or_none date λ d. fire_on d >>= λ fire.
      let later =
        monthly_from left fire_on policy day after (if month == 12 then year + 1 else year)
          (if month == 12 then 1 else month + 1) in
      if is_later fire after then returned fire else later

  unfoldable pub next_monthly : Occurrence → ℕ → ℕ → ℕ → Call (Option ℕ)
  unfolding resolve
  next_monthly o day at after =
      let today = date_naive o.tz after in
      monthly_from (12 * 50) (λ date. resolve o date at) o.invalid_monthday day after (c.year today)
        (c.month today)

  -- The loop of `next_yearly`, with the years left until its `break`.
  unfoldable pub yearly_from :
      ℕ → (ℕ → Call (Option ℕ)) → InvalidMonthDayPolicy → ℕ → ℕ → ℕ → ℕ → Call (Option ℕ)
  yearly_from zero fire_on policy month day after year = returned none
  yearly_from (suc left) fire_on policy month day after year =
      clamp_month_day c year month day policy >>= λ date. or_none date λ d. fire_on d >>= λ fire.
      let later = yearly_from left fire_on policy month day after (year + 1) in
      if is_later fire after then returned fire else later

  unfoldable pub next_yearly : Occurrence → ℕ → ℕ → ℕ → ℕ → Call (Option ℕ)
  unfolding resolve
  next_yearly o month day at after =
      yearly_from 200 (λ date. resolve o date at) o.invalid_monthday month day after
        (c.year (date_naive o.tz after))

  unfoldable pub next_cron : Occurrence → String → ℕ → Call (Option ℕ)
  next_cron o expr after = or_none (c.parse_cron expr) (λ find. returned (find o.tz after))

  unfoldable pub raw_next_of : OccurrenceKind → Occurrence → ℕ → Call (Option ℕ)
  raw_next_of (once at) o after = next_once o at after
  raw_next_of (interval every_secs anchor) o after = next_interval every_secs anchor after
  raw_next_of (daily at) o after = next_daily o at after
  raw_next_of (weekly days at) o after = next_weekly o days at after
  raw_next_of (monthly day at) o after = next_monthly o day at after
  raw_next_of (yearly month day at) o after = next_yearly o month day at after
  raw_next_of (cron expr) o after = next_cron o expr after

  unfoldable pub raw_next_after : Occurrence → ℕ → Call (Option ℕ)
  unfolding raw_next_of
  raw_next_after o after = raw_next_of o.kind o after
