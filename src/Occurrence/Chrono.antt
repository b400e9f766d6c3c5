-- ===== src/Occurrence/Chrono.antt =====
-- What the schedules take from chrono, chrono-tz and croner, as parameters.
-- An instant is a number of nanoseconds since the earliest `DateTime<Utc>`, a civil date a number of
-- days since the earliest `NaiveDate`, a civil time the nanoseconds since midnight, and a
-- `NaiveDateTime` the nanoseconds since the first midnight. Leap seconds are left out.
use bellman.Common.{
  ℕ, suc, zero, ◌+◌, ◌*◌, ◌/◌, ◌<◌, ◌≡◌, Option, none, some, String, Call, returned, panicked, ltb,
  if◌then◌else◌,
}

abbrev pub second : ℕ
second = 1000000000

abbrev pub minute : ℕ
minute = 60000000000

abbrev pub day_length : ℕ
day_length = 86400000000000

-- chrono's `LocalResult`; its `None` is `nonexistent`.
pub data LocalResult : Type 0 where
  single : ℕ → LocalResult
  ambiguous : ℕ → ℕ → LocalResult
  nonexistent : LocalResult

-- A timezone of chrono-tz: from the wall clock to instants, and back.
pub record Zone : Type 0 where
  pub from_local_datetime : ℕ → LocalResult
  pub naive_local : ℕ → ℕ

pub data Weekday : Type 0 where
  mon tue wed thu fri sat sun : Weekday

-- The calendar of chrono, and the cron expressions of croner.
pub record Chrono : Type 0 where
  pub last_date : ℕ
  pub last_instant : ℕ
  pub from_ymd_opt : ℕ → ℕ → ℕ → Option ℕ
  pub year : ℕ → ℕ
  pub month : ℕ → ℕ
  pub day : ℕ → ℕ
  pub weekday : ℕ → Weekday
  pub parse_cron : String → Option (Zone → ℕ → Option ℕ)

-- `NaiveDate::succ_opt` and `pred_opt`.
abbrev pub succ_opt : Chrono → ℕ → Option ℕ
succ_opt c d = if ltb d c.last_date then some (suc d) else none

abbrev pub pred_opt : ℕ → Option ℕ
pred_opt zero = none
pred_opt (suc d) = some d

-- `+` on a `NaiveDateTime`, which panics past the last date.
unfoldable pub add_naive : Chrono → ℕ → ℕ → Call ℕ
add_naive c naive d =
    if ltb (naive + d) (suc c.last_date * day_length) then returned (naive + d) else panicked

-- `- Duration::nanoseconds(1)` on an instant, which panics at the earliest.
abbrev pub nanosecond_before : ℕ → Call ℕ
nanosecond_before zero = panicked
nanosecond_before (suc t) = returned t

-- The local calendar date and the wall-clock time of an instant.
abbrev pub date_naive : Zone → ℕ → ℕ
date_naive z t = z.naive_local t / day_length

-- croner's promise for `find_next_occurrence(after, false)`: strictly later.
abbrev pub CronIsExclusive : Chrono → Type 0
CronIsExclusive c =
    (expr : String) (find : Zone → ℕ → Option ℕ) (z : Zone) (after t : ℕ)
    → c.parse_cron expr ≡ some find
    → find z after ≡ some t
    → after < t
