-- ===== src/Occurrence/Kind.antt =====
-- The occurrence kinds and their validation: crates/bellman-core/src/occurrence/kind.rs.
-- A cron expression is a text; `validate` reads its code points.
pub mod Validity
use Prim.Native.Char.{code}
use bellman.Common.{
  ℕ, Bool, true, false, not, ◌&&◌, ◌||◌, Option, none, some, String, ltb, leb, ◌==◌, if◌then◌else◌,
  Call, expect, returned, ◌>>=◌, ◌+◌,
}
use bellman.Occurrence.Chrono.{Chrono, pred_opt}
use bellman.Occurrence.Weekdays.{Weekdays, is_empty}

pub data OccurrenceKind : Type 0 where
  once : ℕ → OccurrenceKind
  interval : ℕ → ℕ → OccurrenceKind
  daily : ℕ → OccurrenceKind
  weekly : Weekdays → ℕ → OccurrenceKind
  monthly : ℕ → ℕ → OccurrenceKind
  yearly : ℕ → ℕ → ℕ → OccurrenceKind
  cron : String → OccurrenceKind

abbrev pub min_interval_secs : ℕ
min_interval_secs = 1

-- The errors of `validate`; the source has their texts.
pub data KindError : Type 0 where
  interval_too_short no_weekday bad_monthly_day bad_yearly_month bad_yearly_day empty_cron :
      KindError

-- `char::is_whitespace`: the code points with the property White_Space.
is_whitespace : ℕ → Bool
is_whitespace c =
    (leb 9 c && leb c 13)
    || (c == 32)
    || (c == 133)
    || (c == 160)
    || (c == 5760)
    || (leb 8192 c && leb c 8202)
    || (c == 8232)
    || (c == 8233)
    || (c == 8239)
    || (c == 8287)
    || (c == 12288)

-- `expr.trim().is_empty()`.
unfoldable pub is_blank : String → Bool
unfolding is_whitespace
is_blank String.[] = true
is_blank (String.◌∷◌ c s) = is_whitespace (code c) && is_blank s

-- `(lo..=hi).contains(x)`.
abbrev pub in_range : ℕ → ℕ → ℕ → Bool
in_range lo hi x = leb lo x && leb x hi

-- `none` is `Ok(())`.
unfoldable pub validate : OccurrenceKind → Option KindError
validate (interval every_secs anchor) =
    if ltb every_secs min_interval_secs then some interval_too_short else none
validate (weekly days at) = if is_empty days then some no_weekday else none
validate (monthly day at) = if not (in_range 1 31 day) then some bad_monthly_day else none
validate (yearly month day at) =
    if not (in_range 1 12 month)
    then some bad_yearly_month
    else if not (in_range 1 31 day)
    then some bad_yearly_day
    else none
validate (cron expr) = if is_blank expr then some empty_cron else none
validate (once at) = none
validate (daily at) = none

unfoldable pub is_elapsed_time : OccurrenceKind → Bool
is_elapsed_time (interval every_secs anchor) = true
is_elapsed_time _ = false

-- The two `expect`s of `days_in_month` panic where chrono has no such date.
unfoldable pub days_in_month : Chrono → ℕ → ℕ → Call ℕ
days_in_month c year month = do
  let y = if month == 12 then year + 1 else year
  let m = if month == 12 then 1 else month + 1
  first ← expect (c.from_ymd_opt y m 1)
  last ← expect (pred_opt first)
  returned (c.day last)
