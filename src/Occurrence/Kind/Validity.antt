-- ===== src/Occurrence/Kind/Validity.antt =====
-- Which kinds pass validation.
use bellman.Common.{◌≤◌, ◌≡◌, ◌≢◌, ◌↔◌, refl, arith, false, none}
use bellman.Occurrence.Weekdays.{is_empty}
use bellman.Occurrence.Kind.{
  OccurrenceKind, once, interval, daily, weekly, monthly, yearly, cron, validate, is_blank,
}

-- A kind that can fire: a period, a day of the week, and days and months that exist.
abbrev pub IsWellFormed : OccurrenceKind → Type 0
IsWellFormed (once at) = Unit
IsWellFormed (interval every_secs anchor) = 1 ≤ every_secs
IsWellFormed (daily at) = Unit
IsWellFormed (weekly days at) = days ≢ 0
IsWellFormed (monthly day at) = (1 ≤ day) × (day ≤ 31)
IsWellFormed (yearly month day at) = (1 ≤ month) × (month ≤ 12) × (1 ≤ day) × (day ≤ 31)
IsWellFormed (cron expr) = is_blank expr ≡ false

-- Validation accepts exactly the kinds with a period of at least a second, at least one weekday, a
-- month of 1 to 12 and a day of 1 to 31, and a cron expression that is not blank.
validate-eq-none : (k : OccurrenceKind) → (validate k ≡ none) ↔ IsWellFormed k
unfolding validate is_empty
validate-eq-none (once at) = ((λ _. tt), λ _. refl)
validate-eq-none (interval every_secs anchor) = ((λ h. ground arith), λ h. ground arith)
validate-eq-none (daily at) = ((λ _. tt), λ _. refl)
validate-eq-none (weekly days at) = ((λ h. ground arith), λ h. ground arith)
validate-eq-none (monthly day at) = ((λ h. ground arith), λ h. ground arith)
validate-eq-none (yearly month day at) = ((λ h. ground arith), λ h. ground arith)
validate-eq-none (cron expr) = ((λ h. ground arith), λ h. ground arith)
