-- ===== src/Scheduler/Examples.antt =====
-- A fire with a jitter of two seconds: the theorems at it, and test runs.
use bellman.Common.{◌*◌, ◌≡◌, refl, true, false, none, some, List, [], ◌∷◌, Ensures, returned}
use bellman.Common.Meets.{Partial, OnOk}
use bellman.Common.Results.{Result}
use bellman.Occurrence.Examples.{calendar, calendar-CronIsExclusive, utc-DatesInOrder}
use bellman.Occurrence.Candidates.{raw_next_after, next_interval}
use bellman.Occurrence.NextFire.{next_fire, next_fire_within, fire_from, judge, consume}
use bellman.Store.Timers.{get_timer}
use bellman.Store.Timers.Examples.{stored}
use bellman.Scheduler.State.{World, Scheduler, SchedulerError, DeliveredFire, fire_of}
use bellman.Scheduler.State.Reaches.{Reaches}
use bellman.Scheduler.Misfire.{walk_missed, walk_from, walk_found}
use bellman.Scheduler.Misfire.Walk.{IsWalk, walk_missed-Ensures}
use bellman.Scheduler.Due.{handle_due_timer}
use bellman.Scheduler.Due.Policies.{IsAllowed, handle_due_timer-IsAllowed}
use bellman.Scheduler.Drive.{next_sleep}
use bellman.Scheduler.Drive.Clocks.{IsSleep, next_sleep-IsSleep}
use bellman.Occurrence.Chrono.{Chrono, mon, second}
use bellman.Occurrence.Kind.{interval, daily}
use bellman.Scheduler.Jitter.{
  apply_execution_jitter, jitter_rem, is_due_with_accuracy, accuracy_slack_for,
}

abbrev years : Chrono
years = record {
  last_date = 1000000;
  last_instant = 90000000000000000000;
  from_ymd_opt = λ y m d. none;
  year = λ d. 0;
  month = λ d. 1;
  day = λ d. 1;
  weekday = λ d. mon;
  parse_cron = λ expr. none;
}

-- The remainder of 8 by 5 is 3, which is one second late.
late_by_one : apply_execution_jitter years 8 (100 * second) 2 ≡ returned (101 * second)
unfolding apply_execution_jitter jitter_rem
late_by_one = refl

early_is_due : is_due_with_accuracy years (100 * second) (99 * second) second ≡ returned true
unfolding is_due_with_accuracy
early_is_due = refl

only_fast_timers_have_slack :
    (accuracy_slack_for none (interval 60 0) 7 ≡ 7) × (accuracy_slack_for none (daily 0) 7 ≡ 0)
unfolding accuracy_slack_for
only_fast_timers_have_slack = (refl, refl)

-- One timer every ten seconds, due at 30 seconds, in an engine that looks at 31 seconds.
abbrev world : World (Unit {0})
world = record {
  chrono = calendar;
  hash = λ id fire_at. 0;
  wall = λ n. 31 * second;
  mono = λ n. 31 * second;
  utc = λ n. 31 * second;
  uuid = λ n. n;
  data_version = λ n. some 1;
  on_fire = λ a t claim kind. (a, true);
  executes_inline = true;
  boot_complete = λ a. a;
  config = record {
    horizon = 3600 * second;
    max_sleep = 30 * second;
    external_rebuild_interval = 60 * second;
    jump_threshold = 3 * second;
  };
}

abbrev engine : Scheduler (Unit {0})
engine = record {
  timers = stored ∷ [];
  runs = [];
  outbox = [];
  action = tt;
  heap = record { fire_at = 30 * second; kind = fire_of 7 } ∷ [];
  last_wall = 30 * second;
  last_mono = 30 * second;
  control = [];
  booted = true;
  pause_all = false;
  last_data_version = 1;
  last_rebuild_mono = 30 * second;
  reads = 0;
}

walk_missed-Ensures_example :
    Ensures
      (IsWalk (30 * second) (55 * second))
      (walk_missed calendar stored (30 * second) (55 * second))
walk_missed-Ensures_example =
    walk_missed-Ensures calendar stored (30 * second) (55 * second) calendar-CronIsExclusive
      utc-DatesInOrder

three_missed :
    walk_missed calendar stored (30 * second) (55 * second)
    ≡ returned (30 * second ∷ 40 * second ∷ 50 * second ∷ [])
unfolding walk_missed walk_from walk_found next_fire next_fire_within fire_from raw_next_after
    next_interval judge consume
three_missed = refl

handle_due_timer-IsAllowed_example :
    Partial
      (λ (r : Result SchedulerError (List DeliveredFire) × Scheduler (Unit {0})).
        Reaches calendar engine r.1 × OnOk (IsAllowed (31 * second) (some stored)) r.0)
      (handle_due_timer world 7 (30 * second) (31 * second) engine)
unfolding get_timer
handle_due_timer-IsAllowed_example =
    handle_due_timer-IsAllowed world 7 (30 * second) (31 * second) engine

next_sleep-IsSleep_example :
    IsSleep
      (30 * second)
      (29 * second)
      (some (30 * second))
      (next_sleep (30 * second) (29 * second) engine.heap)
next_sleep-IsSleep_example = next_sleep-IsSleep (30 * second) (29 * second) engine.heap
