-- ===== src/Platform/Examples.antt =====
-- A machine whose alarm always works: the theorems at it, and test runs.
use bellman.Common.{ℕ, ◌*◌, ◌≡◌, refl, true, false, Option, none, some, List, [], ◌∷◌, returned}
use bellman.Occurrence.Chrono.{Chrono, mon, second}
use bellman.Platform.Wake.{
  WakeCandidate, MachineWake, BridgeState, enabled, linux_alarm_timerfd, ok, elect_next_wake,
  arm_instant, rearm, rearm_enabled, arm_at, on_cancelled, on_programmed,
}
use bellman.Platform.Wake.WindowsDecision
use bellman.Platform.Wake.WindowsDecision.{clean, rail_value}
use bellman.Platform.Wake.Elections.{IsNextWake, elect_next_wake-IsNextWake}

abbrev years : Chrono
years = record {
  last_date = 1000000;
  last_instant = 90000000000000000000;
  from_ymd_opt = λ y m d. none;
  year = λ d. 0;
  month = λ d. 1;
  day = λ d. 1;
  weekday = λ d. mon;
  parse_cron = λ expr. none;
}

-- The state of the platform is its alarm.
abbrev clock : MachineWake (Option ℕ)
clock = record {
  capability = λ d. enabled linux_alarm_timerfd [];
  re_probe = λ d. (enabled linux_alarm_timerfd [], d);
  program_wake = λ at d. (ok, some at);
  cancel_wake = λ d. (ok, none);
  on_resumed = λ d. d;
}

abbrev asleep : BridgeState (Option ℕ)
asleep = record {
  wake = none;
  master_enabled = true;
  last_target = none;
  last_capability = enabled linux_alarm_timerfd [];
}

abbrev two_timers : List WakeCandidate
two_timers =
    record { enabled = true; wake_machine = true; next_fire_utc = some (200 * second) }
    ∷ record { enabled = false; wake_machine = true; next_fire_utc = some (150 * second) }
    ∷ []

elect_next_wake-IsNextWake_example : IsNextWake two_timers (elect_next_wake two_timers)
elect_next_wake-IsNextWake_example = elect_next_wake-IsNextWake two_timers

-- The alarm is set 45 seconds before the fire.
armed_early :
    rearm clock years asleep (some (200 * second)) (100 * second)
    ≡ returned (ok, record asleep { wake = some (155 * second); last_target = some (155 * second) })
unfolding rearm rearm_enabled arm_instant arm_at on_cancelled on_programmed
armed_early = refl

abbrev laptop : WindowsDecision.WindowsProbeFacts
laptop = record {
  ao_ac = true;
  rtc_wake_ok = true;
  ac_rtcwake = 1;
  dc_rtcwake = 2;
  ac_line_status = 0;
  arm_test = clean;
}
