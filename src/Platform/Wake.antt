-- ===== src/Platform/Wake.antt =====
-- The single next wake of the machine: crates/bellman-core/src/platform/wake/single_next_wake.rs and
-- mod.rs. The alarm of the platform is an interface; the lines of text about its status are left out.
pub mod MacosDecision
pub mod WindowsDecision
pub mod Elections
pub mod Alarms
use bellman.Common.{
  ℕ, ◌+◌, ◌-◌, ◌*◌, Bool, true, false, not, ◌&&◌, ltb, ◌||◌, ◌==◌, if◌then◌else◌, Option, none,
  some, List, [], ◌∷◌, String, Call, returned, panicked, ◌>>=◌, ℕ_discrete,
}
use bellman.Occurrence.Chrono.{Chrono, second}

pub data WakeMechanism : Type 0 where
  linux_alarm_timerfd linux_wakealarm_sysfs windows_waitable_timer mac_pm_daemon : WakeMechanism

pub data Caveat : Type 0 where
  modern_standby_screen_off apple_silicon_best_effort battery_rail_excluded
        hibernate_not_guaranteed :
      Caveat

pub data PowerRail : Type 0 where
  ac dc : PowerRail

pub data DisabledReason : Type 0 where
  unsupported_os no_rtc rtc_not_wake_capable : DisabledReason
  no_permission : String → DisabledReason
  wake_timers_disabled_by_policy : PowerRail → ℕ → DisabledReason
  resume_timers_unsupported helper_not_installed helper_awaiting_approval : DisabledReason
  probe_failed : String → DisabledReason
  master_disabled : DisabledReason

pub data WakeCapability : Type 0 where
  enabled : WakeMechanism → List Caveat → WakeCapability
  disabled : DisabledReason → WakeCapability

abbrev pub is_enabled : WakeCapability → Bool
is_enabled (enabled mechanism caveats) = true
is_enabled (disabled reason) = false

pub data WakeError : Type 0 where
  wake_disabled : WakeError
  io : String → WakeError
  unsupported : WakeError

-- `Result<(), WakeError>`.
pub data WakeResult : Type 0 where
  ok : WakeResult
  failed : WakeError → WakeResult

pub record WakeCandidate : Type 0 where
  pub enabled : Bool
  pub wake_machine : Bool
  pub next_fire_utc : Option ℕ

-- `Iterator::min` over two elections.
abbrev pub earlier : Option ℕ → Option ℕ → Option ℕ
earlier none b = b
earlier (some a) none = some a
earlier (some a) (some b) = if ltb b a then some b else some a

-- What a candidate puts up for election.
abbrev pub stands : WakeCandidate → Option ℕ
stands t = if t.enabled && t.wake_machine then t.next_fire_utc else none

unfoldable pub elect_next_wake : List WakeCandidate → Option ℕ
elect_next_wake [] = none
elect_next_wake (t ∷ timers) = earlier (stands t) (elect_next_wake timers)

abbrev pub arm_slack_secs : ℕ
arm_slack_secs = 45

-- `if target < floor { floor } else { target }`.
abbrev pub clamped : ℕ → ℕ → ℕ
clamped target floor = if ltb target floor then floor else target

-- chrono panics where a sum or difference leaves its range.
unfoldable pub arm_instant : Chrono → ℕ → ℕ → Call ℕ
arm_instant c wake_utc now =
    if ltb wake_utc (arm_slack_secs * second) || ltb c.last_instant (now + second)
    then panicked
    else returned (clamped (wake_utc - arm_slack_secs * second) (now + second))

-- The trait `MachineWake`, over the state of the platform.
pub record MachineWake (D : Type 0) : Type 0 where
  pub capability : D → WakeCapability
  pub re_probe : D → WakeCapability × D
  pub program_wake : ℕ → D → WakeResult × D
  pub cancel_wake : D → WakeResult × D
  pub on_resumed : D → D

pub record BridgeState (D : Type 0) : Type 0 where
  pub wake : D
  pub master_enabled : Bool
  pub last_target : Option ℕ
  pub last_capability : WakeCapability

abbrev pub effective_cap : WakeCapability → Bool → WakeCapability
effective_cap platform true = platform
effective_cap platform false = disabled master_disabled

-- `last_target == Some(at)`.
abbrev pub is_target : Option ℕ → ℕ → Bool
is_target none at = false
is_target (some t) at = t == at

module _ {D : Type 0} (m : MachineWake D) where
  unfoldable pub new : D → Bool → BridgeState D
  new wake master_enabled = record {
    wake = wake;
    master_enabled = master_enabled;
    last_target = none;
    last_capability = m.capability wake;
  }

  -- The end of `rearm`: the outcome of `program_wake`.
  unfoldable pub on_programmed : BridgeState D → ℕ → WakeResult × D → WakeResult × BridgeState D
  on_programmed s at (ok, d) = (ok, record s { wake = d; last_target = some at })
  on_programmed s at (failed e, d) =
      let probed = m.re_probe d in
      (failed e, record s { wake = probed.1; last_capability = probed.0; last_target = none })

  -- `cancel_wake()?` before an alarm is programmed.
  unfoldable pub on_cancelled : BridgeState D → ℕ → WakeResult × D → WakeResult × BridgeState D
  unfolding on_programmed
  on_cancelled s at (ok, d) = on_programmed s at (m.program_wake at d)
  on_cancelled s at (failed e, d) = (failed e, record s { wake = d })

  -- `cancel_wake()?` where no timer is elected.
  unfoldable pub on_disarmed : BridgeState D → WakeResult × D → WakeResult × BridgeState D
  on_disarmed s (ok, d) = (ok, record s { wake = d; last_target = none })
  on_disarmed s (failed e, d) = (failed e, record s { wake = d })

  unfoldable pub arm_at : BridgeState D → ℕ → WakeResult × BridgeState D
  unfolding on_cancelled
  arm_at s at =
      if is_target s.last_target at then (ok, s) else on_cancelled s at (m.cancel_wake s.wake)

  unfoldable pub rearm_enabled :
      Chrono → BridgeState D → Option ℕ → ℕ → Call (WakeResult × BridgeState D)
  unfolding on_disarmed arm_at
  rearm_enabled c s none now = returned (on_disarmed s (m.cancel_wake s.wake))
  rearm_enabled c s (some due) now = arm_instant c due now >>= λ at. returned (arm_at s at)

  unfoldable pub rearm : Chrono → BridgeState D → Option ℕ → ℕ → Call (WakeResult × BridgeState D)
  unfolding rearm_enabled
  rearm c s next_due now =
      if is_enabled (effective_cap (m.capability s.wake) s.master_enabled)
      then rearm_enabled c s next_due now
      else returned (ok, record s { wake = (m.cancel_wake s.wake).1; last_target = none })

  unfoldable pub rearm_from_candidates :
      Chrono → BridgeState D → List WakeCandidate → ℕ → Call (WakeResult × BridgeState D)
  rearm_from_candidates c s candidates now = rearm c s (elect_next_wake candidates) now

  unfoldable pub cancel : BridgeState D → WakeResult × BridgeState D
  cancel s =
      let (result, d) = m.cancel_wake s.wake in (result, record s { wake = d; last_target = none })

  -- `SingleNextWake::re_probe`: its state.
  unfoldable pub re_probe : BridgeState D → BridgeState D
  re_probe s = let (cap, d) = m.re_probe s.wake in record s { wake = d; last_capability = cap }

pub data PowerEvent : Type 0 where
  suspending resumed power_source_changed : PowerEvent

module _ {D : Type 0} (m : MachineWake D) where
  -- `on_power_event` drops the result of `rearm`. After a resume the platform is probed again and the
  -- probe is not recorded.
  unfoldable pub on_power_event :
      Chrono → PowerEvent → BridgeState D → List WakeCandidate → ℕ → Call (BridgeState D)
  on_power_event c suspending s candidates now =
      rearm_from_candidates m c s candidates now >>= λ p. returned p.1
  on_power_event c resumed s candidates now =
      let woken = record s { wake = (m.re_probe (m.on_resumed s.wake)).1 } in
      rearm_from_candidates m c woken candidates now >>= λ p. returned p.1
  on_power_event c power_source_changed s candidates now =
      rearm_from_candidates m c (re_probe m s) candidates now >>= λ p. returned p.1
