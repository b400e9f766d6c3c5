-- ===== src/Platform/Wake/Alarms.antt =====
-- What `rearm` of crates/bellman-core/src/platform/wake/single_next_wake.rs asks of a platform.
use bellman.Common.{ℕ, ◌≡◌, Bool, true, false, Option, none, some}
use bellman.Occurrence.Chrono.{Chrono}
use bellman.Platform.Wake.Elections.{IsArmInstant}
use bellman.Platform.Wake.{MachineWake, BridgeState, WakeResult, ok, failed}

module _ {D : Type 0} (m : MachineWake D) where
  -- The platform is in a state that a successful `program_wake` at `t`, or a successful `cancel_wake`, left.
  abbrev pub IsProgrammed : ℕ → D → Type 0
  IsProgrammed t d' = (d : D) × (m.program_wake t d ≡ (ok, d'))

  abbrev pub IsCancelled : D → Type 0
  IsCancelled d' = (d : D) × (m.cancel_wake d ≡ (ok, d'))

  -- The last call of the bridge that changed the alarm: of the target that it is to have, if any.
  abbrev pub IsHeld : Option ℕ → D → Type 0
  IsHeld none d = IsCancelled d
  IsHeld (some t) d = IsProgrammed t d

  -- The platform was programmed for the target that the bridge remembers, if it remembers one.
  abbrev pub IsSynced : BridgeState D → Type 0
  IsSynced s = (t : ℕ) → s.last_target ≡ some t → IsProgrammed t s.wake

  -- A result that is `ok` leaves the platform set to this target, and the target remembered.
  abbrev pub Leaves : Option ℕ → WakeResult × BridgeState D → Type 0
  Leaves target (ok, s) = IsHeld target s.wake × (s.last_target ≡ target)
  Leaves target (failed e, s) = Unit

  -- What `rearm` leaves of a platform that was in this state, where wake-ups are enabled, and where they are not.
  abbrev pub Rearmed : Bool → D → Option ℕ → ℕ → WakeResult × BridgeState D → Type 0
  Rearmed true d none now p = Leaves none p
  Rearmed true d (some due) now p = (at : ℕ) × IsArmInstant due now at × Leaves (some at) p
  Rearmed false d next_due now (result, s) =
      (result ≡ ok) × (s.wake ≡ (m.cancel_wake d).1) × (s.last_target ≡ none)
