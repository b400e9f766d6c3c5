-- ===== src/Scheduler/Drive/Ticks.antt =====
-- A tick goes through the store: crates/bellman-core/src/scheduler/engine/drive.rs.
use bellman.Common.{◌≡◌, true, [], Steps}
use bellman.Common.Results
use bellman.Common.Results.{Result, Effect, ok, err}
use bellman.Common.Meets.{Meets}
use bellman.Store.Ledger.Keys.{Write}
use bellman.Store.Timers.Rows.{Edit}
use bellman.Scheduler.State.{World, Scheduler, SchedulerError}
use bellman.Scheduler.State.Reaches.{Reaches}
use bellman.Scheduler.Drive.{TickResult}

-- A tick that leaves the engine paused, or that stops, has delivered nothing in its rounds.
abbrev pub IsSilent : {A : Type 0} → Result SchedulerError TickResult × Scheduler A → Type 0
IsSilent (ok r, t) = (t.pause_all ≡ true → r.fires ≡ []) × (r.stops ≡ true → r.fires ≡ [])
IsSilent (err e, t) = Unit

module _ {A : Type 0} (w : World A) where
  -- The tables after the step, paused or not.
  record Tables (s t : Scheduler A) : Type 0 where
    timers : Steps (Edit w.chrono) s.timers t.timers
    runs : Steps Write s.runs t.runs

  abbrev Stores {ℓ κ} : {X : Type ℓ} → (X → Type κ) → Effect SchedulerError (Scheduler A) X → Type κ
  Stores Q m = Meets Tables Q m
