-- ===== src/Scheduler/State.antt =====
-- The engine and what it shares with its parts: crates/bellman-core/src/scheduler/engine/types.rs and
-- mod.rs. A reading of a clock, a random id and an answer of the operating system is an entry of the
-- `World`, at a counter of the readings. Durations and instants are in nanoseconds.
pub mod Reaches
use bellman.Common.{
  ℕ, ◌+◌, Bool, ◌&&◌, ◌||◌, ◌==◌, ltb, leb, Option, none, some, List, ◌∷◌, String, Call, returned,
  insert_by,
}
use bellman.Common.Results.{Result, ok, err, Effect, after}
use bellman.Occurrence.Chrono.{Chrono}
use bellman.Store.Ledger.{RunClaim, Ledger}
use bellman.Store.Models.{Timer, TimerUpdate}
use bellman.Store.Timers
use bellman.Store.Timers.{StoreError, StoreResult, Timers, run_not_found}

pub data DeadlineKind : Type 0 where
  pickup watchdog : DeadlineKind

-- A late fire has the two instants whose signed difference is its lateness: the clock and the slot.
pub data FireKind : Type 0 where
  on_time : FireKind
  late : ℕ → ℕ → FireKind
  coalesced catch_up_step : ℕ → FireKind

-- `ControlMsg`.
pub data ControlMsg : Type 0 where
  refill shutdown : ControlMsg
  set_pause_all : Bool → ControlMsg
  arm_deadline : ℕ → DeadlineKind → ℕ → ControlMsg

pub data HeapKind : Type 0 where
  fire_of : ℕ → HeapKind
  deadline_of : ℕ → DeadlineKind → HeapKind

pub record HeapEntry : Type 0 where
  pub fire_at : ℕ
  pub kind : HeapKind

pub record DeliveredFire : Type 0 where
  pub timer_id : ℕ
  pub scheduled_for : ℕ
  pub run_id : ℕ
  pub kind : FireKind

pub data SchedulerError : Type 0 where
  store : StoreError → SchedulerError
  action_failed internal : SchedulerError

-- `HeapKind::sort_key`: fires come before deadlines.
abbrev pub sort_key : HeapKind → ℕ × ℕ
sort_key (fire_of timer_id) = (0, timer_id)
sort_key (deadline_of run_id kind) = (1, run_id)

-- `Ord for HeapEntry`, as a test of ≤.
unfoldable pub entry_le : HeapEntry → HeapEntry → Bool
entry_le a b =
    let (tag, key) = sort_key a.kind in
    let (tag', key') = sort_key b.kind in
    ltb a.fire_at b.fire_at
    || ((a.fire_at == b.fire_at) && (ltb tag tag' || ((tag == tag') && leb key key')))

-- The event that `log_skipped_misfire` puts into the outbox.
pub record SkippedMisfire : Type 0 where
  pub timer_id : ℕ
  pub scheduled_for : ℕ
  pub count : ℕ
  pub logged_at : ℕ
  pub message : String

-- The tunables that this code reads.
pub record SchedulerConfig : Type 0 where
  pub horizon : ℕ
  pub max_sleep : ℕ
  pub external_rebuild_interval : ℕ
  pub jump_threshold : ℕ

-- Outside the program: the calendar, the hash of the standard library, the clock of the scheduler,
-- `Utc::now`, random ids, SQLite's `data_version` and the action, which tells whether it succeeded.
pub record World (A : Type 0) : Type 0 where
  pub chrono : Chrono
  pub hash : ℕ → ℕ → ℕ
  pub wall : ℕ → ℕ
  pub mono : ℕ → ℕ
  pub utc : ℕ → ℕ
  pub uuid : ℕ → ℕ
  pub data_version : ℕ → Option ℕ
  pub on_fire : A → Timer → RunClaim → FireKind → A × Bool
  pub executes_inline : Bool
  pub boot_complete : A → A
  pub config : SchedulerConfig

-- The engine without a data directory. The heap is the list of its entries in their order,
-- the outbox has the newest event first, and `control` are the messages in the channel.
pub record Scheduler (A : Type 0) : Type 0 where
  pub timers : Timers
  pub runs : Ledger
  pub outbox : List SkippedMisfire
  pub action : A
  pub heap : List HeapEntry
  pub last_wall : ℕ
  pub last_mono : ℕ
  pub control : List ControlMsg
  pub booted : Bool
  pub pause_all : Bool
  pub last_data_version : ℕ
  pub last_rebuild_mono : ℕ
  pub reads : ℕ

-- `SchedulerResult` of code that changes the engine.
abbrev pub Step : Type 0 → Type 0 → Type 0
Step A X = Effect SchedulerError (Scheduler A) X

-- The `?` of a store error inside the engine.
abbrev pub lift_store {ℓ} : {X : Type ℓ} → StoreResult X → Result SchedulerError X
lift_store (ok x) = ok x
lift_store (err e) = err (store e)

abbrev pub or_run_not_found {ℓ} : {X : Type ℓ} → ℕ → Option X → Result SchedulerError X
or_run_not_found run_id none = err (store (run_not_found run_id))
or_run_not_found run_id (some x) = ok x

module _ {A : Type 0} (w : World A) where
  unfoldable pub draw {ℓ} : {X : Type ℓ} → (ℕ → X) → Effect SchedulerError (Scheduler A) X
  draw f s = returned (ok (f s.reads), record s { reads = s.reads + 1 })

  unfoldable pub read_timer : ℕ → Step A (Option Timer)
  read_timer id s = returned (ok (Timers.get_timer id s.timers), s)

  -- `self.store.update_timer`.
  unfoldable pub write_timer : TimerUpdate → Step A Timer
  write_timer u s =
      after (Timers.update_timer w.chrono (w.utc s.reads) u s.timers)
        λ (r, timers). returned (lift_store r, record s { timers = timers; reads = s.reads + 1 })

  -- `self.heap.push`.
  unfoldable pub push : HeapEntry → Step A (Unit {0})
  push entry s = returned (ok tt, record s { heap = insert_by entry_le entry s.heap })
