-- ===== src/Scheduler/Drain.antt =====
-- The overdue scan and the drain of the heap: misfire_pass and drain_due in
-- crates/bellman-core/src/scheduler/engine/misfire.rs. The engine has no data
-- directory, so the handling of a deadline that wakes returns at once.
pub mod Drains
use bellman.Common.{
  ℕ, zero, suc, Bool, true, false, ltb, if◌then◌else◌, Option, none, some, List, [], ◌∷◌, ◌++◌,
  contains, returned,
}
use bellman.Common.Results.{Effect, ok, ◌>>=◌, ◌>>◌, done, calls}
use bellman.Store.Models.{Timer}
use bellman.Store.Timers
use bellman.Scheduler.Jitter.{apply_execution_jitter}
use bellman.Scheduler.State.{
  World, Scheduler, Step, DeadlineKind, HeapEntry, HeapKind, fire_of, deadline_of, DeliveredFire,
  draw, read_timer, push,
}
use bellman.Scheduler.Horizon.{is_overdue}
use bellman.Scheduler.Due.{handle_due_timer}

abbrev pub max_drains : ℕ
max_drains = 1000

module _ {A : Type 0} (w : World A) where
  unfoldable pub read_timers : Step A (List Timer)
  read_timers s = returned (ok (Timers.list_timers s.timers), s)

  -- The scan of a listed timer.
  unfoldable pub scan_timer : ℕ → Timer → Option ℕ → Step A (List DeliveredFire)
  scan_timer now t none = done []
  scan_timer now t (some next) =
      if t.enabled
      then (if ltb now next then done [] else handle_due_timer w t.id next now)
      else done []

  unfoldable pub scan_timers : ℕ → List Timer → Step A (List DeliveredFire)
  unfolding scan_timer
  scan_timers now [] = done []
  scan_timers now (t ∷ ts) = do
    fires ← scan_timer now t t.next_fire_utc
    rest ← scan_timers now ts
    done (fires ++ rest)

  unfoldable pub misfire_pass : Step A (List DeliveredFire)
  unfolding scan_timers
  misfire_pass = do now ← draw w w.wall; timers ← read_timers; scan_timers now timers

  unfoldable pub pop : Step A (Option HeapEntry)
  pop s = elim s.heap [
    | [] ↦ returned (ok none, s)
    | entry ∷ heap ↦ returned (ok (some entry), record s { heap = heap })
  ]

  -- The entry of a fire, with the timer read again; `more` is the rest of the drain, from the resolved ids.
  unfoldable pub drain_timer :
      (List ℕ → Step A (List DeliveredFire))
      → ℕ
      → List ℕ
      → ℕ
      → Timer
      → Option ℕ
      → Step A (List DeliveredFire)
  drain_timer more now resolved timer_id t none = more (t.id ∷ resolved)
  drain_timer more now resolved timer_id t (some nf) = do
    exec_at ← calls (apply_execution_jitter w.chrono (w.hash t.id nf) nf t.jitter_secs)
    if ltb now exec_at
        then (do
          _ ← push w (record { fire_at = exec_at; kind = fire_of t.id })
          more (t.id ∷ resolved))
        else (if ltb now nf
            then (do
              _ ← push w (record { fire_at = nf; kind = fire_of t.id })
              more (t.id ∷ resolved))
            else (do
              fires ← handle_due_timer w t.id nf now
              rest ← more (t.id ∷ resolved)
              done (fires ++ rest)))

  unfoldable pub drain_read :
      (List ℕ → Step A (List DeliveredFire))
      → ℕ
      → List ℕ
      → ℕ
      → Option Timer
      → Step A (List DeliveredFire)
  unfolding drain_timer
  drain_read more now resolved timer_id none = more (timer_id ∷ resolved)
  drain_read more now resolved timer_id (some t) =
      if t.enabled
      then drain_timer more now resolved timer_id t t.next_fire_utc
      else more (t.id ∷ resolved)

  -- The early return for an engine without a data directory.
  unfoldable pub handle_due_deadline : ℕ → DeadlineKind → ℕ → Step A (Unit {0})
  handle_due_deadline run_id kind now = done tt

  unfoldable pub drain_kind :
      (List ℕ → Step A (List DeliveredFire)) → ℕ → List ℕ → HeapKind → Step A (List DeliveredFire)
  unfolding drain_read
  drain_kind more now resolved (deadline_of run_id kind) = do
    _ ← handle_due_deadline run_id kind now
    more resolved
  drain_kind more now resolved (fire_of timer_id) =
      if contains timer_id resolved
      then more resolved
      else (do timer ← read_timer w timer_id; drain_read more now resolved timer_id timer)

  unfoldable pub drain_popped :
      (List ℕ → Step A (List DeliveredFire))
      → ℕ
      → List ℕ
      → Option HeapEntry
      → Step A (List DeliveredFire)
  unfolding drain_kind
  drain_popped more now resolved none = done []
  drain_popped more now resolved (some entry) =
      if ltb now entry.fire_at
      then (do _ ← push w entry; done [])
      else drain_kind more now resolved entry.kind

  -- The loop of `drain_due`, with the rounds left and the resolved ids.
  unfoldable pub drain_from : ℕ → ℕ → List ℕ → Step A (List DeliveredFire)
  unfolding drain_popped
  drain_from now zero resolved = done []
  drain_from now (suc left) resolved = do
    entry ← pop
    drain_popped (λ resolved'. drain_from now left resolved') now resolved entry

  unfoldable pub drain_due : ℕ → Step A (List DeliveredFire)
  unfolding drain_from
  drain_due now = drain_from now max_drains []
