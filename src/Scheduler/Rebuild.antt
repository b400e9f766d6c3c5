-- ===== src/Scheduler/Rebuild.antt =====
-- The rebuild of the heap from the store: rebuild_horizon in
-- crates/bellman-core/src/scheduler/engine/horizon.rs.
pub mod Rebuilds
use bellman.Common.{
  ℕ, ◌+◌, Bool, true, false, leb, ltb, not, ◌&&◌, if◌then◌else◌, Option, none, some, List, [], ◌∷◌,
  contains, unwrap_or, Call, returned, panicked,
}
use bellman.Common.Results.{Effect, ok, ◌>>=◌, ◌>>◌, done, fail, calls}
use bellman.Occurrence.Chrono.{Chrono}
use bellman.Store.Models.{Timer}
use bellman.Store.Timers
use bellman.Scheduler.Jitter.{apply_execution_jitter, is_high_frequency, max_duration}
use bellman.Scheduler.State.{World, Scheduler, Step, internal, HeapEntry, fire_of, draw, push}
use bellman.Scheduler.Drain.{read_timers}

abbrev pub is_kept_resident : List ℕ → Timer → Bool
is_kept_resident seen t =
    t.enabled && (not (contains t.id seen) && is_high_frequency t.occurrence.kind)

module _ {A : Type 0} (w : World A) where
  unfoldable pub read_due : ℕ → Step A (List Timer)
  read_due horizon s = returned (ok (Timers.timers_due_by horizon s.timers), s)

  -- The snapshot of `data_version` and of the monotonic clock, and the empty heap.
  unfoldable pub start_rebuild : Step A (Unit {0})
  start_rebuild s = returned (
    ok tt,
    record s {
      last_data_version = unwrap_or (w.data_version s.reads) s.last_data_version;
      last_rebuild_mono = w.mono s.reads;
      heap = [];
      reads = s.reads + 1;
    },
  )

  -- `now + horizon`, where a horizon past the longest duration is an error and the sum may leave the range.
  unfoldable pub horizon_end : ℕ → ℕ → Step A ℕ
  horizon_end horizon now =
      if leb horizon max_duration
      then (if ltb w.chrono.last_instant (now + horizon)
          then calls panicked
          else done (now + horizon))
      else fail internal

  unfoldable pub push_fire : Timer → Option ℕ → Step A (Unit {0})
  push_fire t none = done tt
  push_fire t (some nf) = do
    exec_at ← calls (apply_execution_jitter w.chrono (w.hash t.id nf) nf t.jitter_secs)
    push w (record { fire_at = exec_at; kind = fire_of t.id })

  -- The loop over the due timers, which all have a next fire; the ids that it saw.
  unfoldable pub push_due : List Timer → Step A (List ℕ)
  unfolding push_fire
  push_due [] = done []
  push_due (t ∷ ts) = do _ ← push_fire t t.next_fire_utc; seen ← push_due ts; done (t.id ∷ seen)

  unfoldable pub push_resident : List ℕ → List Timer → Step A (Unit {0})
  unfolding push_fire
  push_resident seen [] = done tt
  push_resident seen (t ∷ ts) = do
    if is_kept_resident seen t then push_fire t t.next_fire_utc else done tt
    push_resident seen ts

  unfoldable pub rebuild_horizon : Step A (Unit {0})
  unfolding horizon_end push_due push_resident
  rebuild_horizon = do
    _ ← start_rebuild
    now ← draw w w.wall
    horizon ← horizon_end w.config.horizon now
    due ← read_due horizon
    seen ← push_due due
    timers ← read_timers w
    push_resident seen timers
