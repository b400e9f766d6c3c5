-- ===== src/Scheduler/Drain/Drains.antt =====
-- The overdue scan and the drain go through the store: crates/bellman-core/src/scheduler/engine/misfire.rs.
use bellman.Common.{
  refl, ℕ, zero, suc, ltb, contains, Option, none, some, List, [], ◌∷◌, done, returned,
}
use bellman.Common.Results.{Effect, Result, ok}
use bellman.Common.Meets.{Partial, OnOk, Partial-any, Meets-done, Meets-calls, Meets->>=, Meets-if}
use bellman.Store.Models.{Timer}
use bellman.Scheduler.State.{
  World, Scheduler, SchedulerError, DeliveredFire, HeapEntry, HeapKind, fire_of, deadline_of,
}
use bellman.Scheduler.State.Reaches.{Reaches, pre, Any, Does, draw-Does, read_timer-Does, push-Does}
use bellman.Scheduler.Due.Policies.{handle_due_timer-Does}
use bellman.Scheduler.Drain.{
  read_timers, scan_timer, scan_timers, misfire_pass, pop, drain_timer, drain_read,
  handle_due_deadline, drain_kind, drain_popped, drain_from, drain_due, max_drains,
}

module _ {A : Type 0} (w : World A) where
  pub read_timers-Does : Does w Any (read_timers w)
  unfolding read_timers
  read_timers-Does = record {
    meets = λ s. (record { timers = done; runs = done; paused = refl }, tt);
  }

  scan_timer-Does : (now : ℕ) (t : Timer) (next : Option ℕ) → Does w Any (scan_timer w now t next)
  unfolding scan_timer
  scan_timer-Does now t none = Meets-done (pre w) [] tt
  scan_timer-Does now t (some next) =
      Meets-if t.enabled
        (λ h.
          Meets-if (ltb now next) (λ h. Meets-done (pre w) [] tt)
            (λ h. handle_due_timer-Does w t.id next now))
        (λ h. Meets-done (pre w) [] tt)

  scan_timers-Does : (now : ℕ) (ts : List Timer) → Does w Any (scan_timers w now ts)
  unfolding scan_timers
  scan_timers-Does now [] = Meets-done (pre w) [] tt
  scan_timers-Does now (t ∷ ts) =
      Meets->>= (pre w) (scan_timer-Does now t t.next_fire_utc)
        λ fires _. Meets->>= (pre w) (scan_timers-Does now ts) λ rest _. Meets-done (pre w) _ tt

  pub misfire_pass-Does : Does w Any (misfire_pass w)
  unfolding misfire_pass
  misfire_pass-Does =
      Meets->>= (pre w) (draw-Does w _)
        λ now _. Meets->>= (pre w) read_timers-Does λ ts _. scan_timers-Does now ts

  popped :
      (s : Scheduler A) (heap : List HeapEntry)
      → Partial
          (λ (r : Result SchedulerError (Option HeapEntry) × Scheduler A).
            Reaches w.chrono s r.1 × OnOk Any r.0)
          (elim heap [
            | [] ↦ returned (ok none, s)
            | entry ∷ rest ↦ returned (ok (some entry), record s { heap = rest })
          ])
  popped s [] = (record { timers = done; runs = done; paused = refl }, tt)
  popped s (entry ∷ rest) = (record { timers = done; runs = done; paused = refl }, tt)

  pop-Does : Does w Any (pop w)
  unfolding pop
  pop-Does = record { meets = λ s. popped s s.heap }

  module _ (more : List ℕ → Effect SchedulerError (Scheduler A) (List DeliveredFire))
      (rest : (resolved : List ℕ) → Does w Any (more resolved)) (now : ℕ) (resolved : List ℕ) where
    drain_timer-Does :
        (timer_id : ℕ) (t : Timer) (next : Option ℕ)
        → Does w Any (drain_timer w more now resolved timer_id t next)
    unfolding drain_timer
    drain_timer-Does timer_id t none = rest (t.id ∷ resolved)
    drain_timer-Does timer_id t (some nf) =
        Meets->>= (pre w) (Meets-calls (pre w) _ (Partial-any _)) λ exec_at _.
          Meets-if (ltb now exec_at)
            (λ h. Meets->>= (pre w) (push-Does w _) λ _ _. rest (t.id ∷ resolved))
            (λ h.
              Meets-if (ltb now nf)
                (λ h. Meets->>= (pre w) (push-Does w _) λ _ _. rest (t.id ∷ resolved))
                (λ h. Meets->>= (pre w) (handle_due_timer-Does w t.id nf now) λ fires _.
                  Meets->>= (pre w) (rest (t.id ∷ resolved)) λ others _. Meets-done (pre w) _ tt))

    drain_read-Does :
        (timer_id : ℕ) (t : Option Timer) → Does w Any (drain_read w more now resolved timer_id t)
    unfolding drain_read
    drain_read-Does timer_id none = rest (timer_id ∷ resolved)
    drain_read-Does timer_id (some t) =
        Meets-if t.enabled (λ h. drain_timer-Does timer_id t t.next_fire_utc)
          (λ h. rest (t.id ∷ resolved))

    drain_kind-Does : (kind : HeapKind) → Does w Any (drain_kind w more now resolved kind)
    unfolding drain_kind handle_due_deadline
    drain_kind-Does (deadline_of run_id kind) =
        Meets->>= (pre w) (Meets-done (pre w) {Q = Any} tt tt) λ _ _. rest resolved
    drain_kind-Does (fire_of timer_id) =
        Meets-if (contains timer_id resolved) (λ h. rest resolved)
          (λ h. Meets->>= (pre w) (read_timer-Does w timer_id) λ t _. drain_read-Does timer_id t)

    drain_popped-Does :
        (entry : Option HeapEntry) → Does w Any (drain_popped w more now resolved entry)
    unfolding drain_popped
    drain_popped-Does none = Meets-done (pre w) [] tt
    drain_popped-Does (some entry) =
        Meets-if (ltb now entry.fire_at)
          (λ h. Meets->>= (pre w) (push-Does w entry) λ _ _. Meets-done (pre w) [] tt)
          (λ h. drain_kind-Does entry.kind)

  drain_from-Does : (now left : ℕ) (resolved : List ℕ) → Does w Any (drain_from w now left resolved)
  unfolding drain_from
  drain_from-Does now zero resolved = Meets-done (pre w) [] tt
  drain_from-Does now (suc left) resolved = Meets->>= (pre w) pop-Does λ entry _.
      drain_popped-Does _ (λ resolved'. drain_from-Does now left resolved') now resolved entry

  pub drain_due-Does : (now : ℕ) → Does w Any (drain_due w now)
  unfolding drain_due
  drain_due-Does now = drain_from-Does now max_drains []
