-- ===== src/Scheduler/Rebuild/Rebuilds.antt =====
-- A rebuild of the heap leaves the store alone: rebuild_horizon in
-- crates/bellman-core/src/scheduler/engine/horizon.rs.
use bellman.Common.{refl, ℕ, Option, none, some, List, [], ◌∷◌, leb, ltb, ◌+◌, done, panicked}
use bellman.Common.Meets.{
  Partial-any, Meets-done, Meets-fail, Meets-calls, Meets->>=, Meets->>, Meets-if,
}
use bellman.Store.Models.{Timer}
use bellman.Scheduler.Jitter.{max_duration}
use bellman.Scheduler.State.{World, internal}
use bellman.Scheduler.State.Reaches.{pre, Any, Does, draw-Does, push-Does}
use bellman.Scheduler.Drain.Drains.{read_timers-Does}
use bellman.Scheduler.Rebuild.{
  read_due, start_rebuild, horizon_end, push_fire, push_due, push_resident, is_kept_resident,
  rebuild_horizon,
}

module _ {A : Type 0} (w : World A) where
  read_due-Does : (horizon : ℕ) → Does w Any (read_due w horizon)
  unfolding read_due
  read_due-Does horizon = record {
    meets = λ s. (record { timers = done; runs = done; paused = refl }, tt);
  }

  start_rebuild-Does : Does w Any (start_rebuild w)
  unfolding start_rebuild
  start_rebuild-Does = record {
    meets = λ s. (record { timers = done; runs = done; paused = refl }, tt);
  }

  horizon_end-Does : (horizon now : ℕ) → Does w Any (horizon_end w horizon now)
  unfolding horizon_end
  horizon_end-Does horizon now =
      Meets-if (leb horizon max_duration)
        (λ h.
          Meets-if (ltb w.chrono.last_instant (now + horizon))
            (λ h. Meets-calls (pre w) panicked tt) (λ h. Meets-done (pre w) _ tt))
        (λ h. Meets-fail (pre w) internal)

  push_fire-Does : (t : Timer) (next : Option ℕ) → Does w Any (push_fire w t next)
  unfolding push_fire
  push_fire-Does t none = Meets-done (pre w) tt tt
  push_fire-Does t (some nf) =
      Meets->>= (pre w) (Meets-calls (pre w) _ (Partial-any _)) λ exec_at _. push-Does w _

  push_due-Does : (ts : List Timer) → Does w Any (push_due w ts)
  unfolding push_due
  push_due-Does [] = Meets-done (pre w) [] tt
  push_due-Does (t ∷ ts) =
      Meets->>= (pre w) (push_fire-Does t t.next_fire_utc)
        λ _ _. Meets->>= (pre w) (push_due-Does ts) λ seen _. Meets-done (pre w) _ tt

  push_resident-Does : (seen : List ℕ) (ts : List Timer) → Does w Any (push_resident w seen ts)
  unfolding push_resident
  push_resident-Does seen [] = Meets-done (pre w) tt tt
  push_resident-Does seen (t ∷ ts) =
      Meets->> (pre w)
        (Meets-if (is_kept_resident seen t) (λ h. push_fire-Does t t.next_fire_utc)
          (λ h. Meets-done (pre w) tt tt))
        (push_resident-Does seen ts)

  pub rebuild_horizon-Does : Does w Any (rebuild_horizon w)
  unfolding rebuild_horizon
  rebuild_horizon-Does = Meets->>= (pre w) start_rebuild-Does λ _ _.
      Meets->>= (pre w) (draw-Does w _) λ now _.
        Meets->>= (pre w) (horizon_end-Does w.config.horizon now) λ horizon _.
          Meets->>= (pre w) (read_due-Does horizon) λ due _.
            Meets->>= (pre w) (push_due-Does due)
              λ seen _. Meets->>= (pre w) (read_timers-Does w) λ ts _. push_resident-Does seen ts
