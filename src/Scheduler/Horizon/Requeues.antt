-- ===== src/Scheduler/Horizon/Requeues.antt =====
-- The moves of a timer through the store: crates/bellman-core/src/scheduler/engine/horizon.rs.
use bellman.Common.{ℕ, Bool, true, false, ltb, ◌||◌, Option, none, some}
use bellman.Common.Meets.{Partial-any, Meets-done, Meets-fail, Meets-calls, Meets->>=, Meets-if}
use bellman.Store.Models.{Timer}
use bellman.Scheduler.State.{World, internal}
use bellman.Scheduler.State.Reaches.{
  pre, Any, Does, draw-Does, read_timer-Does, write_timer-Does, push-Does,
}
use bellman.Scheduler.Horizon.{
  push_if_in_horizon, requeue_at, requeue_found, requeue_timer, advance_found, advance_past_now,
  settle_bumped, bump_past, ensure_at, ensure_found, ensure_advanced_past, is_overdue, is_resident,
}

module _ {A : Type 0} (w : World A) where
  pub push_if_in_horizon-Does :
      (fire_at timer_id : ℕ) → Does w Any (push_if_in_horizon w fire_at timer_id)
  unfolding push_if_in_horizon
  push_if_in_horizon-Does fire_at timer_id = Meets->>= (pre w) (draw-Does w _) λ now _.
      Meets->>= (pre w) (read_timer-Does w timer_id) λ timer _.
        Meets->>= (pre w) (Meets-calls (pre w) _ (Partial-any _)) λ exec_at _.
          Meets->>= (pre w) (Meets-calls (pre w) _ (Partial-any _)) λ horizon_ok _.
            Meets-if (horizon_ok || is_resident timer) (λ h. push-Does w _)
              (λ h. Meets-done (pre w) tt tt)

  requeue_at-Does :
      (timer_id : ℕ) (enabled : Bool) (next : Option ℕ)
      → Does w Any (requeue_at w timer_id enabled next)
  unfolding requeue_at
  requeue_at-Does timer_id true (some nf) = push_if_in_horizon-Does nf timer_id
  requeue_at-Does timer_id true none = Meets-done (pre w) tt tt
  requeue_at-Does timer_id false next = Meets-done (pre w) tt tt

  requeue_found-Does : (timer_id : ℕ) (t : Option Timer) → Does w Any (requeue_found w timer_id t)
  unfolding requeue_found
  requeue_found-Does timer_id none = Meets-done (pre w) tt tt
  requeue_found-Does timer_id (some t) = requeue_at-Does timer_id t.enabled t.next_fire_utc

  pub requeue_timer-Does : (timer_id : ℕ) → Does w Any (requeue_timer w timer_id)
  unfolding requeue_timer
  requeue_timer-Does timer_id =
      Meets->>= (pre w) (read_timer-Does w timer_id) λ t _. requeue_found-Does timer_id t

  advance_found-Does :
      (timer_id now : ℕ) (t : Option Timer) → Does w Any (advance_found w timer_id now t)
  unfolding advance_found
  advance_found-Does timer_id now none = Meets-fail (pre w) internal
  advance_found-Does timer_id now (some t) =
      Meets->>= (pre w) (Meets-calls (pre w) _ (Partial-any _)) λ cursor _.
        Meets->>= (pre w) (Meets-calls (pre w) _ (Partial-any _))
          λ walked _. Meets->>= (pre w) (write_timer-Does w _) λ _ _. requeue_timer-Does timer_id

  pub advance_past_now-Does : (timer_id now : ℕ) → Does w Any (advance_past_now w timer_id now)
  unfolding advance_past_now
  advance_past_now-Does timer_id now =
      Meets->>= (pre w) (read_timer-Does w timer_id) λ t _. advance_found-Does timer_id now t

  settle_bumped-Does :
      (timer_id now : ℕ) (t : Option Timer) → Does w Any (settle_bumped w timer_id now t)
  unfolding settle_bumped
  settle_bumped-Does timer_id now none = Meets-done (pre w) tt tt
  settle_bumped-Does timer_id now (some t) =
      Meets-if (is_overdue now t.next_fire_utc) (λ h. advance_past_now-Does timer_id now)
        (λ h. requeue_timer-Does timer_id)

  bump_past-Does :
      (timer_id scheduled_for : ℕ) (t : Timer) → Does w Any (bump_past w timer_id scheduled_for t)
  unfolding bump_past
  bump_past-Does timer_id scheduled_for t = Meets->>= (pre w) (write_timer-Does w _) λ _ _.
      Meets->>= (pre w) (draw-Does w _) λ now _.
        Meets->>= (pre w) (read_timer-Does w timer_id) λ q _. settle_bumped-Does timer_id now q

  ensure_at-Does :
      (timer_id scheduled_for : ℕ) (t : Timer) (next : Option ℕ)
      → Does w Any (ensure_at w timer_id scheduled_for t next)
  unfolding ensure_at
  ensure_at-Does timer_id scheduled_for t none = bump_past-Does timer_id scheduled_for t
  ensure_at-Does timer_id scheduled_for t (some nf) =
      Meets-if (ltb scheduled_for nf) (λ h. push_if_in_horizon-Does nf timer_id)
        (λ h. bump_past-Does timer_id scheduled_for t)

  ensure_found-Does :
      (timer_id scheduled_for : ℕ) (t : Option Timer)
      → Does w Any (ensure_found w timer_id scheduled_for t)
  unfolding ensure_found
  ensure_found-Does timer_id scheduled_for none = Meets-done (pre w) tt tt
  ensure_found-Does timer_id scheduled_for (some t) =
      ensure_at-Does timer_id scheduled_for t t.next_fire_utc

  pub ensure_advanced_past-Does :
      (timer_id scheduled_for : ℕ) → Does w Any (ensure_advanced_past w timer_id scheduled_for)
  unfolding ensure_advanced_past
  ensure_advanced_past-Does timer_id scheduled_for =
      Meets->>= (pre w) (read_timer-Does w timer_id)
        λ t _. ensure_found-Does timer_id scheduled_for t
