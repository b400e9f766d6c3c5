-- ===== src/Scheduler/Due/Bursts.antt =====
-- A burst of fires: the policy catch-up of handle_due_timer in
-- crates/bellman-core/src/scheduler/engine/delivery.rs.
use bellman.Common.{
  ℕ, zero, suc, ◌+◌, ◌-◌, ◌≤◌, ◌≡◌, subst, arith, leb, ltb, ◌||◌, Option, none, some, List, [],
  OnSome, ◌<◌,
}
use bellman.Common.Results.{Effect}
use bellman.Common.Meets.{Meets-done, Meets->>=, Meets-if, Meets-test, Meets-Option}
use bellman.Store.Models.{Timer}
use bellman.Scheduler.Misfire.{saturating_secs}
use bellman.Scheduler.State.{World, Scheduler, SchedulerError, DeliveredFire, catch_up_step}
use bellman.Scheduler.State.Reaches.{pre, Any, Does, read_timer-Does}
use bellman.Scheduler.Horizon.{is_overdue}
use bellman.Scheduler.Horizon.Requeues.{
  push_if_in_horizon-Does, requeue_timer-Does, advance_past_now-Does,
}
use bellman.Scheduler.Delivery.Deliveries.{IsFireOf, deliver_one-Does, anchor_last_fired-Does}
use bellman.Scheduler.Due.{
  after_dropped, after_delivered, deliver_step, catch_up_from, settle_caught_up, handle_catch_up,
  max_steps,
}
use bellman.Scheduler.Due.Timely.{AreTimely, timely_more}

module _ {A : Type 0} (w : World A) where
  module _ (timer_id now grace max : ℕ) where
    -- The fires of a catch-up from an index on.
    abbrev Burst : ℕ → List DeliveredFire → Type 0
    Burst index fires = AreTimely timer_id now grace (max - index) fires

    module _ (more : ℕ → ℕ → Effect SchedulerError (Scheduler A) (List DeliveredFire))
        (rest : (slot index : ℕ) → Does w (Burst index) (more slot index)) where
      after_dropped-Does :
          (slot index : ℕ) (t : Option Timer)
          → Does w (Burst index) (after_dropped w more slot index t)
      unfolding after_dropped
      after_dropped-Does slot index none = Meets-done (pre w) [] (tt, omega arith)
      after_dropped-Does slot index (some t) =
          Meets-Option t.next_fire_utc (Meets-done (pre w) [] (tt, omega arith))
            λ nf. Meets-test (ltb slot nf) (rest nf index) (Meets-done (pre w) [] (tt, omega arith))

      after_delivered-Does :
          (index : ℕ) (t : Option Timer) → Does w (Burst index) (after_delivered w more now index t)
      unfolding after_delivered
      after_delivered-Does index none = Meets-done (pre w) [] (tt, omega arith)
      after_delivered-Does index (some t) =
          Meets-Option t.next_fire_utc (Meets-done (pre w) [] (tt, omega arith)) λ nf.
            Meets-test (ltb now nf)
              (Meets->>= (pre w) (push_if_in_horizon-Does w nf t.id)
                λ _ _. Meets-done (pre w) [] (tt, omega arith))
              (rest nf index)

      deliver_step-Does :
          (slot index : ℕ) (t : Option Timer)
          → slot ≤ now
          → now ≤ slot + grace
          → index < max
          → OnSome (λ (q : Timer). q.id ≡ timer_id) t
          → Does w (Burst index) (deliver_step w more now slot index t)
      unfolding deliver_step
      deliver_step-Does slot index none h k room same = Meets-done (pre w) [] (tt, omega arith)
      deliver_step-Does slot index (some t) h k room same =
          Meets->>= (pre w) (deliver_one-Does w t slot (catch_up_step index)) λ d f.
            Meets->>= (pre w) (read_timer-Does w t.id) λ fresh _.
              Meets->>= (pre w) (after_delivered-Does (index + 1) fresh) λ fires all.
                Meets-done (pre w) _ (
                  timely_more timer_id now grace slot (max - index) d fires h k (omega arith)
                    (subst (λ (id : ℕ). OnSome (IsFireOf id slot) d) same f)
                    (all.0, omega (arith, all.1)))

    catch_up_from-Does :
        (left slot index : ℕ)
        → Does w (Burst index) (catch_up_from w timer_id now grace max left slot index)
    unfolding catch_up_from
    catch_up_from-Does zero slot index = Meets-done (pre w) [] (tt, omega arith)
    catch_up_from-Does (suc left) slot index =
        Meets-if (ltb now slot || leb max index) (λ h. Meets-done (pre w) [] (tt, omega arith))
          (λ open_slot.
            Meets-if (ltb grace (now - slot))
              (λ h. Meets->>= (pre w) (anchor_last_fired-Does w timer_id slot) λ _ _.
                Meets->>= (pre w) (read_timer-Does w timer_id) λ t _.
                  after_dropped-Does _ (λ slot' index'. catch_up_from-Does left slot' index') slot
                    index t)
              (λ h. Meets->>= (pre w) (read_timer-Does w timer_id) λ t same.
                deliver_step-Does _ (λ slot' index'. catch_up_from-Does left slot' index') slot
                  index t (ground arith) (ground arith) (ground arith) same))

  settle_caught_up-Does :
      (timer_id now : ℕ) (t : Option Timer) → Does w Any (settle_caught_up w timer_id now t)
  unfolding settle_caught_up
  settle_caught_up-Does timer_id now none = Meets-done (pre w) tt tt
  settle_caught_up-Does timer_id now (some t) =
      Meets-if (is_overdue now t.next_fire_utc) (λ h. advance_past_now-Does w timer_id now)
        (λ h. requeue_timer-Does w timer_id)

  pub handle_catch_up-Does :
      (grace max : ℕ) (t : Timer) (slot now : ℕ)
      → Does w
          (AreTimely t.id now (saturating_secs grace) max)
          (handle_catch_up w grace max t slot now)
  unfolding handle_catch_up
  handle_catch_up-Does grace max t slot now =
      Meets->>= (pre w) (catch_up_from-Does t.id now (saturating_secs grace) max max_steps slot 0)
        λ fires all. Meets->>= (pre w) (read_timer-Does w t.id) λ q _.
          Meets->>= (pre w) (settle_caught_up-Does t.id now q)
            λ _ _. Meets-done (pre w) fires (all.0, omega (arith, all.1))
