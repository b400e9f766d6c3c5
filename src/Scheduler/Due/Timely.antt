-- ===== src/Scheduler/Due/Timely.antt =====
-- One fire at most: the policies skip and coalesce of handle_due_timer in
-- crates/bellman-core/src/scheduler/engine/delivery.rs.
use bellman.Common.{
  refl, ℕ, ◌+◌, ◌-◌, ◌≤◌, ◌≡◌, arith, true, leb, Option, none, some, List, [], ◌∷◌, String, OnSome,
  All, length, keep_where, All-keep_where, keep_where-passes, All-and, done,
}
use bellman.Common.Meets.{Partial-any, Meets-done, Meets-calls, Meets->>=, Meets-if}
use bellman.Store.Models.{Timer}
use bellman.Scheduler.Misfire.{grace_for}
use bellman.Scheduler.Misfire.Walk.{walk-NoneLater}
use bellman.Scheduler.State.{World, DeliveredFire}
use bellman.Scheduler.State.Reaches.{pre, Any, Does}
use bellman.Scheduler.Horizon.Requeues.{requeue_timer-Does, advance_past_now-Does}
use bellman.Scheduler.Delivery.Deliveries.{IsFireOf, deliver_one-Does}
use bellman.Scheduler.Due.{
  last_of, add_delivered, in_grace, log_skipped_misfire, handle_skip, coalesce_walk,
  handle_coalesce,
}

-- A fire of the timer at a slot that came, at most the grace ago.
abbrev pub IsTimelyFire : ℕ → ℕ → ℕ → DeliveredFire → Type 0
IsTimelyFire timer_id now grace d =
    (d.timer_id ≡ timer_id) × (d.scheduled_for ≤ now) × (now ≤ d.scheduled_for + grace)

-- At most so many of them.
abbrev pub AreTimely : ℕ → ℕ → ℕ → ℕ → List DeliveredFire → Type 0
AreTimely timer_id now grace max fires =
    All (IsTimelyFire timer_id now grace) fires × (length fires ≤ max)

pub timely_one :
    (timer_id now grace slot : ℕ) (d : Option DeliveredFire)
    → slot ≤ now
    → now ≤ slot + grace
    → OnSome (IsFireOf timer_id slot) d
    → AreTimely timer_id now grace 1 (add_delivered d [])
timely_one timer_id now grace slot none h k f = (tt, omega arith)
timely_one timer_id now grace slot (some d) h k (same, at) =
    (((same, omega (arith, at), omega (arith, at)), tt), omega arith)

pub timely_more :
    (timer_id now grace slot max : ℕ) (d : Option DeliveredFire) (fires : List DeliveredFire)
    → slot ≤ now
    → now ≤ slot + grace
    → 1 ≤ max
    → OnSome (IsFireOf timer_id slot) d
    → AreTimely timer_id now grace (max - 1) fires
    → AreTimely timer_id now grace max (add_delivered d fires)
timely_more timer_id now grace slot max none fires h k room f (all, few) = (all, omega (arith, few))
timely_more timer_id now grace slot max (some d) fires h k room (same, at) (all, few) =
    (((same, omega (arith, at), omega (arith, at)), all), omega (arith, few))

-- The last element has what all elements have.
last_has {κ} : (P : ℕ → Type κ) (xs : List ℕ) → All P xs → OnSome P (last_of xs)
last_has P [] all = tt
last_has P (x ∷ []) all = all.0
last_has P (x ∷ y ∷ xs) all = last_has P (y ∷ xs) all.1

module _ {A : Type 0} (w : World A) where
  log-Does :
      (t : Timer) (slot missed now : ℕ) (reason : String)
      → Does w Any (log_skipped_misfire w t slot missed now reason)
  unfolding log_skipped_misfire
  log-Does t slot missed now reason = record {
    meets = λ s. (record { timers = done; runs = done; paused = refl }, tt);
  }

  module _ (t : Timer) (slot now : ℕ) (due : slot ≤ now) where
    pub handle_skip-Does : Does w (AreTimely t.id now (grace_for t) 1) (handle_skip w t slot now)
    unfolding handle_skip
    handle_skip-Does =
        Meets-if (leb (now - slot) (grace_for t))
          (λ h. Meets->>= (pre w) (deliver_one-Does w t slot _) λ d f.
            Meets->>= (pre w) (requeue_timer-Does w t.id) λ _ _.
              Meets-done (pre w) _ (timely_one t.id now (grace_for t) slot d due (ground arith) f))
          (λ h. Meets->>= (pre w) (Meets-calls (pre w) _ (Partial-any _)) λ walk _.
            Meets->>= (pre w) (log-Does t slot _ now _) λ _ _.
              Meets->>= (pre w) (advance_past_now-Does w t.id now)
                λ _ _. Meets-done (pre w) [] (tt, omega arith))

    coalesce_walk-Does :
        (walk grace_walk : List ℕ) (fire_at : Option ℕ)
        → OnSome (λ m. (m ≤ now) × (leb (now - m) (grace_for t) ≡ true)) fire_at
        → Does w
            (AreTimely t.id now (grace_for t) 1)
            (coalesce_walk w t slot now walk grace_walk fire_at)
    unfolding coalesce_walk
    coalesce_walk-Does walk grace_walk none h = Meets->>= (pre w) (log-Does t slot _ now _) λ _ _.
        Meets->>= (pre w) (advance_past_now-Does w t.id now)
          λ _ _. Meets-done (pre w) [] (tt, omega arith)
    coalesce_walk-Does walk grace_walk (some fire_at) (early, fresh) =
        Meets->>= (pre w) (deliver_one-Does w t fire_at _) λ d f.
          Meets->>= (pre w) (advance_past_now-Does w t.id now) λ _ _.
            Meets-done (pre w) _
              (timely_one t.id now (grace_for t) fire_at d early (ground arith) f)

    pub handle_coalesce-Does :
        Does w (AreTimely t.id now (grace_for t) 1) (handle_coalesce w t slot now)
    unfolding handle_coalesce in_grace
    handle_coalesce-Does =
        Meets->>= (pre w) (Meets-calls (pre w) _ (walk-NoneLater w.chrono t slot now)) λ walk early.
          let fresh = λ (m : ℕ). leb (now - m) (grace_for t) in
          coalesce_walk-Does walk (keep_where fresh walk) (last_of (keep_where fresh walk)) (
            last_has (λ m. (m ≤ now) × (fresh m ≡ true)) (keep_where fresh walk)
              (All-and _ _ (keep_where fresh walk) (All-keep_where _ fresh walk early)
                (keep_where-passes fresh walk)))
