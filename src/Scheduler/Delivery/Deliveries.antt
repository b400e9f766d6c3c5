-- ===== src/Scheduler/Delivery/Deliveries.antt =====
-- What a delivery does: deliver_one in crates/bellman-core/src/scheduler/engine/delivery.rs.
use bellman.Common.{
  ℕ, ◌≡◌, refl, sym, ap, arith, Bool, true, false, not, ◌&&◌, Option, none, some, [], ◌∷◌, OnSome,
  Steps, done, and_then,
}
use bellman.Common.Meets.{OnOk, Meets-done, Meets-fail, Meets->>=, Meets->>, Meets-if}
use bellman.Store.Ledger.{
  RunClaim, Ledger, is_unfinished, is_pending, new_claim, claim_run, complete_run, fail_run,
  wake_delivered, wake_failed,
}
use bellman.Store.Ledger.Keys.{Write, claims, finishes, claim_run-some}
use bellman.Store.Models.{Timer}
use bellman.Scheduler.State.{
  World, FireKind, DeliveredFire, internal, action_failed, or_run_not_found,
}
use bellman.Scheduler.State.Reaches.{pre, Any, Does, read_timer-Does, write_timer-Does}
use bellman.Scheduler.Horizon.Requeues.{requeue_timer-Does, ensure_advanced_past-Does}
use bellman.Scheduler.Delivery.{
  get_claim_for, claim_result, close_run, is_finished, is_some, claim, find_claim, close, act,
  anchor_found, anchor_last_fired, mark_found, mark_fired, run_action, needs_mark, record_fire,
  act_and_close, deliver_again, deliver_claimed, deliver_one,
}

-- The claim of a timer at a slot.
abbrev pub IsClaimOf : ℕ → ℕ → RunClaim → Type 0
IsClaimOf timer_id slot r = (r.timer_id ≡ timer_id) × (r.scheduled_for ≡ slot)

-- The fire of a timer at a slot.
abbrev pub IsFireOf : ℕ → ℕ → DeliveredFire → Type 0
IsFireOf timer_id slot d = (d.timer_id ≡ timer_id) × (d.scheduled_for ≡ slot)

get_claim_for-some :
    (timer_id slot : ℕ) (rows : Ledger) (o : Option RunClaim)
    → get_claim_for timer_id slot rows ≡ o
    → OnSome (IsClaimOf timer_id slot) o
unfolding get_claim_for
get_claim_for-some timer_id slot rows none h = tt
get_claim_for-some timer_id slot [] (some r) h = absurd (ground arith)
get_claim_for-some timer_id slot (q ∷ rows) (some r) h =
    ground (arith, get_claim_for-some timer_id slot rows (some r))

made_claim :
    (run_id now timer_id slot : ℕ) (rows rows' : Ledger) (r : RunClaim)
    → claim_run run_id now timer_id slot rows ≡ some (r, rows')
    → IsClaimOf timer_id slot r
unfolding new_claim
made_claim run_id now timer_id slot rows rows' r h =
    let (_, same, _) = claim_run-some run_id now timer_id slot rows rows' r h in
    (
      sym (ap (λ (q : RunClaim). q.timer_id) same),
      sym (ap (λ (q : RunClaim). q.scheduled_for) same),
    )

claimed_rows :
    (run_id now timer_id slot : ℕ) (rows : Ledger) (o : Option (RunClaim × Ledger))
    → claim_run run_id now timer_id slot rows ≡ o
    → Steps Write rows (claim_result rows o).1
      × OnSome (IsClaimOf timer_id slot) (claim_result rows o).0
claimed_rows run_id now timer_id slot rows none h = (done, tt)
claimed_rows run_id now timer_id slot rows (some (r, rows')) h = (
  and_then (claims run_id now timer_id slot h) done,
  made_claim run_id now timer_id slot rows rows' r h,
)

closed_rows :
    (run_id : ℕ) (success : Bool) (now : ℕ) (rows : Ledger)
    → Steps Write rows (close_run run_id success now rows).1
unfolding complete_run fail_run
closed_rows run_id true now rows = and_then (finishes run_id wake_delivered none now) done
closed_rows run_id false now rows = and_then (finishes run_id wake_failed none now) done

close-Any : (run_id : ℕ) (o : Option RunClaim) → OnOk Any (or_run_not_found run_id o)
close-Any run_id none = tt
close-Any run_id (some r) = tt

module _ {A : Type 0} (w : World A) where
  claim-Does :
      (timer_id slot : ℕ) → Does w (OnSome (IsClaimOf timer_id slot)) (claim w timer_id slot)
  unfolding claim
  claim-Does timer_id slot = record {
    meets = λ s.
        let (writes, made) =
          claimed_rows (w.uuid s.reads) (w.utc s.reads) timer_id slot s.runs _ refl in
        (record { timers = done; runs = writes; paused = refl }, made);
  }

  find_claim-Does :
      (timer_id slot : ℕ) → Does w (OnSome (IsClaimOf timer_id slot)) (find_claim w timer_id slot)
  unfolding find_claim
  find_claim-Does timer_id slot = record {
    meets = λ s. (
      record { timers = done; runs = done; paused = refl },
      get_claim_for-some timer_id slot s.runs _ refl,
    );
  }

  close-Does : (run_id : ℕ) (success : Bool) → Does w Any (close w run_id success)
  unfolding close
  close-Does run_id success = record {
    meets = λ s. (
      record {
        timers = done;
        runs = closed_rows run_id success (w.utc s.reads) s.runs;
        paused = refl;
      },
      close-Any run_id _,
    );
  }

  act-Does : (t : Timer) (r : RunClaim) (kind : FireKind) → Does w Any (act w t r kind)
  unfolding act
  act-Does t r kind = record {
    meets = λ s. (record { timers = done; runs = done; paused = refl }, tt);
  }

  anchor_found-Does : (anchor : ℕ) (t : Option Timer) → Does w Any (anchor_found w anchor t)
  unfolding anchor_found
  anchor_found-Does anchor none = Meets-fail (pre w) internal
  anchor_found-Does anchor (some t) =
      Meets->>= (pre w) (write_timer-Does w _) λ _ _. Meets-done (pre w) tt tt

  pub anchor_last_fired-Does :
      (timer_id anchor : ℕ) → Does w Any (anchor_last_fired w timer_id anchor)
  unfolding anchor_last_fired
  anchor_last_fired-Does timer_id anchor =
      Meets->>= (pre w) (read_timer-Does w timer_id) λ t _. anchor_found-Does anchor t

  mark_found-Does : (slot : ℕ) (t : Option Timer) → Does w Any (mark_found w slot t)
  unfolding mark_found
  mark_found-Does slot none = Meets-fail (pre w) internal
  mark_found-Does slot (some t) =
      Meets->>= (pre w) (write_timer-Does w _) λ _ _. Meets-done (pre w) tt tt

  mark_fired-Does : (timer_id slot : ℕ) → Does w Any (mark_fired w timer_id slot)
  unfolding mark_fired
  mark_fired-Does timer_id slot =
      Meets->>= (pre w) (read_timer-Does w timer_id) λ t _. mark_found-Does slot t

  run_action-Does :
      (t : Timer) (r : RunClaim) (kind : FireKind) → Does w Any (run_action w t r kind)
  unfolding run_action
  run_action-Does t r kind = Meets->>= (pre w) (act-Does t r kind) λ success _.
      Meets-if w.executes_inline
        (λ h.
          Meets-if (is_pending r.status)
            (λ h. Meets->>= (pre w) (close-Does r.run_id success) λ _ _. Meets-done (pre w) _ tt)
            (λ h. Meets-done (pre w) _ tt))
        (λ h. Meets-done (pre w) _ tt)

  module _ (t : Timer) (slot : ℕ) (kind : FireKind) where
    abbrev pub Fires : Option DeliveredFire → Type 0
    Fires d = OnSome (IsFireOf t.id slot) d

    record_fire-Does :
        (r : RunClaim) (inline_error : Bool)
        → IsClaimOf t.id slot r
        → Does w Fires (record_fire w t r kind inline_error)
    unfolding record_fire
    record_fire-Does r inline_error c = Meets->>= (pre w) (read_timer-Does w t.id) λ fresh _.
        Meets->> (pre w)
          (Meets-if (needs_mark fresh r.scheduled_for) (λ h. mark_fired-Does t.id r.scheduled_for)
            (λ h. requeue_timer-Does w t.id))
          (Meets-if inline_error (λ h. Meets-fail (pre w) action_failed)
            (λ h. Meets-done (pre w) _ (refl, c.1)))

    pub act_and_close-Does :
        (r : RunClaim) → IsClaimOf t.id slot r → Does w Fires (act_and_close w t r kind)
    unfolding act_and_close
    act_and_close-Does r c =
        Meets-if (is_finished r.status)
          (λ h.
            Meets-if (is_some r.completed_at && not (is_some r.outcome))
              (λ h.
                Meets->>= (pre w) (ensure_advanced_past-Does w t.id r.scheduled_for)
                  λ _ _. Meets-done (pre w) none tt)
              (λ h. record_fire-Does r false c))
          (λ h. Meets->>= (pre w) (run_action-Does t r kind) λ e _. record_fire-Does r e c)

    deliver_again-Does :
        (o : Option RunClaim)
        → OnSome (IsClaimOf t.id slot) o
        → Does w Fires (deliver_again w t slot kind o)
    unfolding deliver_again
    deliver_again-Does none c = Meets-fail (pre w) internal
    deliver_again-Does (some r) c =
        Meets-if (is_unfinished r) (λ h. act_and_close-Does r c)
          (λ h.
            Meets->>= (pre w) (ensure_advanced_past-Does w t.id slot)
              λ _ _. Meets-done (pre w) none tt)

    deliver_claimed-Does :
        (o : Option RunClaim)
        → OnSome (IsClaimOf t.id slot) o
        → Does w Fires (deliver_claimed w t slot kind o)
    unfolding deliver_claimed
    deliver_claimed-Does (some r) c = act_and_close-Does r c
    deliver_claimed-Does none c =
        Meets->>= (pre w) (find_claim-Does t.id slot) λ o c'. deliver_again-Does o c'

    -- A delivery goes through the store, and a fire that it reports is of the timer at the slot.
    pub deliver_one-Does : Does w Fires (deliver_one w t slot kind)
    unfolding deliver_one
    deliver_one-Does = Meets->>= (pre w) (claim-Does t.id slot) λ o c. deliver_claimed-Does o c
