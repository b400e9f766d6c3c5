-- ===== src/Scheduler/Delivery.antt =====
-- Claim, act and record: crates/bellman-core/src/scheduler/engine/delivery.rs, for an engine without a data
-- directory, which claims a fire by `claim_run` alone and has no prune pass and no timer.json.
pub mod Deliveries
use bellman.Common.{
  ℕ, ◌+◌, Bool, true, false, not, leb, ltb, ◌&&◌, ◌==◌, if◌then◌else◌, Option, none, some, List, [],
  ◌∷◌, Call, returned,
}
use bellman.Common.Results.{Effect, Result, ok, err, ◌>>=◌, ◌>>◌, done, fail, after}
use bellman.Occurrence.Schedule.{record_run}
use bellman.Store.Ledger
use bellman.Store.Ledger.{
  RunClaim, Ledger, RunOutcome, ClaimStatus, pending, active, finished, is_unfinished, is_pending,
}
use bellman.Store.Models.{Timer, no_change}
use bellman.Scheduler.State.{
  World, Scheduler, Step, SchedulerError, internal, action_failed, FireKind, DeliveredFire, draw,
  read_timer, write_timer, or_run_not_found,
}
use bellman.Scheduler.Horizon.{anchored, advanced, update_of, requeue_timer, ensure_advanced_past}

-- `get_claim_for`.
unfoldable pub get_claim_for : ℕ → ℕ → Ledger → Option RunClaim
get_claim_for timer_id scheduled_for [] = none
get_claim_for timer_id scheduled_for (r ∷ rows) =
    let rest = get_claim_for timer_id scheduled_for rows in
    if (r.timer_id == timer_id) && (r.scheduled_for == scheduled_for) then some r else rest

-- What `claim_run` leaves: `none` is `AlreadyClaimed`.
abbrev pub claim_result : Ledger → Option (RunClaim × Ledger) → Option RunClaim × Ledger
claim_result rows none = (none, rows)
claim_result rows (some (claim, rows')) = (some claim, rows')

-- Closing the claim after an inline action.
abbrev pub close_run : ℕ → Bool → ℕ → Ledger → Option RunClaim × Ledger
close_run run_id true now rows = Ledger.complete_run run_id now rows
close_run run_id false now rows = Ledger.fail_run run_id now rows

abbrev pub is_finished : ClaimStatus → Bool
is_finished finished = true
is_finished pending = false
is_finished active = false

abbrev pub is_some {ℓ} : {X : Type ℓ} → Option X → Bool
is_some none = false
is_some (some x) = true

-- No fire is recorded, or an earlier one.
abbrev pub fired_before : Option ℕ → ℕ → Bool
fired_before none scheduled_for = true
fired_before (some last) scheduled_for = ltb last scheduled_for

unfoldable pub needs_mark : Option Timer → ℕ → Bool
needs_mark none scheduled_for = false
needs_mark (some t) scheduled_for = fired_before t.last_fired scheduled_for

abbrev pub delivered_of : Timer → RunClaim → FireKind → DeliveredFire
delivered_of t claimed kind = record {
  timer_id = t.id;
  scheduled_for = claimed.scheduled_for;
  run_id = claimed.run_id;
  kind = kind;
}

module _ {A : Type 0} (w : World A) where
  -- `self.store.claim_run`, with the random id and the clock that it reads.
  unfoldable pub claim : ℕ → ℕ → Step A (Option RunClaim)
  claim timer_id scheduled_for s =
      let (made, rows) =
        claim_result s.runs
          (Ledger.claim_run (w.uuid s.reads) (w.utc s.reads) timer_id scheduled_for s.runs) in
      returned (ok made, record s { runs = rows; reads = s.reads + 1 })

  unfoldable pub find_claim : ℕ → ℕ → Step A (Option RunClaim)
  find_claim timer_id scheduled_for s =
      returned (ok (get_claim_for timer_id scheduled_for s.runs), s)

  unfoldable pub close : ℕ → Bool → Step A RunClaim
  close run_id success s =
      let (found, rows) = close_run run_id success (w.utc s.reads) s.runs in
      returned (or_run_not_found run_id found, record s { runs = rows; reads = s.reads + 1 })

  unfoldable pub act : Timer → RunClaim → FireKind → Step A Bool
  act t claimed kind s =
      let (action, success) = w.on_fire s.action t claimed kind in
      returned (ok success, record s { action = action })

  unfoldable pub anchor_found : ℕ → Option Timer → Step A (Unit {0})
  anchor_found anchor none = fail internal
  anchor_found anchor (some t) = do _ ← write_timer w (update_of t (anchored anchor)); done tt

  unfoldable pub anchor_last_fired : ℕ → ℕ → Step A (Unit {0})
  unfolding anchor_found
  anchor_last_fired timer_id anchor = do timer ← read_timer w timer_id; anchor_found anchor timer

  unfoldable pub mark_found : ℕ → Option Timer → Step A (Unit {0})
  mark_found scheduled_for none = fail internal
  mark_found scheduled_for (some t) = do
    _ ← write_timer w (update_of t (advanced scheduled_for (record_run t.occurrence)))
    done tt

  unfoldable pub mark_fired : ℕ → ℕ → Step A (Unit {0})
  unfolding mark_found
  mark_fired timer_id scheduled_for = do
    timer ← read_timer w timer_id
    mark_found scheduled_for timer

  -- The action of an unfinished claim, and whether it failed inline.
  unfoldable pub run_action : Timer → RunClaim → FireKind → Step A Bool
  run_action t claimed kind = do
    success ← act t claimed kind
    if w.executes_inline
        then (if is_pending claimed.status
            then (do _ ← close claimed.run_id success; done (not success))
            else done (not success))
        else done false

  -- The end of `act_and_close`.
  unfoldable pub record_fire : Timer → RunClaim → FireKind → Bool → Step A (Option DeliveredFire)
  unfolding mark_fired needs_mark
  record_fire t claimed kind inline_error = do
    fresh ← read_timer w t.id
    if needs_mark fresh claimed.scheduled_for
        then mark_fired t.id claimed.scheduled_for
        else requeue_timer w t.id
    if inline_error then fail action_failed else done (some (delivered_of t claimed kind))

  unfoldable pub act_and_close : Timer → RunClaim → FireKind → Step A (Option DeliveredFire)
  unfolding run_action record_fire
  act_and_close t claimed kind =
      if is_finished claimed.status
      then (if is_some claimed.completed_at && not (is_some claimed.outcome)
          then (do _ ← ensure_advanced_past w t.id claimed.scheduled_for; done none)
          else record_fire t claimed kind false)
      else (do inline_error ← run_action t claimed kind; record_fire t claimed kind inline_error)

  -- A slot that was claimed before.
  unfoldable pub deliver_again :
      Timer → ℕ → FireKind → Option RunClaim → Step A (Option DeliveredFire)
  unfolding act_and_close
  deliver_again t scheduled_for kind none = fail internal
  deliver_again t scheduled_for kind (some existing) =
      if is_unfinished existing
      then act_and_close t existing kind
      else (do _ ← ensure_advanced_past w t.id scheduled_for; done none)

  unfoldable pub deliver_claimed :
      Timer → ℕ → FireKind → Option RunClaim → Step A (Option DeliveredFire)
  unfolding deliver_again
  deliver_claimed t scheduled_for kind (some claimed) = act_and_close t claimed kind
  deliver_claimed t scheduled_for kind none = do
    existing ← find_claim t.id scheduled_for
    deliver_again t scheduled_for kind existing

  unfoldable pub deliver_one : Timer → ℕ → FireKind → Step A (Option DeliveredFire)
  unfolding deliver_claimed
  deliver_one t scheduled_for kind = do
    made ← claim t.id scheduled_for
    deliver_claimed t scheduled_for kind made
