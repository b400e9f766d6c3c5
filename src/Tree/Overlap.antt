-- ===== src/Tree/Overlap.antt =====
-- What a fire does while older runs of its timer are unfinished: `apply_overlap_disposition` of
-- crates/bellman-core/src/tree/mod.rs, in the transaction of `project_fire`.
pub mod Limits
pub mod Replacements
use bellman.Common.{
  ℕ, Bool, true, false, ◌&&◌, ◌||◌, ◌==◌, ltb, leb, if◌then◌else◌, Option, none, some, List, [],
  ◌∷◌, String,
}
use bellman.Store.Models.{OverlapPolicy, skip, queue_one, parallel, replace}
use bellman.Store.Ledger.{
  RunClaim, Ledger, RunOutcome, wake_failed, skipped_misfire, is_pending, claim_run,
  finish_run_conn, get_run, unfinished_claims_count, request_cancel_active, is_other,
}

-- An `EventRecord` of this code; its state is that of an outcome.
pub record Event : Type 0 where
  pub state : RunOutcome
  pub timer_id : ℕ
  pub run_id : ℕ
  pub scheduled_for : ℕ
  pub message : String

-- What the transaction writes: the runs, and the outbox of events with the newest first.
pub record FireTx : Type 0 where
  pub rows : Ledger
  pub outbox : List Event

abbrev pub event_of : RunOutcome → RunClaim → String → Event
event_of state claim message = record {
  state = state;
  timer_id = claim.timer_id;
  run_id = claim.run_id;
  scheduled_for = claim.scheduled_for;
  message = message;
}

-- `ORDER BY event_sequence ASC, run_id ASC`.
unfoldable pub comes_before : RunClaim → RunClaim → Bool
comes_before r q =
    ltb r.event_sequence q.event_sequence
    || ((r.event_sequence == q.event_sequence) && leb r.run_id q.run_id)

unfoldable pub insert_ordered : RunClaim → List RunClaim → List RunClaim
insert_ordered r [] = r ∷ []
insert_ordered r (q ∷ rows) =
    let rest = insert_ordered r rows in if comes_before r q then r ∷ q ∷ rows else q ∷ rest

unfoldable pub pending_claims_for_timer : ℕ → ℕ → Ledger → List RunClaim
unfolding insert_ordered comes_before
pending_claims_for_timer timer_id exclude [] = []
pending_claims_for_timer timer_id exclude (r ∷ rows) =
    let rest = pending_claims_for_timer timer_id exclude rows in
    if is_other timer_id exclude r && is_pending r.status then insert_ordered r rest else rest

abbrev pub with_event : Bool → Event → List Event → List Event
with_event true event outbox = event ∷ outbox
with_event false event outbox = outbox

abbrev pub overlap_replace_before_start : String
overlap_replace_before_start = "overlap_replace_before_start"

-- The loop of `Replace` over the pending claims.
unfoldable pub replace_pending : ℕ → List RunClaim → FireTx → FireTx
replace_pending now [] tx = tx
replace_pending now (p ∷ ps) tx =
    let step =
      finish_run_conn p.run_id wake_failed (some overlap_replace_before_start) now tx.rows in
    replace_pending now ps (record {
      rows = step.1;
      outbox = with_event step.0 (event_of wake_failed p overlap_replace_before_start) tx.outbox;
    })

abbrev pub reason_if : Bool → String → Option String
reason_if true reason = some reason
reason_if false reason = none

-- Why a fire is skipped, from the number of the older unfinished claims.
unfoldable pub skip_reason : OverlapPolicy → ℕ → Option String
skip_reason skip older = reason_if (leb 1 older) "overlap_skip"
skip_reason queue_one older = reason_if (leb 2 older) "overlap_queue_full"
skip_reason (parallel cap) older = reason_if (leb cap older) "overlap_parallel_cap"
skip_reason replace older = none

abbrev pub or_claim : Option RunClaim → RunClaim → RunClaim
or_claim none claim = claim
or_claim (some r) claim = r

-- The end of `apply_overlap_disposition`.
unfoldable pub on_reason : ℕ → RunClaim → FireTx → Option String → RunClaim × FireTx
on_reason now claim tx none = (claim, tx)
on_reason now claim tx (some reason) =
    let rows = (finish_run_conn claim.run_id skipped_misfire (some reason) now tx.rows).1 in
    (
      or_claim (get_run claim.run_id rows) claim,
      record { rows = rows; outbox = event_of skipped_misfire claim reason ∷ tx.outbox },
    )

-- The work of `Replace` on the older claims.
unfoldable pub replace_older : ℕ → RunClaim → FireTx → FireTx
unfolding replace_pending
replace_older now claim tx =
    let replaced =
      replace_pending now (pending_claims_for_timer claim.timer_id claim.run_id tx.rows) tx in
    record replaced { rows = request_cancel_active claim.timer_id claim.run_id replaced.rows }

abbrev pub older_claims : RunClaim → FireTx → ℕ
older_claims claim tx = unfinished_claims_count claim.timer_id claim.run_id tx.rows

unfoldable pub apply_overlap_disposition : OverlapPolicy → ℕ → RunClaim → FireTx → RunClaim × FireTx
unfolding on_reason replace_older
apply_overlap_disposition skip now claim tx =
    on_reason now claim tx (skip_reason skip (older_claims claim tx))
apply_overlap_disposition queue_one now claim tx =
    on_reason now claim tx (skip_reason queue_one (older_claims claim tx))
apply_overlap_disposition (parallel cap) now claim tx =
    on_reason now claim tx (skip_reason (parallel cap) (older_claims claim tx))
apply_overlap_disposition replace now claim tx = (claim, replace_older now claim tx)

unfoldable pub on_claimed :
    OverlapPolicy → ℕ → List Event → Option (RunClaim × Ledger) → Option (RunClaim × FireTx)
unfolding apply_overlap_disposition
on_claimed policy now outbox none = none
on_claimed policy now outbox (some (claim, rows)) =
    some (apply_overlap_disposition policy now claim (record { rows = rows; outbox = outbox }))

-- The claim of `project_fire` and its disposition; `outbox` has the event of the fire already. `none` is
-- `AlreadyClaimed`.
unfoldable pub fire_claim :
    OverlapPolicy → ℕ → ℕ → ℕ → ℕ → Ledger → List Event → Option (RunClaim × FireTx)
unfolding on_claimed
fire_claim policy run_id now timer_id scheduled_for rows outbox =
    on_claimed policy now outbox (claim_run run_id now timer_id scheduled_for rows)
