-- ===== src/Tree/Examples.antt =====
-- A timer that fires while its last run goes on: the theorems at this fire, and test runs.
use bellman.Common.{
  ◌≡◌, refl, true, false, Option, none, some, [], ◌∷◌, All, any_where, update_where,
}
use bellman.Store.Ledger.{RunClaim, active, pending, claim_run, request_cancel_active}
use bellman.Store.Models.{skip, replace}
use bellman.Tree.Overlap.{
  FireTx, fire_claim, apply_overlap_disposition, replace_older, pending_claims_for_timer,
  replace_pending,
}
use bellman.Tree.Overlap.Replacements.{IsReplaced, apply_overlap_disposition-replace}
use bellman.Tree.Overlap.Limits.{FireResult, unfinished, fire_claim-limit}

abbrev going : RunClaim
going = record {
  run_id = 7;
  timer_id = 1;
  scheduled_for = 50;
  status = active;
  claimed_at = 60;
  completed_at = none;
  event_sequence = 1;
  outcome = none;
  outcome_reason = none;
  cancel_requested = false;
}

fire_claim-limit_example :
    (claim : RunClaim) × (tx : FireTx) × ◌≡◌ {A = Option (RunClaim × FireTx)}
      (fire_claim skip 8 120 1 110 (going ∷ []) [])
      (some (claim, tx))
    × FireResult 1 1 (unfinished 1 (going ∷ [])) (claim, tx)
unfolding any_where
fire_claim-limit_example = fire_claim-limit skip 1 8 120 1 110 (going ∷ []) [] refl refl

same_slot_is_refused : fire_claim skip 8 120 1 50 (going ∷ []) [] ≡ none
unfolding fire_claim claim_run any_where
same_slot_is_refused = refl

-- The run that the fire claims.
abbrev next_run : RunClaim
next_run = record going { run_id = 8; scheduled_for = 110; status = pending; event_sequence = 2 }

abbrev firing : FireTx
firing = record { rows = next_run ∷ going ∷ []; outbox = [] }

apply_overlap_disposition-replace_example :
    ((apply_overlap_disposition replace 120 next_run firing).0 ≡ next_run)
    × All (λ r. IsReplaced 1 8 r) (apply_overlap_disposition replace 120 next_run firing).1.rows
apply_overlap_disposition-replace_example = apply_overlap_disposition-replace 120 next_run firing

old_run_is_cancelled :
    (apply_overlap_disposition replace 120 next_run firing).1.rows
    ≡ next_run ∷ record going { cancel_requested = true } ∷ []
unfolding apply_overlap_disposition replace_older pending_claims_for_timer replace_pending
    request_cancel_active update_where
old_run_is_cancelled = refl
