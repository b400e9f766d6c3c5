-- ===== src/Store/Examples.antt =====
-- A run that is claimed, activated and finished: the theorems at this run.
use bellman.Common.{
  ◌≡◌, refl, true, false, none, some, [], ◌∷◌, Steps, done, and_then, update_where, any_where,
}
use bellman.Store.Ledger.{
  RunClaim, active, pending, wake_delivered, wake_failed, claim_run, new_claim, activate_run,
  finish_run, get_run, last_sequence, with_status, finished_by,
}
use bellman.Store.Ledger.Keys.{Write, claims, activates, finishes, IsKeyed, Steps-IsKeyed}
use bellman.Store.Ledger.History.{Remains, Steps-Remains}
use bellman.Store.Ledger.Transitions.{ended, activate_run-exact, finish_run-exact}

abbrev claimed : RunClaim
claimed = record {
  run_id = 7;
  timer_id = 1;
  scheduled_for = 50;
  status = pending;
  claimed_at = 60;
  completed_at = none;
  event_sequence = 1;
  outcome = none;
  outcome_reason = none;
  cancel_requested = false;
}

abbrev delivered : RunClaim
delivered = finished_by wake_delivered none 65 (with_status active claimed)

to_pending : Steps Write [] (claimed ∷ [])
unfolding claim_run new_claim any_where last_sequence
to_pending = and_then (claims {claim = claimed} 7 60 1 50 refl) done

to_delivered : Steps Write (claimed ∷ []) (delivered ∷ [])
unfolding activate_run finish_run update_where
to_delivered = and_then (activates 7) (and_then (finishes 7 wake_delivered none 65) done)

-- A second outcome is refused.
second_outcome : Steps Write (delivered ∷ []) (delivered ∷ [])
unfolding finish_run update_where
second_outcome = and_then (finishes 7 wake_failed none 70) done

found_claimed : get_run 7 (claimed ∷ []) ≡ some claimed
unfolding get_run
found_claimed = refl

found_delivered : get_run 7 (delivered ∷ []) ≡ some delivered
unfolding get_run
found_delivered = refl

Steps-IsKeyed_example : IsKeyed (claimed ∷ [])
Steps-IsKeyed_example = Steps-IsKeyed (claimed ∷ []) to_pending

Steps-Remains_example : Remains 7 delivered (delivered ∷ [])
Steps-Remains_example =
    Steps-Remains (delivered ∷ []) (delivered ∷ []) second_outcome 7 delivered found_delivered

keyed : IsKeyed (claimed ∷ [])
keyed = (refl, tt, tt)

activate_run-exact_example :
    ((activate_run 7 (claimed ∷ [])).0 ≡ true)
    × (get_run 7 (activate_run 7 (claimed ∷ [])).1 ≡ some (record claimed { status = active }))
activate_run-exact_example = activate_run-exact 7 (claimed ∷ []) claimed keyed found_claimed

finish_run-exact_example :
    ((finish_run 7 wake_failed none 70 (claimed ∷ [])).0
      ≡ (ended pending wake_failed none 70 claimed).0)
    × (get_run 7 (finish_run 7 wake_failed none 70 (claimed ∷ [])).1
        ≡ some (ended pending wake_failed none 70 claimed).1)
finish_run-exact_example =
    finish_run-exact 7 wake_failed none 70 (claimed ∷ []) claimed keyed found_claimed
