-- ===== src/Pruner/Examples.antt =====
-- A one-shot that fired, and the same with an end of validity ahead.
use bellman.Common.{
  ◌*◌, ◌≡◌, refl, true, false, some, none, [], ◌∷◌, any_where, keep_where, order_by, insert_by,
  returned,
}
use bellman.Occurrence.Chrono.{second}
use bellman.Occurrence.Kind.{once}
use bellman.Occurrence.Examples.{calendar}
use bellman.Store.Models.{Timer}
use bellman.Store.Ledger.{Ledger, RunClaim, active, finished, runs_for_timer}
use bellman.Store.Timers.Examples.{stored}
use bellman.Pruner.{is_terminal_oneshot}
use bellman.Pruner.Terminal.{IsOver, is_terminal_oneshot-IsOver}

abbrev one_shot : Timer
one_shot = record stored {
  occurrence = record stored.occurrence { kind = once (20 * second) };
  next_fire_utc = none;
  last_fired = some (20 * second);
}

abbrev run : RunClaim
run = record {
  run_id = 1;
  timer_id = 7;
  scheduled_for = 20 * second;
  status = finished;
  claimed_at = 20 * second;
  completed_at = some (21 * second);
  event_sequence = 1;
  outcome = none;
  outcome_reason = none;
  cancel_requested = false;
}

abbrev runs : Ledger
runs = run ∷ []

is_over : is_terminal_oneshot calendar one_shot runs (90 * second) (60 * second) ≡ returned true
unfolding is_terminal_oneshot runs_for_timer any_where keep_where order_by insert_by
is_over = refl

is_running :
    is_terminal_oneshot calendar one_shot
      (record run { status = active } ∷ [])
      (90 * second)
      (60 * second)
    ≡ returned false
unfolding is_terminal_oneshot runs_for_timer any_where keep_where order_by insert_by
is_running = refl

in_grace : is_terminal_oneshot calendar one_shot runs (79 * second) (60 * second) ≡ returned false
unfolding is_terminal_oneshot runs_for_timer any_where keep_where order_by insert_by
in_grace = refl

-- A fired one-shot is deleted before its validity ends.
over_while_valid :
    is_terminal_oneshot calendar
      (record one_shot { valid_until = some (200 * second) })
      runs
      (90 * second)
      (60 * second)
    ≡ returned true
unfolding is_terminal_oneshot runs_for_timer any_where keep_where order_by insert_by
over_while_valid = refl

is_terminal_oneshot-IsOver_example : IsOver one_shot runs (90 * second) (60 * second)
is_terminal_oneshot-IsOver_example =
    is_terminal_oneshot-IsOver calendar one_shot runs (90 * second) (60 * second) is_over
