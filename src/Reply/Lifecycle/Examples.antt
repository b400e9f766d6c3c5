-- ===== src/Reply/Lifecycle/Examples.antt =====
-- One run that is completed, and what follows.
use bellman.Common.{
  ◌*◌, ◌≡◌, refl, arith, none, some, [], ◌∷◌, returned, Steps, done, and_then, All, keep_where,
  order_by, insert_by, count_where,
}
use bellman.Occurrence.Chrono.{second}
use bellman.Events.Record.{from_wire}
use bellman.Store.Ledger.{get_run, runs_for_timer}
use bellman.Store.Timers.Examples.{stored}
use bellman.Store.RunStates.{RunStateRow, fired_row, get_run_state}
use bellman.Reply.Document.{ReplyDocument}
use bellman.Reply.Engine.{Channel, insert_entry, remove_entry, remove_kind}
use bellman.Reply.Apply.{accumulated, judged, taken, arm_watchdog, rearm, log_and_write, apply}
use bellman.Reply.Lines.{log_acknowledged, log_running, log_verdict}
use bellman.Reply.Ingest.{
  applied, last_run, lifecycle_row, ingest_current, ingest_run, ingest_inner,
}
use bellman.Reply.Deadlines.{on_ack_through, expire_watchdog_one}
use bellman.Reply.Lifecycle.{Step, ingests, acks, lapses_watchdog}
use bellman.Reply.Lifecycle.Runs.{Has}
use bellman.Reply.Lifecycle.Coherent.{IsCoherent, Steps-IsCoherent}
use bellman.Reply.Lifecycle.Verdicts.{IsVerdict, Steps-IsVerdict}
use bellman.Reply.Lifecycle.Logged.{IsLogged, count_lines, Steps-IsLogged}
use bellman.Reply.Examples.{host, row, channel, reply, after}

abbrev completion : ReplyDocument (Unit {0})
completion = record reply { state = some "completed" }

abbrev completed_row : RunStateRow (Unit {0})
completed_row = record row {
  state = "completed";
  pickup_deadline = none;
  completed_at = some (40 * second);
  reply_digest = some "d0";
}

-- A run that is over.
abbrev over : Channel (Unit {0})
over = record channel { db = record channel.db { run_states = completed_row ∷ [] } }

-- The application completes once more, then a pickup and a lapse are tried.
abbrev rewritten : Channel (Unit {0})
rewritten = after (ingest_inner host stored completion "d1" (50 * second) (50 * second) none over)

abbrev final : Channel (Unit {0})
final =
    (expire_watchdog_one host stored 1 (99 * second)
      (on_ack_through host stored 5 (60 * second) rewritten).1).1

rewritten_returned :
    ingest_inner host stored completion "d1" (50 * second) (50 * second) none over
    ≡ returned (applied, rewritten)
unfolding ingest_inner ingest_run ingest_current apply rearm arm_watchdog log_and_write
    log_acknowledged log_running log_verdict lifecycle_row last_run get_run_state get_run
    runs_for_timer order_by insert_by keep_where from_wire taken judged accumulated fired_row
    insert_entry remove_entry remove_kind
rewritten_returned = refl

steps : Steps Step over final
steps =
    and_then
      (ingests host stored completion "d1" (50 * second) (50 * second) none rewritten_returned)
      (and_then (acks host stored 5 (60 * second))
        (and_then (lapses_watchdog host stored 1 (99 * second)) done))

over-IsCoherent : All IsCoherent over.db.run_states
unfolding from_wire fired_row
over-IsCoherent = ((λ h. (refl, refl), λ h. absurd (ground arith), λ h. absurd (ground arith)), tt)

over-IsVerdict : Has 1 (λ (r : RunStateRow (Unit {0})) outbox. IsVerdict r) over.db
unfolding get_run_state from_wire fired_row
over-IsVerdict = (completed_row, refl, refl)

over-IsLogged : Has 1 (IsLogged 1) over.db
unfolding get_run_state count_lines count_where fired_row
over-IsLogged = (completed_row, refl, (refl, refl))

Steps-IsCoherent_example : All IsCoherent final.db.run_states
Steps-IsCoherent_example = Steps-IsCoherent over final steps over-IsCoherent

Steps-IsVerdict_example : Has 1 (λ (r : RunStateRow (Unit {0})) outbox. IsVerdict r) final.db
Steps-IsVerdict_example = Steps-IsVerdict 1 over final steps over-IsVerdict

Steps-IsLogged_example : Has 1 (IsLogged 1) final.db
Steps-IsLogged_example = Steps-IsLogged 1 over final steps over-IsLogged
