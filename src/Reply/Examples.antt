-- ===== src/Reply/Examples.antt =====
-- One run of an application that opts into the watchdog.
use mathlib.Core.Option.{some-injective}
use bellman.Common.{
  ℕ, subst, ◌+◌, ◌*◌, ◌^◌, ◌≡◌, refl, true, false, Option, none, some, [], ◌∷◌, String, Call,
  returned, panicked, update_where, keep_where, any_where, order_by, insert_by, count_where,
}
use bellman.Occurrence.Chrono.{second}
use bellman.Occurrence.Examples.{calendar}
use bellman.Events.Record.{Json, EventRecord, from_wire, state_text}
use bellman.Scheduler.State.{watchdog}
use bellman.Store.Ledger.{RunClaim, active, get_run, runs_for_timer}
use bellman.Store.Timers.Examples.{stored}
use bellman.Store.RunStates.{
  RunStateRow, fired_row, get_run_state, update_run_state, written, current_run_state, newest,
  armed_deadlines,
}
use bellman.Reply.Document.{ReplyDocument, reply_schema, truncate_text, floor_boundary}
use bellman.Reply.Document.Truncation.{IsTruncated, truncate_text-IsTruncated}
use bellman.Reply.Engine.{
  Host, Channel, sync_deadline_book, sync_rows, has_entry, insert_entry, remove_entry, remove_kind,
  due_entries, duration_ms, find_anchor, clear_deadlines,
}
use bellman.Reply.Apply.{accumulated, judged, taken, arm_watchdog, rearm, log_and_write, apply}
use bellman.Reply.Lines.{log_acknowledged, log_running, log_verdict}
use bellman.Reply.Ingest.{
  IngestOutcome, applied, duplicate, last_run, lifecycle_row, ingest_current, ingest_run,
  ingest_inner, ingest,
}
use bellman.Reply.Ingest.Repeats.{IsTracked, ingest_inner-again}
use bellman.Reply.Deadlines.{expire_watchdog_one, mark_timed_out, timed_out_row}

abbrev pub json : Json (Unit {0})
json = record {
  to_text = λ v. "null";
  text = λ s. tt;
  number = λ n. tt;
  boolean = λ b. tt;
  object = λ members. tt;
}

abbrev pub host : Host (Unit {0})
host = record {
  json = json;
  chrono = calendar;
  pickup_grace = 60 * second;
  watchdog_span = λ secs. returned (2 * secs * second);
  add_instant = λ at span. returned (at + span);
  utc_now = 40 * second;
  instant_now = 40 * second;
}

abbrev pub claim : RunClaim
claim = record {
  run_id = 1;
  timer_id = 7;
  scheduled_for = 30 * second;
  status = active;
  claimed_at = 30 * second;
  completed_at = none;
  event_sequence = 1;
  outcome = none;
  outcome_reason = none;
  cancel_requested = false;
}

abbrev pub app : String
app = "backup-app"

abbrev pub row : RunStateRow (Unit {0})
row = record (fired_row 1 7 app "fired" (30 * second) (90 * second)) {
  selected_transport = some "json";
  transport = some "json";
}

abbrev pub channel : Channel (Unit {0})
channel = record {
  db = record {
    timers = stored ∷ [];
    runs = claim ∷ [];
    run_states = row ∷ [];
    acks = [];
    outbox = [];
  };
  entries = [];
  armed_hints = [];
  anchors = [];
}

abbrev pub reply : ReplyDocument (Unit {0})
reply = record {
  schema = some reply_schema;
  run_id = some 1;
  app_name = some app;
  state = some "running";
  acknowledged_at = none;
  expected_secs = some 60;
  error_detection = some true;
  heartbeat_at = none;
  progress = none;
  completed_at = none;
  result = none;
  failed_at = none;
  reason = none;
  hint = none;
}

-- The state after a call that returned.
abbrev pub after : Call (IngestOutcome × Channel (Unit {0})) → Channel (Unit {0})
after (returned (outcome, ch)) = ch
after _ = channel

abbrev outcome_of : Call (IngestOutcome × Channel (Unit {0})) → Option IngestOutcome
outcome_of (returned (outcome, ch)) = some outcome
outcome_of _ = none

abbrev pub first : Call (IngestOutcome × Channel (Unit {0}))
first = ingest host stored reply "d1" (40 * second) (40 * second) channel

is_applied : outcome_of first ≡ some applied
unfolding ingest_inner ingest_run ingest_current apply rearm arm_watchdog log_and_write
    log_acknowledged log_running log_verdict lifecycle_row last_run get_run_state get_run
    runs_for_timer order_by insert_by keep_where from_wire taken judged accumulated fired_row
    insert_entry remove_entry remove_kind
is_applied = refl

abbrev pub state_of : Option (RunStateRow (Unit {0})) → Option String
state_of none = none
state_of (some r) = some r.state

abbrev deadline_of : Option (RunStateRow (Unit {0})) → Option ℕ
deadline_of none = none
deadline_of (some r) = r.watchdog_deadline

-- An estimate of 0 beside the opt-in of an earlier reply takes the countdown out of the book only.
abbrev unestimated : ReplyDocument (Unit {0})
unestimated = record reply { error_detection = none; expected_secs = some 0 }

abbrev second_time : Call (IngestOutcome × Channel (Unit {0}))
second_time = ingest host stored unestimated "d2" (50 * second) (50 * second) (after first)

abbrev synced : Call (ℕ × Channel (Unit {0})) → Channel (Unit {0})
synced (returned (n, ch)) = ch
synced _ = channel

disarmed_in_book : (after second_time).entries ≡ []
unfolding ingest_inner ingest_run ingest_current apply rearm arm_watchdog log_and_write
    log_acknowledged log_running log_verdict lifecycle_row last_run get_run_state get_run
    runs_for_timer order_by insert_by keep_where from_wire taken judged accumulated fired_row
    insert_entry remove_entry remove_kind update_run_state written update_where state_text
disarmed_in_book = refl

still_in_row : deadline_of (get_run_state 1 (after second_time).db.run_states) ≡ some (160 * second)
unfolding ingest_inner ingest_run ingest_current apply rearm arm_watchdog log_and_write
    log_acknowledged log_running log_verdict lifecycle_row last_run get_run_state get_run
    runs_for_timer order_by insert_by keep_where from_wire taken judged accumulated fired_row
    insert_entry remove_entry remove_kind update_run_state written update_where state_text
still_in_row = refl

-- The next poll puts it back, and the run fails by a watchdog that nothing asks for any more.
abbrev polled : Channel (Unit {0})
polled = synced (sync_deadline_book host (51 * second) (51 * second) (after second_time))

fails_unestimated :
    state_of
      (get_run_state 1 (expire_watchdog_one host stored 1 (161 * second) polled).1.db.run_states)
    ≡ some "failed"
unfolding ingest_inner ingest_run ingest_current apply rearm arm_watchdog log_and_write
    log_acknowledged log_running log_verdict lifecycle_row last_run get_run_state get_run
    runs_for_timer order_by insert_by keep_where from_wire taken judged accumulated fired_row
    insert_entry remove_entry remove_kind update_run_state written update_where state_text
    sync_deadline_book sync_rows armed_deadlines has_entry any_where expire_watchdog_one
    mark_timed_out timed_out_row current_run_state newest clear_deadlines duration_ms find_anchor
fails_unestimated = refl

due_again : due_entries watchdog (160 * second) polled.entries ≡ 1 ∷ []
unfolding ingest_inner ingest_run ingest_current apply rearm arm_watchdog log_and_write
    log_acknowledged log_running log_verdict lifecycle_row last_run get_run_state get_run
    runs_for_timer order_by insert_by keep_where from_wire taken judged accumulated fired_row
    insert_entry remove_entry remove_kind update_run_state written update_where state_text
    sync_deadline_book sync_rows armed_deadlines has_entry any_where due_entries
due_again = refl

-- Without a row of the run, a reply is applied and logged each time it is read.
abbrev rowless : Channel (Unit {0})
rowless = record channel { db = record channel.db { run_states = [] } }

abbrev read_once : Call (IngestOutcome × Channel (Unit {0}))
read_once = ingest host stored reply "d1" (40 * second) (40 * second) rowless

abbrev read_twice : Call (IngestOutcome × Channel (Unit {0}))
read_twice = ingest host stored reply "d1" (41 * second) (41 * second) (after read_once)

logged_twice :
    (outcome_of read_twice ≡ some applied)
    × (count_where (λ (e : EventRecord (Unit {0})). true) (after read_twice).db.outbox ≡ 2)
unfolding ingest_inner ingest_run ingest_current apply rearm arm_watchdog log_and_write
    log_acknowledged log_running log_verdict lifecycle_row last_run get_run_state get_run
    runs_for_timer order_by insert_by keep_where from_wire taken judged accumulated fired_row
    insert_entry remove_entry remove_kind update_run_state written update_where state_text
    count_where
logged_twice = (refl, refl)

-- An estimate beyond the calendar panics.
overflows :
    ingest host stored
      (record reply { expected_secs = some (10 ^ 13) })
      "d1"
      (40 * second)
      (40 * second)
      (record channel { db = channel.db })
    ≡ panicked
unfolding ingest_inner ingest_run ingest_current apply rearm arm_watchdog log_and_write
    log_acknowledged log_running log_verdict lifecycle_row last_run get_run_state get_run
    runs_for_timer order_by insert_by keep_where from_wire taken judged accumulated fired_row
    insert_entry remove_entry remove_kind
overflows = refl

-- An accented letter has two bytes, of which the cap leaves room for one.
truncate_text-IsTruncated_example : IsTruncated "café" 4 (truncate_text "café" 4)
truncate_text-IsTruncated_example = truncate_text-IsTruncated "café" 4

cut_to_three : truncate_text "café" 4 ≡ "caf"
unfolding truncate_text floor_boundary
cut_to_three = refl

is_tracked : IsTracked reply "d1" channel
unfolding get_run_state fired_row
is_tracked run_id own = (
  row,
  subst (λ n. get_run_state n channel.db.run_states ≡ some row) (some-injective 1 run_id own) refl,
  refl,
)

first_returned :
    ingest_inner host stored reply "d1" (40 * second) (40 * second) none channel
    ≡ returned (applied, after first)
unfolding ingest_inner ingest_run ingest_current apply rearm arm_watchdog log_and_write
    log_acknowledged log_running log_verdict lifecycle_row last_run get_run_state get_run
    runs_for_timer order_by insert_by keep_where from_wire taken judged accumulated fired_row
    insert_entry remove_entry remove_kind
first_returned = refl

ingest_inner-again_example :
    ingest_inner host stored reply "d1" (90 * second) (91 * second) none (after first)
    ≡ returned (duplicate, after first)
ingest_inner-again_example =
    ingest_inner-again reply "d1" host host stored (40 * second) (40 * second) (90 * second)
      (91 * second) none channel (after first) applied is_tracked first_returned
