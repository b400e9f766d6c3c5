-- ===== src/Tree/Fire/Examples.antt =====
-- A timer of an application fires while its last run goes on: the theorem at this fire, and test runs.
use bellman.Common.{
  count_where, ℕ, ◌*◌, ◌≡◌, refl, arith, false, Option, none, some, [], String, Call, returned,
  any_where, order_by, insert_by, keep_where, update_where,
}
use bellman.Common.Results.{Result, ok, err}
use bellman.Occurrence.Chrono.{second}
use bellman.Scheduler.State.{on_time}
use bellman.Events.Record.{from_wire, state_text}
use bellman.Store.Ledger.{
  unfinished_claims_count, finish_run_conn, RunClaim, violates, get_run, runs_for_timer, claim_run,
  new_claim,
}
use bellman.Store.RunStates.{get_run_state, fired_row, update_run_state, written}
use bellman.Store.Timers.Examples.{stored}
use bellman.Reply.Engine.{
  Channel, insert_entry, remove_entry, remove_kind, register_fire, clear_deadlines,
}
use bellman.Reply.Lines.{log_acknowledged, log_running, log_verdict}
use bellman.Reply.Apply.{accumulated, judged, taken, arm_watchdog, rearm, log_and_write, apply}
use bellman.Reply.Ingest.{last_run, lifecycle_row, ingest_current, ingest_run, ingest_inner}
use bellman.Reply.Examples.{host, claim, app, channel, reply, state_of}
use bellman.Reply.Publication.{Publisher, new_projection}
use bellman.Tree.Overlap.{skip_reason, apply_overlap_disposition, on_reason}
use bellman.Tree.Fire.{
  Firing, FireState, FireError, valid, already_claimed, project_fire, ingest_barrier, previous_run,
  last_claim, supersede, superseded_row, fire_claimed, disposed, record_owned, new_row, commit,
  start_deadlines,
}
use bellman.Tree.Fire.Returns.{CanRecord}
use bellman.Tree.Fire.Supersedes.{IsCurrent, project_fire-IsCurrent}

abbrev via : Publisher
via = record {
  data_dir = "/data";
  fire_slot_file = none;
  ipc = none;
  join = λ folder name. folder;
  uuid_text = λ id. "1";
  to_json = λ n. some "{}";
}

-- The reply of the last run says that it is running.
abbrev firing : Firing (Unit {0})
firing = record {
  owner = some app;
  folder = "/data/timers/backup-0001";
  barrier = valid reply "d1";
  run_id = 2;
  claimed_at = 90 * second;
  scheduled_for = 90 * second;
  kind = on_time;
  now = 90 * second;
  mono = 90 * second;
}

abbrev before : FireState (Unit {0})
before = record { channel = channel; transport = record { rows = []; cursors = [] } }

abbrev channel_of : Call (Channel (Unit {0})) → Channel (Unit {0})
channel_of (returned ch) = ch
channel_of _ = channel

abbrev folded_in : Channel (Unit {0})
folded_in = channel_of (ingest_barrier host stored firing firing.barrier (some claim) channel)

can_record : CanRecord host via firing
can_record = record {
  in_range = omega arith;
  instant = 100 * second;
  counts = refl;
  writes = λ n. ("{}", refl);
}

folds_in :
    ingest_barrier host stored firing firing.barrier (some claim) channel ≡ returned folded_in
unfolding ingest_barrier ingest_inner ingest_run ingest_current apply rearm arm_watchdog
    log_and_write log_acknowledged log_running log_verdict lifecycle_row last_run get_run_state
    get_run runs_for_timer order_by insert_by keep_where from_wire taken judged accumulated
    fired_row insert_entry remove_entry remove_kind
folds_in = refl

last_is_claim : previous_run stored channel.db.runs ≡ some claim
unfolding last_claim runs_for_timer order_by insert_by keep_where
last_is_claim = refl

slot_is_free : any_where (violates 2 stored.id (90 * second)) folded_in.db.runs ≡ false
unfolding any_where ingest_barrier ingest_inner ingest_run ingest_current apply rearm arm_watchdog
    log_and_write log_acknowledged log_running log_verdict lifecycle_row last_run get_run_state
    get_run runs_for_timer order_by insert_by keep_where from_wire taken judged accumulated
    fired_row insert_entry remove_entry remove_kind update_run_state
slot_is_free = refl

project_fire-IsCurrent_example :
    (next : RunClaim) × (after : FireState (Unit {0})) × (project_fire host via stored firing before
      ≡ returned (ok next, after))
    × IsCurrent host stored firing claim next after
project_fire-IsCurrent_example =
    project_fire-IsCurrent host via stored firing before folded_in claim can_record last_is_claim
      (λ same. absurd (omega arith)) folds_in slot_is_free

-- The state of the row of a run after a fire.
abbrev state_after : ℕ → Call (Result FireError RunClaim × FireState (Unit {0})) → Option String
state_after run_id (returned (r, s)) = state_of (get_run_state run_id s.channel.db.run_states)
state_after run_id _ = none

running_is_superseded :
    state_after 1 (project_fire host via stored firing before) ≡ some "superseded"
unfolding project_fire ingest_barrier ingest_inner ingest_run ingest_current apply rearm
    arm_watchdog log_and_write log_acknowledged log_running log_verdict lifecycle_row last_run
    get_run_state get_run runs_for_timer order_by insert_by keep_where from_wire taken judged
    accumulated fired_row insert_entry remove_entry remove_kind update_run_state written
    update_where state_text last_claim supersede superseded_row fire_claimed claim_run any_where
    new_claim disposed apply_overlap_disposition on_reason record_owned new_row commit
    start_deadlines register_fire clear_deadlines new_projection skip_reason unfinished_claims_count
    count_where finish_run_conn
running_is_superseded = refl

-- A second fire at a claimed slot keeps of the reply only what it did to the deadline book.
abbrev refused : Firing (Unit {0})
refused = record firing { scheduled_for = claim.scheduled_for }

abbrev rolled : FireState (Unit {0})
rolled = record before { channel = record folded_in { db = channel.db } }

claimed_is_refused :
    project_fire host via stored refused before ≡ returned (err already_claimed, rolled)
unfolding project_fire ingest_barrier ingest_inner ingest_run ingest_current apply rearm
    arm_watchdog log_and_write log_acknowledged log_running log_verdict lifecycle_row last_run
    get_run_state get_run runs_for_timer order_by insert_by keep_where from_wire taken judged
    accumulated fired_row insert_entry remove_entry remove_kind update_run_state written
    update_where state_text last_claim fire_claimed claim_run any_where
claimed_is_refused = refl
