-- ===== src/Store/RunStates.antt =====
-- The lifecycle rows of runs, the tables `run_states` and `slot_event_acks`, and the outbox of events:
-- crates/bellman-core/src/store/models.rs and mod.rs. Values read back as written, but for an estimate of
-- 2^63 seconds or more, which SQLite keeps as a negative number and which reads back as 0.
pub mod Rows
use text.Mathlib.Text
use bellman.Common.{
  ℕ, Bool, true, false, not, ◌||◌, ◌&&◌, ◌==◌, ltb, leb, if◌then◌else◌, Option, none, some, List,
  [], ◌∷◌, String, i64_max, update_where, keep_where, order_by, take,
}
use bellman.Events.Record.{
  RunState, EventRecord, from_wire, is_terminal, completed, failed, acknowledged, running,
}
use bellman.Store.Ledger.{RunClaim, Ledger, by_sequence}
use bellman.Store.Timers.{Timers}

pub data FailureKind : Type 0 where
  reported timed_out : FailureKind

pub record RunStateRow (V : Type 0) : Type 0 where
  pub run_id : ℕ
  pub timer_id : ℕ
  pub app_name : String
  pub state : String
  pub fired_at : ℕ
  pub pickup_deadline : Option ℕ
  pub acknowledged_at : Option ℕ
  pub expected_secs : Option ℕ
  pub error_detection : Option Bool
  pub heartbeat_at : Option ℕ
  pub progress : Option String
  pub completed_at : Option ℕ
  pub failed_at : Option ℕ
  pub reason : Option String
  pub failure_kind : Option FailureKind
  pub result_json : Option V
  pub result_truncated : Bool
  pub watchdog_deadline : Option ℕ
  pub no_ack_at : Option ℕ
  pub reply_digest : Option String
  pub acknowledged_logged : Bool
  pub running_logged : Bool
  pub selected_transport : Option String
  pub transport : Option String

-- The tables that the lifecycle reads and writes; the outbox has the newest event first.
pub record Db (V : Type 0) : Type 0 where
  pub timers : Timers
  pub runs : Ledger
  pub run_states : List (RunStateRow V)
  pub acks : List (ℕ × ℕ)
  pub outbox : List (EventRecord V)

abbrev pub is_reported : Option FailureKind → Bool
is_reported (some reported) = true
is_reported (some timed_out) = false
is_reported none = false

abbrev pub terminal_state : Option RunState → Bool
terminal_state (some s) = is_terminal s
terminal_state none = false

abbrev pub verdict_of_app : Option RunState → Option FailureKind → Bool
verdict_of_app (some completed) kind = true
verdict_of_app (some failed) kind = is_reported kind
verdict_of_app _ kind = false

abbrev pub is_armed : Option ℕ → Bool
is_armed (some t) = true
is_armed none = false

-- An estimate through SQLite and back.
abbrev pub secs_to_sql : Option ℕ → Option ℕ
secs_to_sql none = none
secs_to_sql (some secs) = some (if leb secs i64_max then secs else 0)

-- `last_acked_sequence`.
unfoldable pub last_acked_sequence : ℕ → List (ℕ × ℕ) → ℕ
last_acked_sequence timer_id [] = 0
last_acked_sequence timer_id ((id, n) ∷ acks) =
    let rest = last_acked_sequence timer_id acks in if id == timer_id then n else rest

module _ {V : Type 0} where
  -- `RunStateRow::fired`.
  unfoldable pub fired_row : ℕ → ℕ → String → String → ℕ → ℕ → RunStateRow V
  fired_row run_id timer_id app_name fire_state fired_at pickup_deadline = record {
    run_id = run_id;
    timer_id = timer_id;
    app_name = app_name;
    state = fire_state;
    fired_at = fired_at;
    pickup_deadline = some pickup_deadline;
    acknowledged_at = none;
    expected_secs = none;
    error_detection = none;
    heartbeat_at = none;
    progress = none;
    completed_at = none;
    failed_at = none;
    reason = none;
    failure_kind = none;
    result_json = none;
    result_truncated = false;
    watchdog_deadline = none;
    no_ack_at = none;
    reply_digest = none;
    acknowledged_logged = false;
    running_logged = false;
    selected_transport = none;
    transport = none;
  }

  abbrev pub run_state : RunStateRow V → Option RunState
  run_state row = from_wire row.state

  -- `RunStateRow::is_terminal`.
  abbrev pub row_terminal : RunStateRow V → Bool
  row_terminal row = terminal_state (run_state row)

  abbrev pub is_app_authored_terminal : RunStateRow V → Bool
  is_app_authored_terminal row = verdict_of_app (run_state row) row.failure_kind

  unfoldable pub get_run_state : ℕ → List (RunStateRow V) → Option (RunStateRow V)
  get_run_state run_id [] = none
  get_run_state run_id (r ∷ rows) =
      let rest = get_run_state run_id rows in if r.run_id == run_id then some r else rest

  -- The last row found, over claims in their order.
  unfoldable pub newest :
      (RunClaim → Option (RunStateRow V)) → List RunClaim → Option (RunStateRow V)
  newest find [] = none
  newest find (c ∷ claims) = elim (newest find claims) [ none ↦ find c | some r ↦ some r ]

  abbrev pub row_of_timer : ℕ → Option (RunStateRow V) → Option (RunStateRow V)
  row_of_timer timer_id none = none
  row_of_timer timer_id (some row) = if row.timer_id == timer_id then some row else none

  -- `current_run_state_conn`: the row whose run is the last of those of the timer.
  unfoldable pub current_run_state : ℕ → Db V → Option (RunStateRow V)
  unfolding newest get_run_state
  current_run_state timer_id db =
      newest (λ c. row_of_timer timer_id (get_run_state c.run_id db.run_states))
        (order_by by_sequence db.runs)

  -- `insert_run_state_conn` of a row of a fire; the columns that it leaves NULL are those of `fired_row`.
  abbrev pub insert_run_state : RunStateRow V → Db V → Db V
  insert_run_state row db = record db { run_states = row ∷ db.run_states }

  -- The columns that `update_run_state_conn` does not write keep their values.
  unfoldable pub written : RunStateRow V → RunStateRow V → RunStateRow V
  written row old = record row {
    timer_id = old.timer_id;
    app_name = old.app_name;
    fired_at = old.fired_at;
    expected_secs = secs_to_sql row.expected_secs;
    selected_transport = old.selected_transport;
  }

  unfoldable pub update_run_state : RunStateRow V → Db V → Db V
  unfolding written
  update_run_state row db = record db {
    run_states = update_where (λ r. r.run_id == row.run_id) (written row) db.run_states;
  }

  abbrev pub enqueue_event : EventRecord V → Db V → Db V
  enqueue_event e db = record db { outbox = e ∷ db.outbox }

  -- `armed_deadlines_conn`.
  unfoldable pub armed_deadlines : Db V → List (RunStateRow V)
  armed_deadlines db =
      order_by (λ r q. leb r.run_id q.run_id)
        (keep_where
          (λ (r : RunStateRow V). is_armed r.pickup_deadline || is_armed r.watchdog_deadline)
          db.run_states)
