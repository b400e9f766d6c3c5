-- ===== src/Events/Record.antt =====
-- The states of a run and the lines of the event log: crates/bellman-core/src/events/record.rs. The random
-- id of an event is left out: two events never share it.
pub mod Wire
use text.Mathlib.Text
use bellman.Common.{
  ℕ, Bool, true, false, ◌==◌, if◌then◌else◌, Option, none, some, List, [], ◌∷◌, String,
}

pub data RunState : Type 0 where
  registered fired fired_late skipped_misfire coalesced wake_delivered wake_failed no_ack pruned
        year_recalibrate wake_capability acknowledged running completed failed cancelled superseded
        reply_rejected :
      RunState

abbrev pub is_terminal : RunState → Bool
is_terminal completed = true
is_terminal failed = true
is_terminal no_ack = true
is_terminal cancelled = true
is_terminal superseded = true
is_terminal _ = false

abbrev pub is_app_writable : RunState → Bool
is_app_writable acknowledged = true
is_app_writable running = true
is_app_writable completed = true
is_app_writable failed = true
is_app_writable _ = false

-- `RunState::as_str`.
unfoldable pub state_text : RunState → String
state_text registered = "registered"
state_text fired = "fired"
state_text fired_late = "fired_late"
state_text skipped_misfire = "skipped_misfire"
state_text coalesced = "coalesced"
state_text wake_delivered = "wake_delivered"
state_text wake_failed = "wake_failed"
state_text no_ack = "no_ack"
state_text pruned = "pruned"
state_text year_recalibrate = "year_recalibrate"
state_text wake_capability = "wake_capability"
state_text acknowledged = "acknowledged"
state_text running = "running"
state_text completed = "completed"
state_text failed = "failed"
state_text cancelled = "cancelled"
state_text superseded = "superseded"
state_text reply_rejected = "reply_rejected"

unfoldable pub from_wire : String → Option RunState
from_wire s =
    if Text.◌==◌ s "registered"
    then some registered
    else if Text.◌==◌ s "fired"
    then some fired
    else if Text.◌==◌ s "fired_late"
    then some fired_late
    else if Text.◌==◌ s "skipped_misfire"
    then some skipped_misfire
    else if Text.◌==◌ s "coalesced"
    then some coalesced
    else if Text.◌==◌ s "wake_delivered"
    then some wake_delivered
    else if Text.◌==◌ s "wake_failed"
    then some wake_failed
    else if Text.◌==◌ s "no_ack"
    then some no_ack
    else if Text.◌==◌ s "pruned"
    then some pruned
    else if Text.◌==◌ s "year_recalibrate"
    then some year_recalibrate
    else if Text.◌==◌ s "wake_capability"
    then some wake_capability
    else if Text.◌==◌ s "acknowledged"
    then some acknowledged
    else if Text.◌==◌ s "running"
    then some running
    else if Text.◌==◌ s "completed"
    then some completed
    else if Text.◌==◌ s "failed"
    then some failed
    else if Text.◌==◌ s "cancelled"
    then some cancelled
    else if Text.◌==◌ s "superseded"
    then some superseded
    else if Text.◌==◌ s "reply_rejected"
    then some reply_rejected
    else none

-- What the code takes from serde_json: the values, and the texts that they are written as.
pub record Json (V : Type 0) : Type 0 where
  pub to_text : V → String
  pub text : String → V
  pub number : ℕ → V
  pub boolean : Bool → V
  pub object : List (String × V) → V

abbrev pub event_schema : String
event_schema = "bellman-event/1"

pub record EventRecord (V : Type 0) : Type 0 where
  pub schema : String
  pub logged_at : ℕ
  pub kind : RunState
  pub timer_id : Option ℕ
  pub run_id : Option ℕ
  pub timer_name : Option String
  pub scheduled_for : Option ℕ
  pub duration_ms : Option ℕ
  pub count : Option ℕ
  pub message : Option String
  pub error : Option String
  pub detail : Option V

module _ {V : Type 0} where
  -- `EventRecord::new`, with the clock.
  abbrev pub new_event : RunState → ℕ → EventRecord V
  new_event kind now = record {
    schema = event_schema;
    logged_at = now;
    kind = kind;
    timer_id = none;
    run_id = none;
    timer_name = none;
    scheduled_for = none;
    duration_ms = none;
    count = none;
    message = none;
    error = none;
    detail = none;
  }

  abbrev pub with_timer : ℕ → String → EventRecord V → EventRecord V
  with_timer id name e = record e { timer_id = some id; timer_name = some name }

  abbrev pub with_run : ℕ → EventRecord V → EventRecord V
  with_run id e = record e { run_id = some id }

  abbrev pub with_scheduled_for : ℕ → EventRecord V → EventRecord V
  with_scheduled_for t e = record e { scheduled_for = some t }

  abbrev pub with_message : String → EventRecord V → EventRecord V
  with_message m e = record e { message = some m }

  abbrev pub with_duration_ms : ℕ → EventRecord V → EventRecord V
  with_duration_ms ms e = record e { duration_ms = some ms }

  abbrev pub with_detail : V → EventRecord V → EventRecord V
  with_detail d e = record e { detail = some d }

  abbrev pub with_logged_at : ℕ → EventRecord V → EventRecord V
  with_logged_at t e = record e { logged_at = t }

  abbrev pub with_count : ℕ → EventRecord V → EventRecord V
  with_count n e = record e { count = some n }
