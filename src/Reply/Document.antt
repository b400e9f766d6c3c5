-- ===== src/Reply/Document.antt =====
-- The reply document and its caps: crates/bellman-core/src/reply/document.rs.
pub mod Truncation
use Prim.Native.String.{len, slice}
use text.Mathlib.Text.{is_char_boundary}
use bellman.Common.{ℕ, zero, suc, Bool, true, false, leb, if◌then◌else◌, Option, String}
use bellman.Events.Record.{Json}

abbrev pub reply_schema : String
reply_schema = "bellman-reply/1"

abbrev pub max_result_status_bytes : ℕ
max_result_status_bytes = 32768

abbrev pub max_result_event_bytes : ℕ
max_result_event_bytes = 2048

abbrev pub max_free_text_bytes : ℕ
max_free_text_bytes = 1024

pub record ReplyDocument (V : Type 0) : Type 0 where
  pub schema : Option String
  pub run_id : Option ℕ
  pub app_name : Option String
  pub state : Option String
  pub acknowledged_at : Option ℕ
  pub expected_secs : Option ℕ
  pub error_detection : Option Bool
  pub heartbeat_at : Option ℕ
  pub progress : Option String
  pub completed_at : Option ℕ
  pub result : Option V
  pub failed_at : Option ℕ
  pub reason : Option String
  pub hint : Option String

pub data ReplyRejection : Type 0 where
  missing_schema bad_schema missing_run_id missing_app_name wrong_app_name missing_state
        reserved_state error_detection_without_estimate terminal_regression unknown_run :
      ReplyRejection

-- `ReplyRejection::as_str`.
unfoldable pub rejection_text : ReplyRejection → String
rejection_text missing_schema = "missing schema"
rejection_text bad_schema = "unexpected schema"
rejection_text missing_run_id = "missing run_id"
rejection_text missing_app_name = "missing app_name"
rejection_text wrong_app_name = "app_name does not match the run's owner"
rejection_text missing_state = "missing state"
rejection_text reserved_state = "state is reserved to Bellman"
rejection_text error_detection_without_estimate =
    "error_detection requires a positive expected_secs"
rejection_text terminal_regression = "terminal report cannot move back to non-terminal"
rejection_text unknown_run = "unknown run_id"

-- The greatest boundary up to a position; 0 is one.
unfoldable pub floor_boundary : String → ℕ → ℕ
floor_boundary s zero = zero
floor_boundary s (suc end) =
    let rest = floor_boundary s end in if is_char_boundary s (suc end) then suc end else rest

unfoldable pub truncate_text : String → ℕ → String
unfolding floor_boundary
truncate_text s cap = if leb (len s) cap then s else slice s 0 (floor_boundary s cap)

-- The value and whether it was cut; `unwrap_or_default` never applies to a value.
unfoldable pub cap_result : {V : Type 0} → Json V → V → ℕ → V × Bool
unfolding truncate_text
cap_result json value cap =
    if leb (len (json.to_text value)) cap
    then (value, false)
    else (json.text (truncate_text (json.to_text value) cap), true)
