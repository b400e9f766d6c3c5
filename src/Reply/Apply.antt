-- ===== src/Reply/Apply.antt =====
-- The accept path of a reply, `apply` of crates/bellman-core/src/reply/engine.rs: what the row takes over
-- from the document, the deadlines, and the lines of the event log.
pub mod Rows
pub mod Logs
pub mod Reports
use bellman.Common.{
  ℕ, ◌+◌, Bool, true, false, not, ◌&&◌, ◌==◌, ltb, if◌then◌else◌, Option, none, some, List, [], ◌∷◌,
  ◌++◌, String, unwrap_or, Call, returned, ◌>>=◌,
}
use bellman.Scheduler.State.{pickup, watchdog}
use bellman.Events.Record.{
  RunState, EventRecord, Json, acknowledged, running, completed, failed, is_terminal, state_text,
  new_event, with_timer, with_run, with_scheduled_for, with_message, with_duration_ms, with_detail,
  with_logged_at,
}
use bellman.Store.Ledger.{RunClaim}
use bellman.Store.Models.{Timer}
use bellman.Store.RunStates.{
  RunStateRow, FailureKind, reported, run_state, update_run_state, enqueue_event, is_armed,
}
use bellman.Reply.Document.{
  ReplyDocument, truncate_text, cap_result, max_free_text_bytes, max_result_status_bytes,
  max_result_event_bytes,
}
use bellman.Reply.Engine.{
  Host, Channel, remove_entry, insert_entry, remove_kind, with_db, with_entries, add_wall, span_or,
  duration_ms,
}
use bellman.Reply.Lines.{
  is_acknowledged, is_running, is_completed, is_failed, in_state, capped, run_event, entry_of,
  acknowledged_event, log_acknowledged, log_running, with_reason, with_members, result_members,
  verdict_event, logged_verdict, log_verdict,
}

-- Omission keeps; an explicit value replaces.
abbrev pub replaced {ℓ} : {A : Type ℓ} → Option A → Option A → Option A
replaced none old = old
replaced (some new) old = some new

abbrev pub is_false : Option Bool → Bool
is_false (some b) = not b
is_false none = false

abbrev pub is_true : Option Bool → Bool
is_true (some b) = b
is_true none = false

abbrev pub truncated : Option String → Option String
truncated none = none
truncated (some s) = some (truncate_text s max_free_text_bytes)

-- The receipt stands in for the instant of an acknowledgement that has none.
abbrev pub acknowledged_by : Option ℕ → RunState → ℕ → Option ℕ
acknowledged_by (some t) new_state now_wall = some t
acknowledged_by none new_state now_wall = if is_acknowledged new_state then some now_wall else none

module _ {V : Type 0} where
  -- The fields that accumulate.
  unfoldable pub accumulated : ReplyDocument V → RunState → ℕ → RunStateRow V → RunStateRow V
  accumulated doc new_state now_wall row = record row {
    acknowledged_at =
        acknowledged_by (replaced doc.acknowledged_at row.acknowledged_at) new_state now_wall;
    expected_secs = replaced doc.expected_secs row.expected_secs;
    error_detection = replaced doc.error_detection row.error_detection;
    watchdog_deadline = if is_false doc.error_detection then none else row.watchdog_deadline;
    heartbeat_at = replaced doc.heartbeat_at row.heartbeat_at;
    progress = replaced (truncated doc.progress) row.progress;
  }

  abbrev pub with_result : Option (V × Bool) → RunStateRow V → RunStateRow V
  with_result none row = row
  with_result (some (value, cut)) row = record row {
    result_json = some value;
    result_truncated = cut;
  }

  -- The verdict of a terminal report.
  unfoldable pub judged : Host V → ReplyDocument V → RunState → ℕ → RunStateRow V → RunStateRow V
  judged host doc new_state now_wall row =
      if is_completed new_state
      then record (with_result (capped host.json doc.result max_result_status_bytes) row) {
        completed_at = some (unwrap_or doc.completed_at now_wall);
        failed_at = none;
        reason = none;
        failure_kind = none;
      }
      else if is_failed new_state
      then record row {
        failed_at = some (unwrap_or doc.failed_at now_wall);
        reason = replaced (truncated doc.reason) row.reason;
        failure_kind = some reported;
        completed_at = none;
        result_json = none;
        result_truncated = false;
      }
      else row

  -- The row with all of the document, before the deadlines.
  unfoldable pub taken : Host V → ReplyDocument V → RunState → ℕ → RunStateRow V → RunStateRow V
  unfolding accumulated judged
  taken host doc new_state now_wall row =
      record (judged host doc new_state now_wall (accumulated doc new_state now_wall row)) {
        pickup_deadline = none;
        state = state_text new_state;
      }

  -- The watchdog is wanted: opted in, with an estimate above 0.
  abbrev pub is_watched : RunStateRow V → Bool
  is_watched row = is_true row.error_detection && ltb 0 (unwrap_or row.expected_secs 0)

  -- A new countdown from the receipt, in the book, in the row and as a hint.
  unfoldable pub arm_watchdog :
      Host V → ℕ → ℕ → RunStateRow V → Channel V → Call (RunStateRow V × Channel V)
  unfolding insert_entry
  arm_watchdog host now_wall mono_now row ch =
      host.watchdog_span (unwrap_or row.expected_secs 0) >>= λ span.
      host.add_instant mono_now span >>= λ at.
      add_wall host.chrono now_wall (span_or span 0) >>= λ wall. returned (
        record row { watchdog_deadline = some wall },
        record ch {
          entries =
              insert_entry (record { run_id = row.run_id; kind = watchdog; at = at }) ch.entries;
          armed_hints = ch.armed_hints ++ ((row.run_id, watchdog, wall) ∷ []);
        },
      )

  -- The deadlines: the pickup is consumed, a terminal report disarms, any other one rearms the watchdog if it
  -- is wanted and takes it out of the book if not.
  unfoldable pub rearm :
      Host V → RunState → ℕ → ℕ → RunStateRow V → Channel V → Call (RunStateRow V × Channel V)
  unfolding remove_kind remove_entry arm_watchdog
  rearm host new_state now_wall mono_now row ch =
      let picked = with_entries (remove_kind row.run_id pickup) ch in
      if is_terminal new_state
      then returned
          (record row { watchdog_deadline = none }, with_entries (remove_entry row.run_id) picked)
      else if is_watched row
      then arm_watchdog host now_wall mono_now row picked
      else returned (row, with_entries (remove_kind row.run_id watchdog) picked)

  -- The lines and the write of the row.
  unfoldable pub log_and_write :
      Host V
      → Timer
      → RunClaim
      → ReplyDocument V
      → Option RunState
      → RunState
      → String
      → ℕ
      → RunStateRow V
      → Channel V
      → Channel V
  unfolding log_acknowledged log_running log_verdict update_run_state
  log_and_write host t claim doc cur_state new_state digest now_wall row ch =
      let (row1, ch1) = log_acknowledged host t claim now_wall row ch in
      let (row2, ch2) = log_running host t claim doc new_state now_wall row1 ch1 in
      let ch3 = log_verdict host t claim doc cur_state new_state now_wall row2 ch2 in
      with_db (update_run_state (record row2 { reply_digest = some digest })) ch3

  -- `ReplyEngine::apply`.
  unfoldable pub apply :
      Host V
      → Timer
      → RunClaim
      → RunStateRow V
      → ReplyDocument V
      → RunState
      → String
      → ℕ
      → ℕ
      → Channel V
      → Call (Channel V)
  unfolding taken rearm log_and_write
  apply host t claim row doc new_state digest now_wall mono_now ch =
      rearm host new_state now_wall mono_now (taken host doc new_state now_wall row) ch
      >>= λ (row', ch').
          returned
            (log_and_write host t claim doc (run_state row) new_state digest now_wall row' ch')
