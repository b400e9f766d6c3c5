-- ===== src/Reply/Lines.antt =====
-- The lines that the acceptance of a reply adds to the event log: `apply` of
-- crates/bellman-core/src/reply/engine.rs.
use bellman.Common.{
  ℕ, Bool, true, false, not, ◌&&◌, if◌then◌else◌, Option, none, some, List, [], ◌∷◌, ◌++◌, String,
  unwrap_or,
}
use bellman.Events.Record.{
  RunState, EventRecord, Json, acknowledged, running, completed, failed, is_terminal, new_event,
  with_timer, with_run, with_scheduled_for, with_message, with_duration_ms, with_detail,
  with_logged_at,
}
use bellman.Store.Ledger.{RunClaim}
use bellman.Store.Models.{Timer}
use bellman.Store.RunStates.{RunStateRow, enqueue_event, is_armed}
use bellman.Reply.Document.{ReplyDocument, cap_result, max_result_event_bytes}
use bellman.Reply.Engine.{Host, Channel, with_db, duration_ms}

abbrev pub is_acknowledged : RunState → Bool
is_acknowledged acknowledged = true
is_acknowledged _ = false

abbrev pub is_running : RunState → Bool
is_running running = true
is_running _ = false

abbrev pub is_completed : RunState → Bool
is_completed completed = true
is_completed _ = false

abbrev pub is_failed : RunState → Bool
is_failed failed = true
is_failed _ = false

-- Whether a row is in the state of a terminal report, which is `completed` or `failed`.
abbrev pub in_state : Option RunState → RunState → Bool
in_state (some completed) new_state = is_completed new_state
in_state (some failed) new_state = is_failed new_state
in_state _ new_state = false

module _ {V : Type 0} where
  abbrev pub capped : Json V → Option V → ℕ → Option (V × Bool)
  capped json none cap = none
  capped json (some value) cap = some (cap_result json value cap)

  -- An event of a run.
  abbrev pub run_event : RunState → ℕ → Timer → RunClaim → ℕ → EventRecord V
  run_event kind now t claim run_id =
      with_scheduled_for claim.scheduled_for
        (with_run run_id (with_timer t.id t.name (new_event kind now)))

  abbrev pub entry_of {ℓ} : {A : Type ℓ} → String → (A → V) → Option A → List (String × V)
  entry_of name f none = []
  entry_of name f (some a) = (name, f a) ∷ []

  unfoldable pub acknowledged_event : Host V → Timer → RunClaim → ℕ → RunStateRow V → EventRecord V
  acknowledged_event host t claim now_wall row =
      with_logged_at (unwrap_or row.acknowledged_at now_wall) (
        with_detail
          (host.json.object (
            (("app_name", host.json.text row.app_name) ∷ [])
            ++ entry_of "expected_secs" host.json.number row.expected_secs
            ++ entry_of "error_detection" host.json.boolean row.error_detection))
          (run_event acknowledged host.utc_now t claim row.run_id))

  unfoldable pub log_acknowledged :
      Host V → Timer → RunClaim → ℕ → RunStateRow V → Channel V → RunStateRow V × Channel V
  unfolding acknowledged_event
  log_acknowledged host t claim now_wall row ch =
      if not row.acknowledged_logged && is_armed row.acknowledged_at
      then (
        record row { acknowledged_logged = true },
        with_db (enqueue_event (acknowledged_event host t claim now_wall row)) ch,
      )
      else (row, ch)

  unfoldable pub log_running :
      Host V
      → Timer
      → RunClaim
      → ReplyDocument V
      → RunState
      → ℕ
      → RunStateRow V
      → Channel V
      → RunStateRow V × Channel V
  log_running host t claim doc new_state now_wall row ch =
      if is_running new_state && not row.running_logged
      then (
        record row { running_logged = true },
        with_db
            (enqueue_event (
              with_logged_at (unwrap_or doc.heartbeat_at now_wall)
                (run_event running host.utc_now t claim row.run_id)))
            ch,
      )
      else (row, ch)

  abbrev pub with_reason : Option String → EventRecord V → EventRecord V
  with_reason none e = e
  with_reason (some reason) e = with_message reason e

  -- A detail without a member is left out.
  abbrev pub with_members : Json V → List (String × V) → EventRecord V → EventRecord V
  with_members json [] e = e
  with_members json (m ∷ members) e = with_detail (json.object (m ∷ members)) e

  abbrev pub result_members : Json V → Option (V × Bool) → List (String × V)
  result_members json none = []
  result_members json (some (value, cut)) =
      ("result", value) ∷ (if cut then ("result_truncated", json.boolean true) ∷ [] else [])

  -- The line of a terminal report, `completed` or `failed`, from the milliseconds and their source.
  unfoldable pub verdict_event :
      Host V
      → Timer
      → RunClaim
      → ReplyDocument V
      → RunState
      → ℕ
      → RunStateRow V
      → ℕ
      → Option String
      → EventRecord V
  verdict_event host t claim doc new_state now_wall row ms source =
      let base = with_duration_ms ms (run_event new_state host.utc_now t claim row.run_id) in
      let origin = entry_of "duration_source" host.json.text source in
      if is_completed new_state
      then with_members host.json
          (origin ++ result_members host.json (capped host.json doc.result max_result_event_bytes))
          (with_logged_at (unwrap_or row.completed_at now_wall) base)
      else with_members host.json (origin ++ (("failure_kind", host.json.text "reported") ∷ []))
          (with_logged_at (unwrap_or row.failed_at now_wall) (with_reason row.reason base))

  abbrev pub logged_verdict :
      (ℕ → Option String → EventRecord V) → ℕ × Option String × Channel V → Channel V
  logged_verdict event (ms, source, ch) = with_db (enqueue_event (event ms source)) ch

  unfoldable pub log_verdict :
      Host V
      → Timer
      → RunClaim
      → ReplyDocument V
      → Option RunState
      → RunState
      → ℕ
      → RunStateRow V
      → Channel V
      → Channel V
  unfolding verdict_event duration_ms
  log_verdict host t claim doc cur_state new_state now_wall row ch =
      if is_terminal new_state && not (in_state cur_state new_state)
      then logged_verdict (verdict_event host t claim doc new_state now_wall row)
          (duration_ms host row.run_id row.fired_at now_wall ch)
      else ch
