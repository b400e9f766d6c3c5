-- ===== src/Reply/Ingest.antt =====
-- The ingest of a reply, `ingest_inner` of crates/bellman-core/src/reply/engine.rs with its transaction.
pub mod Changes
pub mod Again
pub mod Repeats
use text.Mathlib.Text
use bellman.Common.{
  ℕ, Bool, true, false, not, ◌&&◌, ◌||◌, ◌==◌, if◌then◌else◌, Option, none, some, List, [], ◌∷◌,
  String, unwrap_or, Call, returned, ◌>>=◌,
}
use bellman.Events.Record.{
  RunState, from_wire, is_app_writable, state_text, fired, acknowledged, running, new_event,
  with_timer, with_run, with_scheduled_for, with_message,
}
use bellman.Events.Record
use bellman.Store.Ledger.{RunClaim, Ledger, get_run, runs_for_timer}
use bellman.Store.Models.{Timer}
use bellman.Store.RunStates.{
  RunStateRow, get_run_state, fired_row, is_app_authored_terminal, enqueue_event, update_run_state,
}
use bellman.Reply.Document.{
  ReplyDocument, ReplyRejection, reply_schema, missing_schema, bad_schema, missing_run_id,
  missing_state, reserved_state, missing_app_name, unknown_run, wrong_app_name, terminal_regression,
  error_detection_without_estimate,
}
use bellman.Reply.Engine.{Host, Channel, with_db}
use bellman.Reply.Apply.{apply, replaced, is_true}
use bellman.Reply.Lines.{is_acknowledged, is_running}

pub data IngestOutcome : Type 0 where
  applied duplicate superseded : IngestOutcome
  rejected : ReplyRejection → IngestOutcome

-- What the document alone decides: a refusal, or the run, the state and the name of the application.
pub data Sight : Type 0 where
  refused : ReplyRejection → Sight
  identified : ℕ → RunState → String → Sight

abbrev pub sight_name : ℕ → RunState → Option String → Sight
sight_name run_id new_state none = refused missing_app_name
sight_name run_id new_state (some app_name) = identified run_id new_state app_name

abbrev pub sight_known : ℕ → Option String → Option RunState → Sight
sight_known run_id app_name none = refused reserved_state
sight_known run_id app_name (some s) =
    if is_app_writable s then sight_name run_id s app_name else refused reserved_state

-- Without a state the text tried is empty, which names none.
abbrev pub sight_state : ℕ → Option String → Option String → Sight
sight_state run_id app_name none = refused missing_state
sight_state run_id app_name (some state) = sight_known run_id app_name (from_wire state)

abbrev pub sight_run : Option ℕ → Option String → Option String → Sight
sight_run none state app_name = refused missing_run_id
sight_run (some run_id) state app_name = sight_state run_id app_name state

abbrev pub sight_schema : Option String → Sight → Sight
sight_schema none rest = refused missing_schema
sight_schema (some schema) rest = if Text.◌==◌ schema reply_schema then rest else refused bad_schema

abbrev pub text_is : Option String → String → Bool
text_is none s = false
text_is (some t) s = Text.◌==◌ t s

-- The run that is last in the order of the event sequence.
unfoldable pub last_run : List RunClaim → Option ℕ
last_run [] = none
last_run (c ∷ claims) = elim (last_run claims) [ none ↦ some c.run_id | some id ↦ some id ]

abbrev pub names_run : Option ℕ → ℕ → Bool
names_run none run_id = false
names_run (some id) run_id = id == run_id

module _ {V : Type 0} where
  -- The validation on sight.
  abbrev pub sight : ReplyDocument V → Sight
  sight doc = sight_schema doc.schema (sight_run doc.run_id doc.state doc.app_name)

  abbrev pub digest_is : Option (RunStateRow V) → String → Bool
  digest_is none digest = false
  digest_is (some row) digest = text_is row.reply_digest digest

  abbrev pub with_digest : String → Option (RunStateRow V) → Channel V → Channel V
  with_digest digest none ch = ch
  with_digest digest (some row) ch =
      with_db (update_run_state (record row { reply_digest = some digest })) ch

  -- A reply for a run that is not current.
  unfoldable pub ingest_stale :
      Host V → Timer → RunClaim → ℕ → String → Channel V → Call (IngestOutcome × Channel V)
  unfolding get_run_state update_run_state
  ingest_stale host t claim run_id digest ch =
      let row = get_run_state run_id ch.db.run_states in
      let event = with_message "reply arrived for a run that is no longer current" (
        with_scheduled_for claim.scheduled_for (
          with_run run_id (with_timer t.id t.name (new_event RunState.superseded host.utc_now)))) in
      if digest_is row digest
      then returned (superseded, ch)
      else returned (superseded, with_digest digest row (with_db (enqueue_event event) ch))

  -- The row of a run, or a new one for a run without.
  unfoldable pub lifecycle_row : Timer → RunClaim → ℕ → String → ℕ → Channel V → RunStateRow V
  unfolding fired_row get_run_state
  lifecycle_row t claim run_id app_name now_wall ch =
      unwrap_or (get_run_state run_id ch.db.run_states)
        (fired_row run_id t.id app_name (state_text RunState.fired) claim.claimed_at now_wall)

  abbrev pub lacks_estimate : ReplyDocument V → RunStateRow V → Bool
  lacks_estimate doc row =
      is_true doc.error_detection
      && (unwrap_or (replaced doc.expected_secs row.expected_secs) 0 == 0)

  abbrev pub regresses : RunState → RunStateRow V → Bool
  regresses new_state row =
      is_app_authored_terminal row && (is_acknowledged new_state || is_running new_state)

  -- A reply for the current run.
  unfoldable pub ingest_current :
      Host V
      → Timer
      → RunClaim
      → ReplyDocument V
      → ℕ
      → RunState
      → String
      → String
      → ℕ
      → ℕ
      → RunStateRow V
      → Channel V
      → Call (IngestOutcome × Channel V)
  unfolding apply
  ingest_current host t claim doc run_id new_state app_name digest now_wall mono_now row ch =
      if not (Text.◌==◌ app_name row.app_name)
      then returned (rejected wrong_app_name, ch)
      else if regresses new_state row
      then returned (rejected terminal_regression, ch)
      else if lacks_estimate doc row
      then returned (rejected error_detection_without_estimate, ch)
      else if text_is row.reply_digest digest
      then returned (duplicate, ch)
      else apply host t claim row doc new_state digest now_wall mono_now ch >>= λ ch'.
          returned (applied, ch')

  -- The run is the current one: that of the barrier, or the last of the timer.
  abbrev pub current_run : Timer → Option ℕ → Channel V → Option ℕ
  current_run t (some id) ch = some id
  current_run t none ch = last_run (runs_for_timer t.id ch.db.runs)

  unfoldable pub ingest_run :
      Host V
      → Timer
      → ReplyDocument V
      → ℕ
      → RunState
      → String
      → String
      → ℕ
      → ℕ
      → Option ℕ
      → Option RunClaim
      → Channel V
      → Call (IngestOutcome × Channel V)
  unfolding ingest_stale ingest_current lifecycle_row last_run
  ingest_run host t doc run_id new_state app_name digest now_wall mono_now override none ch =
      returned (rejected unknown_run, ch)
  ingest_run host t doc run_id new_state app_name digest now_wall mono_now override (some claim)
        ch =
      if not (claim.timer_id == t.id)
      then returned (rejected unknown_run, ch)
      else if names_run (current_run t override ch) run_id
      then ingest_current host t claim doc run_id new_state app_name digest now_wall mono_now
          (lifecycle_row t claim run_id app_name now_wall ch) ch
      else ingest_stale host t claim run_id digest ch

  abbrev pub ingest_sight :
      Host V
      → Timer
      → ReplyDocument V
      → String
      → ℕ
      → ℕ
      → Option ℕ
      → Channel V
      → Sight
      → Call (IngestOutcome × Channel V)
  ingest_sight host t doc digest now_wall mono_now override ch (refused why) =
      returned (rejected why, ch)
  ingest_sight host t doc digest now_wall mono_now override ch
        (identified run_id new_state app_name) =
      ingest_run host t doc run_id new_state app_name digest now_wall mono_now override
        (get_run run_id ch.db.runs) ch

  -- `ReplyEngine::ingest_inner`.
  unfoldable pub ingest_inner :
      Host V
      → Timer
      → ReplyDocument V
      → String
      → ℕ
      → ℕ
      → Option ℕ
      → Channel V
      → Call (IngestOutcome × Channel V)
  unfolding ingest_run
  ingest_inner host t doc digest now_wall mono_now override ch =
      ingest_sight host t doc digest now_wall mono_now override ch (sight doc)

  -- `ReplyEngine::ingest`, and `ingest_as_current` for the barrier of a fire.
  abbrev pub ingest :
      Host V
      → Timer
      → ReplyDocument V
      → String
      → ℕ
      → ℕ
      → Channel V
      → Call (IngestOutcome × Channel V)
  ingest host t doc digest now_wall mono_now ch =
      ingest_inner host t doc digest now_wall mono_now none ch

  abbrev pub ingest_as_current :
      Host V
      → Timer
      → ReplyDocument V
      → String
      → ℕ
      → ℕ
      → ℕ
      → Channel V
      → Call (IngestOutcome × Channel V)
  ingest_as_current host t doc digest as_current now_wall mono_now ch =
      ingest_inner host t doc digest now_wall mono_now (some as_current) ch
