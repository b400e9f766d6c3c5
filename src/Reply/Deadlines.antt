-- ===== src/Reply/Deadlines.antt =====
-- Pickups by the cursor of the slot feed and the lapse of deadlines, of crates/bellman-core/src/reply/engine.rs.
-- Each result says whether there was a transition.
pub mod Changes
use bellman.Common.{
  ℕ, Bool, true, false, not, ◌&&◌, ◌||◌, ◌==◌, ltb, leb, if◌then◌else◌, Option, none, some, List,
  [], ◌∷◌, ◌++◌, String,
}
use bellman.Scheduler.State.{pickup, watchdog}
use bellman.Events.Record
use bellman.Events.Record.{
  RunState, EventRecord, fired, fired_late, coalesced, acknowledged, no_ack, failed, state_text,
  with_message, with_duration_ms, with_detail, with_logged_at,
}
use bellman.Store.Ledger.{RunClaim, get_run}
use bellman.Store.Models.{Timer}
use bellman.Store.Timers.{get_timer}
use bellman.Store.RunStates.{
  RunStateRow, timed_out, run_state, row_terminal, is_armed, get_run_state, current_run_state,
  last_acked_sequence, update_run_state, enqueue_event,
}
use bellman.Reply.Engine.{
  Host, Channel, with_db, clear_deadlines, clear_deadlines_kind, duration_ms, due_deadlines,
}
use bellman.Reply.Apply.{is_true}
use bellman.Reply.Lines.{run_event, entry_of}

-- Before any pickup.
abbrev pub awaits_pickup : Option RunState → Bool
awaits_pickup (some fired) = true
awaits_pickup (some fired_late) = true
awaits_pickup (some coalesced) = true
awaits_pickup _ = false

abbrev pub is_no_ack : Option RunState → Bool
is_no_ack (some no_ack) = true
is_no_ack _ = false

-- The expiry of one run, for the loops.
abbrev pub Expiry : Type 0 → Type 0
Expiry V = Timer → ℕ → ℕ → Channel V → Bool × Channel V

module _ {V : Type 0} where
  -- The row of a pickup.
  unfoldable pub acknowledged_row : ℕ → RunStateRow V → RunStateRow V
  acknowledged_row now_wall row = record row {
    state = state_text acknowledged;
    acknowledged_at = some now_wall;
    pickup_deadline = none;
    acknowledged_logged = true;
  }

  unfoldable pub mark_acknowledged :
      Host V → Timer → RunClaim → RunStateRow V → ℕ → Channel V → Channel V
  unfolding acknowledged_row clear_deadlines_kind update_run_state
  mark_acknowledged host t claim row now_wall ch =
      let cleared = clear_deadlines_kind row.run_id pickup ch in
      let event = with_logged_at now_wall (
        with_detail
          (host.json.object (
            ("app_name", host.json.text row.app_name) ∷ ("via", host.json.text "ack_through") ∷ []))
          (run_event acknowledged host.utc_now t claim row.run_id)) in
      with_db (update_run_state (acknowledged_row now_wall row))
        (if row.acknowledged_logged then cleared else with_db (enqueue_event event) cleared)

  unfoldable pub ack_claim :
      Host V → Timer → ℕ → ℕ → RunStateRow V → Option RunClaim → Channel V → Bool × Channel V
  unfolding mark_acknowledged
  ack_claim host t through_sequence now_wall row none ch = (false, ch)
  ack_claim host t through_sequence now_wall row (some claim) ch =
      if ltb through_sequence claim.event_sequence
      then (false, ch)
      else if (is_armed row.pickup_deadline && awaits_pickup (run_state row))
          || is_no_ack (run_state row)
      then (true, mark_acknowledged host t claim row now_wall ch)
      else (false, ch)

  abbrev pub ack_row :
      Host V → Timer → ℕ → ℕ → Option (RunStateRow V) → Channel V → Bool × Channel V
  ack_row host t through_sequence now_wall none ch = (false, ch)
  ack_row host t through_sequence now_wall (some row) ch =
      ack_claim host t through_sequence now_wall row (get_run row.run_id ch.db.runs) ch

  -- `on_ack_through`.
  unfoldable pub on_ack_through : Host V → Timer → ℕ → ℕ → Channel V → Bool × Channel V
  unfolding ack_claim current_run_state
  on_ack_through host t through_sequence now_wall ch =
      ack_row host t through_sequence now_wall (current_run_state t.id ch.db) ch

  abbrev pub is_row_of : ℕ → Option (RunStateRow V) → Bool
  is_row_of run_id none = false
  is_row_of run_id (some row) = row.run_id == run_id

  unfoldable pub no_ack_row : ℕ → RunStateRow V → RunStateRow V
  no_ack_row now_wall row = record row {
    state = state_text no_ack;
    no_ack_at = some now_wall;
    pickup_deadline = none;
  }

  unfoldable pub mark_no_ack :
      Host V → Timer → RunClaim → ℕ → RunStateRow V → ℕ → Channel V → Channel V
  unfolding no_ack_row clear_deadlines update_run_state
  mark_no_ack host t claim run_id row now_wall ch =
      let event = with_logged_at now_wall (
        with_message "no acknowledgement was received"
          (run_event no_ack host.utc_now t claim run_id)) in
      with_db (update_run_state (no_ack_row now_wall row))
        (with_db (enqueue_event event) (clear_deadlines run_id ch))

  unfoldable pub lapse_pickup :
      Host V → Timer → ℕ → ℕ → RunStateRow V → Option RunClaim → Channel V → Bool × Channel V
  unfolding mark_acknowledged mark_no_ack last_acked_sequence
  lapse_pickup host t run_id now_wall row none ch = (false, ch)
  lapse_pickup host t run_id now_wall row (some claim) ch =
      if not (awaits_pickup (run_state row))
      then (false, ch)
      else if leb claim.event_sequence (last_acked_sequence t.id ch.db.acks)
      then (true, mark_acknowledged host t claim row now_wall ch)
      else (true, mark_no_ack host t claim run_id row now_wall ch)

  abbrev pub expire_pickup_row :
      Host V → Timer → ℕ → ℕ → Option (RunStateRow V) → Channel V → Bool × Channel V
  expire_pickup_row host t run_id now_wall none ch = (false, ch)
  expire_pickup_row host t run_id now_wall (some row) ch =
      if not (is_armed row.pickup_deadline) || not (is_row_of run_id (current_run_state t.id ch.db))
      then (false, ch)
      else lapse_pickup host t run_id now_wall row (get_run run_id ch.db.runs) ch

  -- `expire_pickup_one`.
  unfoldable pub expire_pickup_one : Host V → Timer → ℕ → ℕ → Channel V → Bool × Channel V
  unfolding lapse_pickup current_run_state get_run_state
  expire_pickup_one host t run_id now_wall ch =
      expire_pickup_row host t run_id now_wall (get_run_state run_id ch.db.run_states) ch

  unfoldable pub timed_out_row : ℕ → RunStateRow V → RunStateRow V
  timed_out_row now_wall row = record row {
    state = state_text failed;
    failure_kind = some timed_out;
    failed_at = some now_wall;
    watchdog_deadline = none;
  }

  abbrev pub timeout_event : Host V → Timer → RunClaim → ℕ → ℕ → ℕ → Option String → EventRecord V
  timeout_event host t claim run_id now_wall ms source = with_logged_at now_wall (
      with_message "error_detection watchdog expired" (
        with_detail
          (host.json.object (
            (("failure_kind", host.json.text "timed_out") ∷ [])
            ++ entry_of "duration_source" host.json.text source))
          (with_duration_ms ms (run_event failed host.utc_now t claim run_id))))

  abbrev pub logged_timeout :
      Host V → Timer → RunClaim → ℕ → ℕ → ℕ × Option String × Channel V → Channel V
  logged_timeout host t claim run_id now_wall (ms, source, ch) =
      with_db (enqueue_event (timeout_event host t claim run_id now_wall ms source)) ch

  unfoldable pub mark_timed_out :
      Host V → Timer → RunClaim → ℕ → RunStateRow V → ℕ → Channel V → Channel V
  unfolding timed_out_row clear_deadlines duration_ms update_run_state
  mark_timed_out host t claim run_id row now_wall ch =
      with_db (update_run_state (timed_out_row now_wall row)) (
        logged_timeout host t claim run_id now_wall
          (duration_ms host run_id row.fired_at now_wall (clear_deadlines run_id ch)))

  abbrev pub lapse_watchdog :
      Host V → Timer → ℕ → ℕ → RunStateRow V → Option RunClaim → Channel V → Bool × Channel V
  lapse_watchdog host t run_id now_wall row none ch = (false, ch)
  lapse_watchdog host t run_id now_wall row (some claim) ch =
      (true, mark_timed_out host t claim run_id row now_wall ch)

  abbrev pub is_ticking : RunStateRow V → Bool
  is_ticking row =
      is_armed row.watchdog_deadline && not (row_terminal row) && is_true row.error_detection

  abbrev pub expire_watchdog_row :
      Host V → Timer → ℕ → ℕ → Option (RunStateRow V) → Channel V → Bool × Channel V
  expire_watchdog_row host t run_id now_wall none ch = (false, ch)
  expire_watchdog_row host t run_id now_wall (some row) ch =
      if not (is_ticking row) || not (is_row_of run_id (current_run_state t.id ch.db))
      then (false, ch)
      else lapse_watchdog host t run_id now_wall row (get_run run_id ch.db.runs) ch

  -- `expire_watchdog_one`.
  unfoldable pub expire_watchdog_one : Host V → Timer → ℕ → ℕ → Channel V → Bool × Channel V
  unfolding mark_timed_out current_run_state get_run_state
  expire_watchdog_one host t run_id now_wall ch =
      expire_watchdog_row host t run_id now_wall (get_run_state run_id ch.db.run_states) ch

  abbrev pub expire_timer : Expiry V → ℕ → ℕ → Option Timer → Channel V → Bool × Channel V
  expire_timer expire run_id now_wall none ch = (false, clear_deadlines run_id ch)
  expire_timer expire run_id now_wall (some t) ch = expire t run_id now_wall ch

  abbrev pub expire_found : Expiry V → ℕ → ℕ → Option (RunStateRow V) → Channel V → Bool × Channel V
  expire_found expire run_id now_wall none ch = (false, clear_deadlines run_id ch)
  expire_found expire run_id now_wall (some row) ch =
      expire_timer expire run_id now_wall (get_timer row.timer_id ch.db.timers) ch

  -- The loop of `expire_pickups` and `expire_watchdogs`, with the runs that made a transition.
  unfoldable pub expire_each : Expiry V → ℕ → List ℕ → Channel V → List ℕ × Channel V
  unfolding get_run_state get_timer clear_deadlines
  expire_each expire now_wall [] ch = ([], ch)
  expire_each expire now_wall (run_id ∷ due) ch =
      let (moved, ch') =
        expire_found expire run_id now_wall (get_run_state run_id ch.db.run_states) ch in
      let (rest, ch'') = expire_each expire now_wall due ch' in
      (if moved then run_id ∷ rest else rest, ch'')

  unfoldable pub expire_pickups : Host V → ℕ → ℕ → Channel V → List ℕ × Channel V
  unfolding expire_each expire_pickup_one
  expire_pickups host now_wall mono_now ch =
      expire_each (expire_pickup_one host) now_wall (due_deadlines pickup mono_now ch) ch

  unfoldable pub expire_watchdogs : Host V → ℕ → ℕ → Channel V → List ℕ × Channel V
  unfolding expire_each expire_watchdog_one
  expire_watchdogs host now_wall mono_now ch =
      expire_each (expire_watchdog_one host) now_wall (due_deadlines watchdog mono_now ch) ch
