-- ===== src/Reply/Deadlines/Changes.antt =====
-- Every pickup and every lapse is one transaction on a row: crates/bellman-core/src/reply/engine.rs.
use bellman.Common.{
  ℕ, ◌≡◌, inl, refl, sym, ap, ◌∙◌, subst, arith, Bool, true, not, ◌&&◌, ◌||◌, ltb, leb, if_cases,
  Option, none, some, OnSome, Steps, done, and_then,
}
use bellman.Store.Ledger.{RunClaim, get_run}
use bellman.Store.Models.{Timer}
use bellman.Store.RunStates.{
  RunStateRow, run_state, is_armed, get_run_state, current_run_state, update_run_state,
  enqueue_event, last_acked_sequence,
}
use bellman.Store.RunStates.Rows.{get_run_state-run_id, IsFound, current_run_state-IsFound}
use bellman.Reply.Engine.{Host, Channel, clear_deadlines, clear_deadlines_kind, duration_ms}
use bellman.Reply.Apply.Logs.{duration_ms-db}
use bellman.Reply.Deadlines.{
  awaits_pickup, is_no_ack, acknowledged_row, mark_acknowledged, ack_claim, ack_row, on_ack_through,
  is_row_of, mark_no_ack, lapse_pickup, expire_pickup_row, expire_pickup_one, is_ticking,
  timeout_event, timed_out_row, mark_timed_out, lapse_watchdog, expire_watchdog_row,
  expire_watchdog_one,
}
use bellman.Reply.Moves.{
  Move, Change, stays, writes, acknowledges, logs, picks_up, gives_up, times_out,
}

module _ {V : Type 0} where
  abbrev Changed : Channel V → Bool × Channel V → Type 0
  Changed ch (moved, after) = Change ch.db after.db

  mark_acknowledged-Change :
      (host : Host V) (t : Timer) (claim : RunClaim) (row : RunStateRow V) (now : ℕ)
      (ch : Channel V)
      → IsFound ch.db.run_states row
      → awaits_pickup (run_state row) || is_no_ack (run_state row) ≡ true
      → Change ch.db (mark_acknowledged host t claim row now ch).db
  unfolding mark_acknowledged acknowledged_row clear_deadlines_kind
  mark_acknowledged-Change host t claim row now ch found waits =
      if_cases (λ (c : Channel V). Change ch.db (update_run_state (acknowledged_row now row) c.db))
        row.acknowledged_logged
        (λ logged. writes (inl found) (
          subst
            (λ b.
              Steps Move (row, ch.db)
                (record (acknowledged_row now row) { acknowledged_logged = b }, ch.db))
            logged (and_then (picks_up now waits) done)))
        (λ unlogged.
          writes (inl found)
            (and_then (acknowledges _ refl refl unlogged) (and_then (picks_up now waits) done)))

  ack_claim-Change :
      (host : Host V) (t : Timer) (through now : ℕ) (row : RunStateRow V) (claim : Option RunClaim)
      (ch : Channel V)
      → IsFound ch.db.run_states row
      → Changed ch (ack_claim host t through now row claim ch)
  unfolding ack_claim
  ack_claim-Change host t through now row none ch found = stays
  ack_claim-Change host t through now row (some claim) ch found =
      if_cases (Changed ch) (ltb through claim.event_sequence) (λ _. stays)
        λ _.
          if_cases (Changed ch)
            ((is_armed row.pickup_deadline && awaits_pickup (run_state row))
              || is_no_ack (run_state row))
            (λ h. mark_acknowledged-Change host t claim row now ch found (ground (arith, h)))
            (λ _. stays)

  ack_row-Change :
      (host : Host V) (t : Timer) (through now : ℕ) (row : Option (RunStateRow V)) (ch : Channel V)
      → OnSome (IsFound ch.db.run_states) row
      → Changed ch (ack_row host t through now row ch)
  ack_row-Change host t through now none ch found = stays
  ack_row-Change host t through now (some row) ch found =
      ack_claim-Change host t through now row (get_run row.run_id ch.db.runs) ch found

  pub on_ack_through-Change :
      (host : Host V) (t : Timer) (through now : ℕ) (ch : Channel V)
      → Changed ch (on_ack_through host t through now ch)
  unfolding on_ack_through
  on_ack_through-Change host t through now ch =
      ack_row-Change host t through now (current_run_state t.id ch.db) ch
        (current_run_state-IsFound t.id ch.db)

  mark_no_ack-Change :
      (host : Host V) (t : Timer) (claim : RunClaim) (row : RunStateRow V) (now : ℕ)
      (ch : Channel V)
      → IsFound ch.db.run_states row
      → awaits_pickup (run_state row) ≡ true
      → is_armed row.pickup_deadline ≡ true
      → Change ch.db (mark_no_ack host t claim row.run_id row now ch).db
  unfolding mark_no_ack clear_deadlines
  mark_no_ack-Change host t claim row now ch found waits armed =
      writes (inl found) (and_then (logs _ refl refl) (and_then (gives_up now waits armed) done))

  lapse_pickup-Change :
      (host : Host V) (t : Timer) (now : ℕ) (row : RunStateRow V) (claim : Option RunClaim)
      (ch : Channel V)
      → IsFound ch.db.run_states row
      → is_armed row.pickup_deadline ≡ true
      → Changed ch (lapse_pickup host t row.run_id now row claim ch)
  unfolding lapse_pickup
  lapse_pickup-Change host t now row none ch found armed = stays
  lapse_pickup-Change host t now row (some claim) ch found armed =
      if_cases (Changed ch) (not (awaits_pickup (run_state row))) (λ _. stays)
        λ waits.
          if_cases (Changed ch) (leb claim.event_sequence (last_acked_sequence t.id ch.db.acks))
            (λ _. mark_acknowledged-Change host t claim row now ch found (ground (arith, waits)))
            (λ _. mark_no_ack-Change host t claim row now ch found (ground (arith, waits)) armed)

  pickup_row-Change :
      (host : Host V) (t : Timer) (run_id now : ℕ) (found : Option (RunStateRow V)) (ch : Channel V)
      → get_run_state run_id ch.db.run_states ≡ found
      → Changed ch (expire_pickup_row host t run_id now found ch)
  pickup_row-Change host t run_id now none ch found = stays
  pickup_row-Change host t run_id now (some row) ch found =
      let same = get_run_state-run_id run_id ch.db.run_states row found in
      let is_found = ap (λ n. get_run_state n ch.db.run_states) same ∙ found in
      if_cases (Changed ch)
        (not (is_armed row.pickup_deadline)
          || not (is_row_of run_id (current_run_state t.id ch.db)))
        (λ _. stays)
        (λ h.
          subst (λ n. Changed ch (lapse_pickup host t n now row (get_run run_id ch.db.runs) ch))
            same
            (lapse_pickup-Change host t now row (get_run run_id ch.db.runs) ch is_found
              (ground (arith, h))))

  pub expire_pickup_one-Change :
      (host : Host V) (t : Timer) (run_id now : ℕ) (ch : Channel V)
      → Changed ch (expire_pickup_one host t run_id now ch)
  unfolding expire_pickup_one
  expire_pickup_one-Change host t run_id now ch = pickup_row-Change host t run_id now _ ch refl

  mark_timed_out-Change :
      (host : Host V) (t : Timer) (claim : RunClaim) (row : RunStateRow V) (now : ℕ)
      (ch : Channel V)
      → IsFound ch.db.run_states row
      → is_ticking row ≡ true
      → Change ch.db (mark_timed_out host t claim row.run_id row now ch).db
  unfolding mark_timed_out clear_deadlines
  mark_timed_out-Change host t claim row now ch found ticks =
      let cleared = clear_deadlines row.run_id ch in
      let timed = duration_ms host row.run_id row.fired_at now cleared in
      let event = timeout_event host t claim row.run_id now timed.0 timed.1 in
      subst (λ db. Change ch.db (update_run_state (timed_out_row now row) (enqueue_event event db)))
        (sym (duration_ms-db host row.run_id row.fired_at now cleared))
        (writes (inl found) (and_then (logs event refl refl) (and_then (times_out now ticks) done)))

  lapse_watchdog-Change :
      (host : Host V) (t : Timer) (now : ℕ) (row : RunStateRow V) (claim : Option RunClaim)
      (ch : Channel V)
      → IsFound ch.db.run_states row
      → is_ticking row ≡ true
      → Changed ch (lapse_watchdog host t row.run_id now row claim ch)
  lapse_watchdog-Change host t now row none ch found ticks = stays
  lapse_watchdog-Change host t now row (some claim) ch found ticks =
      mark_timed_out-Change host t claim row now ch found ticks

  watchdog_row-Change :
      (host : Host V) (t : Timer) (run_id now : ℕ) (found : Option (RunStateRow V)) (ch : Channel V)
      → get_run_state run_id ch.db.run_states ≡ found
      → Changed ch (expire_watchdog_row host t run_id now found ch)
  watchdog_row-Change host t run_id now none ch found = stays
  watchdog_row-Change host t run_id now (some row) ch found =
      let same = get_run_state-run_id run_id ch.db.run_states row found in
      let is_found = ap (λ n. get_run_state n ch.db.run_states) same ∙ found in
      if_cases (Changed ch)
        (not (is_ticking row) || not (is_row_of run_id (current_run_state t.id ch.db))) (λ _. stays)
        (λ h.
          subst (λ n. Changed ch (lapse_watchdog host t n now row (get_run run_id ch.db.runs) ch))
            same
            (lapse_watchdog-Change host t now row (get_run run_id ch.db.runs) ch is_found
              (ground (arith, h))))

  pub expire_watchdog_one-Change :
      (host : Host V) (t : Timer) (run_id now : ℕ) (ch : Channel V)
      → Changed ch (expire_watchdog_one host t run_id now ch)
  unfolding expire_watchdog_one
  expire_watchdog_one-Change host t run_id now ch = watchdog_row-Change host t run_id now _ ch refl
