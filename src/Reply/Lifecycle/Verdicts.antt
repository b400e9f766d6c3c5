-- ===== src/Reply/Lifecycle/Verdicts.antt =====
-- A verdict of the application stands: crates/bellman-core/src/reply/engine.rs.
use bellman.Common.{ℕ, ◌≡◌, ap, ◌∙◌, arith, true, false, ◌||◌, Option, some, Steps}
use bellman.Events.Record.{RunState, from_wire, is_app_writable}
use bellman.Events.Record.Wire.{reads_back}
use bellman.Store.RunStates.{
  RunStateRow, Db, FailureKind, run_state, terminal_state, verdict_of_app, is_app_authored_terminal,
  is_reported, written,
}
use bellman.Reply.Engine.{Channel}
use bellman.Reply.Lines.{is_acknowledged, is_running, is_failed}
use bellman.Reply.Deadlines.{awaits_pickup, is_no_ack, is_ticking}
use bellman.Reply.Moves.{
  Move, IsReport, acknowledges, starts, logs, digests, reports, picks_up, gives_up, times_out,
}
use bellman.Reply.Lifecycle.{Step}
use bellman.Reply.Lifecycle.Runs.{Has, Stands, Steps-Has}

-- A report that does not regress is again a verdict.
verdict_again :
    (s : RunState) (kind : Option FailureKind)
    → is_app_writable s ≡ true
    → (is_acknowledged s || is_running s) ≡ false
    → (is_failed s ≡ true → is_reported kind ≡ true)
    → verdict_of_app (some s) kind ≡ true
verdict_again s kind writable forward by_app = ground arith

awaited_verdict :
    (s : Option RunState) (kind : Option FailureKind)
    → awaits_pickup s || is_no_ack s ≡ true
    → verdict_of_app s kind ≡ true
    → ⊥
awaited_verdict s kind waits h = ground arith

verdict_ended :
    (s : Option RunState) (kind : Option FailureKind)
    → verdict_of_app s kind ≡ true
    → terminal_state s ≡ true
verdict_ended s kind h = ground arith

module _ {V : Type 0} where
  abbrev pub IsVerdict : RunStateRow V → Type 0
  IsVerdict row = is_app_authored_terminal row ≡ true

  report-IsVerdict :
      (s : RunState) (old new : RunStateRow V) → IsReport s old new → IsVerdict old → IsVerdict new
  report-IsVerdict s old new r h =
      let state : run_state new ≡ some s = ap from_wire r.in_state ∙ reads_back s in
      let forward = r.forward in
      ap (λ st. verdict_of_app st new.failure_kind) state
      ∙ verdict_again s new.failure_kind r.writable (ground (arith, h, forward)) r.by_app

  ticking_open :
      (row : RunStateRow V) → is_ticking row ≡ true → terminal_state (run_state row) ≡ false
  ticking_open row h = ground (arith, h)

  Move-IsVerdict : (s s' : RunStateRow V × Db V) → Move s s' → IsVerdict s.0 → IsVerdict s'.0
  Move-IsVerdict s s' (acknowledges e kind own unlogged) h = h
  Move-IsVerdict s s' (starts e kind own unlogged) h = h
  Move-IsVerdict s s' (logs e kind own) h = h
  Move-IsVerdict s s' (digests digest) h = h
  Move-IsVerdict s s' (reports new_state r) h = report-IsVerdict new_state _ _ r h
  Move-IsVerdict s s' (picks_up now waits) h =
      absurd (awaited_verdict (run_state s.0) s.0.failure_kind waits h)
  Move-IsVerdict s s' (gives_up now waits armed) h =
      absurd (awaited_verdict (run_state s.0) s.0.failure_kind (ground (arith, waits)) h)
  Move-IsVerdict s s' (times_out now ticks) h =
      let ended = verdict_ended (run_state s.0) s.0.failure_kind h in
      let still = ticking_open s.0 ticks in absurd (ground (arith, ended, still))

  IsVerdict-stands : (run_id : ℕ) → Stands run_id (λ (row : RunStateRow V) outbox. IsVerdict row)
  unfolding written
  IsVerdict-stands run_id = record {
    own = λ s s' move own h. Move-IsVerdict s s' move h;
    others = λ row e outbox ne h. h;
    stored = λ row old outbox h. h;
  }

  -- Once the application has reported that a run is completed or failed, the row of the run says so from then
  -- on, whatever replies, pickups and lapsed deadlines follow, of this run and of others.
  pub Steps-IsVerdict :
      (run_id : ℕ) (ch after : Channel V)
      → Steps Step ch after
      → Has run_id (λ row outbox. IsVerdict row) ch.db
      → Has run_id (λ row outbox. IsVerdict row) after.db
  Steps-IsVerdict run_id ch after steps has =
      Steps-Has run_id (λ (row : RunStateRow V) outbox. IsVerdict row) (IsVerdict-stands run_id) ch
        after steps has
