-- ===== src/Reply/Lifecycle/Logged.antt =====
-- A run is acknowledged and started at most once in the event log: crates/bellman-core/src/reply/engine.rs.
use mathlib.Core.Option.{some-injective}
use bellman.Common.{
  ℕ, ◌≡◌, ◌≢◌, refl, sym, ap, ◌∙◌, arith, Bool, true, false, ◌&&◌, Option, none, some, List, ◌∷◌,
  count_where, Steps,
}
use bellman.Events.Record.{RunState, EventRecord}
use bellman.Store.RunStates.{RunStateRow, Db, written}
use bellman.Reply.Engine.{Channel}
use bellman.Reply.Lines.{is_acknowledged, is_running}
use bellman.Reply.Deadlines.{no_ack_row, timed_out_row}
use bellman.Reply.Ingest.{names_run}
use bellman.Reply.Moves.{
  Move, acknowledges, starts, logs, digests, reports, picks_up, gives_up, times_out,
}
use bellman.Reply.Lifecycle.{Step}
use bellman.Reply.Lifecycle.Runs.{Has, Stands, Steps-Has}

abbrev pub flag : Bool → ℕ
flag true = 1
flag false = 0

quiet_acknowledged : (k : RunState) → is_acknowledged k ≡ true → is_running k ≡ false
quiet_acknowledged k h = ground arith

quiet_running : (k : RunState) → is_running k ≡ true → is_acknowledged k ≡ false
quiet_running k h = ground arith

names_same : (id : Option ℕ) (n run_id : ℕ) → id ≡ some n → n ≡ run_id → names_run id run_id ≡ true
names_same none n run_id e same = ground (arith, e)
names_same (some m) n run_id e same = let h : m ≡ n = some-injective _ _ e in ground arith

names_other : (id : Option ℕ) (run_id : ℕ) → id ≢ some run_id → names_run id run_id ≡ false
names_other none run_id ne = refl
names_other (some m) run_id ne = ground (arith, λ (e : m ≡ run_id). ne (ap (λ n. some n) e))

module _ {V : Type 0} where
  -- A line of a kind about a run.
  abbrev pub is_line : (RunState → Bool) → ℕ → EventRecord V → Bool
  is_line kind run_id e = kind e.kind && names_run e.run_id run_id

  unfoldable pub count_lines : (RunState → Bool) → ℕ → List (EventRecord V) → ℕ
  unfolding count_where
  count_lines kind run_id outbox = count_where (is_line kind run_id) outbox

  -- The log has as many of the two lines as the row remembers.
  abbrev pub IsLogged : ℕ → RunStateRow V → List (EventRecord V) → Type 0
  IsLogged run_id row outbox =
      (count_lines is_acknowledged run_id outbox ≡ flag row.acknowledged_logged)
      × (count_lines is_running run_id outbox ≡ flag row.running_logged)

  Move-IsLogged :
      (run_id : ℕ) (s s' : RunStateRow V × Db V)
      → Move s s'
      → s.0.run_id ≡ run_id
      → IsLogged run_id s.0 s.1.outbox
      → IsLogged run_id s'.0 s'.1.outbox
  unfolding count_lines count_where no_ack_row timed_out_row
  Move-IsLogged run_id s s' (acknowledges e kind own unlogged) at h =
      let names = names_same e.run_id _ run_id own at in
      let quiet = quiet_acknowledged e.kind kind in
      (ground (arith, h, names, kind, unlogged), ground (arith, h, quiet))
  Move-IsLogged run_id s s' (starts e kind own unlogged) at h =
      let names = names_same e.run_id _ run_id own at in
      let quiet = quiet_running e.kind kind in
      (ground (arith, h, quiet), ground (arith, h, names, kind, unlogged))
  Move-IsLogged run_id s s' (logs e quiet own) at h =
      (ground (arith, h, quiet), ground (arith, h, quiet))
  Move-IsLogged run_id s s' (digests digest) at h = h
  Move-IsLogged run_id s s' (reports new_state r) at h =
      (h.0 ∙ ap flag (sym r.same_acknowledged), h.1 ∙ ap flag (sym r.same_running))
  Move-IsLogged run_id s s' (picks_up now waits) at h = h
  Move-IsLogged run_id s s' (gives_up now waits armed) at h = h
  Move-IsLogged run_id s s' (times_out now ticks) at h = h

  other-IsLogged :
      (run_id : ℕ) (row : RunStateRow V) (e : EventRecord V) (outbox : List (EventRecord V))
      → e.run_id ≢ some run_id
      → IsLogged run_id row outbox
      → IsLogged run_id row (e ∷ outbox)
  unfolding count_lines count_where
  other-IsLogged run_id row e outbox ne h =
      let other = names_other e.run_id run_id ne in
      (ground (arith, h, other), ground (arith, h, other))

  IsLogged-stands : (run_id : ℕ) → Stands run_id (IsLogged run_id)
  unfolding written
  IsLogged-stands run_id = record {
    own = Move-IsLogged run_id;
    others = other-IsLogged run_id;
    stored = λ row old outbox h. h;
  }

  -- For a run that has a row, the event log has at most one acknowledged and one running line, and has each
  -- exactly when the row remembers it, if that was so before, however often the application replies,
  -- heartbeats or is picked up, and whatever happens to other runs. A run without a row is not covered.
  pub Steps-IsLogged :
      (run_id : ℕ) (ch after : Channel V)
      → Steps Step ch after
      → Has run_id (IsLogged run_id) ch.db
      → Has run_id (IsLogged run_id) after.db
  Steps-IsLogged run_id ch after steps has =
      Steps-Has run_id (IsLogged run_id) (IsLogged-stands run_id) ch after steps has
