-- ===== src/Reply/Lifecycle/Coherent.antt =====
-- The states and the deadlines of rows agree: crates/bellman-core/src/reply/engine.rs.
use bellman.Common.{
  ℕ, ◌≡◌, inl, inr, refl, sym, ap, ◌∙◌, subst, arith, Bool, true, false, ◌==◌, if_cases, Option,
  none, some, List, [], ◌∷◌, All, Steps, Steps-invariant, update_where,
}
use bellman.Events.Record.{RunState, from_wire, acknowledged}
use bellman.Events.Record.Wire.{reads_back}
use bellman.Store.RunStates.{
  RunStateRow, Db, run_state, terminal_state, is_armed, fired_row, written, update_run_state,
}
use bellman.Store.RunStates.Rows.{All-get_run_state}
use bellman.Reply.Apply.{is_true}
use bellman.Reply.Deadlines.{awaits_pickup, is_ticking, no_ack_row, timed_out_row}
use bellman.Reply.Moves.{
  Move, IsReport, Change, IsRow, acknowledges, starts, logs, digests, reports, picks_up, gives_up,
  times_out, inserts, stays, writes, notes, Moves-run_states,
}
use bellman.Reply.Engine.{Channel}
use bellman.Reply.Lifecycle.{Step, Step-Change}

-- A run that is over has no deadline; a pickup is awaited only before the first sign of the application, and
-- without a watchdog; a watchdog runs only for an application that asked for it.
abbrev pub Agrees : Option RunState → Option ℕ → Option ℕ → Option Bool → Type 0
Agrees state pickup watchdog detection =
    (terminal_state state ≡ true → (pickup ≡ none) × (watchdog ≡ none))
    × (is_armed pickup ≡ true → (awaits_pickup state ≡ true) × (watchdog ≡ none))
    × (is_armed watchdog ≡ true → is_true detection ≡ true)

unarmed : (o : Option ℕ) → (is_armed o ≡ true → ⊥) → o ≡ none
unarmed none h = refl
unarmed (some t) h = absurd (h refl)

differs : false ≡ true → ⊥
differs h = ground arith

awaited_open : (s : Option RunState) → awaits_pickup s ≡ true → terminal_state s ≡ true → ⊥
awaited_open s waits ended = ground arith

fired-Agrees :
    (state : Option RunState) (deadline : ℕ)
    → awaits_pickup state ≡ true
    → Agrees state (some deadline) none none
fired-Agrees state deadline waits = (
  λ ended. absurd (awaited_open state waits ended),
  λ armed. (waits, refl),
  λ watched. absurd (differs watched),
)

module _ {V : Type 0} where
  ticking : (row : RunStateRow V) → is_ticking row ≡ true → is_armed row.watchdog_deadline ≡ true
  ticking row h = ground (arith, h)

  abbrev pub IsCoherent : RunStateRow V → Type 0
  IsCoherent row =
      Agrees (run_state row) row.pickup_deadline row.watchdog_deadline row.error_detection

  report-IsCoherent :
      (s : RunState) (old new : RunStateRow V)
      → IsReport s old new
      → IsCoherent old
      → IsCoherent new
  report-IsCoherent s old new r h =
      let state : run_state new ≡ some s = ap from_wire r.in_state ∙ reads_back s in
      (
        λ ended. (r.no_pickup, r.disarmed (ap terminal_state (sym state) ∙ ended)),
        λ armed.
            absurd (let e : false ≡ true = ap is_armed (sym r.no_pickup) ∙ armed in ground arith),
        r.opted_in h.2,
      )

  Move-IsCoherent : (s s' : RunStateRow V × Db V) → Move s s' → IsCoherent s.0 → IsCoherent s'.0
  unfolding no_ack_row timed_out_row
  Move-IsCoherent s s' (acknowledges e kind own unlogged) h = h
  Move-IsCoherent s s' (starts e kind own unlogged) h = h
  Move-IsCoherent s s' (logs e kind own) h = h
  Move-IsCoherent s s' (digests digest) h = h
  Move-IsCoherent s s' (reports new_state r) h = report-IsCoherent new_state _ _ r h
  Move-IsCoherent s s' (picks_up now waits) h = (
    λ ended. absurd (differs (ap terminal_state (sym (reads_back acknowledged)) ∙ ended)),
    λ armed. absurd (differs armed),
    h.2,
  )
  Move-IsCoherent s s' (gives_up now waits armed) h =
      let unwatched = (h.1 armed).1 in
      (
        λ ended. (refl, unwatched),
        λ awaited. absurd (differs awaited),
        λ watched. absurd (differs (ap is_armed (sym unwatched) ∙ watched)),
      )
  Move-IsCoherent s s' (times_out now ticks) h =
      let unawaited : (is_armed _ ≡ true → ⊥) =
        λ awaited. differs (ap is_armed (sym (h.1 awaited).1) ∙ ticking s.0 ticks) in
      (
        λ ended. (unarmed s.0.pickup_deadline unawaited, refl),
        λ awaited. absurd (unawaited awaited),
        λ watched. absurd (differs watched),
      )

  All-written :
      (new : RunStateRow V) (rows : List (RunStateRow V))
      → IsCoherent new
      → All IsCoherent rows
      → All IsCoherent (update_where (λ r. r.run_id == new.run_id) (written new) rows)
  unfolding update_where written
  All-written new [] h all = tt
  All-written new (r ∷ rows) h all = (
    if_cases IsCoherent (r.run_id == new.run_id) (λ _. h) (λ _. all.0),
    All-written new rows h all.1,
  )

  row-IsCoherent :
      (row : RunStateRow V) (db : Db V)
      → All IsCoherent db.run_states
      → IsRow row db
      → IsCoherent row
  unfolding fired_row
  row-IsCoherent row db all (inl found) =
      All-get_run_state IsCoherent row.run_id db.run_states row all found
  row-IsCoherent row db all (inr (none_found, timer_id, fired_at, now, app_name, same)) =
      subst IsCoherent (sym same)
        (fired-Agrees _ now (ap awaits_pickup (reads_back RunState.fired)))

  Change-IsCoherent :
      (db after : Db V)
      → Change db after
      → All IsCoherent db.run_states
      → All IsCoherent after.run_states
  unfolding update_run_state fired_row
  Change-IsCoherent db after
        (inserts row fresh (timer_id, fired_at, deadline, app_name, state, transport, same, waits))
        all =
      (subst IsCoherent (sym same) (fired-Agrees (from_wire state) deadline waits), all)
  Change-IsCoherent db after stays all = all
  Change-IsCoherent db after (writes {after = mid} {row = row} {new = new} is_row moves) all =
      All-written new mid.run_states
        (Steps-invariant {P = λ (s : RunStateRow V × Db V). IsCoherent s.0} Move-IsCoherent moves
          (row-IsCoherent row db all is_row))
        (subst (λ rows. All IsCoherent rows) (sym (Moves-run_states moves)) all)
  Change-IsCoherent db after (notes e run_id none_found own) all = all

  -- Over any calls of the engine, the state and the deadlines of every row agree: a run that is completed,
  -- failed, unacknowledged, cancelled or superseded has no deadline, the pickup is awaited only in a fired
  -- state and never beside a watchdog, and a watchdog is armed only with `error_detection`.
  pub Steps-IsCoherent :
      (ch after : Channel V)
      → Steps Step ch after
      → All IsCoherent ch.db.run_states
      → All IsCoherent after.db.run_states
  Steps-IsCoherent ch after steps all =
      Steps-invariant {P = λ (c : Channel V). All IsCoherent c.db.run_states}
        (λ s t step all. Change-IsCoherent s.db t.db (Step-Change s t step) all) steps all
