-- ===== src/Reply/Moves.antt =====
-- The moves of a lifecycle row, for the proofs about crates/bellman-core/src/reply/engine.rs.
use bellman.Common.{
  ℕ, ◌≡◌, ◌⊎◌, true, false, ◌||◌, Option, none, some, String, Steps, Steps-invariant, refl, ◌∙◌,
}
use bellman.Events.Record.{
  RunState, EventRecord, is_app_writable, is_terminal, state_text, from_wire, acknowledged, fired,
}
use bellman.Store.RunStates.{
  RunStateRow, Db, run_state, is_armed, is_reported, get_run_state, update_run_state, enqueue_event,
  fired_row, insert_run_state,
}
use bellman.Reply.Apply.{is_true}
use bellman.Reply.Lines.{is_acknowledged, is_running, is_failed}
use bellman.Reply.Ingest.{regresses}
use bellman.Reply.Deadlines.{awaits_pickup, is_no_ack, no_ack_row, timed_out_row, is_ticking}

module _ {V : Type 0} where
  -- What a reply makes of a row.
  pub record IsReport (new_state : RunState) (old new : RunStateRow V) : Type 0 where
    pub writable : is_app_writable new_state ≡ true
    pub forward : regresses new_state old ≡ false
    pub same_run : new.run_id ≡ old.run_id
    pub same_acknowledged : new.acknowledged_logged ≡ old.acknowledged_logged
    pub same_running : new.running_logged ≡ old.running_logged
    pub in_state : new.state ≡ state_text new_state
    pub no_pickup : new.pickup_deadline ≡ none
    pub disarmed : is_terminal new_state ≡ true → new.watchdog_deadline ≡ none
    pub opted_in :
        (is_armed old.watchdog_deadline ≡ true → is_true old.error_detection ≡ true)
        → is_armed new.watchdog_deadline ≡ true
        → is_true new.error_detection ≡ true
    pub by_app : is_failed new_state ≡ true → is_reported new.failure_kind ≡ true

  -- One part of a transaction, on the row in memory and the tables.
  pub data Move : RunStateRow V × Db V → RunStateRow V × Db V → Type 0 where
    acknowledges :
        {row : RunStateRow V} {db : Db V} (e : EventRecord V)
        → is_acknowledged e.kind ≡ true
        → e.run_id ≡ some row.run_id
        → row.acknowledged_logged ≡ false
        → Move (row, db) (record row { acknowledged_logged = true }, enqueue_event e db)
    starts :
        {row : RunStateRow V} {db : Db V} (e : EventRecord V)
        → is_running e.kind ≡ true
        → e.run_id ≡ some row.run_id
        → row.running_logged ≡ false
        → Move (row, db) (record row { running_logged = true }, enqueue_event e db)
    logs :
        {row : RunStateRow V} {db : Db V} (e : EventRecord V)
        → is_acknowledged e.kind || is_running e.kind ≡ false
        → e.run_id ≡ some row.run_id
        → Move (row, db) (row, enqueue_event e db)
    digests :
        {row : RunStateRow V} {db : Db V} (digest : String)
        → Move (row, db) (record row { reply_digest = some digest }, db)
    reports :
        {row new : RunStateRow V} {db : Db V} (new_state : RunState)
        → IsReport new_state row new
        → Move (row, db) (new, db)
    picks_up :
        {row : RunStateRow V} {db : Db V} (now : ℕ)
        → awaits_pickup (run_state row) || is_no_ack (run_state row) ≡ true
        → Move
            (row, db)
            (
              record row {
                state = state_text acknowledged;
                acknowledged_at = some now;
                pickup_deadline = none;
              },
              db,
            )
    gives_up :
        {row : RunStateRow V} {db : Db V} (now : ℕ)
        → awaits_pickup (run_state row) ≡ true
        → is_armed row.pickup_deadline ≡ true
        → Move (row, db) (no_ack_row now row, db)
    times_out :
        {row : RunStateRow V} {db : Db V} (now : ℕ)
        → is_ticking row ≡ true
        → Move (row, db) (timed_out_row now row, db)

  -- The row of a run, or a new one where the run has none.
  abbrev pub IsRow : RunStateRow V → Db V → Type 0
  IsRow row db =
      (get_run_state row.run_id db.run_states ≡ some row)
      ⊎ ((get_run_state row.run_id db.run_states ≡ none)
          × (timer_id fired_at now : ℕ) × (app_name : String) × (row
              ≡ fired_row row.run_id timer_id app_name (state_text fired) fired_at now))

  -- The row that a fire inserts.
  abbrev pub IsFired : RunStateRow V → Type 0
  IsFired row =
      (timer_id fired_at deadline : ℕ) × (app_name state : String) × (transport : Option String)
      × (row ≡ record (fired_row row.run_id timer_id app_name state fired_at deadline) {
        selected_transport = transport;
        transport = transport;
      })
      × (awaits_pickup (from_wire state) ≡ true)

  -- A transaction: the row of a fire, nothing, the write of a row after its moves, or a line for a run without a row.
  pub data Change : Db V → Db V → Type 0 where
    inserts :
        {db : Db V} (row : RunStateRow V)
        → get_run_state row.run_id db.run_states ≡ none
        → IsFired row
        → Change db (insert_run_state row db)
    stays : {db : Db V} → Change db db
    writes :
        {db after : Db V} {row new : RunStateRow V}
        → IsRow row db
        → Steps Move (row, db) (new, after)
        → Change db (update_run_state new after)
    notes :
        {db : Db V} (e : EventRecord V) (run_id : ℕ)
        → get_run_state run_id db.run_states ≡ none
        → e.run_id ≡ some run_id
        → Change db (enqueue_event e db)

  -- Moves leave the tables of rows and of runs alone, and keep the run.
  Move-kept :
      (s s' : RunStateRow V × Db V)
      → Move s s'
      → (s'.1.run_states ≡ s.1.run_states) × (s'.0.run_id ≡ s.0.run_id) × (s'.1.runs ≡ s.1.runs)
  unfolding no_ack_row timed_out_row
  Move-kept s s' (acknowledges e kind own unlogged) = (refl, refl, refl)
  Move-kept s s' (starts e kind own unlogged) = (refl, refl, refl)
  Move-kept s s' (logs e kind own) = (refl, refl, refl)
  Move-kept s s' (digests digest) = (refl, refl, refl)
  Move-kept s s' (reports new_state r) = (refl, r.same_run, refl)
  Move-kept s s' (picks_up now waits) = (refl, refl, refl)
  Move-kept s s' (gives_up now waits armed) = (refl, refl, refl)
  Move-kept s s' (times_out now ticks) = (refl, refl, refl)

  Moves-kept :
      (row new : RunStateRow V) (db after : Db V)
      → Steps Move (row, db) (new, after)
      → (after.run_states ≡ db.run_states) × (new.run_id ≡ row.run_id) × (after.runs ≡ db.runs)
  Moves-kept row new db after moves =
      Steps-invariant
        {P = λ (s : RunStateRow V × Db V).
          (s.1.run_states ≡ db.run_states) × (s.0.run_id ≡ row.run_id) × (s.1.runs ≡ db.runs)}
        (λ s s' move h. let k = Move-kept s s' move in (k.0 ∙ h.0, k.1 ∙ h.1, k.2 ∙ h.2)) moves
        (refl, refl, refl)

  pub Moves-run_states :
      {row new : RunStateRow V} {db after : Db V}
      → Steps Move (row, db) (new, after)
      → after.run_states ≡ db.run_states
  Moves-run_states moves = (Moves-kept _ _ _ _ moves).0

  pub Moves-run_id :
      {row new : RunStateRow V} {db after : Db V}
      → Steps Move (row, db) (new, after)
      → new.run_id ≡ row.run_id
  Moves-run_id moves = (Moves-kept _ _ _ _ moves).1

  -- A transaction leaves the claims alone.
  pub Change-runs : (db after : Db V) → Change db after → after.runs ≡ db.runs
  unfolding update_run_state
  Change-runs db after (inserts row fresh is_fired) = refl
  Change-runs db after stays = refl
  Change-runs db after (writes is_row moves) = (Moves-kept _ _ _ _ moves).2
  Change-runs db after (notes e run_id none_found own) = refl
