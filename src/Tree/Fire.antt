-- ===== src/Tree/Fire.antt =====
-- The fire of a timer: `project_fire` of crates/bellman-core/src/tree/mod.rs under the gate of the timer, without
-- the files of its folder and the attempt to publish that follow the commit.
pub mod Closed
pub mod Returns
pub mod Supersedes
mod Examples
use bellman.Common.{
  ℕ, ◌-◌, ◌*◌, ◌/◌, Bool, true, false, not, Option, none, some, List, [], ◌∷◌, ◌++◌, String, Call,
  returned, ◌>>=◌,
}
use bellman.Common.Results.{Result, ok, err}
use bellman.Occurrence.Chrono.{second}
use bellman.Scheduler.State.{FireKind, on_time, late, coalesced, catch_up_step}
use bellman.Events.Record.{
  RunState, EventRecord, superseded, reply_rejected, state_text, new_event, with_timer, with_run,
  with_scheduled_for, with_message, with_duration_ms, with_count,
}
use bellman.Store.Ledger.{
  RunClaim, Ledger, RunOutcome, wake_delivered, wake_failed, skipped_misfire, is_unfinished,
  runs_for_timer, claim_run,
}
use bellman.Store.Models.{Timer}
use bellman.Store.RunStates.{
  RunStateRow, Db, fired_row, row_terminal, get_run_state, update_run_state, insert_run_state,
  enqueue_event,
}
use bellman.Store.Transport.{
  Transport, TransportProjection, next_publication_order, insert_transport_projection,
}
use bellman.Reply.Document.{ReplyDocument, rejection_text}
use bellman.Reply.Engine.{Host, Channel, with_db, add_wall, span_or, register_fire, clear_deadlines}
use bellman.Reply.Lines.{run_event}
use bellman.Reply.Ingest.{IngestOutcome, applied, duplicate, rejected, ingest_as_current}
use bellman.Reply.Publication.{Publisher, select_transport, transport_text, new_projection}
use bellman.Tree.Overlap.{Event, FireTx, apply_overlap_disposition}

-- What `barrier_read` found in the reply file of the run before.
pub data BarrierRead (V : Type 0) : Type 0 where
  valid : ReplyDocument V → String → BarrierRead V
  rejected_on_sight unreadable : BarrierRead V

-- The errors of the transaction: `AlreadyClaimed`, and `Internal` of a projection.
pub data FireError : Type 0 where
  already_claimed unserialized : FireError

-- What a call gets or reads from outside: the folder and the owner of the timer, the reply file, a new run id, and
-- the clocks.
pub record Firing (V : Type 0) : Type 0 where
  pub owner : Option String
  pub folder : String
  pub barrier : BarrierRead V
  pub run_id : ℕ
  pub claimed_at : ℕ
  pub scheduled_for : ℕ
  pub kind : FireKind
  pub now : ℕ
  pub mono : ℕ

pub record FireState (V : Type 0) : Type 0 where
  pub channel : Channel V
  pub transport : Transport

unfoldable pub fire_state : FireKind → String
fire_state on_time = state_text RunState.fired
fire_state (catch_up_step index) = state_text RunState.fired
fire_state (late now slot) = state_text RunState.fired_late
fire_state (coalesced missed) = state_text RunState.coalesced

-- The last run of a list.
unfoldable pub last_claim : List RunClaim → Option RunClaim
last_claim [] = none
last_claim (c ∷ claims) = elim (last_claim claims) [ none ↦ some c | some d ↦ some d ]

abbrev pub previous_run : Timer → Ledger → Option RunClaim
previous_run t rows = last_claim (runs_for_timer t.id rows)

abbrev pub outcome_state : RunOutcome → RunState
outcome_state wake_delivered = RunState.wake_delivered
outcome_state wake_failed = RunState.wake_failed
outcome_state skipped_misfire = RunState.skipped_misfire

abbrev pub catch_up : String
catch_up = "catch_up"

abbrev pub superseded_message : String
superseded_message = "superseded by a new firing while still unresolved"

module _ {V : Type 0} where
  -- `fire_event`; a late fire is not before its slot.
  unfoldable pub fire_event : ℕ → FireKind → Timer → RunClaim → EventRecord V
  fire_event now on_time t claim = run_event RunState.fired now t claim claim.run_id
  fire_event now (late at slot) t claim =
      with_duration_ms ((at - slot) / 1000000)
        (run_event RunState.fired_late now t claim claim.run_id)
  fire_event now (coalesced missed) t claim =
      with_count missed (run_event RunState.coalesced now t claim claim.run_id)
  fire_event now (catch_up_step index) t claim =
      with_message catch_up (with_count index (run_event RunState.fired now t claim claim.run_id))

  -- The records of the events of `apply_overlap_disposition`.
  unfoldable pub overlap_events : ℕ → Timer → List Event → List (EventRecord V)
  overlap_events now t [] = []
  overlap_events now t (e ∷ events) =
      with_message e.message (
        with_scheduled_for e.scheduled_for
          (with_run e.run_id (with_timer t.id t.name (new_event (outcome_state e.state) now))))
      ∷ overlap_events now t events

  -- `log_rejection`.
  abbrev pub log_rejection : Host V → Timer → ℕ → String → Db V → Db V
  log_rejection host t run_id reason db =
      enqueue_event
        (with_run run_id
          (with_message reason (with_timer t.id t.name (new_event reply_rejected host.utc_now))))
        db

  abbrev pub log_outcome : Host V → Timer → ℕ → IngestOutcome → Db V → Db V
  log_outcome host t run_id (rejected why) db = log_rejection host t run_id (rejection_text why) db
  log_outcome host t run_id applied db = db
  log_outcome host t run_id duplicate db = db
  log_outcome host t run_id IngestOutcome.superseded db = db

  -- The reply of the run before is folded in first.
  unfoldable pub ingest_barrier :
      Host V → Timer → Firing V → BarrierRead V → Option RunClaim → Channel V → Call (Channel V)
  ingest_barrier host t f (valid doc digest) (some prev) ch =
      ingest_as_current host t doc digest prev.run_id f.now f.mono ch >>= λ (outcome, ch').
      returned (with_db (log_outcome host t prev.run_id outcome) ch')
  ingest_barrier host t f (valid doc digest) none ch = returned ch
  ingest_barrier host t f rejected_on_sight prev ch = returned ch
  ingest_barrier host t f unreadable prev ch = returned ch

  abbrev pub is_unresolved : Option String → RunClaim → Option (RunStateRow V) → Bool
  is_unresolved owner prev (some row) = not (row_terminal row)
  is_unresolved (some app_name) prev none = true
  is_unresolved none prev none = is_unfinished prev

  unfoldable pub superseded_row : RunStateRow V → RunStateRow V
  superseded_row row = record row {
    state = state_text superseded;
    pickup_deadline = none;
    watchdog_deadline = none;
  }

  abbrev pub close_row : Option (RunStateRow V) → Db V → Db V
  close_row none db = db
  close_row (some row) db = update_run_state (superseded_row row) db

  abbrev pub superseded_event : Host V → Timer → RunClaim → EventRecord V
  superseded_event host t prev =
      with_message superseded_message (run_event superseded host.utc_now t prev prev.run_id)

  abbrev pub supersede_if : Host V → Timer → RunClaim → Bool → Db V → Option ℕ × Db V
  supersede_if host t prev false db = (none, db)
  supersede_if host t prev true db = (
    some prev.run_id,
    close_row (get_run_state prev.run_id db.run_states)
        (enqueue_event (superseded_event host t prev) db),
  )

  -- The run before is superseded if it is unresolved after the barrier; its id if so.
  unfoldable pub supersede :
      Host V → Timer → Option String → Option RunClaim → Db V → Option ℕ × Db V
  unfolding superseded_row
  supersede host t owner none db = (none, db)
  supersede host t owner (some prev) db =
      supersede_if host t prev (is_unresolved owner prev (get_run_state prev.run_id db.run_states))
        db

  -- The event of the fire comes before those of the disposition.
  unfoldable pub disposed : Host V → Timer → Firing V → RunClaim × Ledger → Db V → RunClaim × Db V
  unfolding fire_event overlap_events
  disposed host t f (claim, rows) db =
      let (claim', tx) =
        apply_overlap_disposition t.overlap f.claimed_at claim
          (record { rows = rows; outbox = [] }) in
      (
        claim',
        record db {
          runs = tx.rows;
          outbox =
              overlap_events host.utc_now t tx.outbox
              ++ (fire_event host.utc_now f.kind t claim ∷ db.outbox);
        },
      )

  -- The row of an owned run.
  unfoldable pub new_row : Publisher → Timer → Firing V → RunClaim → String → ℕ → RunStateRow V
  new_row via t f claim app_name deadline =
      let selected = some (transport_text (select_transport via t)) in
      record (fired_row claim.run_id t.id app_name (fire_state f.kind) claim.claimed_at deadline) {
        selected_transport = selected;
        transport = selected;
      }

  abbrev pub routed : Option TransportProjection → Db V → Transport → Option (Db V × Transport)
  routed none db tr = none
  routed (some projection) db tr = some (db, insert_transport_projection projection tr)

  -- The row and the projection of an owned run.
  unfoldable pub record_owned :
      Host V
      → Publisher
      → Timer
      → Firing V
      → RunClaim
      → Option String
      → Db V
      → Transport
      → Call (Option (Db V × Transport))
  unfolding new_row
  record_owned host via t f claim none db tr = returned (some (db, tr))
  record_owned host via t f claim (some app_name) db tr =
      add_wall host.chrono f.now (span_or host.pickup_grace (60 * second)) >>= λ deadline.
      returned (
        routed
          (new_projection via t claim (fire_state f.kind) f.folder app_name
            (next_publication_order tr) f.now (select_transport via t))
          (insert_run_state (new_row via t f claim app_name deadline) db) tr)

  abbrev pub clear_previous : Option ℕ → Channel V → Channel V
  clear_previous none ch = ch
  clear_previous (some run_id) ch = clear_deadlines run_id ch

  -- After the commit: the deadline of the new run, and those of the superseded one.
  unfoldable pub start_deadlines :
      Host V → Option String → ℕ → ℕ → Option ℕ → Channel V → Call (Channel V)
  start_deadlines host none run_id now closed ch = returned (clear_previous closed ch)
  start_deadlines host (some app_name) run_id now closed ch =
      register_fire host run_id now ch >>= λ ch'. returned (clear_previous closed ch')

  -- A transaction that ends with an error is dropped: the tables are those at its start, while the registries in
  -- memory keep what was done to them.
  abbrev pub roll_back :
      FireState V
      → Result FireError RunClaim × FireState V
      → Result FireError RunClaim × FireState V
  roll_back start (ok claim, s) = (ok claim, s)
  roll_back start (err e, s) = (
    err e,
    record s { channel = record s.channel { db = start.channel.db }; transport = start.transport },
  )

  -- The end of the transaction, and what follows its commit.
  unfoldable pub commit :
      Host V
      → Firing V
      → Transport
      → Channel V
      → Option ℕ
      → RunClaim
      → Option (Db V × Transport)
      → Call (Result FireError RunClaim × FireState V)
  unfolding start_deadlines
  commit host f tr ch closed claim none =
      returned (err unserialized, record { channel = ch; transport = tr })
  commit host f tr ch closed claim (some (db, tr')) =
      start_deadlines host f.owner claim.run_id f.now closed (record ch { db = db }) >>= λ ch'.
      returned (ok claim, record { channel = ch'; transport = tr' })

  unfoldable pub fire_claimed :
      Host V
      → Publisher
      → Timer
      → Firing V
      → Transport
      → Channel V
      → Option ℕ × Db V
      → Option (RunClaim × Ledger)
      → Call (Result FireError RunClaim × FireState V)
  unfolding disposed record_owned commit
  fire_claimed host via t f tr ch (closed, db) none =
      returned (err already_claimed, record { channel = record ch { db = db }; transport = tr })
  fire_claimed host via t f tr ch (closed, db) (some claimed) =
      let (claim, db') = disposed host t f claimed db in
      record_owned host via t f claim f.owner db' tr
      >>= commit host f tr (record ch { db = db' }) closed claim

  -- `project_fire`.
  unfoldable pub project_fire :
      Host V
      → Publisher
      → Timer
      → Firing V
      → FireState V
      → Call (Result FireError RunClaim × FireState V)
  unfolding ingest_barrier supersede fire_claimed
  project_fire host via t f s =
      let prev = previous_run t s.channel.db.runs in
      (ingest_barrier host t f f.barrier prev s.channel >>= λ ch.
      fire_claimed host via t f s.transport ch (supersede host t f.owner prev ch.db)
        (claim_run f.run_id f.claimed_at t.id f.scheduled_for ch.db.runs))
      >>= λ r. returned (roll_back s r)
