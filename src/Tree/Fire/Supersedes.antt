-- ===== src/Tree/Fire/Supersedes.antt =====
-- What a fire leaves of the run before it and of its own: `project_fire` of crates/bellman-core/src/tree/mod.rs.
use bellman.Common.{
  ℕ, ◌*◌, ◌+◌, Bool, none, String, ◌≡◌, ◌≢◌, refl, sym, ap, ◌∙◌, subst, arith, true, false, Option,
  some, ◌∷◌, OnSome, returned, ◌>>=◌, any_where,
}
use bellman.Common.Results.{ok}
use bellman.Store.Ledger.{RunClaim, Ledger, claim_run, new_claim, violates}
use bellman.Store.Models.{Timer}
use bellman.Occurrence.Chrono.{second}
use bellman.Scheduler.State.{FireKind, on_time, late, catch_up_step}
use bellman.Events.Record.{RunState, from_wire, fired, fired_late, coalesced, acknowledged, running}
use bellman.Events.Record.Wire.{reads_back}
use bellman.Store.RunStates.{
  RunStateRow, Db, row_terminal, terminal_state, fired_row, get_run_state,
}
use bellman.Reply.Deadlines.{awaits_pickup}
use bellman.Reply.Engine.{Host, Channel, span_or}
use bellman.Reply.Publication.{Publisher}
use bellman.Tree.Fire.{
  fire_state, Firing, FireState, previous_run, ingest_barrier, supersede, disposed, new_row, commit,
  fire_claimed, roll_back, project_fire,
}
use bellman.Tree.Fire.Closed.{IsClosed, supersede-IsClosed, disposed-run_id, disposed-run_states}
use bellman.Tree.Fire.Returns.{
  CanRecord, bind_returned, deadline_of, with_row, record_owned-returns, start_deadlines-returns,
  with_row-IsClosed, with_row-own,
}

claimed_new :
    (run_id now timer_id scheduled_for : ℕ) (rows : Ledger)
    → any_where (violates run_id timer_id scheduled_for) rows ≡ false
    → claim_run run_id now timer_id scheduled_for rows
      ≡ some (
        new_claim run_id now timer_id scheduled_for rows,
        new_claim run_id now timer_id scheduled_for rows ∷ rows,
      )
unfolding claim_run
claimed_new run_id now timer_id scheduled_for rows open_slot = ground (arith, open_slot)

new_claim_run :
    (run_id now timer_id scheduled_for : ℕ) (rows : Ledger)
    → (new_claim run_id now timer_id scheduled_for rows).run_id ≡ run_id
unfolding new_claim
new_claim_run run_id now timer_id scheduled_for rows = refl

-- The states in which a run awaits its application.
abbrev pub awaits_app : Option RunState → Bool
awaits_app (some fired) = true
awaits_app (some fired_late) = true
awaits_app (some coalesced) = true
awaits_app (some acknowledged) = true
awaits_app (some running) = true
awaits_app _ = false

terminal_awaits : (s : Option RunState) → terminal_state s ≡ true → awaits_app s ≡ false
terminal_awaits none h = refl
terminal_awaits (some s) h = ground arith

awaits_kind : (kind : FireKind) → awaits_pickup (from_wire (fire_state kind)) ≡ true
unfolding fire_state
awaits_kind on_time = ap awaits_pickup (reads_back fired)
awaits_kind (late at slot) = ap awaits_pickup (reads_back fired_late)
awaits_kind (FireKind.coalesced missed) = ap awaits_pickup (reads_back RunState.coalesced)
awaits_kind (catch_up_step index) = ap awaits_pickup (reads_back fired)

module _ {V : Type 0} where
  -- The row of a run, if there is one, has a final state, in which nothing is awaited from its application.
  abbrev pub IsEnded : ℕ → Db V → Type 0
  IsEnded run_id db =
      OnSome (λ row. (row_terminal row ≡ true) × (awaits_app (from_wire row.state) ≡ false))
        (get_run_state run_id db.run_states)

  ended_row :
      (o : Option (RunStateRow V))
      → OnSome (λ row. row_terminal row ≡ true) o
      → OnSome (λ row. (row_terminal row ≡ true) × (awaits_app (from_wire row.state) ≡ false)) o
  ended_row none h = tt
  ended_row (some row) h = (h, terminal_awaits (from_wire row.state) h)

  -- The row of a run that was just fired for an application: it awaits its pickup, up to the grace after `now`.
  pub record IsAwaiting (host : Host V) (t : Timer) (f : Firing V) (claim : RunClaim)
      (app_name : String) (row : RunStateRow V) : Type 0 where
    pub same_run : row.run_id ≡ f.run_id
    pub same_timer : row.timer_id ≡ t.id
    pub same_owner : row.app_name ≡ app_name
    pub same_start : row.fired_at ≡ claim.claimed_at
    pub is_open : awaits_pickup (from_wire row.state) ≡ true
    pub pickup : row.pickup_deadline ≡ some (f.now + span_or host.pickup_grace (60 * second))
    pub no_watchdog : row.watchdog_deadline ≡ none
    pub unanswered :
        (row.acknowledged_at ≡ none) × (row.completed_at ≡ none) × (row.failed_at ≡ none)
    pub no_digest : row.reply_digest ≡ none
    pub unlogged : (row.acknowledged_logged ≡ false) × (row.running_logged ≡ false)

  new_row-IsAwaiting :
      (host : Host V) (via : Publisher) (t : Timer) (f : Firing V) (claim : RunClaim)
      (app_name : String)
      → claim.run_id ≡ f.run_id
      → IsAwaiting host t f claim app_name (new_row via t f claim app_name (deadline_of host f))
  unfolding new_row fired_row
  new_row-IsAwaiting host via t f claim app_name own = record {
    same_run = own;
    same_timer = refl;
    same_owner = refl;
    same_start = refl;
    is_open = awaits_kind f.kind;
    pickup = refl;
    no_watchdog = refl;
    unanswered = (refl, refl, refl);
    no_digest = refl;
    unlogged = (refl, refl);
  }

  owned-IsAwaiting :
      (host : Host V) (via : Publisher) (t : Timer) (f : Firing V) (claim : RunClaim)
      (owner : Option String) (db : Db V)
      → claim.run_id ≡ f.run_id
      → OnSome
          (λ app_name.
            get_run_state claim.run_id db.run_states
            ≡ some (new_row via t f claim app_name (deadline_of host f)))
          owner
      → OnSome
          (λ app_name.
            (row : RunStateRow V) × (get_run_state claim.run_id db.run_states ≡ some row)
            × IsAwaiting host t f claim app_name row)
          owner
  owned-IsAwaiting host via t f claim none db own h = tt
  owned-IsAwaiting host via t f claim (some app_name) db own h = (
    new_row via t f claim app_name (deadline_of host f),
    h,
    new_row-IsAwaiting host via t f claim app_name own,
  )

  -- What a fire leaves behind: its claim, no open run before it, and the row of the new run, which awaits its
  -- pickup, if an application owns the timer.
  abbrev pub IsCurrent : Host V → Timer → Firing V → RunClaim → RunClaim → FireState V → Type 0
  IsCurrent host t f prev claim after =
      (claim.run_id ≡ f.run_id)
      × IsEnded prev.run_id after.channel.db
      × OnSome
          (λ app_name.
            (row : RunStateRow V) × (get_run_state claim.run_id after.channel.db.run_states
              ≡ some row)
            × IsAwaiting host t f claim app_name row)
          f.owner

  -- The same by the row that the code inserts.
  abbrev IsRecorded :
      Host V → Publisher → Timer → Firing V → RunClaim → RunClaim → FireState V → Type 0
  IsRecorded host via t f prev claim after =
      (claim.run_id ≡ f.run_id)
      × IsClosed prev.run_id after.channel.db
      × OnSome
          (λ app_name.
            get_run_state claim.run_id after.channel.db.run_states
            ≡ some (new_row via t f claim app_name (deadline_of host f)))
          f.owner

  recorded-IsCurrent :
      (host : Host V) (via : Publisher) (t : Timer) (f : Firing V) (prev claim : RunClaim)
      (after : FireState V)
      → IsRecorded host via t f prev claim after
      → IsCurrent host t f prev claim after
  recorded-IsCurrent host via t f prev claim after (own, closed, row) = (
    own,
    ended_row _ closed,
    owned-IsAwaiting host via t f claim f.owner after.channel.db own row,
  )

  module _ (host : Host V) (via : Publisher) (t : Timer) (f : Firing V) (s : FireState V) where
    -- Once the run is claimed.
    fire_claimed-IsRecorded :
        (ch : Channel V) (closed : Option ℕ) (db : Db V) (prev claim : RunClaim) (rows : Ledger)
        → CanRecord host via f
        → claim.run_id ≡ f.run_id
        → prev.run_id ≢ f.run_id
        → IsClosed prev.run_id db
        → (result : RunClaim) × (after : FireState V) × (fire_claimed host via t f s.transport ch
              (closed, db)
              (some (claim, rows))
            ≡ returned (ok result, after))
          × IsRecorded host via t f prev result after
    unfolding fire_claimed commit
    fire_claimed-IsRecorded ch closed db prev claim rows can own fresh is_closed =
        let (result, db') = disposed host t f (claim, rows) db in
        let own' : result.run_id ≡ f.run_id = disposed-run_id host t f claim rows db ∙ own in
        let recorded = record_owned-returns host via t f result f.owner db' s.transport can in
        let tables = with_row host via t f result f.owner db' in
        let started =
          start_deadlines-returns host via f f.owner result.run_id closed
            (record ch { db = tables }) can in
        (
          result,
          record { channel = started.0; transport = recorded.0 },
          bind_returned (commit host f s.transport (record ch { db = db' }) closed result)
                recorded.1
              ∙ bind_returned _ started.1,
          (
            own',
            subst (IsClosed prev.run_id) (sym started.2) (
                with_row-IsClosed host via t f result f.owner db' prev.run_id
                  (λ e. fresh (sym e ∙ own'))
                  (subst
                    (λ rows.
                      OnSome (λ (r : RunStateRow V). row_terminal r ≡ true)
                        (get_run_state prev.run_id rows))
                    (sym (disposed-run_states host t f (claim, rows) db)) is_closed)),
            subst
                (λ (d : Db V).
                  OnSome
                    (λ app_name.
                      get_run_state result.run_id d.run_states
                      ≡ some (new_row via t f result app_name (deadline_of host f)))
                    f.owner)
                (sym started.2) (with_row-own host via t f result f.owner db'),
          ),
        )

    -- A fire under a new run id whose slot is free commits, if its instants are in range, its notification can
    -- be written and the ingest of the last reply of the run before returns. Then that run has ended: its row,
    -- if it has one, is in a final state, neither fired nor acknowledged nor running. The run that the fire
    -- claims is the new one, and if an application owns the timer it has a row of the application, in a fired
    -- state, with the pickup deadline at the grace after the fire, no watchdog, and no answer yet.
    pub project_fire-IsCurrent :
        (ch : Channel V) (prev : RunClaim)
        → CanRecord host via f
        → previous_run t s.channel.db.runs ≡ some prev
        → prev.run_id ≢ f.run_id
        → ingest_barrier host t f f.barrier (some prev) s.channel ≡ returned ch
        → any_where (violates f.run_id t.id f.scheduled_for) ch.db.runs ≡ false
        → (claim : RunClaim) × (after : FireState V) × (project_fire host via t f s
            ≡ returned (ok claim, after))
          × IsCurrent host t f prev claim after
    unfolding project_fire
    project_fire-IsCurrent ch prev can previous fresh barred free =
        let superseding = supersede host t f.owner (some prev) ch.db in
        let claim = new_claim f.run_id f.claimed_at t.id f.scheduled_for ch.db.runs in
        let done =
          fire_claimed-IsRecorded ch superseding.0 superseding.1 prev claim (claim ∷ ch.db.runs) can
            (new_claim_run f.run_id f.claimed_at t.id f.scheduled_for ch.db.runs) fresh
            (supersede-IsClosed host t f.owner prev ch.db) in
        (
          done.0,
          done.1,
          ap
                (λ o.
                  (ingest_barrier host t f f.barrier o s.channel >>= λ c.
                  fire_claimed host via t f s.transport c (supersede host t f.owner o c.db)
                    (claim_run f.run_id f.claimed_at t.id f.scheduled_for c.db.runs))
                  >>= λ r. returned (roll_back s r))
                previous
              ∙ ap (λ m. m >>= λ r. returned (roll_back s r))
                  (bind_returned _ barred
                    ∙ ap (fire_claimed host via t f s.transport ch superseding)
                        (claimed_new f.run_id f.claimed_at t.id f.scheduled_for ch.db.runs free)
                    ∙ done.2),
          recorded-IsCurrent host via t f prev done.0 done.1 done.3,
        )
