-- ===== src/Reply/Lifecycle.antt =====
-- The life of the rows of runs: fires, ingests, pickups and lapses in any order, and any number of them, of
-- crates/bellman-core/src/reply/engine.rs.
pub mod Runs
pub mod Coherent
pub mod Logged
pub mod Verdicts
mod Examples
use bellman.Common.{ℕ, ◌≡◌, subst, Option, none, String, returned}
use bellman.Common.Meets.{Partial}
use bellman.Store.Models.{Timer}
use bellman.Store.RunStates.{RunStateRow, get_run_state, insert_run_state}
use bellman.Reply.Document.{ReplyDocument}
use bellman.Reply.Engine.{Host, Channel, with_db}
use bellman.Reply.Ingest.{IngestOutcome, ingest_inner}
use bellman.Reply.Ingest.Changes.{ingest_inner-Change}
use bellman.Reply.Deadlines.{on_ack_through, expire_pickup_one, expire_watchdog_one}
use bellman.Reply.Deadlines.Changes.{
  on_ack_through-Change, expire_pickup_one-Change, expire_watchdog_one-Change,
}
use bellman.Reply.Moves.{Change, IsFired, inserts}

module _ {V : Type 0} where
  -- A call of the engine at any clocks and settings. `fires` is the insertion of the row of a new run.
  pub data Step : Channel V → Channel V → Type 0 where
    fires :
        {ch : Channel V} (row : RunStateRow V)
        → get_run_state row.run_id ch.db.run_states ≡ none
        → IsFired row
        → Step ch (with_db (insert_run_state row) ch)
    ingests :
        {ch after : Channel V} {outcome : IngestOutcome} (host : Host V) (t : Timer)
        (doc : ReplyDocument V) (digest : String) (now mono : ℕ) (override : Option ℕ)
        → ingest_inner host t doc digest now mono override ch ≡ returned (outcome, after)
        → Step ch after
    acks :
        {ch : Channel V} (host : Host V) (t : Timer) (through now : ℕ)
        → Step ch (on_ack_through host t through now ch).1
    lapses_pickup :
        {ch : Channel V} (host : Host V) (t : Timer) (run_id now : ℕ)
        → Step ch (expire_pickup_one host t run_id now ch).1
    lapses_watchdog :
        {ch : Channel V} (host : Host V) (t : Timer) (run_id now : ℕ)
        → Step ch (expire_watchdog_one host t run_id now ch).1

  -- Each call is one transaction.
  pub Step-Change : (ch after : Channel V) → Step ch after → Change ch.db after.db
  Step-Change ch after (fires row fresh is_fired) = inserts row fresh is_fired
  Step-Change ch after (ingests {outcome = outcome} host t doc digest now mono override h) =
      subst (Partial (λ (r : IngestOutcome × Channel V). Change ch.db r.1.db)) h
        (ingest_inner-Change host t doc digest now mono override ch)
  Step-Change ch after (acks host t through now) = on_ack_through-Change host t through now ch
  Step-Change ch after (lapses_pickup host t run_id now) =
      expire_pickup_one-Change host t run_id now ch
  Step-Change ch after (lapses_watchdog host t run_id now) =
      expire_watchdog_one-Change host t run_id now ch
