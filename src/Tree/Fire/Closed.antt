-- ===== src/Tree/Fire/Closed.antt =====
-- The run before a fire is closed, and the claim of a fire keeps its run: `project_fire` of
-- crates/bellman-core/src/tree/mod.rs.
use bellman.Common.{
  ℕ, ◌≡◌, refl, sym, ap, ◌∙◌, subst, arith, Bool, true, false, not, ◌==◌, if◌then◌else◌, Option,
  none, some, String, [], ◌∷◌, OnSome, update_where,
}
use bellman.Events.Record.{superseded}
use bellman.Events.Record.Wire.{reads_back}
use bellman.Store.Ledger.{RunClaim, Ledger, get_run, finish_run_conn, skipped_misfire}
use bellman.Store.Models.{Timer, OverlapPolicy, skip, queue_one, parallel, replace}
use bellman.Store.RunStates.{
  RunStateRow, Db, row_terminal, terminal_state, get_run_state, written, update_run_state,
  enqueue_event,
}
use bellman.Store.RunStates.Rows.{get_run_state-run_id, get_run_state-update_where}
use bellman.Reply.Engine.{Host}
use bellman.Tree.Overlap.{FireTx, apply_overlap_disposition, on_reason, or_claim}
use bellman.Tree.Fire.{
  Firing, is_unresolved, superseded_event, superseded_row, close_row, supersede_if, supersede,
  disposed,
}

-- The claim that is read back is the claim of the run.
head_claim :
    (same : Bool) (r claim : RunClaim) (rest : Option RunClaim)
    → r.run_id == claim.run_id ≡ same
    → (or_claim rest claim).run_id ≡ claim.run_id
    → (or_claim (if same then some r else rest) claim).run_id ≡ claim.run_id
head_claim true r claim rest e later = ground arith
head_claim false r claim rest e later = later

read_claim :
    (rows : Ledger) (claim : RunClaim)
    → (or_claim (get_run claim.run_id rows) claim).run_id ≡ claim.run_id
unfolding get_run
read_claim [] claim = refl
read_claim (r ∷ rows) claim =
    head_claim (r.run_id == claim.run_id) r claim _ refl (read_claim rows claim)

reason_same :
    (now : ℕ) (claim : RunClaim) (tx : FireTx) (reason : Option String)
    → (on_reason now claim tx reason).0.run_id ≡ claim.run_id
unfolding on_reason
reason_same now claim tx none = refl
reason_same now claim tx (some reason) =
    read_claim (finish_run_conn claim.run_id skipped_misfire (some reason) now tx.rows).1 claim

disposition_same :
    (policy : OverlapPolicy) (now : ℕ) (claim : RunClaim) (tx : FireTx)
    → (apply_overlap_disposition policy now claim tx).0.run_id ≡ claim.run_id
unfolding apply_overlap_disposition
disposition_same skip now claim tx = reason_same now claim tx _
disposition_same queue_one now claim tx = reason_same now claim tx _
disposition_same (parallel cap) now claim tx = reason_same now claim tx _
disposition_same replace now claim tx = refl

module _ {V : Type 0} where
  -- The row of a run, if there is one, is in a final state.
  abbrev pub IsClosed : ℕ → Db V → Type 0
  IsClosed run_id db = OnSome (λ row. row_terminal row ≡ true) (get_run_state run_id db.run_states)

  written_closed :
      (row old : RunStateRow V) → row_terminal (written (superseded_row row) old) ≡ true
  unfolding written superseded_row
  written_closed row old = ap terminal_state (reads_back superseded)

  update-IsClosed :
      (run_id : ℕ) (row : RunStateRow V) (db : Db V)
      → get_run_state run_id db.run_states ≡ some row
      → IsClosed run_id (update_run_state (superseded_row row) db)
  unfolding update_run_state superseded_row written
  update-IsClosed run_id row db found =
      let own = get_run_state-run_id run_id db.run_states row found in
      let new = superseded_row row in
      subst
        (λ n.
          OnSome (λ (r : RunStateRow V). row_terminal r ≡ true)
            (get_run_state n
              (update_where (λ r. r.run_id == row.run_id) (written new) db.run_states)))
        own
        (subst (OnSome (λ (r : RunStateRow V). row_terminal r ≡ true))
          (sym (
            get_run_state-update_where row.run_id (written new) (λ r. refl) db.run_states row
              (ap (λ n. get_run_state n db.run_states) own ∙ found)))
          (written_closed row row))

  none-IsClosed :
      (host : Host V) (t : Timer) (prev : RunClaim) (b : Bool) (db : Db V)
      → get_run_state prev.run_id db.run_states ≡ none
      → IsClosed prev.run_id (supersede_if host t prev b db).1
  none-IsClosed host t prev false db e =
      subst (OnSome (λ (r : RunStateRow V). row_terminal r ≡ true)) (sym e) tt
  none-IsClosed host t prev true db e =
      subst
        (λ o. IsClosed prev.run_id (close_row o (enqueue_event (superseded_event host t prev) db)))
        (sym e) (subst (OnSome (λ (r : RunStateRow V). row_terminal r ≡ true)) (sym e) tt)

  some-IsClosed :
      (host : Host V) (t : Timer) (prev : RunClaim) (row : RunStateRow V) (b : Bool) (db : Db V)
      → row_terminal row ≡ b
      → get_run_state prev.run_id db.run_states ≡ some row
      → IsClosed prev.run_id (supersede_if host t prev (not b) db).1
  some-IsClosed host t prev row true db ended e =
      subst (OnSome (λ (r : RunStateRow V). row_terminal r ≡ true)) (sym e) ended
  some-IsClosed host t prev row false db ended e =
      subst
        (λ o. IsClosed prev.run_id (close_row o (enqueue_event (superseded_event host t prev) db)))
        (sym e)
        (update-IsClosed prev.run_id row (enqueue_event (superseded_event host t prev) db) e)

  found-IsClosed :
      (host : Host V) (t : Timer) (owner : Option String) (prev : RunClaim) (db : Db V)
      (o : Option (RunStateRow V))
      → get_run_state prev.run_id db.run_states ≡ o
      → IsClosed prev.run_id (supersede_if host t prev (is_unresolved owner prev o) db).1
  found-IsClosed host t owner prev db none e = none-IsClosed host t prev _ db e
  found-IsClosed host t owner prev db (some row) e =
      some-IsClosed host t prev row (row_terminal row) db refl e

  pub supersede-IsClosed :
      (host : Host V) (t : Timer) (owner : Option String) (prev : RunClaim) (db : Db V)
      → IsClosed prev.run_id (supersede host t owner (some prev) db).1
  unfolding supersede
  supersede-IsClosed host t owner prev db = found-IsClosed host t owner prev db _ refl

  pub disposed-run_states :
      (host : Host V) (t : Timer) (f : Firing V) (claimed : RunClaim × Ledger) (db : Db V)
      → (disposed host t f claimed db).1.run_states ≡ db.run_states
  unfolding disposed
  disposed-run_states host t f (claim, rows) db = refl

  pub disposed-run_id :
      (host : Host V) (t : Timer) (f : Firing V) (claim : RunClaim) (rows : Ledger) (db : Db V)
      → (disposed host t f (claim, rows) db).0.run_id ≡ claim.run_id
  unfolding disposed
  disposed-run_id host t f claim rows db =
      disposition_same t.overlap f.claimed_at claim (record { rows = rows; outbox = [] })
