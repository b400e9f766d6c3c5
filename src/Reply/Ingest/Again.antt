-- ===== src/Reply/Ingest/Again.antt =====
-- A reply that arrives again for the current run: `ingest_inner` of crates/bellman-core/src/reply/engine.rs.
use text.Mathlib.Text
use text.Mathlib.TextPositions.{eq_refl}
use bellman.Common.{
  ℕ, ◌≡◌, inl, refl, ap, ◌∙◌, subst, arith, Bool, true, false, not, ◌&&◌, ◌||◌, ◌==◌, if◌then◌else◌,
  if_cases, Option, none, some, String, returned, unwrap_or, update_where,
}
use bellman.Common.Meets.{Partial, Partial-after}
use bellman.Events.Record.{RunState, is_app_writable, from_wire}
use bellman.Events.Record.Wire.{reads_back}
use bellman.Store.Ledger.{RunClaim}
use bellman.Store.Models.{Timer}
use bellman.Store.RunStates.{
  RunStateRow, Db, FailureKind, verdict_of_app, get_run_state, secs_to_sql, written,
  update_run_state,
}
use bellman.Store.RunStates.Rows.{get_run_state-run_id, get_run_state-update_where}
use bellman.Reply.Document.{ReplyDocument}
use bellman.Reply.Engine.{Host, Channel}
use bellman.Reply.Apply.{apply, replaced, is_true}
use bellman.Reply.Lines.{is_acknowledged, is_running}
use bellman.Reply.Apply.Reports.{Accepts, apply-Change}
use bellman.Reply.Moves.{Moves-run_states, Moves-run_id, Change-runs, writes}
use bellman.Reply.Ingest.{
  IngestOutcome, applied, duplicate, superseded, rejected, ingest_current, regresses,
  lacks_estimate, text_is,
}

-- What the same reply gives the next time.
abbrev pub again : IngestOutcome → IngestOutcome
again applied = duplicate
again duplicate = duplicate
again superseded = superseded
again (rejected why) = rejected why

pub if_true {ℓ} : {A : Type ℓ} (b : Bool) (x y : A) → b ≡ true → (if b then x else y) ≡ x
if_true true x y e = refl
if_true false x y e = absurd (ground arith)

pub if_false {ℓ} : {A : Type ℓ} (b : Bool) (x y : A) → b ≡ false → (if b then x else y) ≡ y
if_false true x y e = absurd (ground arith)
if_false false x y e = refl

-- A state that was accepted does not regress from itself.
forward_again :
    (s : RunState) (kind : Option FailureKind)
    → verdict_of_app (some s) kind && (is_acknowledged s || is_running s) ≡ false
forward_again s kind = ground arith

-- An estimate that was enough is enough after it was stored.
estimate_again :
    (detection : Bool) (said old : Option ℕ)
    → secs_to_sql old ≡ old
    → detection && (unwrap_or (replaced said old) 0 == 0) ≡ false
    → detection && (unwrap_or (replaced said (secs_to_sql (replaced said old))) 0 == 0) ≡ false
estimate_again detection none old stored h =
    ap (λ secs. detection && (unwrap_or secs 0 == 0)) stored ∙ h
estimate_again detection (some n) old stored h = h

module _ {V : Type 0} (doc : ReplyDocument V) (digest : String) where
  module _ (t : Timer) (run_id : ℕ) (s : RunState) (app_name : String) where
    -- After a call, a second one has the outcome of a repetition and changes nothing.
    abbrev pub Repeats : Db V → IngestOutcome × Channel V → Type 0
    Repeats db (outcome, after) =
        (after.db.runs ≡ db.runs)
        × (row : RunStateRow V) × (get_run_state run_id after.db.run_states ≡ some row)
        × ((host : Host V) (claim : RunClaim) (now mono : ℕ)
            → ingest_current host t claim doc run_id s app_name digest now mono row after
              ≡ returned (again outcome, after))

    module _ (row : RunStateRow V) (stored : secs_to_sql row.expected_secs ≡ row.expected_secs)
        (ch : Channel V) (found : get_run_state run_id ch.db.run_states ≡ some row) where
      applied-Repeats :
          (after : Channel V)
          → not (Text.◌==◌ app_name row.app_name) ≡ false
          → lacks_estimate doc row ≡ false
          → Accepts s digest row doc ch.db after
          → Repeats ch.db (applied, after)
      unfolding ingest_current update_run_state written
      applied-Repeats after same_app enough
            (new, mid, same_db, moves, (same_digest, state, estimate)) =
          let own : new.run_id ≡ run_id =
            Moves-run_id moves ∙ get_run_state-run_id run_id ch.db.run_states row found in
          let is_found : get_run_state row.run_id ch.db.run_states ≡ some row =
            ap (λ n. get_run_state n ch.db.run_states)
              (get_run_state-run_id run_id ch.db.run_states row found)
            ∙ found in
          (
            ap (λ (d : Db V). d.runs) same_db
                ∙ Change-runs ch.db (update_run_state new mid) (writes (inl is_found) moves),
            written new row,
            ap (λ (d : Db V). get_run_state run_id d.run_states) same_db
                ∙ subst
                    (λ n.
                      get_run_state n
                        (update_where (λ r. r.run_id == new.run_id) (written new) mid.run_states)
                      ≡ some (written new row))
                    own
                    (get_run_state-update_where new.run_id (written new) (λ r. refl) mid.run_states
                      row
                      (ap (λ rows. get_run_state new.run_id rows) (Moves-run_states moves)
                        ∙ ap (λ n. get_run_state n ch.db.run_states) own
                        ∙ found)),
            λ host claim now mono.
                if_false _ _ _ same_app
                ∙ if_false _ _ _ (
                    ap
                      (λ st.
                        verdict_of_app st new.failure_kind && (is_acknowledged s || is_running s))
                      (ap from_wire state ∙ reads_back s)
                    ∙ forward_again s new.failure_kind)
                ∙ if_false _ _ _ (
                    ap
                      (λ secs.
                        is_true doc.error_detection
                        && (unwrap_or (replaced doc.expected_secs (secs_to_sql secs)) 0 == 0))
                      estimate
                    ∙ estimate_again (is_true doc.error_detection) doc.expected_secs
                        row.expected_secs stored enough)
                ∙ if_true _ _ _ (ap (λ d. text_is d digest) same_digest ∙ eq_refl digest),
          )

      pub current-Repeats :
          (host : Host V) (claim : RunClaim) (now mono : ℕ)
          → is_app_writable s ≡ true
          → Partial
              (Repeats ch.db)
              (ingest_current host t claim doc run_id s app_name digest now mono row ch)
      unfolding ingest_current
      current-Repeats host claim now mono writable =
          if_cases (Partial (Repeats ch.db)) (not (Text.◌==◌ app_name row.app_name))
            (λ e. (refl, row, found, λ host' claim' now' mono'. if_true _ _ _ e))
            λ same_app.
              if_cases (Partial (Repeats ch.db)) (regresses s row)
                (λ e. (
                  refl,
                  row,
                  found,
                  λ host' claim' now' mono'. if_false _ _ _ same_app ∙ if_true _ _ _ e,
                ))
                λ forward.
                  if_cases (Partial (Repeats ch.db)) (lacks_estimate doc row)
                    (λ e. (
                      refl,
                      row,
                      found,
                      λ host' claim' now' mono'.
                          if_false _ _ _ same_app ∙ if_false _ _ _ forward ∙ if_true _ _ _ e,
                    ))
                    λ enough.
                      if_cases (Partial (Repeats ch.db)) (text_is row.reply_digest digest)
                        (λ e. (
                          refl,
                          row,
                          found,
                          λ host' claim' now' mono'.
                              if_false _ _ _ same_app
                              ∙ if_false _ _ _ forward
                              ∙ if_false _ _ _ enough
                              ∙ if_true _ _ _ e,
                        ))
                        λ new.
                          Partial-after (Accepts s digest row doc ch.db) (Repeats ch.db)
                            (apply host t claim row doc s digest now mono ch) _
                            (apply-Change host t claim row doc s digest now mono ch
                              (inl (
                                ap (λ n. get_run_state n ch.db.run_states)
                                  (get_run_state-run_id run_id ch.db.run_states row found)
                                ∙ found))
                              writable forward)
                            (λ after accepts. applied-Repeats after same_app enough accepts)
