-- ===== src/Reply/Ingest/Repeats.antt =====
-- A reply that arrives again changes nothing: crates/bellman-core/src/reply/engine.rs.
use text.Mathlib.TextPositions.{eq_refl}
use bellman.Common.{
  ℕ, ◌≡◌, inl, inr, refl, sym, ap, ◌∙◌, subst, true, false, not, ◌==◌, if_cases, Option, none, some,
  String, returned, unwrap_or, Bool-cases, update_where,
}
use bellman.Common.Meets.{Partial, Partial-mono}
use bellman.Events.Record.{RunState, EventRecord, is_app_writable, state_text}
use bellman.Store.Ledger.{RunClaim, get_run, runs_for_timer}
use bellman.Store.Models.{Timer}
use bellman.Store.RunStates.{
  RunStateRow, fired_row, get_run_state, secs_to_sql, written, update_run_state, enqueue_event,
}
use bellman.Store.RunStates.Rows.{get_run_state-run_id, get_run_state-update_where}
use bellman.Reply.Document.{ReplyDocument}
use bellman.Reply.Engine.{Host, Channel, with_db}
use bellman.Reply.Ingest.{
  IngestOutcome, superseded, Sight, refused, identified, sight, digest_is, with_digest,
  ingest_stale, lifecycle_row, ingest_current, text_is, names_run, current_run, last_run,
  ingest_run, ingest_sight, ingest_inner,
}
use bellman.Reply.Ingest.Changes.{IsIdentified, sight-IsIdentified}
use bellman.Reply.Ingest.Again.{again, if_true, if_false, Repeats, current-Repeats}

module _ {V : Type 0} (doc : ReplyDocument V) (digest : String) where
  -- The run of the document has a row, whose estimate is as SQLite keeps it.
  abbrev pub IsTracked : Channel V → Type 0
  IsTracked ch =
      (run_id : ℕ)
      → doc.run_id ≡ some run_id
      → (row : RunStateRow V) × (get_run_state run_id ch.db.run_states ≡ some row)
        × (secs_to_sql row.expected_secs ≡ row.expected_secs)

  module _ (t : Timer) (run_id : ℕ) (s : RunState) (app_name : String) where
    -- The same one level up, where the claim and the row are looked up.
    abbrev RunRepeats : Option ℕ → IngestOutcome × Channel V → Type 0
    RunRepeats override (outcome, after) =
        (host : Host V) (now mono : ℕ)
        → ingest_run host t doc run_id s app_name digest now mono override
            (get_run run_id after.db.runs) after
          ≡ returned (again outcome, after)

    module _ (row : RunStateRow V) (stored : secs_to_sql row.expected_secs ≡ row.expected_secs)
        (ch : Channel V) (found : get_run_state run_id ch.db.run_states ≡ some row) where
      lifecycle_row_found :
          (claim : RunClaim) (now : ℕ) (c : Channel V) (r : RunStateRow V)
          → get_run_state run_id c.db.run_states ≡ some r
          → lifecycle_row t claim run_id app_name now c ≡ r
      unfolding lifecycle_row
      lifecycle_row_found claim now c r h =
          ap
            (λ o.
              unwrap_or o
                (fired_row run_id t.id app_name (state_text RunState.fired) claim.claimed_at now))
            h

      current_run_same :
          (override : Option ℕ) (after : Channel V)
          → after.db.runs ≡ ch.db.runs
          → current_run t override after ≡ current_run t override ch
      current_run_same none after same = ap (λ runs. last_run (runs_for_timer t.id runs)) same
      current_run_same (some id) after same = refl

      module _ (override : Option ℕ) (claim : RunClaim)
          (claimed : get_run run_id ch.db.runs ≡ some claim)
          (own_timer : not (claim.timer_id == t.id) ≡ false) where
        lift_current :
            (r : IngestOutcome × Channel V)
            → names_run (current_run t override ch) run_id ≡ true
            → Repeats doc digest t run_id s app_name ch.db r
            → RunRepeats override r
        unfolding ingest_run
        lift_current (outcome, after) current (same, row', found', repeats) = λ host now mono.
            ap (λ c. ingest_run host t doc run_id s app_name digest now mono override c after)
              (ap (λ runs. get_run run_id runs) same ∙ claimed)
            ∙ if_false _ _ _ own_timer
            ∙ if_true _ _ _
                (ap (λ o. names_run o run_id) (current_run_same override after same) ∙ current)
            ∙ ap (λ r. ingest_current host t claim doc run_id s app_name digest now mono r after)
                (lifecycle_row_found claim now after row' found')
            ∙ repeats host claim now mono

        stale_again :
            (after : Channel V) (row' : RunStateRow V)
            → names_run (current_run t override ch) run_id ≡ false
            → after.db.runs ≡ ch.db.runs
            → get_run_state run_id after.db.run_states ≡ some row'
            → text_is row'.reply_digest digest ≡ true
            → RunRepeats override (superseded, after)
        unfolding ingest_run ingest_stale
        stale_again after row' stale same found' known = λ host now mono.
            ap (λ c. ingest_run host t doc run_id s app_name digest now mono override c after)
              (ap (λ runs. get_run run_id runs) same ∙ claimed)
            ∙ if_false _ _ _ own_timer
            ∙ if_false _ _ _
                (ap (λ o. names_run o run_id) (current_run_same override after same) ∙ stale)
            ∙ if_true _ _ _ (ap (λ r. digest_is r digest) found' ∙ known)

        -- The digest of a stale reply is kept with its row.
        digested :
            names_run (current_run t override ch) run_id ≡ false
            → (event : EventRecord V)
            → RunRepeats override (
              superseded,
              with_digest digest
                  (get_run_state run_id ch.db.run_states)
                  (with_db (enqueue_event event) ch),
            )
        unfolding update_run_state written
        digested stale event =
            let logged = with_db (enqueue_event event) ch in
            let new = record row { reply_digest = some digest } in
            let own : row.run_id ≡ run_id =
              get_run_state-run_id run_id ch.db.run_states row found in
            subst (λ o. RunRepeats override (superseded, with_digest digest o logged)) (sym found)
              (stale_again (with_digest digest (some row) logged) (written new row) stale refl
                (subst
                  (λ n.
                    get_run_state n
                      (update_where (λ r. r.run_id == row.run_id) (written new) ch.db.run_states)
                    ≡ some (written new row))
                  own
                  (get_run_state-update_where row.run_id (written new) (λ r. refl) ch.db.run_states
                    row (ap (λ n. get_run_state n ch.db.run_states) own ∙ found)))
                (eq_refl digest))

        stale-Repeats :
            (host : Host V)
            → names_run (current_run t override ch) run_id ≡ false
            → Partial (RunRepeats override) (ingest_stale host t claim run_id digest ch)
        unfolding ingest_stale update_run_state written
        stale-Repeats host stale =
            if_cases (Partial (RunRepeats override))
              (digest_is (get_run_state run_id ch.db.run_states) digest)
              (λ known.
                stale_again ch row stale refl found
                  (ap (λ r. digest_is r digest) (sym found) ∙ known))
              (λ new. digested stale _)

        claimed-Repeats :
            (host : Host V) (now mono : ℕ)
            → is_app_writable s ≡ true
            → Partial
                (RunRepeats override)
                (ingest_run host t doc run_id s app_name digest now mono override (some claim) ch)
        unfolding ingest_run
        claimed-Repeats host now mono writable =
            subst (Partial (RunRepeats override)) (sym (if_false _ _ _ own_timer)) (
              if_cases (Partial (RunRepeats override))
                (names_run (current_run t override ch) run_id)
                (λ current.
                  subst
                    (λ r.
                      Partial (RunRepeats override)
                        (ingest_current host t claim doc run_id s app_name digest now mono r ch))
                    (sym (lifecycle_row_found claim now ch row found))
                    (Partial-mono (Repeats doc digest t run_id s app_name ch.db)
                      (RunRepeats override) _
                      (current-Repeats doc digest t run_id s app_name row stored ch found host claim
                        now mono writable)
                      (λ r repeats. lift_current r current repeats)))
                (λ stale. stale-Repeats host stale))

      run-Repeats :
          (host : Host V) (now mono : ℕ) (override : Option ℕ) (claim : Option RunClaim)
          → get_run run_id ch.db.runs ≡ claim
          → is_app_writable s ≡ true
          → Partial
              (RunRepeats override)
              (ingest_run host t doc run_id s app_name digest now mono override claim ch)
      unfolding ingest_run
      run-Repeats host now mono override none claimed writable = λ host' now' mono'.
          ap (λ c. ingest_run host' t doc run_id s app_name digest now' mono' override c ch) claimed
      run-Repeats host now mono override (some claim) claimed writable =
          elim (Bool-cases (not (claim.timer_id == t.id))) [
            | inl foreign ↦
                subst (Partial (RunRepeats override)) (sym (if_true _ _ _ foreign))
                  λ host' now' mono'.
                    ap
                      (λ c.
                        ingest_run host' t doc run_id s app_name digest now' mono' override c ch)
                      claimed
                    ∙ if_true _ _ _ foreign
            | inr own ↦ claimed-Repeats override claim claimed own host now mono writable
          ]

  sight-Repeats :
      (host : Host V) (t : Timer) (now mono : ℕ) (override : Option ℕ) (ch : Channel V)
      (seen : Sight)
      → IsTracked ch
      → IsIdentified doc.run_id doc.app_name seen
      → Partial
          (λ (r : IngestOutcome × Channel V).
            (host : Host V) (now mono : ℕ)
            → ingest_sight host t doc digest now mono override r.1 seen ≡ returned (again r.0, r.1))
          (ingest_sight host t doc digest now mono override ch seen)
  sight-Repeats host t now mono override ch (refused why) tracked known = λ host' now' mono'. refl
  sight-Repeats host t now mono override ch (identified run_id s app_name) tracked
        (writable, own, named) =
      let row = tracked run_id own in
      run-Repeats t run_id s app_name row.0 row.2 ch row.1 host now mono override _ refl writable

  -- A reply whose run has a row may arrive any number of times: once it has been taken in, the same document
  -- with the same digest, by whichever transport and at whatever time, changes nothing, neither a row nor a
  -- deadline nor the event log. What was applied is then a duplicate, and every other outcome comes back.
  pub ingest_inner-again :
      (host host' : Host V) (t : Timer) (now mono now' mono' : ℕ) (override : Option ℕ)
      (ch after : Channel V) (outcome : IngestOutcome)
      → IsTracked ch
      → ingest_inner host t doc digest now mono override ch ≡ returned (outcome, after)
      → ingest_inner host' t doc digest now' mono' override after ≡ returned (again outcome, after)
  unfolding ingest_inner
  ingest_inner-again host host' t now mono now' mono' override ch after outcome tracked h =
      subst
        (Partial (λ (r : IngestOutcome × Channel V).
          (host : Host V) (now mono : ℕ)
          → ingest_sight host t doc digest now mono override r.1 (sight doc)
            ≡ returned (again r.0, r.1)))
        h (sight-Repeats host t now mono override ch (sight doc) tracked (sight-IsIdentified doc))
        host' now' mono'
