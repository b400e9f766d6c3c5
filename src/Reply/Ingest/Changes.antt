-- ===== src/Reply/Ingest/Changes.antt =====
-- Every ingest is one transaction on a row: crates/bellman-core/src/reply/engine.rs.
use text.Mathlib.Text
use bellman.Common.{
  ℕ, ◌≡◌, inl, inr, refl, sym, ap, ◌∙◌, subst, true, false, not, ◌==◌, if_cases, Option, ◌||◌, none,
  some, String, unwrap_or, done, and_then,
}
use bellman.Common.Meets.{Partial, Partial-after}
use bellman.Events.Record.{RunState, EventRecord, is_app_writable, from_wire, state_text}
use bellman.Store.Ledger.{RunClaim, get_run}
use bellman.Store.Models.{Timer}
use bellman.Store.RunStates.{RunStateRow, get_run_state, fired_row, enqueue_event}
use bellman.Store.RunStates.Rows.{get_run_state-run_id}
use bellman.Reply.Document.{ReplyDocument, reply_schema}
use bellman.Reply.Engine.{Host, Channel, with_db}
use bellman.Reply.Apply.{apply}
use bellman.Reply.Lines.{is_acknowledged, is_running}
use bellman.Reply.Apply.Reports.{apply-Change}
use bellman.Reply.Ingest.{
  IngestOutcome, Sight, refused, identified, sight, sight_schema, sight_run, sight_known,
  sight_name, digest_is, with_digest, ingest_stale, lifecycle_row, ingest_current, regresses,
  lacks_estimate, text_is, names_run, current_run, ingest_run, ingest_sight, ingest_inner,
}
use bellman.Reply.Moves.{Change, IsRow, stays, writes, notes, logs, digests}

-- A document that is identified names a state that an application may write.
abbrev pub IsIdentified : Option ℕ → Option String → Sight → Type 0
IsIdentified run app (refused why) = Unit
IsIdentified run app (identified run_id s app_name) =
    (is_app_writable s ≡ true) × (run ≡ some run_id) × (app ≡ some app_name)

name-IsIdentified :
    (run_id : ℕ) (s : RunState) (app : Option String)
    → is_app_writable s ≡ true
    → IsIdentified (some run_id) app (sight_name run_id s app)
name-IsIdentified run_id s none writable = tt
name-IsIdentified run_id s (some app_name) writable = (writable, refl, refl)

known-IsIdentified :
    (run_id : ℕ) (app : Option String) (s : Option RunState)
    → IsIdentified (some run_id) app (sight_known run_id app s)
known-IsIdentified run_id app none = tt
known-IsIdentified run_id app (some s) =
    if_cases (IsIdentified (some run_id) app) (is_app_writable s) (name-IsIdentified run_id s app)
      (λ no. tt)

run-IsIdentified :
    (run : Option ℕ) (state app : Option String) → IsIdentified run app (sight_run run state app)
run-IsIdentified none state app = tt
run-IsIdentified (some run_id) none app = tt
run-IsIdentified (some run_id) (some state) app = known-IsIdentified run_id app (from_wire state)

schema-IsIdentified :
    (schema : Option String) (run : Option ℕ) (app : Option String) (seen : Sight)
    → IsIdentified run app seen
    → IsIdentified run app (sight_schema schema seen)
schema-IsIdentified none run app seen h = tt
schema-IsIdentified (some schema) run app seen h =
    if_cases (IsIdentified run app) (Text.◌==◌ schema reply_schema) (λ _. h) (λ _. tt)

module _ {V : Type 0} where
  pub sight-IsIdentified :
      (doc : ReplyDocument V) → IsIdentified doc.run_id doc.app_name (sight doc)
  sight-IsIdentified doc =
      schema-IsIdentified doc.schema doc.run_id doc.app_name _
        (run-IsIdentified doc.run_id doc.state doc.app_name)

  abbrev Changed : Channel V → IngestOutcome × Channel V → Type 0
  Changed ch (outcome, after) = Change ch.db after.db

  stale-Change :
      (event : EventRecord V) (run_id : ℕ) (digest : String) (ch : Channel V)
      (row : Option (RunStateRow V))
      → get_run_state run_id ch.db.run_states ≡ row
      → is_acknowledged event.kind || is_running event.kind ≡ false
      → event.run_id ≡ some run_id
      → Change ch.db (with_digest digest row (with_db (enqueue_event event) ch)).db
  stale-Change event run_id digest ch none found quiet own = notes event run_id found own
  stale-Change event run_id digest ch (some row) found quiet own =
      let same = get_run_state-run_id run_id ch.db.run_states row found in
      writes (inl (ap (λ id. get_run_state id ch.db.run_states) same ∙ found)) (
        and_then (logs event quiet (own ∙ ap (λ id. some id) (sym same)))
          (and_then (digests digest) done))

  ingest_stale-Change :
      (host : Host V) (t : Timer) (claim : RunClaim) (run_id : ℕ) (digest : String) (ch : Channel V)
      → Partial (Changed ch) (ingest_stale host t claim run_id digest ch)
  unfolding ingest_stale
  ingest_stale-Change host t claim run_id digest ch =
      if_cases (Partial (Changed ch)) (digest_is (get_run_state run_id ch.db.run_states) digest)
        (λ same. stays) (λ new. stale-Change _ run_id digest ch _ refl refl refl)

  rebuilt-IsRow :
      (t : Timer) (claim : RunClaim) (run_id : ℕ) (app_name : String) (now : ℕ) (ch : Channel V)
      (row : Option (RunStateRow V))
      → get_run_state run_id ch.db.run_states ≡ row
      → IsRow
          (unwrap_or row
            (fired_row run_id t.id app_name (state_text RunState.fired) claim.claimed_at now))
          ch.db
  unfolding fired_row
  rebuilt-IsRow t claim run_id app_name now ch none found =
      inr (found, t.id, claim.claimed_at, now, app_name, refl)
  rebuilt-IsRow t claim run_id app_name now ch (some row) found = inl (
      ap (λ id. get_run_state id ch.db.run_states)
        (get_run_state-run_id run_id ch.db.run_states row found)
      ∙ found)

  lifecycle_row-IsRow :
      (t : Timer) (claim : RunClaim) (run_id : ℕ) (app_name : String) (now : ℕ) (ch : Channel V)
      → IsRow (lifecycle_row t claim run_id app_name now ch) ch.db
  unfolding lifecycle_row
  lifecycle_row-IsRow t claim run_id app_name now ch =
      rebuilt-IsRow t claim run_id app_name now ch _ refl

  ingest_current-Change :
      (host : Host V) (t : Timer) (claim : RunClaim) (doc : ReplyDocument V) (run_id : ℕ)
      (s : RunState) (app_name digest : String) (now mono : ℕ) (row : RunStateRow V)
      (ch : Channel V)
      → IsRow row ch.db
      → is_app_writable s ≡ true
      → Partial
          (Changed ch)
          (ingest_current host t claim doc run_id s app_name digest now mono row ch)
  unfolding ingest_current
  ingest_current-Change host t claim doc run_id s app_name digest now mono row ch is_row writable =
      if_cases (Partial (Changed ch)) (not (Text.◌==◌ app_name row.app_name)) (λ _. stays)
        λ _.
          if_cases (Partial (Changed ch)) (regresses s row) (λ _. stays)
            λ forward.
              if_cases (Partial (Changed ch)) (lacks_estimate doc row) (λ _. stays)
                λ _.
                  if_cases (Partial (Changed ch)) (text_is row.reply_digest digest) (λ _. stays)
                    λ _.
                      Partial-after _ (Changed ch) (apply host t claim row doc s digest now mono ch)
                        _
                        (apply-Change host t claim row doc s digest now mono ch is_row writable
                          forward)
                        (λ after (new, mid, same, moves, _).
                          subst (Change ch.db) (sym same) (writes is_row moves))

  ingest_run-Change :
      (host : Host V) (t : Timer) (doc : ReplyDocument V) (run_id : ℕ) (s : RunState)
      (app_name digest : String) (now mono : ℕ) (override : Option ℕ) (claim : Option RunClaim)
      (ch : Channel V)
      → is_app_writable s ≡ true
      → Partial
          (Changed ch)
          (ingest_run host t doc run_id s app_name digest now mono override claim ch)
  unfolding ingest_run
  ingest_run-Change host t doc run_id s app_name digest now mono override none ch writable = stays
  ingest_run-Change host t doc run_id s app_name digest now mono override (some claim) ch writable =
      if_cases (Partial (Changed ch)) (not (claim.timer_id == t.id)) (λ _. stays)
        λ _.
          if_cases (Partial (Changed ch)) (names_run (current_run t override ch) run_id)
            (λ _.
              ingest_current-Change host t claim doc run_id s app_name digest now mono _ ch
                (lifecycle_row-IsRow t claim run_id app_name now ch) writable)
            (λ _. ingest_stale-Change host t claim run_id digest ch)

  -- An ingest, by whichever transport and clock, is one transaction.
  pub ingest_inner-Change :
      (host : Host V) (t : Timer) (doc : ReplyDocument V) (digest : String) (now mono : ℕ)
      (override : Option ℕ) (ch : Channel V)
      → Partial (Changed ch) (ingest_inner host t doc digest now mono override ch)
  unfolding ingest_inner
  ingest_inner-Change host t doc digest now mono override ch =
      from_sight (sight doc) (sight-IsIdentified doc)
    where
      from_sight :
          (seen : Sight)
          → IsIdentified doc.run_id doc.app_name seen
          → Partial (Changed ch) (ingest_sight host t doc digest now mono override ch seen)
      from_sight (refused why) h = stays
      from_sight (identified run_id s app_name) (writable, _, _) =
          ingest_run-Change host t doc run_id s app_name digest now mono override
            (get_run run_id ch.db.runs) ch writable
