-- ===== src/Reply/Apply/Reports.antt =====
-- A reply is accepted in one transaction: `apply` of crates/bellman-core/src/reply/engine.rs.
use bellman.Common.{ℕ, ◌≡◌, ap, ◌∙◌, subst, true, false, some, String, Steps, and_then}
use bellman.Common.Meets.{Partial, Partial-after}
use bellman.Events.Record.{RunState, is_app_writable, state_text}
use bellman.Store.Ledger.{RunClaim}
use bellman.Store.Models.{Timer}
use bellman.Store.RunStates.{RunStateRow, Db, run_state, update_run_state}
use bellman.Reply.Document.{ReplyDocument}
use bellman.Reply.Engine.{Host, Channel}
use bellman.Reply.Apply.{replaced, accumulated, taken, rearm, apply}
use bellman.Reply.Ingest.{regresses}
use bellman.Reply.Moves.{Move, IsRow, reports}
use bellman.Reply.Apply.Rows.{Rearmed, rearm-Rearmed, taken-IsReport, judged-Kept}
use bellman.Reply.Apply.Logs.{log_and_write-Lines}

module _ {V : Type 0} where
  -- What a reply leaves of its row, as it is stored.
  abbrev pub IsApplied :
      RunState → String → RunStateRow V → ReplyDocument V → RunStateRow V → Type 0
  IsApplied s digest row doc new =
      (new.reply_digest ≡ some digest)
      × (new.state ≡ state_text s)
      × (new.expected_secs ≡ replaced doc.expected_secs row.expected_secs)

  abbrev pub Accepts :
      RunState → String → RunStateRow V → ReplyDocument V → Db V → Channel V → Type 0
  Accepts s digest row doc db after =
      (new : RunStateRow V) × (mid : Db V) × (after.db ≡ update_run_state new mid)
      × Steps Move (row, db) (new, mid)
      × IsApplied s digest row doc new

  -- The accept path is a transaction on the row, after which the row has the reply.
  pub apply-Change :
      (host : Host V) (t : Timer) (claim : RunClaim) (row : RunStateRow V) (doc : ReplyDocument V)
      (s : RunState) (digest : String) (now mono : ℕ) (ch : Channel V)
      → IsRow row ch.db
      → is_app_writable s ≡ true
      → regresses s row ≡ false
      → Partial (Accepts s digest row doc ch.db) (apply host t claim row doc s digest now mono ch)
  unfolding apply taken accumulated
  apply-Change host t claim row doc s digest now mono ch is_row writable forward =
      Partial-after (Rearmed s (taken host doc s now row) ch.db) (Accepts s digest row doc ch.db)
        (rearm host s now mono (taken host doc s now row) ch) _
        (rearm-Rearmed host s now mono (taken host doc s now row) ch)
        λ (new, mid) rearmed.
          let lines = log_and_write-Lines host t claim doc (run_state row) s digest now new mid in
          let report = taken-IsReport host doc s now row new ch.db mid writable forward rearmed in
          let kept = judged-Kept host doc s now (accumulated doc s now row) in
          (
            lines.0,
            lines.1,
            lines.3,
            and_then (reports s report)
                (subst (λ db. Steps Move (new, db) (lines.0, lines.1)) rearmed.0 lines.2),
            (
              lines.4,
              lines.5 ∙ report.in_state,
              lines.6 ∙ ap (λ (r : RunStateRow V). r.expected_secs) rearmed.1 ∙ kept.5,
            ),
          )
