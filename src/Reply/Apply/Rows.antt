-- ===== src/Reply/Apply/Rows.antt =====
-- What the accept path makes of a row: `apply` of crates/bellman-core/src/reply/engine.rs.
use bellman.Common.{
  ℕ, ◌≡◌, ◌⊎◌, inl, inr, refl, sym, ap, ◌∙◌, arith, Bool, true, false, if◌then◌else◌, if_cases,
  Option, none, some,
}
use bellman.Common.Meets.{Partial, Partial-after, Partial-any}
use bellman.Events.Record.{RunState, is_app_writable, is_terminal}
use bellman.Store.RunStates.{RunStateRow, Db, is_armed, is_reported}
use bellman.Reply.Document.{ReplyDocument}
use bellman.Reply.Engine.{Host, Channel, add_wall, span_or}
use bellman.Reply.Apply.{
  replaced, is_false, is_true, accumulated, with_result, judged, taken, is_watched, arm_watchdog,
  rearm,
}
use bellman.Reply.Lines.{is_completed, is_failed}
use bellman.Reply.Ingest.{regresses}
use bellman.Reply.Moves.{IsReport}

-- The detection that a document takes over keeps an armed watchdog opted in.
detection_kept :
    (said old : Option Bool) (deadline : Option ℕ)
    → (is_armed deadline ≡ true → is_true old ≡ true)
    → is_armed (if is_false said then none else deadline) ≡ true
    → is_true (replaced said old) ≡ true
detection_kept none old deadline h armed = h armed
detection_kept (some true) old deadline h armed = refl
detection_kept (some false) old deadline h armed = absurd (ground arith)

module _ {V : Type 0} where
  -- The fields that a verdict leaves alone.
  abbrev pub Kept : RunStateRow V → RunStateRow V → Type 0
  Kept old new =
      (new.run_id ≡ old.run_id)
      × (new.acknowledged_logged ≡ old.acknowledged_logged)
      × (new.running_logged ≡ old.running_logged)
      × (new.watchdog_deadline ≡ old.watchdog_deadline)
      × (new.error_detection ≡ old.error_detection)
      × (new.expected_secs ≡ old.expected_secs)

  with_result-Kept : (r : Option (V × Bool)) (row : RunStateRow V) → Kept row (with_result r row)
  with_result-Kept none row = (refl, refl, refl, refl, refl, refl)
  with_result-Kept (some (value, cut)) row = (refl, refl, refl, refl, refl, refl)

  pub judged-Kept :
      (host : Host V) (doc : ReplyDocument V) (s : RunState) (now : ℕ) (row : RunStateRow V)
      → Kept row (judged host doc s now row)
  unfolding judged
  judged-Kept host doc s now row =
      if_cases (Kept row) (is_completed s) (λ e. with_result-Kept _ row)
        (λ e.
          if_cases (Kept row) (is_failed s) (λ e. (refl, refl, refl, refl, refl, refl))
            (λ e. (refl, refl, refl, refl, refl, refl)))

  judged_failed :
      (host : Host V) (doc : ReplyDocument V) (s : RunState) (now : ℕ) (row : RunStateRow V)
      → is_failed s ≡ true
      → is_reported (judged host doc s now row).failure_kind ≡ true
  unfolding judged
  judged_failed host doc s now row e = ground arith

  opted : (row : RunStateRow V) → is_watched row ≡ true → is_true row.error_detection ≡ true
  opted row h = ground (arith, h)

  -- What `rearm` does to a row: at most another watchdog.
  abbrev pub Rearmed : RunState → RunStateRow V → Db V → RunStateRow V × Channel V → Type 0
  Rearmed s row db (new, ch) =
      (ch.db ≡ db)
      × (new ≡ record row { watchdog_deadline = new.watchdog_deadline })
      × (is_terminal s ≡ true → new.watchdog_deadline ≡ none)
      × (is_armed new.watchdog_deadline ≡ true
          → (is_true row.error_detection ≡ true) ⊎ (new.watchdog_deadline ≡ row.watchdog_deadline))

  arm_watchdog-Rearmed :
      (host : Host V) (s : RunState) (now mono : ℕ) (row : RunStateRow V) (ch : Channel V)
      → is_terminal s ≡ false
      → is_watched row ≡ true
      → Partial (Rearmed s row ch.db) (arm_watchdog host now mono row ch)
  unfolding arm_watchdog
  arm_watchdog-Rearmed host s now mono row ch going watched =
      Partial-after (λ _. Unit {0}) (Rearmed s row ch.db) (host.watchdog_span _) _ (Partial-any _)
        λ span _.
          Partial-after (λ _. Unit {0}) (Rearmed s row ch.db) (host.add_instant mono span) _
            (Partial-any _)
            λ at _.
              Partial-after (λ _. Unit {0}) (Rearmed s row ch.db)
                (add_wall host.chrono now (span_or span 0)) _ (Partial-any _)
                λ wall _. (refl, refl, λ ended. absurd (ground arith), λ _. inl (opted row watched))

  pub rearm-Rearmed :
      (host : Host V) (s : RunState) (now mono : ℕ) (row : RunStateRow V) (ch : Channel V)
      → Partial (Rearmed s row ch.db) (rearm host s now mono row ch)
  unfolding rearm
  rearm-Rearmed host s now mono row ch =
      if_cases (Partial (Rearmed s row ch.db)) (is_terminal s)
        (λ ended. (refl, refl, λ _. refl, λ armed. absurd (ground arith)))
        (λ going.
          if_cases (Partial (Rearmed s row ch.db)) (is_watched row)
            (λ watched. arm_watchdog-Rearmed host s now mono row _ going watched)
            (λ idle. (refl, refl, λ ended. absurd (ground arith), λ _. inr refl)))

  -- The row of a reply, from what its parts keep.
  pub taken-IsReport :
      (host : Host V) (doc : ReplyDocument V) (s : RunState) (now : ℕ) (row new : RunStateRow V)
      (db : Db V) (ch : Channel V)
      → is_app_writable s ≡ true
      → regresses s row ≡ false
      → Rearmed s (taken host doc s now row) db (new, ch)
      → IsReport s row new
  unfolding taken accumulated
  taken-IsReport host doc s now row new db ch writable forward (same_db, same, ended, armed) =
      let kept = judged-Kept host doc s now (accumulated doc s now row) in
      record {
        writable = writable;
        forward = forward;
        same_run = ap (λ (r : RunStateRow V). r.run_id) same ∙ kept.0;
        same_acknowledged = ap (λ (r : RunStateRow V). r.acknowledged_logged) same ∙ kept.1;
        same_running = ap (λ (r : RunStateRow V). r.running_logged) same ∙ kept.2;
        in_state = ap (λ (r : RunStateRow V). r.state) same;
        no_pickup = ap (λ (r : RunStateRow V). r.pickup_deadline) same;
        disarmed = ended;
        opted_in = λ old is.
            ap (λ (r : RunStateRow V). is_true r.error_detection) same ∙ elim (armed is) [
              | inl opted_now ↦ opted_now
              | inr left ↦
                  ap is_true kept.4
                  ∙ detection_kept doc.error_detection row.error_detection row.watchdog_deadline old
                      (ap is_armed (sym (left ∙ kept.3)) ∙ is)
            ];
        by_app = λ e.
            ap (λ (r : RunStateRow V). is_reported r.failure_kind) same
            ∙ judged_failed host doc s now (accumulated doc s now row) e;
      }
