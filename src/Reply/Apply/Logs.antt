-- ===== src/Reply/Apply/Logs.antt =====
-- What the accept path logs: `apply` of crates/bellman-core/src/reply/engine.rs.
use bellman.Common.{
  ℕ, ◌≡◌, refl, sym, ap, ◌∙◌, subst, arith, true, false, not, ◌&&◌, ◌||◌, if_cases, Option, none,
  some, List, [], ◌∷◌, String, Steps, Steps_trans, done, and_then,
}
use bellman.Events.Record.{RunState, EventRecord, Json, with_duration_ms, is_terminal}
use bellman.Store.Ledger.{RunClaim}
use bellman.Store.Models.{Timer}
use bellman.Store.RunStates.{RunStateRow, Db, is_armed, update_run_state, enqueue_event}
use bellman.Reply.Document.{ReplyDocument}
use bellman.Reply.Engine.{Host, Channel, duration_ms, duration_from}
use bellman.Reply.Apply.{log_and_write}
use bellman.Reply.Lines.{
  is_acknowledged, is_running, is_completed, log_acknowledged, log_running, log_verdict,
  acknowledged_event, verdict_event, with_members, with_reason, entry_of, run_event, in_state,
}
use bellman.Reply.Moves.{Move, acknowledges, starts, logs, digests}

ended_quiet : (s : RunState) → is_terminal s ≡ true → is_acknowledged s || is_running s ≡ false
ended_quiet s ended = ground arith

module _ {V : Type 0} where
  closing :
      (s : RunState) (e : EventRecord V)
      → e.kind ≡ s
      → is_terminal s ≡ true
      → is_acknowledged e.kind || is_running e.kind ≡ false
  closing s e same ended = ap (λ k. is_acknowledged k || is_running k) same ∙ ended_quiet s ended

  -- The lines of the accept path.
  abbrev Lines : RunStateRow V → Db V → RunStateRow V × Channel V → Type 0
  Lines row db (new, ch) = Steps Move (row, db) (new, ch.db)

  log_acknowledged-Lines :
      (host : Host V) (t : Timer) (claim : RunClaim) (now : ℕ) (row : RunStateRow V)
      (ch : Channel V)
      → Lines row ch.db (log_acknowledged host t claim now row ch)
  unfolding log_acknowledged acknowledged_event
  log_acknowledged-Lines host t claim now row ch =
      if_cases (Lines row ch.db) (not row.acknowledged_logged && is_armed row.acknowledged_at)
        (λ new. and_then (acknowledges _ refl refl (ground arith)) done) (λ old. done)

  log_running-Lines :
      (host : Host V) (t : Timer) (claim : RunClaim) (doc : ReplyDocument V) (s : RunState)
      (now : ℕ) (row : RunStateRow V) (ch : Channel V)
      → Lines row ch.db (log_running host t claim doc s now row ch)
  unfolding log_running
  log_running-Lines host t claim doc s now row ch =
      if_cases (Lines row ch.db) (is_running s && not row.running_logged)
        (λ new. and_then (starts _ refl refl (ground arith)) done) (λ old. done)

  abbrev Names : RunState → ℕ → EventRecord V → Type 0
  Names s run_id e = (e.kind ≡ s) × (e.run_id ≡ some run_id)

  with_members-Names :
      (s : RunState) (run_id : ℕ) (json : Json V) (members : List (String × V)) (e : EventRecord V)
      → Names s run_id e
      → Names s run_id (with_members json members e)
  with_members-Names s run_id json [] e h = h
  with_members-Names s run_id json (m ∷ members) e h = h

  with_reason-Names :
      (s : RunState) (run_id : ℕ) (reason : Option String) (e : EventRecord V)
      → Names s run_id e
      → Names s run_id (with_reason reason e)
  with_reason-Names s run_id none e h = h
  with_reason-Names s run_id (some r) e h = h

  duration_from-db :
      (host : Host V) (run_id fired_at now : ℕ) (ch : Channel V) (anchor : Option ℕ)
      → (duration_from host run_id fired_at now ch anchor).2.db ≡ ch.db
  duration_from-db host run_id fired_at now ch none = refl
  duration_from-db host run_id fired_at now ch (some at) = refl

  pub duration_ms-db :
      (host : Host V) (run_id fired_at now : ℕ) (ch : Channel V)
      → (duration_ms host run_id fired_at now ch).2.db ≡ ch.db
  unfolding duration_ms
  duration_ms-db host run_id fired_at now ch = duration_from-db host run_id fired_at now ch _

  -- The line of a verdict names its run and its state.
  verdict_event-kind :
      (host : Host V) (t : Timer) (claim : RunClaim) (doc : ReplyDocument V) (s : RunState)
      (now : ℕ) (row : RunStateRow V) (ms : ℕ) (source : Option String)
      → ((verdict_event host t claim doc s now row ms source).kind ≡ s)
        × ((verdict_event host t claim doc s now row ms source).run_id ≡ some row.run_id)
  unfolding verdict_event
  verdict_event-kind host t claim doc s now row ms source =
      let origin = entry_of "duration_source" host.json.text source in
      let base = with_duration_ms ms (run_event s host.utc_now t claim row.run_id) in
      if_cases (Names s row.run_id) (is_completed s)
        (λ e. with_members-Names s row.run_id host.json _ _ (refl, refl))
        (λ e.
          with_members-Names s row.run_id host.json _ _
            (with_reason-Names s row.run_id row.reason base (refl, refl)))

  log_verdict-Lines :
      (host : Host V) (t : Timer) (claim : RunClaim) (doc : ReplyDocument V) (cur : Option RunState)
      (s : RunState) (now : ℕ) (row : RunStateRow V) (ch : Channel V)
      → Lines row ch.db (row, log_verdict host t claim doc cur s now row ch)
  unfolding log_verdict
  log_verdict-Lines host t claim doc cur s now row ch =
      if_cases (λ (c : Channel V). Lines row ch.db (row, c)) (is_terminal s && not (in_state cur s))
        (λ new.
          let timed = duration_ms host row.run_id row.fired_at now ch in
          let event = verdict_event host t claim doc s now row timed.0 timed.1 in
          let names = verdict_event-kind host t claim doc s now row timed.0 timed.1 in
          subst (λ db. Steps Move (row, ch.db) (row, enqueue_event event db))
            (sym (duration_ms-db host row.run_id row.fired_at now ch))
            (and_then (logs event (closing s event names.0 (ground arith)) names.1) done))
        (λ old. done)

  -- The lines leave the state and the estimate.
  abbrev Same : RunStateRow V → RunStateRow V × Channel V → Type 0
  Same row (new, ch) = (new.state ≡ row.state) × (new.expected_secs ≡ row.expected_secs)

  log_acknowledged-Same :
      (host : Host V) (t : Timer) (claim : RunClaim) (now : ℕ) (row : RunStateRow V)
      (ch : Channel V)
      → Same row (log_acknowledged host t claim now row ch)
  unfolding log_acknowledged
  log_acknowledged-Same host t claim now row ch =
      if_cases (Same row) (not row.acknowledged_logged && is_armed row.acknowledged_at)
        (λ new. (refl, refl)) (λ old. (refl, refl))

  log_running-Same :
      (host : Host V) (t : Timer) (claim : RunClaim) (doc : ReplyDocument V) (s : RunState)
      (now : ℕ) (row : RunStateRow V) (ch : Channel V)
      → Same row (log_running host t claim doc s now row ch)
  unfolding log_running
  log_running-Same host t claim doc s now row ch =
      if_cases (Same row) (is_running s && not row.running_logged) (λ new. (refl, refl))
        (λ old. (refl, refl))

  pub log_and_write-Lines :
      (host : Host V) (t : Timer) (claim : RunClaim) (doc : ReplyDocument V) (cur : Option RunState)
      (s : RunState) (digest : String) (now : ℕ) (row : RunStateRow V) (ch : Channel V)
      → (new : RunStateRow V) × (after : Db V) × Steps Move (row, ch.db) (new, after)
        × ((log_and_write host t claim doc cur s digest now row ch).db ≡ update_run_state new after)
        × (new.reply_digest ≡ some digest)
        × (new.state ≡ row.state)
        × (new.expected_secs ≡ row.expected_secs)
  unfolding log_and_write
  log_and_write-Lines host t claim doc cur s digest now row ch =
      let one = log_acknowledged host t claim now row ch in
      let two = log_running host t claim doc s now one.0 one.1 in
      let three = log_verdict host t claim doc cur s now two.0 two.1 in
      (
        record two.0 { reply_digest = some digest },
        three.db,
        Steps_trans (log_acknowledged-Lines host t claim now row ch) (
            Steps_trans (log_running-Lines host t claim doc s now one.0 one.1) (
              Steps_trans (log_verdict-Lines host t claim doc cur s now two.0 two.1)
                (and_then (digests digest) done))),
        refl,
        refl,
        (log_running-Same host t claim doc s now one.0 one.1).0
            ∙ (log_acknowledged-Same host t claim now row ch).0,
        (log_running-Same host t claim doc s now one.0 one.1).1
            ∙ (log_acknowledged-Same host t claim now row ch).1,
      )
