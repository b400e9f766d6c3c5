-- ===== src/Pruner/Terminal.antt =====
-- When a one-shot timer may be deleted: crates/bellman-core/src/pruner/mod.rs.
use mathlib.Core.Option.{some-injective}
use bellman.Common.{
  fun_ext, ◌⊎◌, inl, inr, ◌<◌, ℕ, ◌+◌, ◌≤◌, ◌≡◌, refl, sym, ap, ◌∙◌, arith, Bool, true, false, ◌&&◌,
  ◌||◌, ◌==◌, not, if◌then◌else◌, ltb, leb, unwrap_or, Option, none, some, List, [], ◌∷◌,
  count_where, any_where, count-query, Call, returned, panicked,
}
use bellman.Occurrence.Chrono.{Chrono, minute}
use bellman.Occurrence.Kind.{OccurrenceKind, once, interval, daily, weekly, monthly, yearly, cron}
use bellman.Scheduler.Jitter.{max_duration}
use bellman.Store.Models.{Timer}
use bellman.Store.Ledger.{
  ClaimStatus, pending, active, finished, Ledger, RunClaim, is_unfinished, runs_for_timer,
  by_sequence,
}
use bellman.Pruner.{
  is_once, is_some, is_terminal_oneshot, past_validity, past_grace, fires_after, is_preserved,
  grace_or_minute, or, has_passed,
}

-- The end of the validity of a timer, its own or that of its schedule, has come.
abbrev pub IsPastValidity : Timer → ℕ → Type 0
IsPastValidity t now =
    (until : ℕ) × ((t.valid_until ≡ some until) ⊎ (t.occurrence.valid_until ≡ some until))
    × (until ≤ now)

-- The status of a run whose action is over.
abbrev pub is_finished : ClaimStatus → Bool
is_finished finished = true
is_finished pending = false
is_finished active = false

-- What a deletion needs.
pub record IsOver (t : Timer) (runs : Ledger) (now ack_grace : ℕ) : Type 0 where
  pub one_shot : (at : ℕ) × (t.occurrence.kind ≡ once at)
  pub no_run : count_where (λ r. (r.timer_id == t.id) && not (is_finished r.status)) runs ≡ 0
  pub no_fire_left : (at : ℕ) → t.next_fire_utc ≡ some at → (at ≤ now) × IsPastValidity t now
  pub never_fired : t.last_fired ≡ none → t.enabled ≡ true → IsPastValidity t now
  pub after_grace :
      (at : ℕ) → t.last_fired ≡ some at → ack_grace ≤ max_duration → at + ack_grace ≤ now
  pub after_minute :
      (at : ℕ) → t.last_fired ≡ some at → max_duration < ack_grace → at + minute ≤ now

passed_end :
    (now : ℕ) (until : Option ℕ)
    → has_passed now until ≡ true
    → (u : ℕ) × (until ≡ some u) × (u ≤ now)
passed_end now none h = absurd (ground arith)
passed_end now (some u) h = (u, refl, ground arith)

past_end :
    (t : Timer) (now : ℕ) (own : Bool)
    → has_passed now t.valid_until ≡ own
    → past_validity now t ≡ true
    → IsPastValidity t now
past_end t now true e h = let (u, same, le) = passed_end now t.valid_until e in (u, inl same, le)
past_end t now false e h =
    let (u, same, le) = passed_end now t.occurrence.valid_until (ground arith) in (u, inr same, le)

past-IsPastValidity : (t : Timer) (now : ℕ) → past_validity now t ≡ true → IsPastValidity t now
past-IsPastValidity t now h = past_end t now (has_passed now t.valid_until) refl h

once_at : (k : OccurrenceKind) → is_once k ≡ true → (at : ℕ) × (k ≡ once at)
once_at (once at) h = (at, refl)
once_at (interval every_secs anchor) h = absurd (ground arith)
once_at (daily at) h = absurd (ground arith)
once_at (weekly days at) h = absurd (ground arith)
once_at (monthly day at) h = absurd (ground arith)
once_at (yearly month day at) h = absurd (ground arith)
once_at (cron expr) h = absurd (ground arith)

count-any {ℓ} :
    {A : Type ℓ} (test : A → Bool) (rows : List A)
    → any_where test rows ≡ false
    → count_where test rows ≡ 0
unfolding any_where count_where
count-any test [] h = refl
count-any test (r ∷ rows) h =
    let rest : count_where test rows ≡ 0 = count-any test rows (ground arith) in ground arith

fire_over :
    (now : ℕ) (next : Option ℕ) (at : ℕ) → fires_after now next ≡ false → next ≡ some at → at ≤ now
fire_over now none at h e = absurd (ground arith)
fire_over now (some t) at h e = let same : t ≡ at = some-injective _ _ e in ground arith

none_running :
    (t : Timer) (runs : Ledger)
    → any_where is_unfinished (runs_for_timer t.id runs) ≡ false
    → count_where (λ r. (r.timer_id == t.id) && is_unfinished r) runs ≡ 0
unfolding runs_for_timer
none_running t runs h =
    let none_left : count_where is_unfinished (runs_for_timer t.id runs) ≡ 0 = count-any _ _ h in
    sym (count-query by_sequence is_unfinished (λ (r : RunClaim). r.timer_id == t.id) runs)
    ∙ none_left

unfinished_status :
    (r : RunClaim) (status : ClaimStatus)
    → r.status ≡ status
    → not (is_finished r.status) ≡ is_unfinished r
unfinished_status r pending e = ground arith
unfinished_status r active e = ground arith
unfinished_status r finished e = ground arith

unfinished_count :
    (t : Timer) (runs : Ledger)
    → count_where (λ r. (r.timer_id == t.id) && not (is_finished r.status)) runs
      ≡ count_where (λ r. (r.timer_id == t.id) && is_unfinished r) runs
unfinished_count t runs =
    ap (λ (test : RunClaim → Bool). count_where test runs)
      (fun_ext (λ r. ap (λ b. (r.timer_id == t.id) && b) (unfinished_status r r.status refl)))

-- The tests of the shapes, on the parts of a timer that they read.
past_when_fire_left :
    (next last : Bool) (past enabled : Bool)
    → next ≡ true
    → (not (last && not next) && not (not next && (past || not enabled)) && not past)
        && ((next && not last) || not (last && not next))
      ≡ false
    → past ≡ true
past_when_fire_left next last past enabled e h = ground arith

past_when_never_fired :
    (next last : Bool) (past enabled : Bool)
    → last ≡ false
    → enabled ≡ true
    → (not (last && not next) && not (not next && (past || not enabled)) && not past)
        && ((next && not last) || not (last && not next))
      ≡ false
    → past ≡ true
past_when_never_fired next last past enabled e on h = ground arith

-- The answer of a call, `false` for a panic.
abbrev answer : Call Bool → Bool
answer (returned b) = b
answer _ = false

-- A call that answers `true` has passed the early return of `false`.
passed :
    (b : Bool) (rest : Call Bool)
    → (if b then returned false else rest) ≡ returned true
    → (b ≡ false) × (rest ≡ returned true)
passed true rest h = let e : false ≡ true = ap answer h in absurd (ground arith)
passed false rest h = (refl, h)

answered_when_due :
    (late due : Bool) → answer (if late then panicked else returned due) ≡ true → due ≡ true
answered_when_due true due h = absurd (ground arith)
answered_when_due false due h = h

due_over :
    (c : Chrono) (at grace now : ℕ) → past_grace c at grace now ≡ returned true → at + grace ≤ now
due_over c at grace now h =
    let due : leb (at + grace) now ≡ true =
      answered_when_due (ltb c.last_instant (at + grace)) _ (ap answer h) in
    ground arith

grace_over :
    (c : Chrono) (last until later : Option ℕ) (grace now at : ℕ)
    → last ≡ some at
    → past_grace c (unwrap_or (or (or last until) later) now) grace now ≡ returned true
    → at + grace ≤ now
grace_over c none until later grace now at e h = absurd (ground arith)
grace_over c (some t) until later grace now at e h =
    let same : t ≡ at = some-injective _ _ e in
    let over : t + grace ≤ now = due_over c t grace now h in ground arith

-- A timer is deleted only when it is a one-shot, none of its runs is pending or active, and no fire of it
-- is in the future; a fire that is still set, or a one-shot that is enabled and never fired, is given up only
-- past an end of its validity, its own or that of its schedule; and at least the grace has gone by since its
-- last fire, for a grace that is a duration of chrono, and a minute for one that is longer.
pub is_terminal_oneshot-IsOver :
    (c : Chrono) (t : Timer) (runs : Ledger) (now ack_grace : ℕ)
    → is_terminal_oneshot c t runs now ack_grace ≡ returned true
    → IsOver t runs now ack_grace
unfolding is_terminal_oneshot
is_terminal_oneshot-IsOver c t runs now ack_grace h =
    let one_shot = passed (not (is_once t.occurrence.kind)) _ h in
    let no_run = passed (any_where is_unfinished (runs_for_timer t.id runs)) _ one_shot.1 in
    let no_fire = passed (fires_after now t.next_fire_utc) _ no_run.1 in
    let terminal = passed (is_preserved now t) _ no_fire.1 in
    let over : (at : ℕ) → t.last_fired ≡ some at → at + grace_or_minute ack_grace ≤ now = λ at e.
      grace_over c t.last_fired t.valid_until t.occurrence.valid_until (grace_or_minute ack_grace)
        now at e terminal.1 in
    record {
      one_shot = once_at t.occurrence.kind (ground (arith, one_shot.0));
      no_run = unfinished_count t runs ∙ none_running t runs no_run.0;
      no_fire_left = λ at e. (
        fire_over now t.next_fire_utc at no_fire.0 e,
        past-IsPastValidity t now (past_when_fire_left _ _ _ _ (ap is_some e) terminal.0),
      );
      never_fired = λ e on.
          past-IsPastValidity t now (past_when_never_fired _ _ _ _ (ap is_some e) on terminal.0);
      after_grace = λ at e fits. ground (arith, over at e);
      after_minute = λ at e long. ground (arith, over at e);
    }
