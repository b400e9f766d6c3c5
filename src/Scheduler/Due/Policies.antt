-- ===== src/Scheduler/Due/Policies.antt =====
-- What the misfire policies deliver: handle_due_timer in
-- crates/bellman-core/src/scheduler/engine/delivery.rs.
use bellman.Common.{
  ℕ, ◌≤◌, ◌≡◌, refl, sym, ap, subst, arith, true, false, ltb, Option, none, some, List, [], OnSome,
  ltb→le, ◌<◌,
}
use bellman.Common.Results.{Result, ◌>>=◌}
use bellman.Common.Meets.{Meets-done, Meets->>=, Meets-if, Meets-mono, Partial, OnOk}
use bellman.Store.Models.{Timer, MisfirePolicy, skip, coalesce, catch_up}
use bellman.Store.Timers.{get_timer}
use bellman.Scheduler.Misfire.{saturating_secs, grace_for, grace_of}
use bellman.Scheduler.State.{World, Scheduler, SchedulerError, DeliveredFire, read_timer}
use bellman.Scheduler.State.Reaches.{Reaches, pre, Any, Does, read_timer-Does}
use bellman.Scheduler.Horizon.Requeues.{push_if_in_horizon-Does}
use bellman.Scheduler.Due.{
  handle_catch_up, handle_policy, handle_at, handle_found, handle_due_timer,
}
use bellman.Scheduler.Due.Timely.{AreTimely, handle_skip-Does, handle_coalesce-Does}
use bellman.Scheduler.Due.Bursts.{handle_catch_up-Does}

-- The most fires that a policy delivers at once.
abbrev pub most : MisfirePolicy → ℕ
most skip = 1
most (coalesce grace) = 1
most (catch_up grace max) = max

catch_up_grace :
    (t : Timer) (grace max : ℕ)
    → t.misfire ≡ catch_up grace max
    → grace_for t ≡ saturating_secs grace
unfolding grace_for grace_of
catch_up_grace t grace max same = ap (λ policy. grace_of policy t.occurrence.kind) same

-- What may be delivered for a timer as stored: nothing for one that is missing, paused, exhausted or not yet
-- due, and otherwise timely fires, as many as its policy admits.
abbrev pub IsAllowed : ℕ → Option Timer → List DeliveredFire → Type 0
IsAllowed now none fires = fires ≡ []
IsAllowed now (some t) fires =
    AreTimely t.id now (grace_for t) (most t.misfire) fires
    × (t.enabled ≡ false → fires ≡ [])
    × (OnSome (λ next. now < next) t.next_fire_utc → fires ≡ [])

module _ {A : Type 0} (w : World A) where
  handle_policy-Does :
      (policy : MisfirePolicy) (t : Timer) (slot now : ℕ)
      → t.misfire ≡ policy
      → slot ≤ now
      → Does w (AreTimely t.id now (grace_for t) (most policy)) (handle_policy w policy t slot now)
  unfolding handle_policy
  handle_policy-Does skip t slot now same due = handle_skip-Does w t slot now due
  handle_policy-Does (coalesce grace) t slot now same due = handle_coalesce-Does w t slot now due
  handle_policy-Does (catch_up grace max) t slot now same due =
      subst (λ (g : ℕ). Does w (AreTimely t.id now g max) (handle_catch_up w grace max t slot now))
        (sym (catch_up_grace t grace max same)) (handle_catch_up-Does w grace max t slot now)

  none-IsAllowed : (now : ℕ) (t : Timer) → IsAllowed now (some t) []
  none-IsAllowed now t = ((tt, omega arith), λ h. refl, λ h. refl)

  not_later :
      (now slot : ℕ) (next : Option ℕ)
      → next ≡ some slot
      → slot ≤ now
      → ¬ OnSome (λ n. now < n) next
  not_later now slot none e due later = cc
  not_later now slot (some nf) e due later = ground arith

  handle_at-Does :
      (now : ℕ) (t : Timer) (next : Option ℕ)
      → t.enabled ≡ true
      → t.next_fire_utc ≡ next
      → Does w (IsAllowed now (some t)) (handle_at w now t next)
  unfolding handle_at
  handle_at-Does now t none on e = Meets-done (pre w) [] (none-IsAllowed now t)
  handle_at-Does now t (some slot) on e =
      Meets-if (ltb now slot)
        (λ h.
          Meets->>= (pre w) (push_if_in_horizon-Does w slot t.id)
            λ _ _. Meets-done (pre w) [] (none-IsAllowed now t))
        (λ h.
          let due = ltb→le now slot h in
          Meets-mono (IsAllowed now (some t)) (handle_policy-Does t.misfire t slot now refl due)
            (λ fires all.
              (all, λ off. cc, λ later. absurd (not_later now slot t.next_fire_utc e due later))))

  handle_found-Does : (now : ℕ) (o : Option Timer) → Does w (IsAllowed now o) (handle_found w now o)
  unfolding handle_found
  handle_found-Does now none = Meets-done (pre w) [] refl
  handle_found-Does now (some t) =
      Meets-if t.enabled (λ on. handle_at-Does now t t.next_fire_utc on refl)
        (λ off. Meets-done (pre w) [] (none-IsAllowed now t))

  pub handle_due_timer-Does :
      (timer_id hint now : ℕ) → Does w Any (handle_due_timer w timer_id hint now)
  unfolding handle_due_timer
  handle_due_timer-Does timer_id hint now =
      Meets->>= (pre w) (read_timer-Does w timer_id)
        λ o _. Meets-mono Any (handle_found-Does now o) (λ _ _. tt)

  -- Handling a due timer delivers nothing for a timer that is missing, paused, exhausted or not yet due. For
  -- any other it delivers fires of that timer alone, each at a slot that has come and at most the grace
  -- window ago, one at most under skip and coalesce and at most `max_catch_up` under catch-up. The tables
  -- change by transactions of the store only, also when it fails.
  pub handle_due_timer-IsAllowed :
      (timer_id hint now : ℕ) (s : Scheduler A)
      → Partial
          (λ (r : Result SchedulerError (List DeliveredFire) × Scheduler A).
            Reaches w.chrono s r.1 × OnOk (IsAllowed now (get_timer timer_id s.timers)) r.0)
          (handle_due_timer w timer_id hint now s)
  unfolding handle_due_timer read_timer ◌>>=◌
  handle_due_timer-IsAllowed timer_id hint now s =
      (handle_found-Does now (get_timer timer_id s.timers)).meets s
