-- ===== src/Scheduler/State/Reaches.antt =====
-- What a step of the engine does to the store: it goes through the store's own transactions.
use bellman.Common.{
  ℕ, ◌+◌, ◌≡◌, refl, sym, ◌∙◌, subst, Option, none, some, OnSome, Steps, panicked, out_of_fuel,
  done, and_then, Steps_trans, returned, Call,
}
use bellman.Common.Results.{Result, ok, err, Effect, after}
use bellman.Common.Meets.{Meets, Partial, OnOk, IsPreorder}
use bellman.Occurrence.Chrono.{Chrono}
use bellman.Store.Ledger.Keys.{Write}
use bellman.Store.Models.{Timer, TimerUpdate}
use bellman.Store.Timers
use bellman.Store.Timers.{Timers, StoreResult, get_timer}
use bellman.Store.Timers.Updates.{KeptOnError, update_timer_kept}
use bellman.Store.Timers.Rows.{Edit, updates, get_timer-id}
use bellman.Scheduler.State.{
  World, Scheduler, SchedulerError, HeapEntry, lift_store, draw, read_timer, write_timer, push,
}

-- The tables after the step are those before it with transactions of the store applied, and the engine is
-- paused as before.
pub record Reaches {A : Type 0} (c : Chrono) (s t : Scheduler A) : Type 0 where
  pub timers : Steps (Edit c) s.timers t.timers
  pub runs : Steps Write s.runs t.runs
  pub paused : t.pause_all ≡ s.pause_all

-- Any result.
abbrev pub Any {ℓ} : {X : Type ℓ} → X → Type 0
Any x = Unit

pub Reaches-IsPreorder : {A : Type 0} (c : Chrono) → IsPreorder (Reaches {A = A} c)
Reaches-IsPreorder c = record {
  same = λ s. record { timers = done; runs = done; paused = refl };
  trans = λ s t u p q. record {
    timers = Steps_trans p.timers q.timers;
    runs = Steps_trans p.runs q.runs;
    paused = q.paused ∙ p.paused;
  };
}

module _ {A : Type 0} (w : World A) where
  -- Changes one after the other.
  pub pre : IsPreorder (Reaches {A = A} w.chrono)
  pre = Reaches-IsPreorder w.chrono

  -- An effect of the engine, its changes to the store and its result.
  abbrev pub Does {ℓ κ} :
      {X : Type ℓ} → (X → Type κ) → Effect SchedulerError (Scheduler A) X → Type κ
  Does Q m = Meets (Reaches w.chrono) Q m

  pub draw-Does {ℓ} : {X : Type ℓ} (f : ℕ → X) → Does Any (draw w f)
  unfolding draw
  draw-Does f = record { meets = λ s. (record { timers = done; runs = done; paused = refl }, tt) }

  id_found :
      (id : ℕ) (rows : Timers) (o : Option Timer)
      → get_timer id rows ≡ o
      → OnSome (λ (t : Timer). t.id ≡ id) o
  id_found id rows none h = tt
  id_found id rows (some t) h = get_timer-id id rows t h

  pub read_timer-Does : (id : ℕ) → Does (OnSome (λ (t : Timer). t.id ≡ id)) (read_timer w id)
  unfolding read_timer
  read_timer-Does id = record {
    meets =
        λ s. (record { timers = done; runs = done; paused = refl }, id_found id s.timers _ refl);
  }

  pub push-Does : (entry : HeapEntry) → Does Any (push w entry)
  unfolding push
  push-Does entry = record {
    meets = λ s. (record { timers = done; runs = done; paused = refl }, tt);
  }

  written :
      (u : TimerUpdate) (s : Scheduler A) (m : Call (StoreResult Timer × Timers))
      → Timers.update_timer w.chrono (w.utc s.reads) u s.timers ≡ m
      → Partial (KeptOnError s.timers) m
      → Partial
          (λ (r : Result SchedulerError Timer × Scheduler A). Reaches w.chrono s r.1 × OnOk Any r.0)
          (after m λ (r, timers).
            returned (lift_store r, record s { timers = timers; reads = s.reads + 1 }))
  written u s (returned (ok t, rows)) e k = (
    record { timers = and_then (updates (w.utc s.reads) u e) done; runs = done; paused = refl },
    tt,
  )
  written u s (returned (err x, rows)) e k = (
    record {
      timers = subst (λ q. Steps (Edit w.chrono) s.timers q) (sym k) done;
      runs = done;
      paused = refl;
    },
    tt,
  )
  written u s panicked e k = tt
  written u s out_of_fuel e k = tt

  pub write_timer-Does : (u : TimerUpdate) → Does Any (write_timer w u)
  unfolding write_timer
  write_timer-Does u = record {
    meets = λ s. written u s _ refl (update_timer_kept w.chrono (w.utc s.reads) u s.timers);
  }
