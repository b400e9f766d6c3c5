-- ===== src/Actions/Limiter/Wakeups.antt =====
-- No thread waits for ever because nobody wakes it.
use bellman.Common.{
  ℕ, zero, suc, ◌+◌, ◌-◌, ◌*◌, ◌<◌, ◌≤◌, ◌≡◌, arith, ℕ_discrete, Steps, done, and_then, ◌⊎◌, inl,
  inr,
}
use bellman.Actions.Limiter.{
  Threads, Step, finish, notify, lock_again, start, retry, release, usize_max, after_retry,
  after_notify,
}
use bellman.Actions.Limiter.Permits.{IsConsistent, Step-IsConsistent, Steps-IsConsistent}

-- Every thread is gone.
abbrev pub IsIdle : Threads → Type 0
IsIdle s = (s.running ≡ 0) × (s.sleeping ≡ 0) × (s.woken ≡ 0) × (s.notifying ≡ 0)

-- How much is left to do: a thread sleeps, wakes up, runs, notifies.
abbrev work : Threads → ℕ
work s = 4 * s.sleeping + 3 * s.woken + 2 * s.running + s.notifying

-- A step of a thread that is there already: an action ends, a caller notifies, or a thread that was notified
-- locks the mutex again. A condition variable that wakes a thread by itself is none of them.
pub data Progress : Threads → Threads → Type 0 where
  finishes :
      {s : Threads}
      → 0 < s.running
      → Progress s (record s {
        limiter = release s.limiter;
        running = s.running - 1;
        notifying = s.notifying + 1;
      })
  notifies : {s : Threads} → 0 < s.notifying → Progress s (after_notify s)
  locks_again : {s : Threads} → 0 < s.woken → Progress s (after_retry s (retry s.limiter))

Progress-Step : (s t : Threads) → Progress s t → Step s t
Progress-Step s t (finishes h) = finish h
Progress-Step s t (notifies h) = notify h
Progress-Step s t (locks_again h) = lock_again h

-- A step after which less is left to do.
abbrev Advance : Threads → Type 0
Advance s = (t : Threads) × Progress s t × (work t < work s)

notify-Advance : (s : Threads) → 0 < s.notifying → Advance s
notify-Advance s h = (after_notify s, notifies h, ground arith)

finish-Advance : (s : Threads) → 0 < s.running → Advance s
unfolding release
finish-Advance s h = (_, finishes h, omega arith)

work-retry :
    (s : Threads)
    → 0 < s.woken
    → s.limiter.in_flight < s.limiter.max
    → work (after_retry s (retry s.limiter)) < work s
unfolding retry
work-retry s h free = ground arith

-- Some thread can move on, or all are gone.
advance : (s : Threads) → IsConsistent s → Advance s ⊎ IsIdle s
advance s ok = elim (ℕ_discrete s.notifying 0) [
  | no more ↦ inl (notify-Advance s (ground arith))
  | yes n ↦ elim (ℕ_discrete s.running 0) [
    | no more ↦ inl (finish-Advance s (ground arith))
    | yes r ↦ elim (ℕ_discrete s.woken 0) [
      | no more ↦ inl (_, locks_again (ground arith), work-retry s (ground arith) (ground arith))
      | yes w ↦ inr (ground arith)
    ]
  ]
]

drain_within :
    (k : ℕ) (s : Threads)
    → IsConsistent s
    → work s ≤ k
    → (t : Threads) × Steps Progress s t × IsIdle t
drain_within zero s ok h = elim (advance s ok) [
  | inr idle ↦ (s, done, idle)
  | inl (t, step, less) ↦ absurd (omega arith)
]
drain_within (suc k) s ok h = elim (advance s ok) [
  | inr idle ↦ (s, done, idle)
  | inl (t, step, less) ↦
      let (u, rest, idle) =
        drain_within k t (Step-IsConsistent s t (Progress-Step s t step) ok) (omega arith) in
      (u, and_then step rest, idle)
]

-- Whatever the threads did, nobody is stuck for want of a notification: from there they can all get their
-- permit, run, and leave, by steps of their own, without a new caller and without a condition variable that
-- wakes a thread by itself. The cap is a usize.
pub Steps-IsIdle :
    (n : ℕ) (s : Threads)
    → n ≤ usize_max
    → Steps Step (start n) s
    → (t : Threads) × Steps Progress s t × IsIdle t
Steps-IsIdle n s h steps = drain_within (work s) s (Steps-IsConsistent n s h steps).0 (omega arith)
