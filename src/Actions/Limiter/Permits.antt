-- ===== src/Actions/Limiter/Permits.antt =====
-- The counters of the limiter agree with the threads, and the cap holds.
use bellman.Common.{ℕ, ◌+◌, ◌-◌, ◌<◌, ◌≤◌, ◌≡◌, refl, ◌∙◌, arith, Steps, Steps-invariant}
use bellman.Actions.Limiter.{
  Threads, Step, run, try_run, finish, notify, wake_spuriously, lock_again, reset, start, acquire,
  try_acquire, retry, release, reset_stats, admit, enqueue, dequeue, new, usize_max, after_acquire,
  after_try, after_retry, after_notify,
}

-- The permits are those of the running threads and within the cap, the waiters are the threads that
-- wait, and no wake-up is lost: while a thread sleeps, every permit is taken, or a thread is about to
-- look for one or to wake another.
abbrev pub IsConsistent : Threads → Type 0
IsConsistent s =
    (1 ≤ s.limiter.max)
    × (s.limiter.max ≤ usize_max)
    × (s.limiter.in_flight ≡ s.running)
    × (s.limiter.in_flight ≤ s.limiter.max)
    × (s.limiter.in_flight ≤ s.limiter.peak_in_flight)
    × (s.limiter.peak_in_flight ≤ s.limiter.max)
    × (s.limiter.waiters ≡ s.sleeping + s.woken)
    × (0 < s.sleeping → s.limiter.max ≤ s.limiter.in_flight + s.woken + s.notifying)

start-IsConsistent : (n : ℕ) → n ≤ usize_max → IsConsistent (start n)
unfolding start new
start-IsConsistent n h = ground arith

run-IsConsistent :
    (s : Threads)
    → s.sleeping + s.woken < usize_max
    → IsConsistent s
    → IsConsistent (after_acquire s (acquire s.limiter))
unfolding acquire admit enqueue
run-IsConsistent s h ok = ground arith

try_run-IsConsistent :
    (s : Threads) → IsConsistent s → IsConsistent (after_try s (try_acquire s.limiter))
unfolding try_acquire admit
try_run-IsConsistent s ok = ground arith

finish-IsConsistent :
    (s : Threads)
    → 0 < s.running
    → IsConsistent s
    → IsConsistent (record s {
      limiter = release s.limiter;
      running = s.running - 1;
      notifying = s.notifying + 1;
    })
unfolding release
finish-IsConsistent s h ok = ground arith

notify-IsConsistent :
    (s : Threads) → 0 < s.notifying → IsConsistent s → IsConsistent (after_notify s)
notify-IsConsistent s h ok = ground arith

wake-IsConsistent :
    (s : Threads)
    → 0 < s.sleeping
    → IsConsistent s
    → IsConsistent (record s { sleeping = s.sleeping - 1; woken = s.woken + 1 })
wake-IsConsistent s h ok = ground arith

lock_again-IsConsistent :
    (s : Threads) → 0 < s.woken → IsConsistent s → IsConsistent (after_retry s (retry s.limiter))
unfolding retry admit dequeue
lock_again-IsConsistent s h ok = ground arith

reset-IsConsistent :
    (s : Threads) → IsConsistent s → IsConsistent (record s { limiter = reset_stats s.limiter })
unfolding reset_stats
reset-IsConsistent s ok = ground arith

pub Step-IsConsistent : (s t : Threads) → Step s t → IsConsistent s → IsConsistent t
Step-IsConsistent s t (run h) ok = run-IsConsistent s h ok
Step-IsConsistent s t try_run ok = try_run-IsConsistent s ok
Step-IsConsistent s t (finish h) ok = finish-IsConsistent s h ok
Step-IsConsistent s t (notify h) ok = notify-IsConsistent s h ok
Step-IsConsistent s t (wake_spuriously h) ok = wake-IsConsistent s h ok
Step-IsConsistent s t (lock_again h) ok = lock_again-IsConsistent s h ok
Step-IsConsistent s t reset ok = reset-IsConsistent s ok

Step-max : (s t : Threads) → Step s t → t.limiter.max ≡ s.limiter.max
unfolding acquire try_acquire retry release reset_stats admit enqueue dequeue
Step-max s t (run h) = ground arith
Step-max s t try_run = ground arith
Step-max s t (finish h) = refl
Step-max s t (notify h) = ground arith
Step-max s t (wake_spuriously h) = refl
Step-max s t (lock_again h) = ground arith
Step-max s t reset = refl

-- However threads run actions, try to, wait, wake up and finish, the cap stays that of `new`, the actions
-- in flight are those that run, they and their recorded peak never pass the cap, the waiters are the
-- threads that wait, and while one of them sleeps with a permit free, another thread is awake to take it
-- or about to notify. The cap is a usize.
pub Steps-IsConsistent :
    (n : ℕ) (s : Threads)
    → n ≤ usize_max
    → Steps Step (start n) s
    → IsConsistent s × (s.limiter.max ≡ (new n).max)
unfolding start
Steps-IsConsistent n s h steps = (
  Steps-invariant Step-IsConsistent steps (start-IsConsistent n h),
  Steps-invariant {P = λ t. t.limiter.max ≡ (new n).max} (λ s t step same. Step-max s t step ∙ same)
      steps refl,
)
