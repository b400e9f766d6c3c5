-- ===== src/Actions/Limiter.antt =====
-- The limiter of concurrent actions: crates/bellman-core/src/actions/concurrency.rs. The code under the
-- mutex is one function for each critical section, and `Step` interleaves those of all threads.
pub mod Permits
pub mod Wakeups
use bellman.Common.{
  ℕ, suc, ◌+◌, ◌-◌, ◌<◌, ◌≡◌, Bool, true, false, leb, ltb, if◌then◌else◌, u64_max, saturating_add,
}

-- A `usize` of 64 bits.
abbrev pub usize_max : ℕ
usize_max = u64_max

-- `ActionLimiter` with its `LimiterInner`.
pub record ActionLimiter : Type 0 where
  pub max : ℕ
  pub in_flight : ℕ
  pub peak_in_flight : ℕ
  pub completed : ℕ
  pub queue_waits : ℕ
  pub waiters : ℕ

pub record LimiterStats : Type 0 where
  pub peak_in_flight : ℕ
  pub completed : ℕ
  pub queue_waits : ℕ

-- `ActionLimiter::new`.
unfoldable pub new : ℕ → ActionLimiter
new max_concurrent = record {
  max = if leb 1 max_concurrent then max_concurrent else 1;
  in_flight = 0;
  peak_in_flight = 0;
  completed = 0;
  queue_waits = 0;
  waiters = 0;
}

-- The test of `acquire` and `try_acquire`.
abbrev pub is_full : ActionLimiter → Bool
is_full l = leb l.max l.in_flight

-- The end of `acquire` and `try_acquire`: a permit is taken.
unfoldable pub admit : ActionLimiter → ActionLimiter
admit l =
    let now = saturating_add usize_max l.in_flight 1 in
    record l {
      in_flight = now;
      peak_in_flight = if ltb l.peak_in_flight now then now else l.peak_in_flight;
    }

-- The start of `acquire` for a caller that has to wait, up to its first `wait`.
unfoldable pub enqueue : ActionLimiter → ActionLimiter
enqueue l = record l {
  queue_waits = saturating_add usize_max l.queue_waits 1;
  waiters = saturating_add usize_max l.waiters 1;
}

-- A caller leaves the loop of `acquire`.
unfoldable pub dequeue : ActionLimiter → ActionLimiter
dequeue l = record l { waiters = l.waiters - 1 }

-- What the first critical section of `acquire` does: admitted, or waiting.
unfoldable pub acquire : ActionLimiter → Bool × ActionLimiter
unfolding enqueue admit
acquire l = if is_full l then (false, enqueue l) else (true, admit l)

-- What a caller does after `wait` returns: admitted, or waiting again.
unfoldable pub retry : ActionLimiter → Bool × ActionLimiter
unfolding dequeue admit
retry l = if is_full l then (false, l) else (true, admit (dequeue l))

unfoldable pub try_acquire : ActionLimiter → Bool × ActionLimiter
unfolding admit
try_acquire l = if is_full l then (false, l) else (true, admit l)

-- `release`, up to its `notify_one`.
unfoldable pub release : ActionLimiter → ActionLimiter
release l = record l {
  in_flight = l.in_flight - 1;
  completed = saturating_add usize_max l.completed 1;
}

unfoldable pub stats : ActionLimiter → LimiterStats
stats l = record {
  peak_in_flight = l.peak_in_flight;
  completed = l.completed;
  queue_waits = l.queue_waits;
}

unfoldable pub reset_stats : ActionLimiter → ActionLimiter
reset_stats l = record l { peak_in_flight = l.in_flight; completed = 0; queue_waits = 0 }

-- All threads at the limiter: those that run their action under a permit, those in `wait`, those that
-- woke up and have not locked the mutex again, and those that are about to call `notify_one`.
pub record Threads : Type 0 where
  pub limiter : ActionLimiter
  pub running : ℕ
  pub sleeping : ℕ
  pub woken : ℕ
  pub notifying : ℕ

unfoldable pub start : ℕ → Threads
unfolding new
start max_concurrent = record {
  limiter = new max_concurrent;
  running = 0;
  sleeping = 0;
  woken = 0;
  notifying = 0;
}

-- What the outcome of `acquire` or `try_acquire` means for the thread, then that of `retry`.
abbrev pub after_acquire : Threads → Bool × ActionLimiter → Threads
after_acquire s (true, l) = record s { limiter = l; running = s.running + 1 }
after_acquire s (false, l) = record s { limiter = l; sleeping = s.sleeping + 1 }

abbrev pub after_try : Threads → Bool × ActionLimiter → Threads
after_try s (true, l) = record s { limiter = l; running = s.running + 1 }
after_try s (false, l) = record s { limiter = l }

abbrev pub after_retry : Threads → Bool × ActionLimiter → Threads
after_retry s (true, l) = record s { limiter = l; woken = s.woken - 1; running = s.running + 1 }
after_retry s (false, l) = record s { limiter = l; woken = s.woken - 1; sleeping = s.sleeping + 1 }

-- `notify_one` wakes a thread if one waits.
abbrev pub after_notify : Threads → Threads
after_notify s =
    if ltb 0 s.sleeping
    then record s { notifying = s.notifying - 1; sleeping = s.sleeping - 1; woken = s.woken + 1 }
    else record s { notifying = s.notifying - 1 }

-- A step of some thread inside `run` or `try_run`. An action ends the same way with a result and with a
-- panic, since `catch_unwind` comes before `release`. A condition variable may also wake a thread that
-- nobody notified. Fewer than 2^64 threads wait.
pub data Step : Threads → Threads → Type 0 where
  run :
      {s : Threads}
      → s.sleeping + s.woken < usize_max
      → Step s (after_acquire s (acquire s.limiter))
  try_run : {s : Threads} → Step s (after_try s (try_acquire s.limiter))
  finish :
      {s : Threads}
      → 0 < s.running
      → Step s (record s {
        limiter = release s.limiter;
        running = s.running - 1;
        notifying = s.notifying + 1;
      })
  notify : {s : Threads} → 0 < s.notifying → Step s (after_notify s)
  wake_spuriously :
      {s : Threads}
      → 0 < s.sleeping
      → Step s (record s { sleeping = s.sleeping - 1; woken = s.woken + 1 })
  lock_again : {s : Threads} → 0 < s.woken → Step s (after_retry s (retry s.limiter))
  reset : {s : Threads} → Step s (record s { limiter = reset_stats s.limiter })
