-- ===== src/Actions/Examples.antt =====
-- Two threads share one permit: the theorems at this run.
use bellman.Common.{◌≡◌, refl, arith, false, Steps, done, and_then}
use bellman.Actions.Limiter.{
  Threads, Step, run, finish, notify, lock_again, start, acquire, try_acquire, release, retry, new,
  admit, enqueue, dequeue,
}
use bellman.Actions.Limiter.Permits.{IsConsistent, Steps-IsConsistent}
use bellman.Actions.Limiter.Wakeups.{Progress, IsIdle, Steps-IsIdle}

-- The second thread waited, and runs now.
abbrev second_runs : Threads
second_runs = record {
  limiter = record {
    max = 1;
    in_flight = 1;
    peak_in_flight = 1;
    completed = 1;
    queue_waits = 1;
    waiters = 0;
  };
  running = 1;
  sleeping = 0;
  woken = 0;
  notifying = 0;
}

-- The first thread is in, the second waits.
abbrev one_waits : Threads
one_waits = record {
  limiter = record {
    max = 1;
    in_flight = 1;
    peak_in_flight = 1;
    completed = 0;
    queue_waits = 1;
    waiters = 1;
  };
  running = 1;
  sleeping = 1;
  woken = 0;
  notifying = 0;
}

two_arrive : Steps Step (start 1) one_waits
unfolding start new acquire admit enqueue
two_arrive = and_then (run (omega arith)) (and_then (run (omega arith)) done)

in_turn : Steps Step (start 1) second_runs
unfolding start new acquire admit enqueue release retry dequeue
in_turn = and_then (run (omega arith)) (
    and_then (run (omega arith)) (
      and_then (finish (omega arith))
        (and_then (notify (omega arith)) (and_then (lock_again (omega arith)) done))))

Steps-IsConsistent_example : IsConsistent second_runs × (1 ≡ (new 1).max)
Steps-IsConsistent_example = Steps-IsConsistent 1 second_runs (omega arith) in_turn

Steps-IsIdle_example : (t : Threads) × Steps Progress one_waits t × IsIdle t
Steps-IsIdle_example = Steps-IsIdle 1 one_waits (omega arith) two_arrive

full_refuses : try_acquire second_runs.limiter ≡ (false, second_runs.limiter)
unfolding try_acquire
full_refuses = refl
