-- ===== src/Scheduler/Drive/Clocks.antt =====
-- The tests of the loop: is_clock_jump and next_sleep in
-- crates/bellman-core/src/scheduler/engine/drive.rs.
use bellman.Common.{
  ℕ, ◌+◌, ◌-◌, ◌*◌, ◌/◌, ◌≤◌, ◌<◌, ◌≡◌, refl, arith, true, false, leb, min, if◌then◌else◌, Option,
  none, some, List, [], ◌∷◌, i64_max,
}
use bellman.Scheduler.State.{HeapEntry}
use bellman.Scheduler.Drive.{is_clock_jump, divergence, distance, millis, next_sleep, peek_next}

-- By how much the wall clock and the monotonic clock moved apart.
abbrev pub drift : ℕ → ℕ → ℕ → ℕ → ℕ
drift last_wall wall last_mono mono = distance (wall + last_mono) (mono + last_wall)

-- The clocks of an engine that runs for less than 2^63 milliseconds, and a threshold below that.
divergence-near :
    (last_wall wall last_mono mono : ℕ)
    → last_mono ≤ mono
    → mono ≤ last_mono + i64_max * millis
    → divergence last_wall wall last_mono mono * millis
      ≤ drift last_wall wall last_mono mono + millis
unfolding divergence
divergence-near last_wall wall last_mono mono h k = ground arith

divergence-far :
    (last_wall wall last_mono mono threshold : ℕ)
    → last_mono ≤ mono
    → mono ≤ last_mono + i64_max * millis
    → threshold ≤ i64_max
    → (threshold + 2) * millis ≤ drift last_wall wall last_mono mono
    → threshold < divergence last_wall wall last_mono mono
unfolding divergence
divergence-far last_wall wall last_mono mono threshold h k small apart = ground arith

-- When the wall clock and the monotonic clock moved apart by two milliseconds less than the threshold, it is
-- no jump, to whichever side; when they moved apart by two milliseconds more, it is one. The monotonic clock
-- is assumed not to go back, and the threshold and its progress to stay below 2^63 milliseconds.
is_clock_jump-drift :
    (threshold last_wall wall last_mono mono : ℕ)
    → last_mono ≤ mono
    → mono ≤ last_mono + i64_max * millis
    → threshold ≤ i64_max * millis
    → (drift last_wall wall last_mono mono + 2 * millis ≤ threshold
        → is_clock_jump threshold last_wall wall last_mono mono ≡ false)
      × (threshold + 2 * millis ≤ drift last_wall wall last_mono mono
          → is_clock_jump threshold last_wall wall last_mono mono ≡ true)
unfolding is_clock_jump
is_clock_jump-drift threshold last_wall wall last_mono mono h k small = (
  λ near. ground (arith, divergence-near last_wall wall last_mono mono h k),
  λ far. ground (
    arith,
    divergence-far last_wall wall last_mono mono (threshold / millis) h k (omega arith)
        (omega arith),
  ),
)

-- The sleep to propose, given the head of the heap.
abbrev pub IsSleep : ℕ → ℕ → Option ℕ → ℕ → Type 0
IsSleep max_sleep now none sleep = sleep ≡ max_sleep
IsSleep max_sleep now (some fire_at) sleep =
    (sleep ≤ max_sleep)
    × (fire_at ≤ now → sleep ≡ 0)
    × (now < fire_at → now + sleep ≤ fire_at)
    × (now < fire_at → 0 < max_sleep → 0 < sleep)

IsSleep-of :
    (max_sleep now fire_at : ℕ)
    → IsSleep max_sleep now
        (some fire_at)
        (if leb fire_at now then 0 else min (fire_at - now) max_sleep)
IsSleep-of max_sleep now fire_at =
    (ground arith, λ h. ground arith, λ h. ground arith, λ h k. ground arith)

-- `next_sleep` proposes at most its limit, and no sleep past the head of the heap: none when the head is due,
-- some when it is not and the limit is not 0, and the whole limit when the heap is empty. What the loops around
-- a tick make of the proposal is not covered.
pub next_sleep-IsSleep :
    (max_sleep now : ℕ) (heap : List HeapEntry)
    → IsSleep max_sleep now (peek_next heap) (next_sleep max_sleep now heap)
unfolding next_sleep
next_sleep-IsSleep max_sleep now [] = refl
next_sleep-IsSleep max_sleep now (entry ∷ heap) = IsSleep-of max_sleep now entry.fire_at
