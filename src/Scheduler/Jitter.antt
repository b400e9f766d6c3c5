-- ===== src/Scheduler/Jitter.antt =====
-- Jitter and accuracy slack of a fire: crates/bellman-core/src/scheduler/jitter.rs. The hash of the
-- standard library, a u64, is an argument; durations are in nanoseconds.
use bellman.Common.{
  ℕ, ◌+◌, ◌-◌, ◌*◌, ◌%◌, ◌≤◌, ◌≡◌, arith, Bool, true, false, ltb, leb, ◌==◌, ◌||◌, if◌then◌else◌,
  Option, none, some, i64_max, Call, returned, panicked, Ensures, Ensures-if, returns, panics,
}
use bellman.Occurrence.Chrono.{Chrono, second}
use bellman.Occurrence.Kind.{OccurrenceKind, interval}

-- The offset is `jitter_rem` - `jitter_secs`; with no jitter both are 0. The span of a u32 fits an i64.
unfoldable pub jitter_rem : ℕ → ℕ → ℕ
jitter_rem raw jitter_secs = if jitter_secs == 0 then 0 else raw % (jitter_secs * 2 + 1)

-- `fire_at + offset`, where chrono panics outside its range; `raw` is the hash of the timer and `fire_at`.
unfoldable pub apply_execution_jitter : Chrono → ℕ → ℕ → ℕ → Call ℕ
apply_execution_jitter c raw fire_at jitter_secs =
    let forward = fire_at + jitter_rem raw jitter_secs * second in
    let back = jitter_secs * second in
    if ltb forward back || ltb c.last_instant (forward - back)
    then panicked
    else returned (forward - back)

abbrev pub high_freq_period_secs : ℕ
high_freq_period_secs = 300

abbrev pub is_high_frequency : OccurrenceKind → Bool
is_high_frequency (interval every_secs anchor) = ltb every_secs high_freq_period_secs
is_high_frequency _ = false

unfoldable pub accuracy_slack_for : Option ℕ → OccurrenceKind → ℕ → ℕ
accuracy_slack_for (some s) kind global_default = s * second
accuracy_slack_for none kind global_default = if is_high_frequency kind then global_default else 0

-- The longest duration of chrono, 2^63 - 1 milliseconds.
abbrev pub max_duration : ℕ
max_duration = i64_max * 1000000

unfoldable pub is_due_with_accuracy : Chrono → ℕ → ℕ → ℕ → Call Bool
is_due_with_accuracy c fire_at now slack =
    let due = now + (if leb slack max_duration then slack else 0) in
    if ltb c.last_instant due then panicked else returned (leb fire_at due)

-- No further from the fire than the jitter, to either side.
abbrev pub IsNear : ℕ → ℕ → ℕ → Type 0
IsNear fire_at jitter_secs at =
    (fire_at ≤ at + jitter_secs * second) × (at ≤ fire_at + jitter_secs * second)

jitter_rem-bound : (raw jitter_secs : ℕ) → jitter_rem raw jitter_secs ≤ jitter_secs * 2
unfolding jitter_rem
jitter_rem-bound raw jitter_secs = ground arith

-- Whatever the hash is, the execution of a fire lies within its jitter of the fire on either side, and a
-- timer without jitter is executed at its fire.
apply_execution_jitter-Ensures :
    (c : Chrono) (raw fire_at jitter_secs : ℕ)
    → Ensures (IsNear fire_at jitter_secs) (apply_execution_jitter c raw fire_at jitter_secs)
unfolding apply_execution_jitter
apply_execution_jitter-Ensures c raw fire_at jitter_secs =
    let forward = fire_at + jitter_rem raw jitter_secs * second in
    let back = jitter_secs * second in
    Ensures-if _ (ltb forward back || ltb c.last_instant (forward - back)) (λ h. panics)
      (λ h. returns {a = forward - back} (ground (arith, jitter_rem-bound raw jitter_secs)))

-- What a test of a fire may say: it is due no earlier than its slack, and always once its time came.
abbrev pub IsTimely : ℕ → ℕ → ℕ → Bool → Type 0
IsTimely fire_at now slack due = (due ≡ true → fire_at ≤ now + slack) × (fire_at ≤ now → due ≡ true)

-- A fire is never due earlier than the slack before it, however long the slack, and from its instant on it
-- is due.
is_due_with_accuracy-Ensures :
    (c : Chrono) (fire_at now slack : ℕ)
    → Ensures (IsTimely fire_at now slack) (is_due_with_accuracy c fire_at now slack)
unfolding is_due_with_accuracy
is_due_with_accuracy-Ensures c fire_at now slack =
    let due = now + (if leb slack max_duration then slack else 0) in
    Ensures-if _ (ltb c.last_instant due) (λ h. panics)
      (λ h. returns {a = leb fire_at due} (ground arith))
