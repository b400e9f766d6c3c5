-- ===== src/Scheduler/Horizon.antt =====
-- The heap and the horizon: crates/bellman-core/src/scheduler/engine/horizon.rs.
pub mod Requeues
use bellman.Common.{
  ℕ, zero, suc, ◌+◌, Bool, true, false, leb, ltb, ◌&&◌, ◌||◌, if◌then◌else◌, Option, none, some,
  List, [], ◌∷◌, unwrap_or, Call, returned, panicked,
}
use bellman.Common.Results.{Effect, ok, ◌>>=◌, ◌>>◌, done, fail, calls, after}
use bellman.Occurrence.Chrono.{Chrono, nanosecond_before}
use bellman.Occurrence.Schedule.{Occurrence}
use bellman.Occurrence.NextFire.{next_fire}
use bellman.Store.Models.{Timer, TimerUpdate, TimerPatch, no_change}
use bellman.Store.Timers
use bellman.Scheduler.Jitter.{apply_execution_jitter, is_high_frequency, max_duration}
use bellman.Scheduler.State.{
  World, Scheduler, Step, SchedulerError, internal, HeapEntry, fire_of, draw, read_timer,
  write_timer, push, SchedulerConfig,
}

-- `last_fired: Some(Some(anchor))` alone, and with the occurrence.
abbrev pub anchored : ℕ → TimerPatch
anchored anchor = record no_change { last_fired = some (some anchor) }

abbrev pub advanced : ℕ → Occurrence → TimerPatch
advanced anchor o = record no_change { last_fired = some (some anchor); occurrence = some o }

abbrev pub update_of : Timer → TimerPatch → TimerUpdate
update_of t patch = record { id = t.id; expected_revision = t.revision; patch = patch }

abbrev pub jitter_of : Option Timer → ℕ
jitter_of none = 0
jitter_of (some t) = t.jitter_secs

abbrev pub is_resident : Option Timer → Bool
is_resident none = false
is_resident (some t) = is_high_frequency t.occurrence.kind

-- `exec_at <= now + h`, where the sum may leave chrono's range; a horizon past the longest duration is none.
unfoldable pub is_in_horizon : Chrono → ℕ → ℕ → ℕ → Call Bool
is_in_horizon c horizon now exec_at =
    if leb horizon max_duration
    then (if ltb c.last_instant (now + horizon)
        then panicked
        else returned (leb exec_at (now + horizon)))
    else returned true

-- The cursor of `advance_past_now`.
unfoldable pub skip_cursor : Option ℕ → Option ℕ → ℕ → Call ℕ
skip_cursor (some last_fired) next now = returned last_fired
skip_cursor none none now = returned now
skip_cursor none (some next) now = nanosecond_before next

abbrev pub max_skips : ℕ
max_skips = 100000

-- What the loop of `advance_past_now` does with the outcome of a search: the last skipped instant, and
-- the occurrence as the walk leaves it.
unfoldable pub skip_found :
    (Occurrence → ℕ → Call (Option ℕ × Occurrence))
    → ℕ
    → Option ℕ
    → Option ℕ × Occurrence
    → Call (Option ℕ × Occurrence)
skip_found more now last_skipped (none, o) = returned (last_skipped, o)
skip_found more now last_skipped (some t, o) = elim (ltb now t) [
  | true ↦ returned (last_skipped, o)
  | false ↦ more o t
]

unfoldable pub skip_from : Chrono → ℕ → ℕ → Occurrence → ℕ → Option ℕ → Call (Option ℕ × Occurrence)
unfolding skip_found
skip_from c now zero o cursor last_skipped = returned (last_skipped, o)
skip_from c now (suc left) o cursor last_skipped =
    after (next_fire c o cursor)
      (skip_found (λ o' t. skip_from c now left o' t (some t)) now last_skipped)

abbrev pub is_overdue : ℕ → Option ℕ → Bool
is_overdue now none = false
is_overdue now (some nf) = leb nf now

module _ {A : Type 0} (w : World A) where
  unfoldable pub push_if_in_horizon : ℕ → ℕ → Step A (Unit {0})
  unfolding is_in_horizon
  push_if_in_horizon fire_at timer_id = do
    now ← draw w w.wall
    timer ← read_timer w timer_id
    exec_at ←
        calls (apply_execution_jitter w.chrono (w.hash timer_id fire_at) fire_at (jitter_of timer))
    horizon_ok ← calls (is_in_horizon w.chrono w.config.horizon now exec_at)
    if horizon_ok || is_resident timer
        then push w (record { fire_at = exec_at; kind = fire_of timer_id })
        else done tt

  -- The end of `requeue_timer`.
  unfoldable pub requeue_at : ℕ → Bool → Option ℕ → Step A (Unit {0})
  requeue_at timer_id true (some nf) = push_if_in_horizon nf timer_id
  requeue_at timer_id true none = done tt
  requeue_at timer_id false next = done tt

  unfoldable pub requeue_found : ℕ → Option Timer → Step A (Unit {0})
  unfolding requeue_at
  requeue_found timer_id none = done tt
  requeue_found timer_id (some t) = requeue_at timer_id t.enabled t.next_fire_utc

  unfoldable pub requeue_timer : ℕ → Step A (Unit {0})
  unfolding requeue_found
  requeue_timer timer_id = do timer ← read_timer w timer_id; requeue_found timer_id timer

  unfoldable pub advance_found : ℕ → ℕ → Option Timer → Step A (Unit {0})
  unfolding skip_from skip_cursor
  advance_found timer_id now none = fail internal
  advance_found timer_id now (some t) = do
    cursor ← calls (skip_cursor t.last_fired t.next_fire_utc now)
    (last_skipped, o) ← calls (skip_from w.chrono now max_skips t.occurrence cursor t.last_fired)
    _ ← write_timer w (update_of t (advanced (unwrap_or last_skipped now) o))
    requeue_timer timer_id

  unfoldable pub advance_past_now : ℕ → ℕ → Step A (Unit {0})
  unfolding advance_found
  advance_past_now timer_id now = do timer ← read_timer w timer_id; advance_found timer_id now timer

  -- After the bump of `ensure_advanced_past`, with the timer read again.
  unfoldable pub settle_bumped : ℕ → ℕ → Option Timer → Step A (Unit {0})
  settle_bumped timer_id now none = done tt
  settle_bumped timer_id now (some t) =
      if is_overdue now t.next_fire_utc
      then advance_past_now timer_id now
      else requeue_timer timer_id

  unfoldable pub bump_past : ℕ → ℕ → Timer → Step A (Unit {0})
  unfolding settle_bumped
  bump_past timer_id scheduled_for t = do
    _ ← write_timer w (update_of t (advanced scheduled_for t.occurrence))
    now ← draw w w.wall
    timer ← read_timer w timer_id
    settle_bumped timer_id now timer

  unfoldable pub ensure_at : ℕ → ℕ → Timer → Option ℕ → Step A (Unit {0})
  unfolding bump_past
  ensure_at timer_id scheduled_for t none = bump_past timer_id scheduled_for t
  ensure_at timer_id scheduled_for t (some nf) =
      if ltb scheduled_for nf
      then push_if_in_horizon nf timer_id
      else bump_past timer_id scheduled_for t

  unfoldable pub ensure_found : ℕ → ℕ → Option Timer → Step A (Unit {0})
  unfolding ensure_at
  ensure_found timer_id scheduled_for none = done tt
  ensure_found timer_id scheduled_for (some t) = ensure_at timer_id scheduled_for t t.next_fire_utc

  unfoldable pub ensure_advanced_past : ℕ → ℕ → Step A (Unit {0})
  unfolding ensure_found
  ensure_advanced_past timer_id scheduled_for = do
    timer ← read_timer w timer_id
    ensure_found timer_id scheduled_for timer
