-- ===== src/Pruner.antt =====
-- Which one-shot timers are deleted: `is_terminal_oneshot` of crates/bellman-core/src/pruner/mod.rs.
-- Durations are in nanoseconds.
pub mod Terminal
mod Examples
use bellman.Common.{
  ℕ, ◌+◌, Bool, true, false, ◌&&◌, ◌||◌, not, ltb, leb, if◌then◌else◌, Option, none, some,
  unwrap_or, any_where, Call, returned, panicked,
}
use bellman.Occurrence.Chrono.{Chrono, minute}
use bellman.Occurrence.Kind.{OccurrenceKind, once}
use bellman.Scheduler.Jitter.{max_duration}
use bellman.Store.Models.{Timer}
use bellman.Store.Ledger.{Ledger, RunClaim, is_unfinished, runs_for_timer}

abbrev pub is_once : OccurrenceKind → Bool
is_once (once at) = true
is_once _ = false

abbrev pub is_some : Option ℕ → Bool
is_some (some t) = true
is_some none = false

-- `Option::or`.
abbrev pub or : Option ℕ → Option ℕ → Option ℕ
or (some t) other = some t
or none other = other

-- Whether a fire is after `now`.
abbrev pub fires_after : ℕ → Option ℕ → Bool
fires_after now (some t) = ltb now t
fires_after now none = false

-- Whether an end of validity has come.
abbrev pub has_passed : ℕ → Option ℕ → Bool
has_passed now (some until) = leb until now
has_passed now none = false

abbrev pub fired : Timer → Bool
fired t = is_some t.last_fired && not (is_some t.next_fire_utc)

abbrev pub past_validity : ℕ → Timer → Bool
past_validity now t = has_passed now t.valid_until || has_passed now t.occurrence.valid_until

abbrev pub skipped_exhausted : ℕ → Timer → Bool
skipped_exhausted now t = not (is_some t.next_fire_utc) && (past_validity now t || not t.enabled)

-- The return of `false` for a timer in none of the terminal shapes.
abbrev pub is_preserved : ℕ → Timer → Bool
is_preserved now t =
    (not (fired t) && not (skipped_exhausted now t) && not (past_validity now t))
    && ((is_some t.next_fire_utc && not (is_some t.last_fired)) || not (fired t))

abbrev pub terminal_at : ℕ → Timer → ℕ
terminal_at now t = unwrap_or (or (or t.last_fired t.valid_until) t.occurrence.valid_until) now

-- A grace that is no duration of chrono is a minute.
abbrev pub grace_or_minute : ℕ → ℕ
grace_or_minute ack_grace = if leb ack_grace max_duration then ack_grace else minute

-- `now < terminal_at + grace`, which panics past the last instant.
abbrev pub past_grace : Chrono → ℕ → ℕ → ℕ → Call Bool
past_grace c at grace now =
    if ltb c.last_instant (at + grace) then panicked else returned (leb (at + grace) now)

unfoldable pub is_terminal_oneshot : Chrono → Timer → Ledger → ℕ → ℕ → Call Bool
is_terminal_oneshot c t runs now ack_grace =
    if not (is_once t.occurrence.kind)
    then returned false
    else if any_where is_unfinished (runs_for_timer t.id runs)
    then returned false
    else if fires_after now t.next_fire_utc
    then returned false
    else if is_preserved now t
    then returned false
    else past_grace c (terminal_at now t) (grace_or_minute ack_grace) now
