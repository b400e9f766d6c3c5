-- ===== src/Scheduler/Misfire.antt =====
-- Grace windows and missed fires: crates/bellman-core/src/scheduler/engine/misfire.rs.
pub mod Walk
use bellman.Common.{
  ℕ, zero, suc, ◌*◌, Bool, true, false, leb, ltb, ◌&&◌, if◌then◌else◌, Option, none, some, List, [],
  ◌∷◌, i64_max, Call, returned, ◌>>=◌,
}
use bellman.Occurrence.Chrono.{Chrono, second}
use bellman.Occurrence.Kind.{OccurrenceKind, interval}
use bellman.Occurrence.Schedule.{Occurrence}
use bellman.Occurrence.NextFire.{next_fire}
use bellman.Store.Models.{Timer, MisfirePolicy, skip, coalesce, catch_up}
use bellman.Scheduler.Jitter.{max_duration}

-- The seconds of the longest duration.
abbrev pub max_duration_secs : ℕ
max_duration_secs = 9223372036854775

-- An `i64` is tried first, then chrono's range.
unfoldable pub saturating_secs : ℕ → ℕ
saturating_secs secs =
    if leb secs i64_max && leb secs max_duration_secs then secs * second else max_duration

unfoldable pub skip_grace : OccurrenceKind → ℕ
unfolding saturating_secs
skip_grace (interval every_secs anchor) = saturating_secs every_secs
skip_grace _ = 0

unfoldable pub grace_of : MisfirePolicy → OccurrenceKind → ℕ
unfolding skip_grace
grace_of skip kind = skip_grace kind
grace_of (coalesce grace_secs) kind = saturating_secs grace_secs
grace_of (catch_up grace_secs max_catch_up) kind = saturating_secs grace_secs

unfoldable pub grace_for : Timer → ℕ
unfolding grace_of
grace_for t = grace_of t.misfire t.occurrence.kind

abbrev pub max_walk : ℕ
max_walk = 10000

-- What the loop of `walk_missed` does with the outcome of a search; `more` is the rest of the loop.
unfoldable pub walk_found :
    (Occurrence → ℕ → Call (List ℕ)) → ℕ → Option ℕ × Occurrence → Call (List ℕ)
walk_found more now (none, o) = returned []
walk_found more now (some t, o) = elim (ltb now t) [
  | true ↦ returned []
  | false ↦ more o t >>= λ rest. returned (t ∷ rest)
]

-- The loop of `walk_missed`: the instants after the cursor, with the rounds left.
unfoldable pub walk_from : Chrono → ℕ → ℕ → Occurrence → ℕ → Call (List ℕ)
unfolding walk_found
walk_from c now zero o cursor = returned []
walk_from c now (suc left) o cursor =
    next_fire c o cursor >>= walk_found (λ o' t. walk_from c now left o' t) now

unfoldable pub walk_missed : Chrono → Timer → ℕ → ℕ → Call (List ℕ)
unfolding walk_from
walk_missed c t first_due now =
    if ltb now first_due
    then returned []
    else walk_from c now max_walk t.occurrence first_due >>= λ rest. returned (first_due ∷ rest)
