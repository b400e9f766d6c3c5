-- ===== src/Reply/Engine.antt =====
-- The reply engine: the state and the deadline book of crates/bellman-core/src/reply/engine.rs. The methods
-- that `RunDb` has for a store and for its transactions are those of Store/RunStates.antt. A statement of
-- SQLite does not fail here, so no transaction rolls back.
use bellman.Common.{
  ℕ, ◌+◌, ◌-◌, ◌*◌, ◌/◌, Bool, true, false, not, ◌&&◌, ◌==◌, ltb, leb, min, i64_max, if◌then◌else◌,
  Option, none, some, List, [], ◌∷◌, ◌++◌, String, Call, returned, panicked, ◌>>=◌, keep_where,
  any_where,
}
use bellman.Occurrence.Chrono.{Chrono, second}
use bellman.Scheduler.Jitter.{max_duration}
use bellman.Scheduler.State.{DeadlineKind, pickup, watchdog}
use bellman.Events.Record.{Json}
use bellman.Store.RunStates.{Db, RunStateRow, armed_deadlines}

-- What a call of the engine reads from outside: serde_json, chrono, its settings, and the clocks that it reads
-- itself. `watchdog_span` is the floating-point product of an estimate and the factor as a `Duration`, and
-- `add_instant` the sum of an `Instant` and a `Duration`; both may panic.
pub record Host (V : Type 0) : Type 0 where
  pub json : Json V
  pub chrono : Chrono
  pub pickup_grace : ℕ
  pub watchdog_span : ℕ → Call ℕ
  pub add_instant : ℕ → ℕ → Call ℕ
  pub utc_now : ℕ
  pub instant_now : ℕ

pub record MonoDeadline : Type 0 where
  pub run_id : ℕ
  pub kind : DeadlineKind
  pub at : ℕ

-- The database, and the registries that the fire path and the watcher share.
pub record Channel (V : Type 0) : Type 0 where
  pub db : Db V
  pub entries : List MonoDeadline
  pub armed_hints : List (ℕ × DeadlineKind × ℕ)
  pub anchors : List (ℕ × ℕ)

abbrev pub same_kind : DeadlineKind → DeadlineKind → Bool
same_kind pickup pickup = true
same_kind watchdog watchdog = true
same_kind pickup watchdog = false
same_kind watchdog pickup = false

-- `HashMap::remove`, `insert` and `contains_key`.
unfoldable pub remove_entry : ℕ → List MonoDeadline → List MonoDeadline
remove_entry run_id entries = keep_where (λ (d : MonoDeadline). not (d.run_id == run_id)) entries

unfoldable pub insert_entry : MonoDeadline → List MonoDeadline → List MonoDeadline
unfolding remove_entry
insert_entry d entries = d ∷ remove_entry d.run_id entries

unfoldable pub has_entry : ℕ → List MonoDeadline → Bool
has_entry run_id entries = any_where (λ (d : MonoDeadline). d.run_id == run_id) entries

-- `clear_deadlines_kind`: the entry of a run goes if it is of the kind.
unfoldable pub remove_kind : ℕ → DeadlineKind → List MonoDeadline → List MonoDeadline
remove_kind run_id kind entries =
    keep_where (λ (d : MonoDeadline). not ((d.run_id == run_id) && same_kind d.kind kind)) entries

unfoldable pub due_entries : DeadlineKind → ℕ → List MonoDeadline → List ℕ
due_entries kind mono_now [] = []
due_entries kind mono_now (d ∷ entries) =
    let rest = due_entries kind mono_now entries in
    if same_kind d.kind kind && leb d.at mono_now then d.run_id ∷ rest else rest

-- A wall-clock instant later by a span, where chrono panics past the last one.
abbrev pub add_wall : Chrono → ℕ → ℕ → Call ℕ
add_wall c now span = if ltb c.last_instant (now + span) then panicked else returned (now + span)

-- A span that is no duration of chrono is replaced.
abbrev pub span_or : ℕ → ℕ → ℕ
span_or span other = if leb span max_duration then span else other

abbrev pub remaining : ℕ → ℕ → ℕ
remaining deadline now_wall = deadline - now_wall

unfoldable pub find_anchor : ℕ → List (ℕ × ℕ) → Option ℕ
find_anchor run_id [] = none
find_anchor run_id ((id, at) ∷ anchors) =
    let rest = find_anchor run_id anchors in if id == run_id then some at else rest

abbrev pub drop_anchor : ℕ → List (ℕ × ℕ) → List (ℕ × ℕ)
drop_anchor run_id anchors = keep_where (λ (id, at). not (id == run_id)) anchors

abbrev pub millis_of : ℕ → ℕ
millis_of nanos = nanos / 1000000

abbrev pub wall_clock : String
wall_clock = "wall_clock"

module _ {V : Type 0} where
  abbrev pub with_db : (Db V → Db V) → Channel V → Channel V
  with_db f ch = record ch { db = f ch.db }

  abbrev pub with_entries : (List MonoDeadline → List MonoDeadline) → Channel V → Channel V
  with_entries f ch = record ch { entries = f ch.entries }

  -- `register_fire`.
  unfoldable pub register_fire : Host V → ℕ → ℕ → Channel V → Call (Channel V)
  unfolding insert_entry
  register_fire host run_id now_wall ch =
      add_wall host.chrono now_wall (span_or host.pickup_grace (60 * second)) >>= λ wall_at.
      host.add_instant host.instant_now host.pickup_grace >>= λ at. returned (record ch {
        anchors = (run_id, host.instant_now) ∷ drop_anchor run_id ch.anchors;
        entries = insert_entry (record { run_id = run_id; kind = pickup; at = at }) ch.entries;
        armed_hints = ch.armed_hints ++ ((run_id, pickup, wall_at) ∷ []);
      })

  abbrev pub take_deadline_hints : Channel V → List (ℕ × DeadlineKind × ℕ) × Channel V
  take_deadline_hints ch = (ch.armed_hints, record ch { armed_hints = [] })

  unfoldable pub clear_deadlines : ℕ → Channel V → Channel V
  unfolding remove_entry
  clear_deadlines run_id ch = with_entries (remove_entry run_id) ch

  unfoldable pub clear_deadlines_kind : ℕ → DeadlineKind → Channel V → Channel V
  unfolding remove_kind
  clear_deadlines_kind run_id kind ch = with_entries (remove_kind run_id kind) ch

  abbrev pub due_deadlines : DeadlineKind → ℕ → Channel V → List ℕ
  due_deadlines kind mono_now ch = due_entries kind mono_now ch.entries

  -- The deadline that a row has, the one of the pickup first.
  abbrev pub persisted : RunStateRow V → Option (DeadlineKind × ℕ)
  persisted row = elim row.pickup_deadline [
    | some t ↦ some (pickup, t)
    | none ↦ elim row.watchdog_deadline [ some t ↦ some (watchdog, t) | none ↦ none ]
  ]

  -- The loop of `sync_deadline_book`; the number is that of the entries added.
  unfoldable pub sync_rows :
      Host V → ℕ → ℕ → List (RunStateRow V) → List MonoDeadline → Call (ℕ × List MonoDeadline)
  unfolding insert_entry has_entry
  sync_rows host now_wall mono_now [] entries = returned (0, entries)
  sync_rows host now_wall mono_now (row ∷ rows) entries = elim (has_entry row.run_id entries) [
    | true ↦ sync_rows host now_wall mono_now rows entries
    | false ↦ elim (persisted row) [
      | none ↦ sync_rows host now_wall mono_now rows entries
      | some (kind, deadline) ↦ host.add_instant mono_now (remaining deadline now_wall) >>= λ at.
          sync_rows host now_wall mono_now rows
            (insert_entry (record { run_id = row.run_id; kind = kind; at = at }) entries)
          >>= λ (added, all). returned (added + 1, all)
    ]
  ]

  -- `sync_deadline_book`.
  unfoldable pub sync_deadline_book : Host V → ℕ → ℕ → Channel V → Call (ℕ × Channel V)
  unfolding sync_rows
  sync_deadline_book host now_wall mono_now ch =
      sync_rows host now_wall mono_now (armed_deadlines ch.db) ch.entries >>= λ (added, entries).
      returned (added, record ch { entries = entries })

  -- `duration_ms`: the milliseconds, their source, and the anchors without that of the run.
  abbrev pub duration_from :
      Host V → ℕ → ℕ → ℕ → Channel V → Option ℕ → ℕ × Option String × Channel V
  duration_from host run_id fired_at now_wall ch (some anchor) = (
    min (millis_of (host.instant_now - anchor)) i64_max,
    none,
    record ch { anchors = drop_anchor run_id ch.anchors },
  )
  duration_from host run_id fired_at now_wall ch none =
      (millis_of (now_wall - fired_at), some wall_clock, ch)

  unfoldable pub duration_ms : Host V → ℕ → ℕ → ℕ → Channel V → ℕ × Option String × Channel V
  unfolding find_anchor
  duration_ms host run_id fired_at now_wall ch =
      duration_from host run_id fired_at now_wall ch (find_anchor run_id ch.anchors)
