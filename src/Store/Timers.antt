-- ===== src/Store/Timers.antt =====
-- The table `timers`: crates/bellman-core/src/store/mod.rs. An operation is the transaction that the
-- source commits: its result and the table after it, which an error leaves alone. The clock and a new id
-- are arguments. A stored value reads back as written, and an instant as a text, which keeps the order
-- in the years 0 to 9999.
pub mod Updates
pub mod Rows
pub mod Revisions
pub mod Queries
pub mod Examples
use Prim.Native.Char.{code}
use bellman.Common.{
  ℕ, Bool, true, false, ◌&&◌, ◌||◌, not, ◌==◌, ltb, leb, if◌then◌else◌, Option, none, some, List,
  [], ◌∷◌, String, unwrap_or, min, i64_max, saturating_add, Call, returned, ◌>>=◌, update_where,
  count_where, any_where, keep_where, order_by,
}
use bellman.Common.Results.{Result, ok, err}
use bellman.Occurrence.Chrono.{Chrono}
use bellman.Occurrence.Kind.{KindError, validate}
use bellman.Occurrence.Schedule.{Occurrence}
use bellman.Occurrence.NextFire.{next_fire}
use bellman.Store.Models.{Timer, NewTimer, TimerPatch, TimerUpdate}

-- The errors of this code; `sqlite` is a failed statement.
pub data StoreError : Type 0 where
  not_found run_not_found : ℕ → StoreError
  stale_revision : ℕ → ℕ → ℕ → StoreError
  invalid_occurrence : KindError → StoreError
  sqlite internal : StoreError

abbrev pub StoreResult {ℓ} : Type ℓ → Type ℓ
StoreResult A = Result StoreError A

abbrev pub Timers : Type 0
Timers = List Timer

abbrev pub has_id : ℕ → Timer → Bool
has_id id t = t.id == id

unfoldable pub get_timer : ℕ → Timers → Option Timer
get_timer id [] = none
get_timer id (t ∷ rows) = let rest = get_timer id rows in if t.id == id then some t else rest

unfoldable pub compute_next_fire : Chrono → Occurrence → Option ℕ → ℕ → Call (Option ℕ × Occurrence)
compute_next_fire c o last_fired now = next_fire c o (unwrap_or last_fired now)

abbrev pub max_runs_to_sql : Option ℕ → Option ℕ
max_runs_to_sql none = none
max_runs_to_sql (some n) = some (min n i64_max)

-- What the patch has against its own schedule.
unfoldable pub patch_error : Option Occurrence → Option KindError
patch_error none = none
patch_error (some o) = validate o.kind

unfoldable pub patched : Timer → TimerPatch → Timer
patched t p = record t {
  name = unwrap_or p.name t.name;
  enabled = unwrap_or p.enabled t.enabled;
  occurrence = unwrap_or p.occurrence t.occurrence;
  misfire = unwrap_or p.misfire t.misfire;
  overlap = unwrap_or p.overlap t.overlap;
  retry = unwrap_or p.retry t.retry;
  tags = unwrap_or p.tags t.tags;
  action = unwrap_or p.action t.action;
  last_fired = unwrap_or p.last_fired t.last_fired;
  jitter_secs = unwrap_or p.jitter_secs t.jitter_secs;
  accuracy_slack_secs = unwrap_or p.accuracy_slack_secs t.accuracy_slack_secs;
  wake_machine = unwrap_or p.wake_machine t.wake_machine;
  transport = unwrap_or p.transport t.transport;
}

unfoldable pub apply_patch : Timer → TimerPatch → StoreResult Timer
unfolding patched patch_error
apply_patch t p = elim (patch_error p.occurrence) [
  | some e ↦ err (invalid_occurrence e)
  | none ↦ ok (patched t p)
]

-- The row of a new timer, with what `compute_next_fire` found.
unfoldable pub created : ℕ → NewTimer → Option ℕ × Occurrence → Timer
created id new (next, o) = record {
  id = id;
  name = new.name;
  enabled = new.enabled;
  occurrence = o;
  tz = o.tz;
  next_fire_utc = next;
  last_fired = new.last_fired;
  misfire = new.misfire;
  overlap = new.overlap;
  retry = new.retry;
  valid_from = o.valid_from;
  valid_until = o.valid_until;
  max_runs = max_runs_to_sql o.max_runs;
  tags = new.tags;
  action = new.action;
  revision = 1;
  jitter_secs = new.jitter_secs;
  accuracy_slack_secs = new.accuracy_slack_secs;
  wake_machine = new.wake_machine;
  transport = new.transport;
}

-- The row of an update, with what `compute_next_fire` found.
unfoldable pub recomputed : Timer → Option ℕ × Occurrence → Timer
recomputed next (next_fire_utc, o) = record next {
  next_fire_utc = next_fire_utc;
  occurrence = o;
  tz = o.tz;
  max_runs = max_runs_to_sql o.max_runs;
  valid_from = o.valid_from;
  valid_until = o.valid_until;
  revision = saturating_add i64_max next.revision 1;
}

-- The `get_timer_tx` at the end of a transaction; without a row it is rolled back.
abbrev pub read_back : Timers → Timers → Option Timer → StoreResult Timer × Timers
read_back before after none = (err internal, before)
read_back before after (some t) = (ok t, after)

-- The `INSERT`, which the primary key may refuse.
unfoldable pub insert_timer : Timer → Timers → StoreResult Timer × Timers
unfolding get_timer
insert_timer t rows =
    if any_where (has_id t.id) rows
    then (err sqlite, rows)
    else read_back rows (t ∷ rows) (get_timer t.id (t ∷ rows))

-- `create_timer` and `create_timer_tx`; `fresh` is the random id.
unfoldable pub create_timer : Chrono → ℕ → ℕ → NewTimer → Timers → Call (StoreResult Timer × Timers)
unfolding created insert_timer compute_next_fire
create_timer c now fresh new rows = elim (validate new.occurrence.kind) [
  | some e ↦ returned (err (invalid_occurrence e), rows)
  | none ↦ compute_next_fire c new.occurrence new.last_fired now >>= λ found.
      returned (insert_timer (created (unwrap_or new.id fresh) new found) rows)
]

abbrev pub at_revision : ℕ → ℕ → Timer → Bool
at_revision id revision t = (t.id == id) && (t.revision == revision)

-- `current_revision_tx`, as the error of an `UPDATE` that changed no row.
abbrev pub lost : TimerUpdate → Option Timer → StoreError
lost u none = not_found u.id
lost u (some t) = stale_revision u.id u.expected_revision t.revision

unfoldable pub write_update : TimerUpdate → Timers → Timer → StoreResult Timer × Timers
write_update u rows next =
    let rows' = update_where (at_revision u.id u.expected_revision) (λ t. next) rows in
    if count_where (at_revision u.id u.expected_revision) rows == 1
    then read_back rows rows' (get_timer u.id rows')
    else (err (lost u (get_timer u.id rows)), rows)

unfoldable pub update_patched :
    Chrono → ℕ → TimerUpdate → Timers → StoreResult Timer → Call (StoreResult Timer × Timers)
unfolding write_update recomputed
update_patched c now u rows (err e) = returned (err e, rows)
update_patched c now u rows (ok next) =
    compute_next_fire c next.occurrence next.last_fired now >>= λ found.
    returned (write_update u rows (recomputed next found))

unfoldable pub update_found :
    Chrono → ℕ → TimerUpdate → Timers → Option Timer → Call (StoreResult Timer × Timers)
unfolding update_patched apply_patch
update_found c now u rows none = returned (err (not_found u.id), rows)
update_found c now u rows (some current) =
    if current.revision == u.expected_revision
    then update_patched c now u rows (apply_patch current u.patch)
    else returned (err (stale_revision u.id u.expected_revision current.revision), rows)

-- `update_timer` and `update_timer_tx`.
unfoldable pub update_timer : Chrono → ℕ → TimerUpdate → Timers → Call (StoreResult Timer × Timers)
unfolding update_found
update_timer c now u rows = update_found c now u rows (get_timer u.id rows)

-- Whether a row was removed.
unfoldable pub delete_timer : ℕ → Timers → Bool × Timers
delete_timer id rows = (any_where (has_id id) rows, keep_where (λ t. not (has_id id t)) rows)

-- Texts by their code points, as SQLite compares their bytes.
unfoldable pub text_le : String → String → Bool
text_le String.[] b = true
text_le (String.◌∷◌ x a) String.[] = false
text_le (String.◌∷◌ x a) (String.◌∷◌ y b) =
    let rest = text_le a b in ltb (code x) (code y) || ((code x == code y) && rest)

-- `ORDER BY name, id`.
unfoldable pub by_name : Timer → Timer → Bool
unfolding text_le
by_name s t = not (text_le t.name s.name) || (text_le s.name t.name && leb s.id t.id)

unfoldable pub list_timers : Timers → List Timer
unfolding by_name
list_timers rows = order_by by_name rows

abbrev pub fires_by : ℕ → Option ℕ → Bool
fires_by horizon none = false
fires_by horizon (some t) = leb t horizon

abbrev pub is_due_by : ℕ → Timer → Bool
is_due_by horizon t = t.enabled && fires_by horizon t.next_fire_utc

-- `ORDER BY next_fire_utc ASC, id ASC`.
unfoldable pub by_fire : Timer → Timer → Bool
by_fire s t =
    let a = unwrap_or s.next_fire_utc 0 in
    let b = unwrap_or t.next_fire_utc 0 in ltb a b || ((a == b) && leb s.id t.id)

unfoldable pub timers_due_by : ℕ → Timers → List Timer
unfolding by_fire
timers_due_by horizon rows = order_by by_fire (keep_where (is_due_by horizon) rows)
