-- ===== src/Store/Timers/Examples.antt =====
-- A timer that is created and renamed: the theorems at it.
use bellman.Common.{
  ℕ, ◌*◌, ◌≡◌, refl, arith, Bool, true, false, none, some, [], ◌∷◌, String, returned, done,
  and_then, All, count_where, ◌&&◌,
}
use bellman.Common.{update_where, any_where, keep_where, order_by, insert_by}
use bellman.Common.Results.{ok, err}
use bellman.Occurrence.Chrono.{second}
use bellman.Occurrence.Kind.{validate}
use bellman.Occurrence.Examples.{calendar, utc, ticks, calendar-CronIsExclusive, utc-DatesInOrder}
use bellman.Occurrence.Candidates.{raw_next_after, next_interval}
use bellman.Occurrence.NextFire.{next_fire, next_fire_within, fire_from, judge, consume}
use bellman.Store.Models.{
  Timer, NewTimer, TimerUpdate, no_change, skip, default_retry, no_action, json,
}
use bellman.Store.Timers.{
  stale_revision, create_timer, update_timer, timers_due_by, get_timer, created, insert_timer,
  write_update, recomputed, patched, patch_error, apply_patch, update_found, update_patched,
  compute_next_fire,
}
use bellman.Store.Timers.Rows.{creates, IsTable, Steps-IsTable}
use bellman.Store.Timers.Revisions.{IsNextFire, update_timer-IsNextFire, update_timer_stale}
use bellman.Store.Timers.Queries.{timers_due_by-exact, IsDue, IsSorted, due_at}

abbrev now : ℕ
now = 25 * second

abbrev backup : String
backup = "backup"

abbrev archive : String
archive = "archive"

abbrev pub new_backup : NewTimer
new_backup = record {
  id = none;
  name = backup;
  enabled = true;
  occurrence = ticks;
  misfire = skip;
  overlap = skip;
  retry = default_retry;
  tags = [];
  action = no_action;
  last_fired = none;
  jitter_secs = 0;
  accuracy_slack_secs = none;
  wake_machine = false;
  transport = json;
}

-- The row with id 7, which fires ten seconds apart.
abbrev pub stored : Timer
stored = record {
  id = 7;
  name = backup;
  enabled = true;
  occurrence = ticks;
  tz = utc;
  next_fire_utc = some (30 * second);
  last_fired = none;
  misfire = skip;
  overlap = skip;
  retry = default_retry;
  valid_from = some 5;
  valid_until = some 2000000000000000;
  max_runs = some 3;
  tags = [];
  action = no_action;
  revision = 1;
  jitter_secs = 0;
  accuracy_slack_secs = none;
  wake_machine = false;
  transport = json;
}

abbrev renamed : Timer
renamed = record stored { name = archive; revision = 2 }

abbrev rename : TimerUpdate
rename = record { id = 7; expected_revision = 1; patch = record no_change { name = some archive } }

is_created : create_timer calendar now 7 new_backup [] ≡ returned (ok stored, stored ∷ [])
unfolding create_timer compute_next_fire next_fire next_fire_within fire_from raw_next_after
    next_interval judge consume created insert_timer get_timer any_where validate
is_created = refl

is_renamed : update_timer calendar now rename (stored ∷ []) ≡ returned (ok renamed, renamed ∷ [])
unfolding update_timer update_found update_patched apply_patch compute_next_fire next_fire
    next_fire_within fire_from raw_next_after next_interval judge consume recomputed patched
    patch_error write_update update_where count_where get_timer
is_renamed = refl

Steps-IsTable_example : IsTable (stored ∷ [])
Steps-IsTable_example =
    Steps-IsTable calendar (stored ∷ []) (and_then (creates now 7 new_backup is_created) done)

update_timer-IsNextFire_example : IsNextFire ticks now (some (30 * second))
update_timer-IsNextFire_example =
    update_timer-IsNextFire calendar now rename (stored ∷ []) renamed (renamed ∷ [])
      calendar-CronIsExclusive utc-DatesInOrder is_renamed

update_timer_stale_example :
    update_timer calendar (26 * second) (record rename { patch = no_change }) (renamed ∷ [])
    ≡ returned (err (stale_revision 7 1 2), renamed ∷ [])
update_timer_stale_example =
    update_timer_stale calendar now rename (stored ∷ []) renamed (renamed ∷ []) (26 * second)
      no_change (omega arith) is_renamed

timers_due_by-exact_example :
    All (λ t. IsDue (40 * second) t) (timers_due_by (40 * second) (stored ∷ []))
    × IsSorted (timers_due_by (40 * second) (stored ∷ []))
    × ((test : Timer → Bool)
        → count_where test (timers_due_by (40 * second) (stored ∷ []))
          ≡ count_where
              (λ t. due_at (40 * second) t.enabled t.next_fire_utc && test t)
              (stored ∷ []))
timers_due_by-exact_example = timers_due_by-exact (40 * second) (stored ∷ [])

is_listed : timers_due_by (40 * second) (stored ∷ []) ≡ stored ∷ []
unfolding timers_due_by keep_where order_by insert_by
is_listed = refl

-- A fire that was to be skipped: the timer is to fire at 40 seconds, and after a rename at 30.
abbrev skipping : Timer
skipping = record stored { next_fire_utc = some (40 * second) }

skips_one :
    create_timer calendar now 7
      (record new_backup { occurrence = record ticks { pending_skips = 1 } })
      []
    ≡ returned (ok skipping, skipping ∷ [])
unfolding create_timer compute_next_fire next_fire next_fire_within fire_from raw_next_after
    next_interval judge consume created insert_timer get_timer any_where validate
skips_one = refl

skip_is_lost :
    update_timer calendar now rename (skipping ∷ []) ≡ returned (ok renamed, renamed ∷ [])
unfolding update_timer update_found update_patched apply_patch compute_next_fire next_fire
    next_fire_within fire_from raw_next_after next_interval judge consume recomputed patched
    patch_error write_update update_where count_where get_timer
skip_is_lost = refl
