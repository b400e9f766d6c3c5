-- ===== src/Store/Timers/Revisions.antt =====
-- The revisions of timers: update_timer in crates/bellman-core/src/store/mod.rs.
use mathlib.Core.Option.{some-injective}
use bellman.Common.{
  ℕ, ◌+◌, ◌<◌, min, ◌≡◌, ◌≢◌, refl, sym, ap, subst, arith, Option, none, some, [], ◌∷◌,
  update_where, unwrap_or, i64_max, returned, OnSome, Ensures-returned, inl, inr, ◌∙◌,
}
use bellman.Common.Results.{ok, err}
use bellman.Occurrence.Chrono.{Chrono, CronIsExclusive}
use bellman.Occurrence.Schedule.{Occurrence}
use bellman.Occurrence.NextFire.Admissible.{DatesInOrder, IsAdmissible}
use bellman.Occurrence.NextFire.Kept.{next_fire-IsKept}
use bellman.Occurrence.NextFire.Order.{NextFireResult, next_fire-Ensures}
use bellman.Store.Models.{Timer, TimerPatch, TimerUpdate}
use bellman.Store.Timers.{
  stale_revision, Timers, get_timer, max_runs_to_sql, compute_next_fire, patched, recomputed,
  update_timer, update_found, at_revision,
}
use bellman.Store.Timers.Updates.{Updated, update_timer-Updated}
use bellman.Store.Timers.Rows.{get_timer-id}

module _ (id revision : ℕ) (next : Timer) where
  -- The row with the id reads back changed.
  get_timer_changed :
      (rows : Timers) (current : Timer)
      → get_timer id rows ≡ some current
      → current.revision ≡ revision
      → next.id ≡ id
      → get_timer id (update_where (at_revision id revision) (λ q. next) rows) ≡ some next
  unfolding get_timer update_where
  get_timer_changed [] current h e same = absurd (ground arith)
  get_timer_changed (q ∷ rows) current h e same =
      ground (arith, get_timer_changed rows current, ap (λ (t : Timer). t.revision))

  -- The other rows read back as before.
  get_timer_other :
      (rows : Timers) (other : ℕ)
      → next.id ≡ id
      → other ≢ id
      → get_timer other (update_where (at_revision id revision) (λ q. next) rows)
        ≡ get_timer other rows
  unfolding get_timer update_where
  get_timer_other [] other same h = refl
  get_timer_other (q ∷ rows) other same h = ground (arith, get_timer_other rows other)

-- What a fire of a schedule satisfies: it is later than `after`, and admissible.
abbrev pub IsNextFire : Occurrence → ℕ → Option ℕ → Type 0
IsNextFire o after next = OnSome (λ t. (after < t) × IsAdmissible o t) next

found_next :
    (o : Occurrence) (after : ℕ) (found : Option ℕ × Occurrence)
    → NextFireResult o after found
    → IsNextFire o after found.0
found_next o after (none, o') r = tt
found_next o after (some t, o') (inl (left, (later, admissible, same))) = (later, admissible)
found_next o after (some t, o') (inr (spent, nothing, same)) = absurd (ground arith)

next_kept :
    (o : Occurrence) (skips after : ℕ) (next : Option ℕ)
    → IsNextFire o after next
    → IsNextFire (record o { pending_skips = skips }) after next
next_kept o skips after none h = tt
next_kept o skips after (some t) (later, admissible) = (
  later,
  record {
    started = admissible.started;
    not_ended = admissible.not_ended;
    not_excluded = admissible.not_excluded;
  },
)

pub searched_next :
    (c : Chrono) (o : Occurrence) (last_fired : Option ℕ) (now : ℕ) (found : Option ℕ × Occurrence)
    → CronIsExclusive c
    → DatesInOrder found.1.tz
    → compute_next_fire c o last_fired now ≡ returned found
    → IsNextFire found.1 (unwrap_or last_fired now) found.0
unfolding compute_next_fire
searched_next c o last_fired now found law order h =
    let after = unwrap_or last_fired now in
    let (skips, kept) = next_fire-IsKept c o after found h in
    let order' = subst DatesInOrder (ap (λ (q : Occurrence). q.tz) kept) order in
    let r =
      Ensures-returned (NextFireResult o after) found (next_fire-Ensures c o after law order') h in
    subst (λ (q : Occurrence). IsNextFire q after found.0) (sym kept)
      (next_kept o skips after found.0 (found_next o after found r))

-- A patched field has the value of the patch, and without one the value that was read.
abbrev pub chosen {ℓ} : {A : Type ℓ} → Option A → A → A
chosen none old = old
chosen (some new) old = new

-- The fields of a stored row, each against the patch, the row that was read, and the schedule that was stored.
pub record HasFields (p : TimerPatch) (old t : Timer) : Type 0 where
  pub same_id : t.id ≡ old.id
  pub name : t.name ≡ chosen p.name old.name
  pub enabled : t.enabled ≡ chosen p.enabled old.enabled
  pub misfire : t.misfire ≡ chosen p.misfire old.misfire
  pub overlap : t.overlap ≡ chosen p.overlap old.overlap
  pub retry : t.retry ≡ chosen p.retry old.retry
  pub tags : t.tags ≡ chosen p.tags old.tags
  pub action : t.action ≡ chosen p.action old.action
  pub last_fired : t.last_fired ≡ chosen p.last_fired old.last_fired
  pub jitter_secs : t.jitter_secs ≡ chosen p.jitter_secs old.jitter_secs
  pub accuracy_slack_secs :
      t.accuracy_slack_secs ≡ chosen p.accuracy_slack_secs old.accuracy_slack_secs
  pub wake_machine : t.wake_machine ≡ chosen p.wake_machine old.wake_machine
  pub transport : t.transport ≡ chosen p.transport old.transport
  pub skips : ℕ
  pub occurrence :
      t.occurrence ≡ record (chosen p.occurrence old.occurrence) { pending_skips = skips }
  pub tz : t.tz ≡ t.occurrence.tz
  pub valid_from : t.valid_from ≡ t.occurrence.valid_from
  pub valid_until : t.valid_until ≡ t.occurrence.valid_until
  pub uncapped : t.occurrence.max_runs ≡ none → t.max_runs ≡ none
  pub capped : (n : ℕ) → t.occurrence.max_runs ≡ some n → t.max_runs ≡ some (min n i64_max)

-- What a successful update did, apart from its search.
pub record IsUpdated (u : TimerUpdate) (before : Timers) (t : Timer) (after : Timers) : Type 0 where
  pub current : Timer
  pub read : get_timer u.id before ≡ some current
  pub expected : current.revision ≡ u.expected_revision
  pub fields : HasFields u.patch current t
  pub next_revision : t.revision ≡ min (u.expected_revision + 1) i64_max
  pub stored : get_timer u.id after ≡ some t
  pub others : (id : ℕ) → id ≢ u.id → get_timer id after ≡ get_timer id before

unwrapped {ℓ} : {A : Type ℓ} (o : Option A) (a : A) → unwrap_or o a ≡ chosen o a
unwrapped none a = refl
unwrapped (some b) a = refl

-- The row of an update has the fields, if its search only uses skips up.
recomputed-HasFields :
    (p : TimerPatch) (old : Timer) (skips : ℕ) (next : Option ℕ) (o : Occurrence)
    → o ≡ record (patched old p).occurrence { pending_skips = skips }
    → HasFields p old (recomputed (patched old p) (next, o))
unfolding recomputed patched
recomputed-HasFields p old skips next o kept = record {
  same_id = refl;
  name = unwrapped p.name old.name;
  enabled = unwrapped p.enabled old.enabled;
  misfire = unwrapped p.misfire old.misfire;
  overlap = unwrapped p.overlap old.overlap;
  retry = unwrapped p.retry old.retry;
  tags = unwrapped p.tags old.tags;
  action = unwrapped p.action old.action;
  last_fired = unwrapped p.last_fired old.last_fired;
  jitter_secs = unwrapped p.jitter_secs old.jitter_secs;
  accuracy_slack_secs = unwrapped p.accuracy_slack_secs old.accuracy_slack_secs;
  wake_machine = unwrapped p.wake_machine old.wake_machine;
  transport = unwrapped p.transport old.transport;
  skips = skips;
  occurrence =
      kept
      ∙ ap (λ (q : Occurrence). record q { pending_skips = skips })
          (unwrapped p.occurrence old.occurrence);
  tz = refl;
  valid_from = refl;
  valid_until = refl;
  uncapped = λ e. ap max_runs_to_sql e;
  capped = λ n e. ap max_runs_to_sql e;
}

-- An update of a row at another revision.
stale_found :
    (c : Chrono) (now : ℕ) (u : TimerUpdate) (rows : Timers) (t : Timer) (actual : ℕ)
    → t.revision ≡ actual
    → actual ≢ u.expected_revision
    → update_found c now u rows (some t)
      ≡ returned (err (stale_revision u.id u.expected_revision actual), rows)
unfolding update_found
stale_found c now u rows t actual same ne = ground arith

module _ (c : Chrono) (now : ℕ) (u : TimerUpdate) (before : Timers) (t : Timer)
    (after : Timers) where
  stored_row :
      (up : Updated c now u before t after) → t ≡ recomputed (patched up.current u.patch) up.found
  unfolding patched recomputed
  stored_row up =
      let next = recomputed (patched up.current u.patch) up.found in
      some-injective _ _ (
        sym up.stored
        ∙ sym (ap (get_timer u.id) up.written)
        ∙ get_timer_changed u.id u.expected_revision next before up.current up.read up.expected
            (get_timer-id u.id before up.current up.read))

  searched_skips :
      (up : Updated c now u before t after)
      → (skips : ℕ) × (up.found.1
          ≡ record (patched up.current u.patch).occurrence { pending_skips = skips })
  unfolding compute_next_fire
  searched_skips up =
      let p = patched up.current u.patch in
      next_fire-IsKept c p.occurrence (unwrap_or p.last_fired now) up.found up.searched

  pub update_timer-IsUpdated :
      update_timer c now u before ≡ returned (ok t, after) → IsUpdated u before t after
  unfolding recomputed patched
  update_timer-IsUpdated h =
      let up = update_timer-Updated c now u before t after h in
      let row = stored_row up in
      let revision : t.revision ≡ min (up.current.revision + 1) i64_max =
        ap (λ (q : Timer). q.revision) row in
      let same = get_timer-id u.id before up.current up.read in
      let next = recomputed (patched up.current u.patch) up.found in
      record {
        current = up.current;
        read = up.read;
        expected = up.expected;
        fields = subst (HasFields u.patch up.current) (sym row) (
            recomputed-HasFields u.patch up.current (searched_skips up).0 up.found.0 up.found.1
              (searched_skips up).1);
        next_revision = omega (arith, revision, up.expected);
        stored = up.stored;
        others = λ id ne.
            sym (ap (get_timer id) up.written)
            ∙ get_timer_other u.id u.expected_revision next before id same ne;
      }

  -- The next fire of a stored row is later than the last fire, or than the clock for a timer that never
  -- fired, lies inside the validity window and on no excluded date. The zone is assumed to have no fold
  -- over midnight, and croner to search strictly after the given instant.
  pub update_timer-IsNextFire :
      CronIsExclusive c
      → DatesInOrder t.tz
      → update_timer c now u before ≡ returned (ok t, after)
      → IsNextFire t.occurrence (unwrap_or t.last_fired now) t.next_fire_utc
  unfolding recomputed patched
  update_timer-IsNextFire law order h =
      let up = update_timer-Updated c now u before t after h in
      let p = patched up.current u.patch in
      subst
        (λ (q : Timer).
          DatesInOrder q.tz → IsNextFire q.occurrence (unwrap_or q.last_fired now) q.next_fire_utc)
        (sym (stored_row up))
        (λ order'. searched_next c p.occurrence p.last_fired now up.found law order' up.searched)
        order

  -- No update is lost: after one of two updates that expect the same revision below the largest i64, the
  -- other one is refused with the revision that stands there, and changes nothing.
  pub update_timer_stale :
      (now' : ℕ) (patch : TimerPatch)
      → u.expected_revision < i64_max
      → update_timer c now u before ≡ returned (ok t, after)
      → update_timer c now' (record u { patch = patch }) after
        ≡ returned (err (stale_revision u.id u.expected_revision (u.expected_revision + 1)), after)
  unfolding update_timer
  update_timer_stale now' patch room h =
      let up = update_timer-IsUpdated h in
      let again = record u { patch = patch } in
      ap (update_found c now' again after) up.stored
      ∙ stale_found c now' again after t (u.expected_revision + 1) (omega (arith, up.next_revision))
          (omega arith)
