-- ===== src/Store/Timers/Updates.antt =====
-- What a successful update did: update_timer_tx in crates/bellman-core/src/store/mod.rs.
use bellman.Common.{
  ℕ, ◌≡◌, refl, ap, arith, Bool, true, false, Option, none, some, returned, ◌==◌, >>=-eq-returned,
  ◌>>=◌, if_cases, count_where, if◌then◌else◌, update_where, any_where, ◌∷◌, unwrap_or,
}
use bellman.Common.Meets.{Partial, Partial-after, Partial-any}
use bellman.Common.Results.{ok, err}
use bellman.Occurrence.Chrono.{Chrono}
use bellman.Occurrence.Kind.{KindError, validate}
use bellman.Occurrence.Schedule.{Occurrence}
use bellman.Store.Models.{Timer, NewTimer, TimerUpdate}
use bellman.Store.Timers.{
  StoreError, StoreResult, invalid_occurrence, Timers, get_timer, compute_next_fire, patch_error,
  patched, apply_patch, created, recomputed, read_back, insert_timer, create_timer, at_revision,
  sqlite, write_update, update_patched, update_found, update_timer, has_id,
}

-- A row that was read back, or an error.
read_back_ok :
    (b : Bool) (e : StoreError) (before after rows : Timers) (o : Option Timer) (t : Timer)
    → (if b then read_back before after o else (err e, before)) ≡ (ok t, rows)
    → (b ≡ true) × (after ≡ rows) × (o ≡ some t)
read_back_ok false e before after rows o t h = ground arith
read_back_ok true e before after rows none t h = ground arith
read_back_ok true e before after rows (some q) t h = ground arith

insert_ok :
    (b : Bool) (e : StoreError) (before after rows : Timers) (o : Option Timer) (t : Timer)
    → (if b then (err e, before) else read_back before after o) ≡ (ok t, rows)
    → (b ≡ false) × (after ≡ rows) × (o ≡ some t)
insert_ok true e before after rows o t h = ground arith
insert_ok false e before after rows none t h = ground arith
insert_ok false e before after rows (some q) t h = ground arith

-- The parts of a successful update.
pub record Updated (c : Chrono) (now : ℕ) (u : TimerUpdate) (before : Timers) (t : Timer)
    (after : Timers) : Type 0 where
  pub current : Timer
  pub found : Option ℕ × Occurrence
  pub read : get_timer u.id before ≡ some current
  pub expected : current.revision ≡ u.expected_revision
  pub admitted : patch_error u.patch.occurrence ≡ none
  pub searched :
      compute_next_fire c
        (patched current u.patch).occurrence
        (patched current u.patch).last_fired
        now
      ≡ returned found
  pub written :
      update_where
        (at_revision u.id u.expected_revision)
        (λ q. recomputed (patched current u.patch) found)
        before
      ≡ after
  pub stored : get_timer u.id after ≡ some t

module _ (c : Chrono) (now : ℕ) (u : TimerUpdate) (before : Timers) (t : Timer)
    (after : Timers) where
  write_update_ok :
      (next : Timer)
      → write_update u before next ≡ (ok t, after)
      → (update_where (at_revision u.id u.expected_revision) (λ q. next) before ≡ after)
        × (get_timer u.id after ≡ some t)
  unfolding write_update
  write_update_ok next h =
      let (_, same, found) = read_back_ok _ _ before _ after _ t h in
      (same, cc (ap (get_timer u.id) same))

  patched_ok :
      (current : Timer) (e : Option KindError)
      → update_patched c now u before
          (elim e [ some e ↦ err (invalid_occurrence e) | none ↦ ok (patched current u.patch) ])
        ≡ returned (ok t, after)
      → get_timer u.id before ≡ some current
      → current.revision ≡ u.expected_revision
      → patch_error u.patch.occurrence ≡ e
      → Updated c now u before t after
  unfolding update_patched
  patched_ok current (some e) h read expected admitted = absurd (ground arith)
  patched_ok current none h read expected admitted =
      let (found, searched, w) =
        >>=-eq-returned
          (compute_next_fire c (patched current u.patch).occurrence
            (patched current u.patch).last_fired now)
          _ h in
      let (written, stored) = write_update_ok (recomputed (patched current u.patch) found) (cc) in
      record {
        current = current;
        found = found;
        read = read;
        expected = expected;
        admitted = admitted;
        searched = searched;
        written = written;
        stored = stored;
      }

  revision_ok :
      (current : Timer) (b : Bool) (e : StoreError)
      → (if b
          then update_patched c now u before (apply_patch current u.patch)
          else returned (err e, before))
        ≡ returned (ok t, after)
      → current.revision == u.expected_revision ≡ b
      → get_timer u.id before ≡ some current
      → Updated c now u before t after
  unfolding apply_patch
  revision_ok current false e h test read = absurd (ground arith)
  revision_ok current true e h test read =
      patched_ok current (patch_error u.patch.occurrence) h read (ground arith) refl

  found_ok :
      (o : Option Timer)
      → update_found c now u before o ≡ returned (ok t, after)
      → get_timer u.id before ≡ o
      → Updated c now u before t after
  unfolding update_found
  found_ok none h read = absurd (ground arith)
  found_ok (some current) h read = revision_ok current _ _ h refl read

  pub update_timer-Updated :
      update_timer c now u before ≡ returned (ok t, after) → Updated c now u before t after
  unfolding update_timer
  update_timer-Updated h = found_ok (get_timer u.id before) h refl

-- The parts of a successful insertion.
pub record Created (c : Chrono) (now fresh : ℕ) (new : NewTimer) (before : Timers) (t : Timer)
    (after : Timers) : Type 0 where
  pub found : Option ℕ × Occurrence
  pub admitted : validate new.occurrence.kind ≡ none
  pub searched : compute_next_fire c new.occurrence new.last_fired now ≡ returned found
  pub is_free : any_where (has_id (unwrap_or new.id fresh)) before ≡ false
  pub written : created (unwrap_or new.id fresh) new found ∷ before ≡ after

module _ (c : Chrono) (now fresh : ℕ) (new : NewTimer) (before : Timers) (t : Timer)
    (after : Timers) where
  inserted_ok :
      (e : Option KindError)
      → elim e [
        | some e ↦ returned (err (invalid_occurrence e), before)
        | none ↦ compute_next_fire c new.occurrence new.last_fired now >>= λ found.
            returned (insert_timer (created (unwrap_or new.id fresh) new found) before)
      ]
        ≡ returned (ok t, after)
      → validate new.occurrence.kind ≡ e
      → Created c now fresh new before t after
  unfolding insert_timer created
  inserted_ok (some e) h admitted = absurd (ground arith)
  inserted_ok none h admitted =
      let (found, searched, w) =
        >>=-eq-returned (compute_next_fire c new.occurrence new.last_fired now) _ h in
      let row = created (unwrap_or new.id fresh) new found in
      let e : insert_timer row before ≡ (ok t, after) = cc in
      let (is_free, written, _) =
        insert_ok (any_where (has_id row.id) before) sqlite before (row ∷ before) after
          (get_timer row.id (row ∷ before)) t e in
      record {
        found = found;
        admitted = admitted;
        searched = searched;
        is_free = is_free;
        written = written;
      }

  pub create_timer-Created :
      create_timer c now fresh new before ≡ returned (ok t, after)
      → Created c now fresh new before t after
  unfolding create_timer
  create_timer-Created h = inserted_ok (validate new.occurrence.kind) h refl

-- An error leaves the table alone.
abbrev pub KeptOnError : Timers → StoreResult Timer × Timers → Type 0
KeptOnError before (ok t, after) = Unit
KeptOnError before (err e, after) = after ≡ before

read_back_kept :
    (before after : Timers) (o : Option Timer) → KeptOnError before (read_back before after o)
read_back_kept before after none = refl
read_back_kept before after (some t) = tt

write_update_kept :
    (u : TimerUpdate) (before : Timers) (next : Timer)
    → KeptOnError before (write_update u before next)
unfolding write_update
write_update_kept u before next =
    if_cases (KeptOnError before) (count_where (at_revision u.id u.expected_revision) before == 1)
      (λ h. read_back_kept before _ _) (λ h. refl)

module _ (c : Chrono) (now : ℕ) (u : TimerUpdate) (before : Timers) where
  update_patched_kept :
      (next : StoreResult Timer) → Partial (KeptOnError before) (update_patched c now u before next)
  unfolding update_patched
  update_patched_kept (err e) = refl
  update_patched_kept (ok next) =
      Partial-after (λ found. Unit {0}) (KeptOnError before)
        (compute_next_fire c next.occurrence next.last_fired now) _ (Partial-any _)
        (λ found _. write_update_kept u before (recomputed next found))

  update_found_kept :
      (o : Option Timer) → Partial (KeptOnError before) (update_found c now u before o)
  unfolding update_found
  update_found_kept none = refl
  update_found_kept (some current) =
      if_cases (Partial (KeptOnError before)) (current.revision == u.expected_revision)
        (λ h. update_patched_kept (apply_patch current u.patch)) (λ h. refl)

  pub update_timer_kept : Partial (KeptOnError before) (update_timer c now u before)
  unfolding update_timer
  update_timer_kept = update_found_kept (get_timer u.id before)
