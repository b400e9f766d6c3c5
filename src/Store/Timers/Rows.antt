-- ===== src/Store/Timers/Rows.antt =====
-- What the table `timers` keeps: one row for each id, and in each row the copies that queries read.
use mathlib.Core.Option.{some-injective}
use bellman.Common.{
  ℕ, ◌≤◌, ◌≡◌, ◌≢◌, refl, sym, ap, subst, arith, Bool, true, false, not, Option, none, some, [],
  ◌∷◌, All, ◌==◌, if◌then◌else◌, update_where, any_where, keep_where, unwrap_or, i64_max, returned,
  Steps, Steps-invariant, All-keep_where,
}
use bellman.Common.Results.{ok}
use bellman.Occurrence.Chrono.{Chrono}
use bellman.Occurrence.Kind.{validate}
use bellman.Occurrence.Schedule.{Occurrence}
use bellman.Occurrence.NextFire.Kept.{next_fire-IsKept}
use bellman.Store.Models.{Timer, NewTimer, TimerUpdate}
use bellman.Store.Timers.{
  Timers, has_id, get_timer, compute_next_fire, max_runs_to_sql, patch_error, patched, created,
  recomputed, create_timer, update_timer, delete_timer, at_revision,
}
use bellman.Store.Timers.Updates.{Updated, Created, update_timer-Updated, create_timer-Created}

-- The transactions on the table; one that failed changed nothing.
pub data Edit (c : Chrono) : Timers → Timers → Type 0 where
  creates :
      {rows rows' : Timers} {t : Timer} (now fresh : ℕ) (new : NewTimer)
      → create_timer c now fresh new rows ≡ returned (ok t, rows')
      → Edit c rows rows'
  updates :
      {rows rows' : Timers} {t : Timer} (now : ℕ) (u : TimerUpdate)
      → update_timer c now u rows ≡ returned (ok t, rows')
      → Edit c rows rows'
  deletes : {rows : Timers} (id : ℕ) → Edit c rows (delete_timer id rows).1

-- The schedule is valid, the copies of its parts agree with it, and the revision is a positive `i64`.
pub record IsSound (t : Timer) : Type 0 where
  pub is_valid : validate t.occurrence.kind ≡ none
  pub same_tz : t.tz ≡ t.occurrence.tz
  pub same_from : t.valid_from ≡ t.occurrence.valid_from
  pub same_until : t.valid_until ≡ t.occurrence.valid_until
  pub same_runs : t.max_runs ≡ max_runs_to_sql t.occurrence.max_runs
  pub positive : 1 ≤ t.revision
  pub bounded : t.revision ≤ i64_max

abbrev pub IsTable : Timers → Type 0
IsTable [] = Unit
IsTable (t ∷ rows) = IsSound t × All (λ q. t.id ≢ q.id) rows × IsTable rows

first-IsSound :
    (b : Bool) (q : Timer) (rest : Option Timer) (t : Timer)
    → (if b then some q else rest) ≡ some t
    → IsSound q
    → (rest ≡ some t → IsSound t)
    → IsSound t
first-IsSound true q rest t h s k = subst IsSound (some-injective _ _ h) s
first-IsSound false q rest t h s k = k h

get_timer-IsSound :
    (id : ℕ) (rows : Timers) (t : Timer) → get_timer id rows ≡ some t → IsTable rows → IsSound t
unfolding get_timer
get_timer-IsSound id [] t h table = absurd (ground arith)
get_timer-IsSound id (q ∷ rows) t h table =
    first-IsSound (q.id == id) q (get_timer id rows) t h table.0
      (λ e. get_timer-IsSound id rows t e table.2)

module _ (test : Timer → Bool) where
  module _ (next : Timer) (same_id : (q : Timer) → test q ≡ true → q.id ≡ next.id)
      (sound : IsSound next) where
    updated_id : (b : Bool) (q : Timer) → test q ≡ b → (if b then next else q).id ≡ q.id
    updated_id true q h = sym (same_id q h)
    updated_id false q h = refl

    updated-IsSound : (b : Bool) (q : Timer) → IsSound q → IsSound (if b then next else q)
    updated-IsSound true q s = sound
    updated-IsSound false q s = s

    updated_fresh :
        (id : ℕ) (rows : Timers)
        → All (λ q. id ≢ q.id) rows
        → All (λ q. id ≢ q.id) (update_where test (λ q. next) rows)
    unfolding update_where
    updated_fresh id [] all = tt
    updated_fresh id (q ∷ rows) all =
        (λ e. all.0 (cc (updated_id (test q) q refl)), updated_fresh id rows all.1)

    update_where-IsTable :
        (rows : Timers) → IsTable rows → IsTable (update_where test (λ q. next) rows)
    unfolding update_where
    update_where-IsTable [] table = tt
    update_where-IsTable (q ∷ rows) table = (
      updated-IsSound (test q) q table.0,
      subst (λ id. All (λ (p : Timer). id ≢ p.id) (update_where test (λ q. next) rows))
          (sym (updated_id (test q) q refl)) (updated_fresh q.id rows table.1),
      update_where-IsTable rows table.2,
    )

  kept-IsTable :
      (b : Bool) (q : Timer) (rows : Timers)
      → IsTable (q ∷ rows)
      → IsTable rows
      → IsTable (if b then q ∷ rows else rows)
  kept-IsTable true q rows table rest = table
  kept-IsTable false q rows table rest = rest

  keep_where-IsTable : (rows : Timers) → IsTable rows → IsTable (keep_where test rows)
  unfolding keep_where
  keep_where-IsTable [] table = tt
  keep_where-IsTable (q ∷ rows) table =
      let rest = keep_where-IsTable rows table.2 in
      kept-IsTable (test q) q (keep_where test rows)
        (table.0, All-keep_where _ test rows table.1, rest) rest

free_fresh :
    (id : ℕ) (rows : Timers) → any_where (has_id id) rows ≡ false → All (λ q. id ≢ q.id) rows
unfolding any_where
free_fresh id [] h = tt
free_fresh id (q ∷ rows) h = (ground arith, free_fresh id rows (ground arith))

-- The search of `compute_next_fire` leaves the kind alone.
computed_kind :
    (c : Chrono) (o : Occurrence) (last_fired : Option ℕ) (now : ℕ) (found : Option ℕ × Occurrence)
    → compute_next_fire c o last_fired now ≡ returned found
    → found.1.kind ≡ o.kind
unfolding compute_next_fire
computed_kind c o last_fired now found h =
    let (skips, e) = next_fire-IsKept c o _ found h in ap (λ (q : Occurrence). q.kind) e

patch_valid :
    (p : Option Occurrence) (o : Occurrence)
    → patch_error p ≡ none
    → validate o.kind ≡ none
    → validate (unwrap_or p o).kind ≡ none
unfolding patch_error
patch_valid none o h v = v
patch_valid (some q) o h v = h

recomputed-IsSound :
    (next : Timer) (found : Option ℕ × Occurrence)
    → found.1.kind ≡ next.occurrence.kind
    → validate next.occurrence.kind ≡ none
    → IsSound (recomputed next found)
unfolding recomputed
recomputed-IsSound next found same v = record {
  is_valid = cc;
  same_tz = refl;
  same_from = refl;
  same_until = refl;
  same_runs = refl;
  positive = omega arith;
  bounded = omega arith;
}

created-IsSound :
    (id : ℕ) (new : NewTimer) (found : Option ℕ × Occurrence)
    → found.1.kind ≡ new.occurrence.kind
    → validate new.occurrence.kind ≡ none
    → IsSound (created id new found)
unfolding created
created-IsSound id new found same v = record {
  is_valid = cc;
  same_tz = refl;
  same_from = refl;
  same_until = refl;
  same_runs = refl;
  positive = omega arith;
  bounded = omega arith;
}

-- A row that was read by its id has it.
pub get_timer-id : (id : ℕ) (rows : Timers) (t : Timer) → get_timer id rows ≡ some t → t.id ≡ id
unfolding get_timer
get_timer-id id [] t h = absurd (ground arith)
get_timer-id id (q ∷ rows) t h = ground (arith, get_timer-id id rows t)

written-IsTable :
    (c : Chrono) (now : ℕ) (u : TimerUpdate) (rows : Timers) (t : Timer) (rows' : Timers)
    → Updated c now u rows t rows'
    → IsTable rows
    → IsTable rows'
unfolding patched recomputed
written-IsTable c now u rows t rows' up table =
    let s = get_timer-IsSound u.id rows up.current up.read table in
    let next = patched up.current u.patch in
    subst IsTable up.written (
      update_where-IsTable (at_revision u.id u.expected_revision) (recomputed next up.found)
        (λ q h. ground (arith, get_timer-id u.id rows up.current up.read))
        (recomputed-IsSound next up.found
          (computed_kind c next.occurrence next.last_fired now up.found up.searched)
          (patch_valid u.patch.occurrence up.current.occurrence up.admitted s.is_valid))
        rows table)

inserted-IsTable :
    (c : Chrono) (now fresh : ℕ) (new : NewTimer) (rows : Timers) (t : Timer) (rows' : Timers)
    → Created c now fresh new rows t rows'
    → IsTable rows
    → IsTable rows'
unfolding created
inserted-IsTable c now fresh new rows t rows' made table =
    let id = unwrap_or new.id fresh in
    subst IsTable made.written (
      created-IsSound id new made.found
          (computed_kind c new.occurrence new.last_fired now made.found made.searched)
          made.admitted,
      free_fresh id rows made.is_free,
      table,
    )

pub Edit-IsTable :
    (c : Chrono) (rows rows' : Timers) → Edit c rows rows' → IsTable rows → IsTable rows'
unfolding delete_timer
Edit-IsTable c rows rows' (creates now fresh new h) table =
    inserted-IsTable c now fresh new rows _ rows'
      (create_timer-Created c now fresh new rows _ rows' h) table
Edit-IsTable c rows rows' (updates now u h) table =
    written-IsTable c now u rows _ rows' (update_timer-Updated c now u rows _ rows' h) table
Edit-IsTable c rows rows' (deletes id) table =
    keep_where-IsTable (λ t. not (has_id id t)) rows table

-- Whatever timers are created, updated and deleted, no two rows of the table share an id, and in each row
-- the schedule is valid, the copies of its zone, window and run cap agree with it, and the revision is a
-- positive i64.
pub Steps-IsTable : (c : Chrono) (rows : Timers) → Steps (Edit c) [] rows → IsTable rows
Steps-IsTable c rows edits = Steps-invariant (Edit-IsTable c) edits tt
