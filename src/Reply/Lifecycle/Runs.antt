-- ===== src/Reply/Lifecycle/Runs.antt =====
-- What the calls of the engine do to one run: its own moves, and nothing of those of other runs.
use mathlib.Core.Option.{some-injective, none-ne-some}
use bellman.Common.{
  ℕ, ◌≡◌, ◌≢◌, inl, inr, refl, sym, ap, ◌∙◌, subst, arith, ◌==◌, none, some, List, ◌∷◌, ℕ_discrete,
  Steps, done, and_then, Steps-invariant, update_where,
}
use bellman.Events.Record.{EventRecord}
use bellman.Store.RunStates.{RunStateRow, Db, get_run_state, written, update_run_state}
use bellman.Store.RunStates.Rows.{get_run_state-update_where, get_run_state-other}
use bellman.Reply.Engine.{Channel}
use bellman.Reply.Moves.{
  Move, Change, IsRow, acknowledges, starts, logs, digests, reports, picks_up, gives_up, times_out,
  inserts, stays, writes, notes, Moves-run_states, Moves-run_id,
}
use bellman.Reply.Lifecycle.{Step, Step-Change}

module _ {V : Type 0} (run_id : ℕ) (P : RunStateRow V → List (EventRecord V) → Type 0) where
  -- The run has a row with the property.
  abbrev pub Has : Db V → Type 0
  Has db = (row : RunStateRow V) × (get_run_state run_id db.run_states ≡ some row) × P row db.outbox

  -- The property stands under the moves of the run, the events of others, and the write.
  pub record Stands : Type 0 where
    pub own :
        (s s' : RunStateRow V × Db V)
        → Move s s'
        → s.0.run_id ≡ run_id
        → P s.0 s.1.outbox
        → P s'.0 s'.1.outbox
    pub others :
        (row : RunStateRow V) (e : EventRecord V) (outbox : List (EventRecord V))
        → e.run_id ≢ some run_id
        → P row outbox
        → P row (e ∷ outbox)
    pub stored :
        (row old : RunStateRow V) (outbox : List (EventRecord V))
        → P row outbox
        → P (written row old) outbox

  module _ (stands : Stands) where
    other_event :
        (id : ℕ) (e : EventRecord V) → e.run_id ≡ some id → id ≢ run_id → e.run_id ≢ some run_id
    other_event id e own ne h = ne (some-injective _ _ (sym own ∙ h))

    other_move :
        (row : RunStateRow V) (s s' : RunStateRow V × Db V)
        → Move s s'
        → s.0.run_id ≢ run_id
        → P row s.1.outbox
        → P row s'.1.outbox
    other_move row s s' (acknowledges e kind own unlogged) ne p =
        stands.others row e _ (other_event _ e own ne) p
    other_move row s s' (starts e kind own unlogged) ne p =
        stands.others row e _ (other_event _ e own ne) p
    other_move row s s' (logs e kind own) ne p = stands.others row e _ (other_event _ e own ne) p
    other_move row s s' (digests digest) ne p = p
    other_move row s s' (reports new_state r) ne p = p
    other_move row s s' (picks_up now waits) ne p = p
    other_move row s s' (gives_up now waits armed) ne p = p
    other_move row s s' (times_out now ticks) ne p = p

    other_moves :
        {old new : RunStateRow V} {db after : Db V} (row : RunStateRow V)
        → Steps Move (old, db) (new, after)
        → old.run_id ≢ run_id
        → P row db.outbox
        → P row after.outbox
    other_moves {old = old} row moves ne p =
        (Steps-invariant
          {P = λ (s : RunStateRow V × Db V). (s.0.run_id ≡ old.run_id) × P row s.1.outbox}
          (λ s s' move (same, p). (
            Moves-run_id (and_then move done) ∙ same,
            other_move row s s' move (λ e. ne (sym same ∙ e)) p,
          ))
          moves (refl, p)).1

    own_moves :
        {old new : RunStateRow V} {db after : Db V}
        → Steps Move (old, db) (new, after)
        → old.run_id ≡ run_id
        → P old db.outbox
        → P new after.outbox
    own_moves {old = old} moves own p =
        (Steps-invariant
          {P = λ (s : RunStateRow V × Db V). (s.0.run_id ≡ run_id) × P s.0 s.1.outbox}
          (λ s s' move (same, p).
            (Moves-run_id (and_then move done) ∙ same, stands.own s s' move same p))
          moves (own, p)).1

    written_run_id : (new r : RunStateRow V) → (written new r).run_id ≡ new.run_id
    unfolding written
    written_run_id new r = refl

    -- The write of the run's own row.
    own_write :
        {old new : RunStateRow V} {db after : Db V}
        → Steps Move (old, db) (new, after)
        → get_run_state old.run_id db.run_states ≡ some old
        → old.run_id ≡ run_id
        → P old db.outbox
        → Has (update_run_state new after)
    unfolding update_run_state
    own_write {old = old} {new = new} {db = db} {after = after} moves found own p =
        let at : new.run_id ≡ run_id = Moves-run_id moves ∙ own in
        (
          written new old,
          subst
              (λ n.
                get_run_state n
                  (update_where (λ r. r.run_id == new.run_id) (written new) after.run_states)
                ≡ some (written new old))
              at
              (get_run_state-update_where new.run_id (written new) (written_run_id new) _ old (
                ap (λ rows. get_run_state new.run_id rows) (Moves-run_states moves)
                ∙ ap (λ n. get_run_state n db.run_states) (Moves-run_id moves)
                ∙ found)),
          stands.stored new old _ (own_moves moves own p),
        )

    -- The write of the row of another run.
    other_write :
        {old new : RunStateRow V} {db after : Db V}
        → Steps Move (old, db) (new, after)
        → old.run_id ≢ run_id
        → Has db
        → Has (update_run_state new after)
    unfolding update_run_state
    other_write {old = old} {new = new} moves ne (row, found, p) = (
      row,
      get_run_state-other new.run_id (written new) (written_run_id new) run_id _
            (λ e. ne (sym (e ∙ Moves-run_id moves)))
          ∙ ap (λ rows. get_run_state run_id rows) (Moves-run_states moves)
          ∙ found,
      other_moves row moves ne p,
    )

    -- No row and a row are not of the same run.
    apart :
        (id : ℕ) (row : RunStateRow V) (rows : List (RunStateRow V))
        → get_run_state id rows ≡ none
        → get_run_state run_id rows ≡ some row
        → id ≢ run_id
    apart id row rows fresh found e =
        none-ne-some row (sym fresh ∙ ap (λ n. get_run_state n rows) e ∙ found)

    inserted :
        (row new : RunStateRow V) (rows : List (RunStateRow V))
        → get_run_state new.run_id rows ≡ none
        → get_run_state run_id rows ≡ some row
        → get_run_state run_id (new ∷ rows) ≡ some row
    unfolding get_run_state
    inserted row new rows fresh found =
        let other = apart new.run_id row rows fresh found in ground (arith, found, other)

    own_or_other :
        {old new : RunStateRow V} {db after : Db V}
        → IsRow old db
        → Steps Move (old, db) (new, after)
        → Dec (old.run_id ≡ run_id)
        → Has db
        → Has (update_run_state new after)
    own_or_other is_row moves (no ne) has = other_write moves ne has
    own_or_other {old = old} {db = db} (inl of_run) moves (yes own) (row, found, p) =
        let same : old ≡ row =
          some-injective _ _ (sym of_run ∙ ap (λ n. get_run_state n db.run_states) own ∙ found) in
        own_write moves of_run own (subst (λ r. P r db.outbox) (sym same) p)
    own_or_other {old = old} {db = db} (inr (none_found, _, _, _, _, _)) moves (yes own)
          (row, found, p) =
        absurd (apart old.run_id row db.run_states none_found found own)

    Change-Has : (db after : Db V) → Change db after → Has db → Has after
    Change-Has db after (inserts new fresh is_fired) (row, found, p) =
        (row, inserted row new db.run_states fresh found, p)
    Change-Has db after stays has = has
    Change-Has db after (writes {row = old} is_row moves) has =
        own_or_other is_row moves (ℕ_discrete old.run_id run_id) has
    Change-Has db after (notes e id none_found own) (row, found, p) = (
      row,
      found,
      stands.others row e db.outbox
          (other_event id e own (apart id row db.run_states none_found found)) p,
    )

    pub Steps-Has : (ch after : Channel V) → Steps Step ch after → Has ch.db → Has after.db
    Steps-Has ch after steps has =
        Steps-invariant {P = λ (c : Channel V). Has c.db}
          (λ s t step. Change-Has s.db t.db (Step-Change s t step)) steps has
