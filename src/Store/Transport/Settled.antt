-- ===== src/Store/Transport/Settled.antt =====
-- A settled notification stays settled: transport_projections in crates/bellman-core/src/store/mod.rs.
use mathlib.Core.Option.{some-injective}
use bellman.Common.{
  ℕ, ◌≡◌, ◌≢◌, refl, arith, Bool, true, false, not, ◌&&◌, ◌==◌, if◌then◌else◌, Option, some, List,
  [], ◌∷◌, String, update_where, keep_where, Steps, Steps-invariant, if_cases, ap, ◌∙◌,
}
use bellman.Store.Transport.{
  TransportProjection, ProjectionState, Transport, transport_projection, has_run, is_live,
  is_pending, is_published, update_run, insert_transport_projection, mark_transport_published,
  mark_transport_obsolete, requeue_transport_projection, defer_transport_projection,
  convert_projection_to_file, mark_transport_picked_up, prune_transport_for_timer,
}

-- The operations on the tables, as far as they leave a run in its table: an insertion is of another run,
-- and the pruning that of another timer.
pub data Move (run_id timer_id : ℕ) : Transport → Transport → Type 0 where
  inserts :
      {t : Transport} (proj : TransportProjection)
      → proj.run_id ≢ run_id
      → Move run_id timer_id t (insert_transport_projection proj t)
  publishes :
      {t : Transport} (r now : ℕ) → Move run_id timer_id t (mark_transport_published r now t)
  obsoletes : {t : Transport} (r : ℕ) → Move run_id timer_id t (mark_transport_obsolete r t)
  requeues :
      {t : Transport} (r now : ℕ) → Move run_id timer_id t (requeue_transport_projection r now t)
  defers :
      {t : Transport} (r attempts at : ℕ)
      → Move run_id timer_id t (defer_transport_projection r attempts at t)
  converts :
      {t : Transport} (r : ℕ) (path payload : String)
      → Move run_id timer_id t (convert_projection_to_file r path payload t).1
  picks_up : {t : Transport} (r : ℕ) → Move run_id timer_id t (mark_transport_picked_up r t)
  prunes :
      {t : Transport} (other : ℕ)
      → other ≢ timer_id
      → Move run_id timer_id t (prune_transport_for_timer other t)

-- The row of the run.
abbrev pub Holds : ℕ → TransportProjection → Transport → Type 0
Holds run_id p t = transport_projection run_id t.rows ≡ some p

module _ (run_id : ℕ) (p : TransportProjection) where
  -- A row that changes at most where the row sought is not.
  first_kept :
      (same : Bool) (r r' : TransportProjection) (rest rest' : Option TransportProjection)
      → r.run_id == run_id ≡ same
      → r'.run_id ≡ r.run_id
      → (r ≡ p → r' ≡ r)
      → (rest ≡ some p → rest' ≡ some p)
      → (if same then some r else rest) ≡ some p
      → (if r'.run_id == run_id then some r' else rest') ≡ some p
  first_kept true r r' rest rest' e id kept k h =
      let found : r ≡ p = some-injective _ _ h in
      let same : r' ≡ p = kept found ∙ found in
      ground (arith, ap (λ (q : TransportProjection). some q) same)
  first_kept false r r' rest rest' e id kept k h = ground (arith, k h)

  changed_id :
      (b : Bool) (r r' : TransportProjection)
      → r'.run_id ≡ r.run_id
      → (if b then r' else r).run_id ≡ r.run_id
  changed_id true r r' e = e
  changed_id false r r' e = refl

  unchanged :
      (test : TransportProjection → Bool) (r r' : TransportProjection) (b : Bool)
      → test r ≡ b
      → test p ≡ false
      → r ≡ p
      → (if b then r' else r) ≡ r
  unchanged test r r' true e no_test h =
      let f : test r ≡ false = ap test h ∙ no_test in absurd (ground arith)
  unchanged test r r' false e no_test h = refl

  -- An update that does not admit the row leaves it.
  update_keeps :
      (test : TransportProjection → Bool) (change : TransportProjection → TransportProjection)
      (rows : List TransportProjection)
      → ((r : TransportProjection) → (change r).run_id ≡ r.run_id)
      → test p ≡ false
      → transport_projection run_id rows ≡ some p
      → transport_projection run_id (update_where test change rows) ≡ some p
  unfolding transport_projection update_where
  update_keeps test change [] keeps no_test h = h
  update_keeps test change (r ∷ rows) keeps no_test h =
      first_kept (r.run_id == run_id) r _ (transport_projection run_id rows) _ refl
        (changed_id (test r) r (change r) (keeps r))
        (unchanged test r (change r) (test r) refl no_test)
        (update_keeps test change rows keeps no_test) h

  -- A row that is dropped is not the row sought.
  dropped :
      (same : Bool) (test : TransportProjection → Bool) (r : TransportProjection)
      (rest : Option TransportProjection)
      → test r ≡ false
      → test p ≡ true
      → (if same then some r else rest) ≡ some p
      → rest ≡ some p
  dropped true test r rest e kept h =
      let f : test r ≡ true = ap test (some-injective _ _ h) ∙ kept in absurd (ground arith)
  dropped false test r rest e kept h = h

  keep_keeps :
      (test : TransportProjection → Bool) (rows : List TransportProjection)
      → test p ≡ true
      → transport_projection run_id rows ≡ some p
      → transport_projection run_id (keep_where test rows) ≡ some p
  unfolding transport_projection keep_where
  keep_keeps test [] kept h = h
  keep_keeps test (r ∷ rows) kept h =
      if_cases (λ (rs : List TransportProjection). transport_projection run_id rs ≡ some p) (test r)
        (λ e.
          first_kept (r.run_id == run_id) r r (transport_projection run_id rows) _ refl refl
            (λ _. refl) (keep_keeps test rows kept) h)
        (λ e.
          keep_keeps test rows kept
            (dropped (r.run_id == run_id) test r (transport_projection run_id rows) e kept h))

  found_head :
      (same : Bool) (r : TransportProjection) (rest : Option TransportProjection)
      → r.run_id == run_id ≡ same
      → (rest ≡ some p → p.run_id ≡ run_id)
      → (if same then some r else rest) ≡ some p
      → p.run_id ≡ run_id
  found_head true r rest e later h =
      let f : r.run_id ≡ p.run_id =
        ap (λ (q : TransportProjection). q.run_id) (some-injective _ _ h) in
      ground arith
  found_head false r rest e later h = later h

  other_inserted :
      (proj : TransportProjection) (rows : List TransportProjection)
      → proj.run_id ≢ run_id
      → transport_projection run_id rows ≡ some p
      → transport_projection run_id (proj ∷ rows) ≡ some p
  unfolding transport_projection
  other_inserted proj rows other h = ground (arith, h)

  found_run :
      (rows : List TransportProjection)
      → transport_projection run_id rows ≡ some p
      → p.run_id ≡ run_id
  unfolding transport_projection
  found_run [] h = ground arith
  found_run (r ∷ rows) h = found_head (r.run_id == run_id) r _ refl (found_run rows) h

  settled_run :
      (admits : ProjectionState → Bool) (id : ℕ)
      → ((st : ProjectionState) → is_live st ≡ false → admits st ≡ false)
      → is_live p.state ≡ false
      → has_run id p && admits p.state ≡ false
  settled_run admits id sub h = ground (arith, sub p.state h)

  module _ (settled : is_live p.state ≡ false) where
    update_run_keeps :
        (id : ℕ) (admits : ProjectionState → Bool)
        (change : TransportProjection → TransportProjection) (t : Transport)
        → ((st : ProjectionState) → is_live st ≡ false → admits st ≡ false)
        → ((r : TransportProjection) → (change r).run_id ≡ r.run_id)
        → Holds run_id p t
        → Holds run_id p (update_run id admits change t)
    update_run_keeps id admits change t sub keeps h =
        update_keeps (λ r. has_run id r && admits r.state) change t.rows keeps
          (settled_run admits id sub settled) h

    pending_live : (st : ProjectionState) → is_live st ≡ false → is_pending st ≡ false
    pending_live st h = ground arith

    published_live : (st : ProjectionState) → is_live st ≡ false → is_published st ≡ false
    published_live st h = ground arith

    Move-Holds :
        (timer_id : ℕ)
        → p.timer_id ≡ timer_id
        → (t t' : Transport) → Move run_id timer_id t t'
        → Holds run_id p t
        → Holds run_id p t'
    unfolding insert_transport_projection mark_transport_published mark_transport_obsolete
        requeue_transport_projection defer_transport_projection convert_projection_to_file
        mark_transport_picked_up prune_transport_for_timer
    Move-Holds timer_id own t t' (inserts proj other) h =
        let own_run : p.run_id ≡ run_id = found_run t.rows h in
        let kept : not (has_run proj.run_id p) ≡ true = ground arith in
        other_inserted proj _ other (keep_keeps _ t.rows kept h)
    Move-Holds timer_id own t t' (publishes r now) h =
        update_run_keeps r is_pending _ t pending_live (λ r. refl) h
    Move-Holds timer_id own t t' (obsoletes r) h =
        update_run_keeps r is_live _ t (λ st e. e) (λ r. refl) h
    Move-Holds timer_id own t t' (requeues r now) h =
        update_run_keeps r is_published _ t published_live (λ r. refl) h
    Move-Holds timer_id own t t' (defers r attempts at) h =
        update_run_keeps r is_pending _ t pending_live (λ r. refl) h
    Move-Holds timer_id own t t' (converts r path payload) h =
        update_run_keeps r is_live _ t (λ st e. e) (λ r. refl) h
    Move-Holds timer_id own t t' (picks_up r) h =
        update_run_keeps r is_live _ t (λ st e. e) (λ r. refl) h
    Move-Holds timer_id own t t' (prunes other ne) h = keep_keeps _ t.rows (ground arith) h

  -- A notification that is obsolete or picked up is settled: whatever is published, requeued, deferred,
  -- converted or picked up afterwards, its row stays as it is, until the rows of its timer are pruned or its
  -- run is inserted again.
  pub Steps-Holds :
      (timer_id : ℕ) (t t' : Transport)
      → is_live p.state ≡ false
      → p.timer_id ≡ timer_id
      → Steps (Move run_id timer_id) t t'
      → Holds run_id p t
      → Holds run_id p t'
  Steps-Holds timer_id t t' settled own moves h =
      Steps-invariant (Move-Holds settled timer_id own) moves h
