-- ===== src/Tree/Fire/Returns.antt =====
-- The parts of a fire that the clocks and serde_json may stop: `project_fire` of
-- crates/bellman-core/src/tree/mod.rs.
use bellman.Common.{
  ℕ, ◌+◌, ◌*◌, ◌≤◌, ◌≡◌, ◌≢◌, refl, ap, ◌∙◌, arith, true, ◌==◌, if_cases, Option, none, some,
  String, OnSome, Call, returned, ◌>>=◌,
}
use bellman.Occurrence.Chrono.{second}
use bellman.Store.Ledger.{RunClaim}
use bellman.Store.Models.{Timer}
use bellman.Store.RunStates.{
  RunStateRow, Db, fired_row, row_terminal, get_run_state, insert_run_state,
}
use bellman.Store.Transport.{
  Transport, TransportProjection, next_publication_order, insert_transport_projection,
}
use bellman.Reply.Engine.{Host, Channel, add_wall, span_or, register_fire, clear_deadlines}
use bellman.Reply.Publication.{
  Publisher, FireNotification, select_transport, new_projection, projected, route, notification,
}
use bellman.Tree.Fire.{
  Firing, fire_state, new_row, record_owned, start_deadlines, routed, clear_previous,
}
use bellman.Tree.Fire.Closed.{IsClosed}

pub bind_returned {ℓ κ} :
    {A : Type ℓ} {B : Type κ} {m : Call A} {a : A} (k : A → Call B)
    → m ≡ returned a
    → (m >>= k) ≡ k a
bind_returned k e = ap (λ c. c >>= k) e

module _ {V : Type 0} where
  -- What a call of a fire needs to return: the deadlines are in the range of the clocks, and serde_json writes
  -- the notification.
  pub record CanRecord (host : Host V) (via : Publisher) (f : Firing V) : Type 0 where
    pub in_range : f.now + span_or host.pickup_grace (60 * second) ≤ host.chrono.last_instant
    pub instant : ℕ
    pub counts : host.add_instant host.instant_now host.pickup_grace ≡ returned instant
    pub writes : (n : FireNotification) → (text : String) × (via.to_json n ≡ some text)

  abbrev pub deadline_of : Host V → Firing V → ℕ
  deadline_of host f = f.now + span_or host.pickup_grace (60 * second)

  add_wall_returns :
      (host : Host V) (now span : ℕ)
      → now + span ≤ host.chrono.last_instant
      → add_wall host.chrono now span ≡ returned (now + span)
  add_wall_returns host now span le = ground arith

  -- The rows with that of the run of an owned timer.
  abbrev pub with_row :
      Host V → Publisher → Timer → Firing V → RunClaim → Option String → Db V → Db V
  with_row host via t f claim none db = db
  with_row host via t f claim (some app_name) db =
      insert_run_state (new_row via t f claim app_name (deadline_of host f)) db

  new_projection_written :
      (host : Host V) (via : Publisher) (t : Timer) (f : Firing V) (claim : RunClaim)
      (app_name : String) (order : ℕ)
      → CanRecord host via f
      → (p : TransportProjection) × (new_projection via t claim
            (fire_state f.kind)
            f.folder
            app_name
            order
            f.now
            (select_transport via t)
          ≡ some p)
  unfolding new_projection
  new_projection_written host via t f claim app_name order can =
      let routing = route via t.id claim.run_id f.folder (select_transport via t) in
      (
        _,
        ap (projected t claim order f.now routing.1 routing.2)
            (can.writes
              (notification via t claim (fire_state f.kind) f.folder app_name routing.0)).1,
      )

  pub record_owned-returns :
      (host : Host V) (via : Publisher) (t : Timer) (f : Firing V) (claim : RunClaim)
      (owner : Option String) (db : Db V) (tr : Transport)
      → CanRecord host via f
      → (tr' : Transport) × (record_owned host via t f claim owner db tr
          ≡ returned (some (with_row host via t f claim owner db, tr')))
  unfolding record_owned
  record_owned-returns host via t f claim none db tr can = (tr, refl)
  record_owned-returns host via t f claim (some app_name) db tr can =
      let written =
        new_projection_written host via t f claim app_name (next_publication_order tr) can in
      (
        insert_transport_projection written.0 tr,
        bind_returned _ (add_wall_returns host f.now _ can.in_range)
            ∙ ap (λ o. returned (routed o (with_row host via t f claim (some app_name) db) tr))
                written.1,
      )

  register_fire-returns :
      (host : Host V) (via : Publisher) (f : Firing V) (run_id : ℕ) (ch : Channel V)
      → CanRecord host via f
      → (after : Channel V) × (register_fire host run_id f.now ch ≡ returned after)
        × (after.db ≡ ch.db)
  unfolding register_fire
  register_fire-returns host via f run_id ch can = (
    _,
    bind_returned _ (add_wall_returns host f.now _ can.in_range) ∙ bind_returned _ can.counts,
    refl,
  )

  clear_previous-db : (closed : Option ℕ) (ch : Channel V) → (clear_previous closed ch).db ≡ ch.db
  unfolding clear_deadlines
  clear_previous-db none ch = refl
  clear_previous-db (some run_id) ch = refl

  pub start_deadlines-returns :
      (host : Host V) (via : Publisher) (f : Firing V) (owner : Option String) (run_id : ℕ)
      (closed : Option ℕ) (ch : Channel V)
      → CanRecord host via f
      → (after : Channel V) × (start_deadlines host owner run_id f.now closed ch ≡ returned after)
        × (after.db ≡ ch.db)
  unfolding start_deadlines
  start_deadlines-returns host via f none run_id closed ch can =
      (clear_previous closed ch, refl, clear_previous-db closed ch)
  start_deadlines-returns host via f (some app_name) run_id closed ch can =
      let registered = register_fire-returns host via f run_id ch can in
      (
        clear_previous closed registered.0,
        bind_returned _ registered.1,
        clear_previous-db closed registered.0 ∙ registered.2,
      )

  pub with_row-IsClosed :
      (host : Host V) (via : Publisher) (t : Timer) (f : Firing V) (claim : RunClaim)
      (owner : Option String) (db : Db V) (run_id : ℕ)
      → claim.run_id ≢ run_id
      → IsClosed run_id db
      → IsClosed run_id (with_row host via t f claim owner db)
  unfolding get_run_state new_row fired_row
  with_row-IsClosed host via t f claim none db run_id ne h = h
  with_row-IsClosed host via t f claim (some app_name) db run_id ne h =
      if_cases (OnSome (λ (r : RunStateRow V). row_terminal r ≡ true)) (claim.run_id == run_id)
        (λ same. absurd (ground arith)) (λ other. h)

  pub with_row-own :
      (host : Host V) (via : Publisher) (t : Timer) (f : Firing V) (claim : RunClaim)
      (owner : Option String) (db : Db V)
      → OnSome
          (λ app_name.
            get_run_state claim.run_id (with_row host via t f claim owner db).run_states
            ≡ some (new_row via t f claim app_name (deadline_of host f)))
          owner
  unfolding get_run_state new_row fired_row
  with_row-own host via t f claim none db = tt
  with_row-own host via t f claim (some app_name) db =
      if_cases (λ o. o ≡ some (new_row via t f claim app_name (deadline_of host f)))
        (claim.run_id == claim.run_id) (λ same. refl) (λ other. absurd (ground arith))
