-- ===== src/Scheduler/Due.antt =====
-- A due timer under its misfire policy: handle_due_timer in
-- crates/bellman-core/src/scheduler/engine/delivery.rs.
pub mod Timely
pub mod Bursts
pub mod Policies
use bellman.Common.{
  ℕ, zero, suc, ◌+◌, ◌-◌, min, Bool, true, false, leb, ltb, ◌||◌, if◌then◌else◌, Option, none, some,
  List, [], ◌∷◌, String, length, keep_where, u32_max, returned,
}
use bellman.Common.Results.{Effect, ok, ◌>>=◌, ◌>>◌, done, fail, calls}
use bellman.Occurrence.Chrono.{second}
use bellman.Store.Models.{Timer, MisfirePolicy, skip, coalesce, catch_up}
use bellman.Scheduler.Misfire.{saturating_secs, grace_for, walk_missed}
use bellman.Scheduler.State.{
  World, Scheduler, Step, FireKind, on_time, late, coalesced, catch_up_step, DeliveredFire,
  SkippedMisfire, read_timer,
}
use bellman.Scheduler.Horizon.{push_if_in_horizon, requeue_timer, advance_past_now, is_overdue}
use bellman.Scheduler.Delivery.{deliver_one, anchor_last_fired}

abbrev pub last_of : List ℕ → Option ℕ
last_of [] = none
last_of (x ∷ []) = some x
last_of (x ∷ y ∷ xs) = last_of (y ∷ xs)

abbrev pub add_delivered : Option DeliveredFire → List DeliveredFire → List DeliveredFire
add_delivered none fires = fires
add_delivered (some fire) fires = fire ∷ fires

-- A fire is on time up to a second after its slot.
abbrev pub kind_of : ℕ → ℕ → FireKind
kind_of now slot = if leb (now - slot) second then on_time else late now slot

-- The missed fires that are still inside the grace window.
unfoldable pub in_grace : ℕ → ℕ → List ℕ → List ℕ
in_grace now grace walk = keep_where (λ m. leb (now - m) grace) walk

abbrev pub count_u32 : List ℕ → ℕ
count_u32 walk = min (length walk) u32_max

unfoldable pub coalesced_kind : ℕ → ℕ → List ℕ → List ℕ → FireKind
coalesced_kind now fire_at walk grace_walk =
    if ltb 1 (count_u32 walk) || ltb 1 (length grace_walk)
    then coalesced (count_u32 walk)
    else kind_of now fire_at

abbrev pub max_steps : ℕ
max_steps = 100000

abbrev pub past_grace : String
past_grace = "misfire_skip_past_grace"

abbrev pub backlog_past_grace : String
backlog_past_grace = "misfire_coalesce_backlog_past_grace"

module _ {A : Type 0} (w : World A) where
  unfoldable pub log_skipped_misfire : Timer → ℕ → ℕ → ℕ → String → Step A (Unit {0})
  log_skipped_misfire t scheduled_for missed now reason s =
      let event : SkippedMisfire = record {
        timer_id = t.id;
        scheduled_for = scheduled_for;
        count = min missed u32_max;
        logged_at = now;
        message = reason;
      } in
      returned (ok tt, record s { outbox = event ∷ s.outbox })

  unfoldable pub handle_skip : Timer → ℕ → ℕ → Step A (List DeliveredFire)
  unfolding log_skipped_misfire
  handle_skip t scheduled_for now =
      if leb (now - scheduled_for) (grace_for t)
      then (do
        d ← deliver_one w t scheduled_for (kind_of now scheduled_for)
        _ ← requeue_timer w t.id
        done (add_delivered d []))
      else (do
        walk ← calls (walk_missed w.chrono t scheduled_for now)
        _ ←
            log_skipped_misfire t scheduled_for (if leb 1 (length walk) then length walk else 1) now
              past_grace
        _ ← advance_past_now w t.id now
        done [])

  unfoldable pub coalesce_walk :
      Timer → ℕ → ℕ → List ℕ → List ℕ → Option ℕ → Step A (List DeliveredFire)
  unfolding log_skipped_misfire coalesced_kind
  coalesce_walk t scheduled_for now walk grace_walk none = do
    _ ←
        log_skipped_misfire t scheduled_for (if leb 1 (length walk) then length walk else 1) now
          backlog_past_grace
    _ ← advance_past_now w t.id now
    done []
  coalesce_walk t scheduled_for now walk grace_walk (some fire_at) = do
    d ← deliver_one w t fire_at (coalesced_kind now fire_at walk grace_walk)
    _ ← advance_past_now w t.id now
    done (add_delivered d [])

  unfoldable pub handle_coalesce : Timer → ℕ → ℕ → Step A (List DeliveredFire)
  unfolding coalesce_walk in_grace
  handle_coalesce t scheduled_for now = do
    walk ← calls (walk_missed w.chrono t scheduled_for now)
    let grace_walk = in_grace now (grace_for t) walk
    coalesce_walk t scheduled_for now walk grace_walk (last_of grace_walk)

  -- What the loop of a catch-up does next: `more` is the rest of it, from a slot and an index.
  unfoldable pub after_dropped :
      (ℕ → ℕ → Step A (List DeliveredFire)) → ℕ → ℕ → Option Timer → Step A (List DeliveredFire)
  after_dropped more scheduled index none = done []
  after_dropped more scheduled index (some t) = elim t.next_fire_utc [
    | none ↦ done []
    | some nf ↦ elim (ltb scheduled nf) [ true ↦ more nf index | false ↦ done [] ]
  ]

  unfoldable pub after_delivered :
      (ℕ → ℕ → Step A (List DeliveredFire)) → ℕ → ℕ → Option Timer → Step A (List DeliveredFire)
  after_delivered more now index none = done []
  after_delivered more now index (some t) = elim t.next_fire_utc [
    | none ↦ done []
    | some nf ↦ elim (ltb now nf) [
      | true ↦ do _ ← push_if_in_horizon w nf t.id; done []
      | false ↦ more nf index
    ]
  ]

  unfoldable pub deliver_step :
      (ℕ → ℕ → Step A (List DeliveredFire)) → ℕ → ℕ → ℕ → Option Timer → Step A (List DeliveredFire)
  unfolding after_delivered
  deliver_step more now scheduled index none = done []
  deliver_step more now scheduled index (some t) = do
    d ← deliver_one w t scheduled (catch_up_step index)
    fresh ← read_timer w t.id
    rest ← after_delivered more now (index + 1) fresh
    done (add_delivered d rest)

  unfoldable pub catch_up_from : ℕ → ℕ → ℕ → ℕ → ℕ → ℕ → ℕ → Step A (List DeliveredFire)
  unfolding after_dropped deliver_step
  catch_up_from timer_id now grace max zero scheduled index = done []
  catch_up_from timer_id now grace max (suc left) scheduled index =
      let more : ℕ → ℕ → Step A (List DeliveredFire) =
        λ scheduled' index'. catch_up_from timer_id now grace max left scheduled' index' in
      if ltb now scheduled || leb max index
      then done []
      else (if ltb grace (now - scheduled)
          then (do
            _ ← anchor_last_fired w timer_id scheduled
            timer ← read_timer w timer_id
            after_dropped more scheduled index timer)
          else (do timer ← read_timer w timer_id; deliver_step more now scheduled index timer))

  -- The end of a catch-up.
  unfoldable pub settle_caught_up : ℕ → ℕ → Option Timer → Step A (Unit {0})
  settle_caught_up timer_id now none = done tt
  settle_caught_up timer_id now (some t) =
      if is_overdue now t.next_fire_utc
      then advance_past_now w timer_id now
      else requeue_timer w timer_id

  unfoldable pub handle_catch_up : ℕ → ℕ → Timer → ℕ → ℕ → Step A (List DeliveredFire)
  unfolding catch_up_from settle_caught_up
  handle_catch_up grace_secs max_catch_up t scheduled_for now = do
    delivered ←
        catch_up_from t.id now (saturating_secs grace_secs) max_catch_up max_steps scheduled_for 0
    timer ← read_timer w t.id
    _ ← settle_caught_up t.id now timer
    done delivered

  unfoldable pub handle_policy : MisfirePolicy → Timer → ℕ → ℕ → Step A (List DeliveredFire)
  unfolding handle_skip handle_coalesce handle_catch_up
  handle_policy skip t scheduled_for now = handle_skip t scheduled_for now
  handle_policy (coalesce grace) t scheduled_for now = handle_coalesce t scheduled_for now
  handle_policy (catch_up grace max) t scheduled_for now =
      handle_catch_up grace max t scheduled_for now

  unfoldable pub handle_at : ℕ → Timer → Option ℕ → Step A (List DeliveredFire)
  unfolding handle_policy
  handle_at now t none = done []
  handle_at now t (some scheduled_for) =
      if ltb now scheduled_for
      then (do _ ← push_if_in_horizon w scheduled_for t.id; done [])
      else handle_policy t.misfire t scheduled_for now

  unfoldable pub handle_found : ℕ → Option Timer → Step A (List DeliveredFire)
  unfolding handle_at
  handle_found now none = done []
  handle_found now (some t) = if t.enabled then handle_at now t t.next_fire_utc else done []

  -- The hint of the heap is not used by the source either.
  unfoldable pub handle_due_timer : ℕ → ℕ → ℕ → Step A (List DeliveredFire)
  unfolding handle_found
  handle_due_timer timer_id scheduled_for_hint now = do
    timer ← read_timer w timer_id
    handle_found now timer
