-- ===== src/Scheduler/Drive.antt =====
-- The loop that drives the engine: crates/bellman-core/src/scheduler/engine/drive.rs, with the misfire pass
-- and the drain of misfire.rs and the rebuild of horizon.rs.
pub mod Ticks
pub mod Clocks
use bellman.Common.{
  ℕ, zero, suc, ◌+◌, ◌-◌, ◌*◌, ◌/◌, min, Bool, true, false, not, leb, ltb, ◌&&◌, ◌||◌, ◌==◌,
  if◌then◌else◌, Option, none, some, List, [], ◌∷◌, ◌++◌, i64_max, u64_max, contains, order_by,
  keep_where, Call, returned, panicked,
}
use bellman.Common.Results.{Effect, ok, ◌>>=◌, ◌>>◌, done, fail, calls}
use bellman.Store.Ledger.{RunClaim, Ledger, is_pending}
use bellman.Store.Ledger
use bellman.Store.Models.{Timer}
use bellman.Store.Timers
use bellman.Store.Timers.{Timers}
use bellman.Scheduler.Jitter.{apply_execution_jitter, is_high_frequency, max_duration}
use bellman.Scheduler.State.{
  World, Scheduler, Step, SchedulerError, internal, HeapEntry, HeapKind, fire_of, deadline_of,
  DeliveredFire, ControlMsg, refill, shutdown, set_pause_all, arm_deadline, late, draw, read_timer,
  push, or_run_not_found,
}
use bellman.Scheduler.Horizon.{is_overdue}
use bellman.Scheduler.Delivery.{act_and_close}
use bellman.Scheduler.Due.{add_delivered}
use bellman.Scheduler.Drain.{misfire_pass, drain_due}
use bellman.Scheduler.Rebuild.{rebuild_horizon}

-- The pure tests of the loop.

-- A difference of instants in whole milliseconds, to the side of zero, against one of the monotonic clock.
abbrev pub millis : ℕ
millis = 1000000

abbrev pub distance : ℕ → ℕ → ℕ
distance a b = (a - b) + (b - a)

-- `wall_ms` and `mono_ms`; a wall clock set back makes the first negative and the divergence their sum.
unfoldable pub divergence : ℕ → ℕ → ℕ → ℕ → ℕ
divergence last_wall wall last_mono mono =
    let mono_ms = min ((mono - last_mono) / millis) i64_max in
    if leb last_wall wall
    then distance ((wall - last_wall) / millis) mono_ms
    else min ((last_wall - wall) / millis + mono_ms) (i64_max + 1)

unfoldable pub is_clock_jump : ℕ → ℕ → ℕ → ℕ → ℕ → Bool
unfolding divergence
is_clock_jump jump_threshold last_wall wall last_mono mono =
    ltb (min (jump_threshold / millis) u64_max) (divergence last_wall wall last_mono mono)

unfoldable pub external_store_changed : ℕ → ℕ → ℕ → ℕ → Option ℕ → Bool
external_store_changed interval last_rebuild mono last_version none =
    leb interval (mono - last_rebuild)
external_store_changed interval last_rebuild mono last_version (some version) =
    leb interval (mono - last_rebuild) || not (version == last_version)

abbrev pub peek_next : List HeapEntry → Option ℕ
peek_next [] = none
peek_next (entry ∷ heap) = some entry.fire_at

-- `next_sleep`, at the reading of the wall clock.
unfoldable pub next_sleep : ℕ → ℕ → List HeapEntry → ℕ
next_sleep max_sleep now heap = elim (peek_next heap) [
  | none ↦ max_sleep
  | some fire_at ↦ if leb fire_at now then 0 else min (fire_at - now) max_sleep
]

-- `tick` of the loop: what it did.
pub record TickResult : Type 0 where
  pub fires : List DeliveredFire
  pub clock_jump : Bool
  pub refilled : Bool
  pub stops : Bool

-- `ORDER BY claimed_at ASC, run_id ASC`.
unfoldable pub by_claim : RunClaim → RunClaim → Bool
by_claim r q =
    ltb r.claimed_at q.claimed_at || ((r.claimed_at == q.claimed_at) && leb r.run_id q.run_id)

unfoldable pub pending_claims : Ledger → List RunClaim
unfolding by_claim
pending_claims rows = order_by by_claim (keep_where (λ r. is_pending r.status) rows)

module _ {A : Type 0} (w : World A) where
  unfoldable pub read_pending : Step A (List RunClaim)
  read_pending s = returned (ok (pending_claims s.runs), s)

  -- `let _ = self.store.fail_run`: its error is dropped.
  unfoldable pub fail_orphan : ℕ → Step A (Unit {0})
  fail_orphan run_id s =
      let (_, rows) = Ledger.fail_run run_id (w.utc s.reads) s.runs in
      returned (ok tt, record s { runs = rows; reads = s.reads + 1 })

  unfoldable pub recover_claim : RunClaim → Option Timer → Step A (Option DeliveredFire)
  recover_claim claim none = do _ ← fail_orphan claim.run_id; done none
  recover_claim claim (some t) = do
    now ← draw w w.wall
    act_and_close w t claim (late now claim.scheduled_for)

  unfoldable pub recover_claims : List RunClaim → Step A (List DeliveredFire)
  unfolding recover_claim
  recover_claims [] = done []
  recover_claims (claim ∷ claims) = do
    timer ← read_timer w claim.timer_id
    d ← recover_claim claim timer
    rest ← recover_claims claims
    done (add_delivered d rest)

  unfoldable pub recover_pending_claims : Step A (List DeliveredFire)
  unfolding recover_claims
  recover_pending_claims =
      if w.executes_inline then (do claims ← read_pending; recover_claims claims) else done []

  unfoldable pub start_clocks : Step A (Unit {0})
  start_clocks s = returned (
    ok tt,
    record s { last_wall = w.wall s.reads; last_mono = w.mono s.reads; reads = s.reads + 1 },
  )

  -- The early returns of the two, for an engine without a data directory.
  unfoldable pub run_startup_maintenance : Step A (Unit {0})
  run_startup_maintenance = done tt

  unfoldable pub run_reply_startup_scan : Step A (Unit {0})
  run_reply_startup_scan = done tt

  unfoldable pub boot_complete : Step A (Unit {0})
  boot_complete s = returned (ok tt, record s { action = w.boot_complete s.action })

  unfoldable pub set_booted : Step A (Unit {0})
  set_booted s = returned (ok tt, record s { booted = true })

  unfoldable pub boot : Step A (List DeliveredFire)
  unfolding recover_pending_claims
  boot = do
    _ ← start_clocks
    _ ← run_startup_maintenance
    _ ← run_reply_startup_scan
    _ ← boot_complete
    recovered ← recover_pending_claims
    missed ← misfire_pass w
    _ ← rebuild_horizon w
    _ ← set_booted
    done (recovered ++ missed)

  unfoldable pub set_pause : Bool → Step A (Unit {0})
  set_pause paused s = returned (ok tt, record s { pause_all = paused })

  -- The messages that stay in the channel.
  unfoldable pub clear_control : List ControlMsg → Bool × Bool → Step A (Bool × Bool)
  clear_control msgs outcome s = returned (ok outcome, record s { control = msgs })

  -- The loop over the control messages: whether the heap was rebuilt, and whether to stop. A shutdown
  -- leaves the later messages in the channel.
  unfoldable pub apply_control : List ControlMsg → Step A (Bool × Bool)
  apply_control [] = clear_control [] (false, false)
  apply_control (shutdown ∷ msgs) = clear_control msgs (false, true)
  apply_control (refill ∷ msgs) = do
    _ ← rebuild_horizon w
    (_, stops) ← apply_control msgs
    done (true, stops)
  apply_control (set_pause_all paused ∷ msgs) = do _ ← set_pause paused; apply_control msgs
  apply_control (arm_deadline run_id kind wall_at ∷ msgs) = do
    _ ← push w (record { fire_at = wall_at; kind = deadline_of run_id kind })
    apply_control msgs

  unfoldable pub take_control : Step A (Bool × Bool)
  take_control s = apply_control s.control s

  -- The probe of `external_store_changed`.
  unfoldable pub probe_store : Step A Bool
  probe_store s = returned (
    ok (
        external_store_changed w.config.external_rebuild_interval s.last_rebuild_mono
          (w.mono s.reads) s.last_data_version (w.data_version s.reads)),
    record s { reads = s.reads + 1 },
  )

  unfoldable pub is_paused : Step A Bool
  is_paused s = returned (ok s.pause_all, s)

  -- Whether the clocks jumped since the last tick, at the readings of this one.
  unfoldable pub probe_clocks : Step A (Bool × ℕ × ℕ)
  probe_clocks s =
      let wall = w.wall s.reads in
      let mono = w.mono s.reads in
      returned (
        ok (is_clock_jump w.config.jump_threshold s.last_wall wall s.last_mono mono, wall, mono),
        record s { reads = s.reads + 1 },
      )

  unfoldable pub set_clocks : ℕ → ℕ → Step A (Unit {0})
  set_clocks wall mono s = returned (ok tt, record s { last_wall = wall; last_mono = mono })

  unfoldable pub on_jump : Bool → Step A (List DeliveredFire)
  on_jump false = done []
  on_jump true = do fires ← misfire_pass w; _ ← rebuild_horizon w; done fires

  -- The rest of a tick that is not paused.
  unfoldable pub tick_clocks : Bool → Step A TickResult
  unfolding on_jump
  tick_clocks refilled = do
    (jump, wall, mono) ← probe_clocks
    jumped ← on_jump jump
    _ ← set_clocks wall mono
    now ← draw w w.wall
    fires ← drain_due w now
    done (record {
      fires = jumped ++ fires;
      clock_jump = jump;
      refilled = refilled || jump;
      stops = false;
    })

  abbrev pub quiet : Bool → Bool → TickResult
  quiet refilled stops = record {
    fires = [];
    clock_jump = false;
    refilled = refilled;
    stops = stops;
  }

  unfoldable pub tick_running : Bool → Step A TickResult
  unfolding tick_clocks
  tick_running refilled = do
    changed ← probe_store
    if changed then rebuild_horizon w else done tt
    paused ← is_paused
    if paused then done (quiet (refilled || changed) false) else tick_clocks (refilled || changed)

  unfoldable pub is_booted : Step A Bool
  is_booted s = returned (ok s.booted, s)

  unfoldable pub tick : Step A TickResult
  unfolding boot apply_control tick_running
  tick = do
    booted ← is_booted
    if booted then done [] else boot
    (refilled, stops) ← take_control
    if stops then done (quiet refilled true) else tick_running refilled
