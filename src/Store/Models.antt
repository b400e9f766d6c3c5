-- ===== src/Store/Models.antt =====
-- The timers of the store: crates/bellman-core/src/store/models.rs. A second, and a cap, is a number; the
-- zone mirrors that of the schedule, as resolved there.
use bellman.Common.{ℕ, Bool, true, false, Option, none, some, List, [], String, if◌then◌else◌}
use bellman.Occurrence.Chrono.{Zone}
use bellman.Occurrence.Kind.{is_elapsed_time}
use bellman.Occurrence.Schedule.{Occurrence}

pub data MisfirePolicy : Type 0 where
  skip : MisfirePolicy
  coalesce : ℕ → MisfirePolicy
  catch_up : ℕ → ℕ → MisfirePolicy

pub data OverlapPolicy : Type 0 where
  skip queue_one : OverlapPolicy
  parallel : ℕ → OverlapPolicy
  replace : OverlapPolicy

pub record RetryPolicy : Type 0 where
  pub max_retries : ℕ
  pub delay_secs : ℕ

pub data Action : Type 0 where
  launch : String → List String → Option String → Action
  notify : String → String → Action
  no_action : Action

pub data TransportMode : Type 0 where
  json ipc auto : TransportMode

pub record Timer : Type 0 where
  pub id : ℕ
  pub name : String
  pub enabled : Bool
  pub occurrence : Occurrence
  pub tz : Zone
  pub next_fire_utc : Option ℕ
  pub last_fired : Option ℕ
  pub misfire : MisfirePolicy
  pub overlap : OverlapPolicy
  pub retry : RetryPolicy
  pub valid_from : Option ℕ
  pub valid_until : Option ℕ
  pub max_runs : Option ℕ
  pub tags : List String
  pub action : Action
  pub revision : ℕ
  pub jitter_secs : ℕ
  pub accuracy_slack_secs : Option ℕ
  pub wake_machine : Bool
  pub transport : TransportMode

pub record NewTimer : Type 0 where
  pub id : Option ℕ
  pub name : String
  pub enabled : Bool
  pub occurrence : Occurrence
  pub misfire : MisfirePolicy
  pub overlap : OverlapPolicy
  pub retry : RetryPolicy
  pub tags : List String
  pub action : Action
  pub last_fired : Option ℕ
  pub jitter_secs : ℕ
  pub accuracy_slack_secs : Option ℕ
  pub wake_machine : Bool
  pub transport : TransportMode

-- The two fields with an option inside: the outer one says whether to change it.
pub record TimerPatch : Type 0 where
  pub name : Option String
  pub enabled : Option Bool
  pub occurrence : Option Occurrence
  pub misfire : Option MisfirePolicy
  pub overlap : Option OverlapPolicy
  pub retry : Option RetryPolicy
  pub tags : Option (List String)
  pub action : Option Action
  pub last_fired : Option (Option ℕ)
  pub jitter_secs : Option ℕ
  pub accuracy_slack_secs : Option (Option ℕ)
  pub wake_machine : Option Bool
  pub transport : Option TransportMode

-- The revision is the `i64` of the table; those are positive, and no negative one is expected.
pub record TimerUpdate : Type 0 where
  pub id : ℕ
  pub expected_revision : ℕ
  pub patch : TimerPatch

-- `TimerPatch::default()`.
abbrev pub no_change : TimerPatch
no_change = record {
  name = none;
  enabled = none;
  occurrence = none;
  misfire = none;
  overlap = none;
  retry = none;
  tags = none;
  action = none;
  last_fired = none;
  jitter_secs = none;
  accuracy_slack_secs = none;
  wake_machine = none;
  transport = none;
}

abbrev pub calendar_grace_secs : ℕ
calendar_grace_secs = 3600

-- `MisfirePolicy::for_occurrence`.
unfoldable pub for_occurrence : Occurrence → MisfirePolicy
for_occurrence o = if is_elapsed_time o.kind then skip else coalesce calendar_grace_secs

-- `MisfirePolicy::grace_secs`.
abbrev pub grace_secs : MisfirePolicy → Option ℕ
grace_secs skip = none
grace_secs (coalesce grace) = some grace
grace_secs (catch_up grace max) = some grace

abbrev pub default_retry : RetryPolicy
default_retry = record { max_retries = 1; delay_secs = 30 }

-- `NewTimer::new`.
unfoldable pub new_timer : String → Occurrence → NewTimer
unfolding for_occurrence
new_timer name o = record {
  id = none;
  name = name;
  enabled = true;
  occurrence = o;
  misfire = for_occurrence o;
  overlap = skip;
  retry = default_retry;
  tags = [];
  action = no_action;
  last_fired = none;
  jitter_secs = 0;
  accuracy_slack_secs = none;
  wake_machine = false;
  transport = json;
}

abbrev pub with_jitter : NewTimer → ℕ → NewTimer
with_jitter new secs = record new { jitter_secs = secs }

-- `TransportMode::as_str` and `TransportMode::from_wire`.
abbrev pub as_str : TransportMode → String
as_str json = "json"
as_str ipc = "ipc"
as_str auto = "auto"
