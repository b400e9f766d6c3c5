-- ===== src/Store/Ledger.antt =====
-- The claim ledger, the table `runs`: crates/bellman-core/src/store/mod.rs and models.rs. An operation is
-- the transaction that the source commits; a new run id and the clock are arguments. Event sequences
-- stay below 2^63.
pub mod Keys
pub mod History
pub mod Transitions
use bellman.Common.{
  ℕ, ◌+◌, Bool, true, false, not, ◌&&◌, ◌||◌, ◌==◌, ltb, leb, if◌then◌else◌, Option, none, some,
  List, [], ◌∷◌, String, update_where, count_where, any_where, keep_where, order_by,
}

pub data ClaimStatus : Type 0 where
  pending active finished : ClaimStatus

pub data RunOutcome : Type 0 where
  wake_delivered wake_failed skipped_misfire : RunOutcome

pub record RunClaim : Type 0 where
  pub run_id : ℕ
  pub timer_id : ℕ
  pub scheduled_for : ℕ
  pub status : ClaimStatus
  pub claimed_at : ℕ
  pub completed_at : Option ℕ
  pub event_sequence : ℕ
  pub outcome : Option RunOutcome
  pub outcome_reason : Option String
  pub cancel_requested : Bool

-- The rows of the table, the newest first.
abbrev pub Ledger : Type 0
Ledger = List RunClaim

abbrev pub is_pending : ClaimStatus → Bool
is_pending pending = true
is_pending active = false
is_pending finished = false

abbrev pub is_active : ClaimStatus → Bool
is_active active = true
is_active pending = false
is_active finished = false

abbrev pub is_open : ClaimStatus → Bool
is_open pending = true
is_open active = true
is_open finished = false

-- `RunClaim::is_unfinished`.
abbrev pub is_unfinished : RunClaim → Bool
is_unfinished r = is_open r.status

-- `ORDER BY event_sequence, scheduled_for, run_id`.
abbrev pub by_sequence : RunClaim → RunClaim → Bool
by_sequence r q =
    ltb r.event_sequence q.event_sequence
    || ((r.event_sequence == q.event_sequence)
        && (ltb r.scheduled_for q.scheduled_for
            || ((r.scheduled_for == q.scheduled_for) && leb r.run_id q.run_id)))

unfoldable pub runs_for_timer : ℕ → Ledger → List RunClaim
runs_for_timer timer_id rows = order_by by_sequence (keep_where (λ r. r.timer_id == timer_id) rows)

unfoldable pub get_run : ℕ → Ledger → Option RunClaim
get_run run_id [] = none
get_run run_id (r ∷ rows) =
    let rest = get_run run_id rows in if r.run_id == run_id then some r else rest

-- `COALESCE(MAX(event_sequence), 0)` over the rows of a timer.
unfoldable pub last_sequence : ℕ → Ledger → ℕ
last_sequence timer_id [] = 0
last_sequence timer_id (r ∷ rows) =
    let rest = last_sequence timer_id rows in
    if (r.timer_id == timer_id) && ltb rest r.event_sequence then r.event_sequence else rest

-- The primary key and the unique pair of a timer and its slot.
abbrev pub violates : ℕ → ℕ → ℕ → RunClaim → Bool
violates run_id timer_id scheduled_for r =
    (r.run_id == run_id) || ((r.timer_id == timer_id) && (r.scheduled_for == scheduled_for))

unfoldable pub new_claim : ℕ → ℕ → ℕ → ℕ → Ledger → RunClaim
new_claim run_id now timer_id scheduled_for rows = record {
  run_id = run_id;
  timer_id = timer_id;
  scheduled_for = scheduled_for;
  status = pending;
  claimed_at = now;
  completed_at = none;
  event_sequence = last_sequence timer_id rows + 1;
  outcome = none;
  outcome_reason = none;
  cancel_requested = false;
}

-- `claim_run` and `claim_run_conn`; `none` is `AlreadyClaimed`.
unfoldable pub claim_run : ℕ → ℕ → ℕ → ℕ → Ledger → Option (RunClaim × Ledger)
unfolding new_claim
claim_run run_id now timer_id scheduled_for rows =
    let claim = new_claim run_id now timer_id scheduled_for rows in
    if any_where (violates run_id timer_id scheduled_for) rows
    then none
    else some (claim, claim ∷ rows)

abbrev pub finished_by : RunOutcome → Option String → ℕ → RunClaim → RunClaim
finished_by outcome reason now r = record r {
  status = finished;
  outcome = some outcome;
  outcome_reason = reason;
  completed_at = some now;
}

abbrev pub can_finish : ℕ → RunClaim → Bool
can_finish run_id r = (r.run_id == run_id) && is_open r.status

-- `finish_run_conn`: whether this call finished the row.
unfoldable pub finish_run_conn : ℕ → RunOutcome → Option String → ℕ → Ledger → Bool × Ledger
finish_run_conn run_id outcome reason now rows = (
  count_where (can_finish run_id) rows == 1,
  update_where (can_finish run_id) (finished_by outcome reason now) rows,
)

-- `finish_run`; `none` is `RunNotFound`.
unfoldable pub finish_run : ℕ → RunOutcome → Option String → ℕ → Ledger → Option RunClaim × Ledger
finish_run run_id outcome reason now rows =
    let rows' = update_where (can_finish run_id) (finished_by outcome reason now) rows in
    (if count_where (can_finish run_id) rows == 1 then get_run run_id rows' else none, rows')

unfoldable pub complete_run : ℕ → ℕ → Ledger → Option RunClaim × Ledger
complete_run run_id now rows = finish_run run_id wake_delivered none now rows

unfoldable pub fail_run : ℕ → ℕ → Ledger → Option RunClaim × Ledger
fail_run run_id now rows = finish_run run_id wake_failed none now rows

abbrev pub with_status : ClaimStatus → RunClaim → RunClaim
with_status status r = record r { status = status }

abbrev pub can_activate : ℕ → RunClaim → Bool
can_activate run_id r = (r.run_id == run_id) && is_pending r.status

unfoldable pub activate_run : ℕ → Ledger → Bool × Ledger
activate_run run_id rows = (
  count_where (can_activate run_id) rows == 1,
  update_where (can_activate run_id) (with_status active) rows,
)

unfoldable pub repend_run : ℕ → Ledger → Ledger
repend_run run_id rows =
    update_where (λ r. (r.run_id == run_id) && is_active r.status) (with_status pending) rows

unfoldable pub repend_all_active : Ledger → ℕ × Ledger
repend_all_active rows = (
  count_where (λ r. is_active r.status) rows,
  update_where (λ r. is_active r.status) (with_status pending) rows,
)

-- The other rows of a timer.
abbrev pub is_other : ℕ → ℕ → RunClaim → Bool
is_other timer_id exclude r = (r.timer_id == timer_id) && not (r.run_id == exclude)

unfoldable pub unfinished_claims_count : ℕ → ℕ → Ledger → ℕ
unfinished_claims_count timer_id exclude rows =
    count_where (λ r. is_other timer_id exclude r && is_open r.status) rows

-- `request_cancel_active_conn`: its update.
unfoldable pub request_cancel_active : ℕ → ℕ → Ledger → Ledger
request_cancel_active timer_id exclude rows =
    update_where (λ r. is_other timer_id exclude r && is_active r.status)
      (λ r. record r { cancel_requested = true }) rows
