-- ===== src/Store/Ledger/Keys.antt =====
-- The keys of the ledger: no row repeats a run id, a slot or a sequence of its timer.
use mathlib.Core.Option.{some-injective}
use bellman.Common.{
  ap, subst, ℕ, ◌<◌, ◌≡◌, ◌≢◌, refl, arith, Bool, true, false, Option, none, some, [], ◌∷◌, All,
  String, if◌then◌else◌, Steps, Steps-invariant, update_where, any_where,
}
use bellman.Store.Ledger.{
  RunClaim, Ledger, ClaimStatus, RunOutcome, is_open, is_pending, is_active, last_sequence,
  violates, claim_run, new_claim, active, pending, finished, finish_run, finish_run_conn,
  activate_run, repend_run, repend_all_active, request_cancel_active, with_status, finished_by,
  can_finish,
}

-- The operations that claim, move and finish runs. The pruning of old runs is not among them.
pub data Write : Ledger → Ledger → Type 0 where
  claims :
      {rows rows' : Ledger} {claim : RunClaim} (run_id now timer_id scheduled_for : ℕ)
      → claim_run run_id now timer_id scheduled_for rows ≡ some (claim, rows')
      → Write rows rows'
  finishes :
      {rows : Ledger} (run_id : ℕ) (outcome : RunOutcome) (reason : Option String) (now : ℕ)
      → Write rows (finish_run run_id outcome reason now rows).1
  finishes_in_fire :
      {rows : Ledger} (run_id : ℕ) (outcome : RunOutcome) (reason : Option String) (now : ℕ)
      → Write rows (finish_run_conn run_id outcome reason now rows).1
  activates : {rows : Ledger} (run_id : ℕ) → Write rows (activate_run run_id rows).1
  repends : {rows : Ledger} (run_id : ℕ) → Write rows (repend_run run_id rows)
  repends_all : {rows : Ledger} → Write rows (repend_all_active rows).1
  cancels :
      {rows : Ledger} (timer_id exclude : ℕ)
      → Write rows (request_cancel_active timer_id exclude rows)

abbrev is_none : Option RunOutcome → Bool
is_none none = true
is_none (some outcome) = false

-- An outcome stands in the finished rows and in no other.
abbrev pub HasOutcome : RunClaim → Type 0
HasOutcome r = is_open r.status ≡ is_none r.outcome

-- The two rows differ in their run id and in their slot, and the sequence of `r` is the later one.
abbrev pub IsNewer : RunClaim → RunClaim → Type 0
IsNewer r q =
    (r.run_id ≢ q.run_id)
    × (r.timer_id ≡ q.timer_id
        → (r.scheduled_for ≢ q.scheduled_for) × (q.event_sequence < r.event_sequence))

abbrev pub IsKeyed : Ledger → Type 0
IsKeyed [] = Unit
IsKeyed (r ∷ rows) = HasOutcome r × All (λ q. IsNewer r q) rows × IsKeyed rows

-- A change that leaves the keys alone, and the outcome in its place.
abbrev pub Keeps : (RunClaim → Bool) → (RunClaim → RunClaim) → Type 0
Keeps test change =
    (r : RunClaim)
    → ((change r).run_id ≡ r.run_id)
      × ((change r).timer_id ≡ r.timer_id)
      × ((change r).scheduled_for ≡ r.scheduled_for)
      × ((change r).event_sequence ≡ r.event_sequence)
      × (test r ≡ true → HasOutcome r → HasOutcome (change r))

module _ (test : RunClaim → Bool) (change : RunClaim → RunClaim) (keeps : Keeps test change) where
  IsNewer-updated :
      (r : RunClaim) (rows : Ledger)
      → All (λ q. IsNewer r q) rows
      → All (λ q. IsNewer r q) (update_where test change rows)
  unfolding update_where
  IsNewer-updated r [] all = tt
  IsNewer-updated r (q ∷ rows) all = (ground (arith, keeps q), IsNewer-updated r rows all.1)

  IsNewer-changed :
      (r : RunClaim) (rows : Ledger)
      → All (λ q. IsNewer r q) rows
      → All (λ q. IsNewer (change r) q) rows
  IsNewer-changed r [] all = tt
  IsNewer-changed r (q ∷ rows) all = (ground (arith, keeps r), IsNewer-changed r rows all.1)

  updated_row :
      (r : RunClaim) (rows : Ledger) (b : Bool)
      → test r ≡ b
      → HasOutcome r
      → All (λ q. IsNewer r q) rows
      → HasOutcome (if b then change r else r)
        × All (λ q. IsNewer (if b then change r else r) q) rows
  updated_row r rows true h out all = ((keeps r).4 h out, IsNewer-changed r rows all)
  updated_row r rows false h out all = (out, all)

  IsKeyed-update_where : (rows : Ledger) → IsKeyed rows → IsKeyed (update_where test change rows)
  unfolding update_where
  IsKeyed-update_where [] ok = tt
  IsKeyed-update_where (r ∷ rows) ok =
      let (out, newer) =
        updated_row r (update_where test change rows) (test r) refl ok.0
          (IsNewer-updated r rows ok.1) in
      (out, newer, IsKeyed-update_where rows ok.2)

-- A new claim, without its definition: its keys are free and its sequence is past those of its timer.
fresh-IsNewer :
    (c : RunClaim) (rows : Ledger)
    → any_where (violates c.run_id c.timer_id c.scheduled_for) rows ≡ false
    → last_sequence c.timer_id rows < c.event_sequence
    → All (λ q. IsNewer c q) rows
unfolding any_where last_sequence
fresh-IsNewer c [] free past = tt
fresh-IsNewer c (r ∷ rows) free past =
    (ground arith, fresh-IsNewer c rows (ground arith) (ground arith))

-- What a test in front of a claim says once the claim succeeds.
claim_admitted :
    (taken : Bool) (c claim : RunClaim) (rows rows' : Ledger)
    → if◌then◌else◌ {A = Option (RunClaim × Ledger)} taken none (some (c, c ∷ rows))
      ≡ some (claim, rows')
    → (taken ≡ false) × (c ≡ claim) × (c ∷ rows ≡ rows')
claim_admitted true c claim rows rows' h = ground arith
claim_admitted false c claim rows rows' h =
    (refl, ap (λ p. p.0) (some-injective _ _ h), ap (λ p. p.1) (some-injective _ _ h))

pub claim_run-some :
    (run_id now timer_id scheduled_for : ℕ) (rows rows' : Ledger) (claim : RunClaim)
    → claim_run run_id now timer_id scheduled_for rows ≡ some (claim, rows')
    → (any_where (violates run_id timer_id scheduled_for) rows ≡ false)
      × (new_claim run_id now timer_id scheduled_for rows ≡ claim)
      × (new_claim run_id now timer_id scheduled_for rows ∷ rows ≡ rows')
unfolding claim_run
claim_run-some run_id now timer_id scheduled_for rows rows' claim h =
    claim_admitted _ _ claim rows rows' h

claim_run-IsKeyed :
    (run_id now timer_id scheduled_for : ℕ) (rows rows' : Ledger) (claim : RunClaim)
    → claim_run run_id now timer_id scheduled_for rows ≡ some (claim, rows')
    → IsKeyed rows
    → IsKeyed rows'
unfolding new_claim
claim_run-IsKeyed run_id now timer_id scheduled_for rows rows' claim h ok =
    let (free, _, same) = claim_run-some run_id now timer_id scheduled_for rows rows' claim h in
    subst IsKeyed same (
      refl,
      fresh-IsNewer (new_claim run_id now timer_id scheduled_for rows) rows free (omega arith),
      ok,
    )

pub pending_open : (s : ClaimStatus) → is_pending s ≡ true → is_open s ≡ true
pending_open pending h = refl
pending_open active h = ground arith
pending_open finished h = ground arith

pub active_open : (s : ClaimStatus) → is_active s ≡ true → is_open s ≡ true
active_open active h = refl
active_open pending h = ground arith
active_open finished h = ground arith

pub Write-IsKeyed : (rows rows' : Ledger) → Write rows rows' → IsKeyed rows → IsKeyed rows'
unfolding finish_run finish_run_conn activate_run repend_run repend_all_active request_cancel_active
Write-IsKeyed rows rows' (claims run_id now timer_id scheduled_for h) ok =
    claim_run-IsKeyed run_id now timer_id scheduled_for rows rows' _ h ok
Write-IsKeyed rows rows' (finishes run_id outcome reason now) ok =
    IsKeyed-update_where (can_finish run_id) (finished_by outcome reason now)
      (λ r. (refl, refl, refl, refl, λ h out. refl)) rows ok
Write-IsKeyed rows rows' (finishes_in_fire run_id outcome reason now) ok =
    IsKeyed-update_where (can_finish run_id) (finished_by outcome reason now)
      (λ r. (refl, refl, refl, refl, λ h out. refl)) rows ok
Write-IsKeyed rows rows' (activates run_id) ok =
    IsKeyed-update_where _ (with_status active)
      (λ r. (refl, refl, refl, refl, λ h out. ground (arith, pending_open r.status))) rows ok
Write-IsKeyed rows rows' (repends run_id) ok =
    IsKeyed-update_where _ (with_status pending)
      (λ r. (refl, refl, refl, refl, λ h out. ground (arith, active_open r.status))) rows ok
Write-IsKeyed rows rows' repends_all ok =
    IsKeyed-update_where _ (with_status pending)
      (λ r. (refl, refl, refl, refl, λ h out. ground (arith, active_open r.status))) rows ok
Write-IsKeyed rows rows' (cancels timer_id exclude) ok =
    IsKeyed-update_where _ _ (λ r. (refl, refl, refl, refl, λ h out. out)) rows ok

-- Whatever is claimed, activated, returned, cancelled and finished, no two rows of the ledger share a
-- run id or the slot of a timer, a later claim of a timer has a greater event sequence than an earlier
-- one, and an outcome stands in the finished rows and in no other.
pub Steps-IsKeyed : (rows : Ledger) → Steps Write [] rows → IsKeyed rows
Steps-IsKeyed rows writes = Steps-invariant Write-IsKeyed writes tt
