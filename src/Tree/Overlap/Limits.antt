-- ===== src/Tree/Overlap/Limits.antt =====
-- How many runs of a timer can be unfinished.
use mathlib.Core.Option.{some-injective}
use bellman.Common.{
  ℕ, ◌+◌, ◌≡◌, ◌≤◌, refl, arith, Bool, true, false, ◌&&◌, ◌==◌, ltb, leb, if◌then◌else◌, Option,
  none, some, List, [], ◌∷◌, String, ap, subst, sym, any_where, count_where, update_where,
}
use bellman.Store.Ledger.{
  RunClaim, Ledger, pending, finished, is_open, violates, new_claim, can_finish, finished_by,
  unfinished_claims_count, skipped_misfire, claim_run, get_run, finish_run_conn,
}
use bellman.Store.Models.{OverlapPolicy, skip, queue_one, parallel, replace}
use bellman.Tree.Overlap.{
  Event, FireTx, skip_reason, reason_if, on_reason, apply_overlap_disposition, fire_claim,
  on_claimed, or_claim, event_of, older_claims,
}

-- The unfinished runs of a timer.
abbrev pub unfinished : ℕ → Ledger → ℕ
unfinished timer_id rows = count_where (λ r. (r.timer_id == timer_id) && is_open r.status) rows

abbrev pub limit : OverlapPolicy → Option ℕ
limit skip = some 1
limit queue_one = some 2
limit (parallel cap) = some cap
limit replace = none

-- An update that leaves the first row and the rest alone.
head_kept :
    (b : Bool) (x r : RunClaim) {rows rows' : Ledger}
    → b ≡ false
    → rows ≡ rows'
    → (if b then x else r) ∷ rows ≡ r ∷ rows'
head_kept true x r h same = ground arith
head_kept false x r h same = ap (λ rows. r ∷ rows) same

head_changed :
    (b : Bool) (x r : RunClaim) {rows rows' : Ledger}
    → b ≡ true
    → rows ≡ rows'
    → x ∷ rows' ≡ (if b then x else r) ∷ rows
head_changed true x r h same = ap (λ rows. x ∷ rows) (sym same)
head_changed false x r h same = ground arith

module _ (run_id timer_id scheduled_for : ℕ) where
  abbrev IsFree : Ledger → Type 0
  IsFree rows = any_where (violates run_id timer_id scheduled_for) rows ≡ false

  others_are_all :
      (rows : Ledger)
      → IsFree rows
      → unfinished_claims_count timer_id run_id rows ≡ unfinished timer_id rows
  unfolding unfinished_claims_count any_where count_where
  others_are_all [] free = refl
  others_are_all (r ∷ rows) free = ground (arith, others_are_all rows)

  none_to_finish :
      (change : RunClaim → RunClaim) (rows : Ledger)
      → IsFree rows
      → update_where (can_finish run_id) change rows ≡ rows
  unfolding update_where any_where
  none_to_finish change [] free = refl
  none_to_finish change (r ∷ rows) free =
      head_kept (can_finish run_id r) (change r) r (ground arith)
        (none_to_finish change rows (ground arith))

-- What a fire under a limit comes to, from the number of unfinished runs before: it starts if there
-- is room, and else its claim is finished at once.
abbrev pub FireResult : ℕ → ℕ → ℕ → RunClaim × FireTx → Type 0
FireResult timer_id max before (claim, tx) =
    (claim.status ≡ (if ltb before max then pending else finished))
    × (unfinished timer_id tx.rows ≡ (if ltb before max then before + 1 else before))

skip_claim-FireResult :
    (now max before : ℕ) (claim : RunClaim) (rows rows' : Ledger) (outbox : List Event)
    (reason : String)
    → max ≤ before
    → unfinished claim.timer_id rows ≡ before
    → finished_by skipped_misfire (some reason) now claim ∷ rows ≡ rows'
    → FireResult claim.timer_id max before
        (or_claim (get_run claim.run_id rows') claim, record { rows = rows'; outbox = outbox })
unfolding get_run count_where
skip_claim-FireResult now max before claim rows rows' outbox reason full count same =
    subst
      (λ rows'.
        FireResult claim.timer_id max before
          (or_claim (get_run claim.run_id rows') claim, record { rows = rows'; outbox = outbox }))
      same (ground arith)

on_reason-FireResult :
    (now max before : ℕ) (claim : RunClaim) (rows : Ledger) (outbox : List Event) (reason : String)
    → claim.status ≡ pending
    → unfinished claim.timer_id rows ≡ before
    → update_where (can_finish claim.run_id) (finished_by skipped_misfire (some reason) now) rows
      ≡ rows
    → (full : Bool) → leb max before ≡ full
    → FireResult claim.timer_id max before (
        on_reason now claim
          (record { rows = claim ∷ rows; outbox = outbox })
          (reason_if full reason))
unfolding on_reason finish_run_conn update_where count_where
on_reason-FireResult now max before claim rows outbox reason is_new count same true h =
    skip_claim-FireResult now max before claim rows _
      (event_of skipped_misfire claim reason ∷ outbox) reason (ground arith) count
      (head_changed (can_finish claim.run_id claim) _ claim (ground (arith, ap is_open is_new))
        same)
on_reason-FireResult now max before claim rows outbox reason is_new count same false h =
    (ground (arith, is_new), ground (arith, ap is_open is_new))

-- The disposition of a new claim under a policy with a limit.
module _ (run_id now timer_id scheduled_for : ℕ) (rows : Ledger) (outbox : List Event)
    (free : any_where (violates run_id timer_id scheduled_for) rows ≡ false) where
  abbrev fresh : RunClaim
  fresh = new_claim run_id now timer_id scheduled_for rows

  abbrev opened : FireTx
  opened = record { rows = fresh ∷ rows; outbox = outbox }

  older-unfinished : older_claims fresh opened ≡ unfinished timer_id rows
  unfolding unfinished_claims_count count_where new_claim
  older-unfinished = ground (arith, others_are_all run_id timer_id scheduled_for rows free)

  under_limit :
      (max : ℕ) (reason : String)
      → FireResult timer_id max
          (unfinished timer_id rows)
          (on_reason now fresh opened (reason_if (leb max (older_claims fresh opened)) reason))
  unfolding new_claim
  under_limit max reason =
      on_reason-FireResult now max (unfinished timer_id rows) fresh rows outbox reason refl refl
        (none_to_finish run_id timer_id scheduled_for _ rows free) _
        (ap (λ n. leb max n) (sym older-unfinished))

  abbrev Meets : OverlapPolicy → ℕ → Type 0
  Meets policy max =
      FireResult timer_id max (unfinished timer_id rows)
        (apply_overlap_disposition policy now fresh opened)

  disposition-FireResult :
      (policy : OverlapPolicy) (max : ℕ) → limit policy ≡ some max → Meets policy max
  unfolding apply_overlap_disposition skip_reason
  disposition-FireResult skip max h = subst (Meets skip) (some-injective _ _ h) (under_limit 1 _)
  disposition-FireResult queue_one max h =
      subst (Meets queue_one) (some-injective _ _ h) (under_limit 2 _)
  disposition-FireResult (parallel cap) max h =
      subst (Meets (parallel cap)) (some-injective _ _ h) (under_limit cap _)
  disposition-FireResult replace max h = ground arith

-- A fire of a free slot under `skip`, `queue_one` or `parallel cap`, whose limits are 1, 2 and the cap,
-- always claims its run. While fewer runs of the timer are unfinished than the limit, the run is
-- pending and adds one to them; at the limit it is finished at once and their number stays.
pub fire_claim-limit :
    (policy : OverlapPolicy) (max run_id now timer_id scheduled_for : ℕ) (rows : Ledger)
    (outbox : List Event)
    → limit policy ≡ some max
    → any_where (violates run_id timer_id scheduled_for) rows ≡ false
    → (claim : RunClaim) × (tx : FireTx) × ◌≡◌ {A = Option (RunClaim × FireTx)}
        (fire_claim policy run_id now timer_id scheduled_for rows outbox)
        (some (claim, tx))
      × FireResult timer_id max (unfinished timer_id rows) (claim, tx)
unfolding fire_claim on_claimed claim_run
fire_claim-limit policy max run_id now timer_id scheduled_for rows outbox h free =
    let c = new_claim run_id now timer_id scheduled_for rows in
    let result =
      apply_overlap_disposition policy now c (record { rows = c ∷ rows; outbox = outbox }) in
    (
      result.0,
      result.1,
      ap
          (λ b.
            on_claimed policy now outbox
              (if◌then◌else◌ {A = Option (RunClaim × Ledger)} b none (some (c, c ∷ rows))))
          free,
      disposition-FireResult run_id now timer_id scheduled_for rows outbox free policy max h,
    )
