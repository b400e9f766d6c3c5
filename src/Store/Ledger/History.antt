-- ===== src/Store/Ledger/History.antt =====
-- The rows of the ledger over a sequence of writes.
use mathlib.Core.Option.{some-injective}
use bellman.Common.{
  ℕ, Option, ◌==◌, ◌≡◌, refl, arith, Bool, true, false, ◌∙◌, sym, ap, subst, ℕ_discrete, [], ◌∷◌,
  if◌then◌else◌, Steps, Steps-invariant, some, any_where, update_where,
}
use bellman.Store.Ledger.{
  active, pending, RunClaim, Ledger, is_open, get_run, violates, finish_run, finish_run_conn,
  activate_run, repend_run, repend_all_active, request_cancel_active, with_status, finished_by,
  can_finish, new_claim, claim_run,
}
use bellman.Store.Ledger.Keys.{
  Write, claims, finishes, finishes_in_fire, activates, repends, repends_all, cancels,
  claim_run-some, pending_open, active_open,
}

-- The same run later on: its keys stay, and if it was finished all of it does.
abbrev pub Follows : RunClaim → RunClaim → Type 0
Follows r r' =
    (r'.run_id ≡ r.run_id)
    × (r'.timer_id ≡ r.timer_id)
    × (r'.scheduled_for ≡ r.scheduled_for)
    × (r'.event_sequence ≡ r.event_sequence)
    × (is_open r.status ≡ false → r' ≡ r)

Follows-refl : (r : RunClaim) → Follows r r
Follows-refl r = (refl, refl, refl, refl, λ h. refl)

Follows-trans : (r r' r'' : RunClaim) → Follows r r' → Follows r' r'' → Follows r r''
Follows-trans r r' r'' (a, b, c, d, e) (a', b', c', d', e') =
    (a' ∙ a, b' ∙ b, c' ∙ c, d' ∙ d, λ h. e' (ap (λ r. is_open r.status) (e h) ∙ h) ∙ e h)

-- The run is still there.
abbrev pub Remains : ℕ → RunClaim → Ledger → Type 0
Remains run_id r rows = (r' : RunClaim) × (get_run run_id rows ≡ some r') × Follows r r'

-- The same of a lookup that has not been made.
abbrev Found : RunClaim → Option RunClaim → Type 0
Found r found = (r' : RunClaim) × (found ≡ some r') × Follows r r'

Found-first :
    (r q x : RunClaim) (rest rest' : Option RunClaim) (b : Bool)
    → Follows q x
    → (rest ≡ some r → Found r rest')
    → (if b then some q else rest) ≡ some r
    → Found r (if b then some x else rest')
Found-first r q x rest rest' true follows later h =
    (x, refl, subst (λ q. Follows q x) (some-injective _ _ h) follows)
Found-first r q x rest rest' false follows later h = later h

module _ (test : RunClaim → Bool) (change : RunClaim → RunClaim)
    (follows : (q : RunClaim) → test q ≡ true → Follows q (change q)) where
  updated-Follows : (q : RunClaim) (b : Bool) → test q ≡ b → Follows q (if b then change q else q)
  updated-Follows q true h = follows q h
  updated-Follows q false h = Follows-refl q

  update_where-Remains :
      (run_id : ℕ) (r : RunClaim) (rows : Ledger)
      → get_run run_id rows ≡ some r
      → Remains run_id r (update_where test change rows)
  unfolding update_where get_run
  update_where-Remains run_id r [] h = ground arith
  update_where-Remains run_id r (q ∷ rows) h =
      let x = if test q then change q else q in
      let follows_q = updated-Follows q (test q) refl in
      let rest = get_run run_id rows in
      let rest' = get_run run_id (update_where test change rows) in
      subst (λ n. Found r (if n == run_id then some x else rest')) (sym follows_q.0)
        (Found-first r q x rest rest' (q.run_id == run_id) follows_q
          (λ later. update_where-Remains run_id r rows later) h)

any_where-get_run :
    (run_id timer_id scheduled_for : ℕ) (r : RunClaim) (rows : Ledger)
    → get_run run_id rows ≡ some r
    → any_where (violates run_id timer_id scheduled_for) rows ≡ true
unfolding any_where get_run
any_where-get_run run_id timer_id scheduled_for r [] h = ground arith
any_where-get_run run_id timer_id scheduled_for r (q ∷ rows) h =
    ground (arith, any_where-get_run run_id timer_id scheduled_for r rows)

-- A claim with a free run id hides no run.
get_run-cons :
    (c r : RunClaim) (rows : Ledger) (run_id : ℕ)
    → any_where (violates c.run_id c.timer_id c.scheduled_for) rows ≡ false
    → get_run run_id rows ≡ some r
    → get_run run_id (c ∷ rows) ≡ some r
unfolding get_run
get_run-cons c r rows run_id free found = elim (ℕ_discrete c.run_id run_id) [
  | yes same ↦
      let taken =
        any_where-get_run c.run_id c.timer_id c.scheduled_for r rows
          (subst (λ n. get_run n rows ≡ some r) (sym same) found) in
      ground (arith, taken)
  | no other ↦ ground arith
]

claim_run-Remains :
    (new_id now timer_id scheduled_for : ℕ) (rows rows' : Ledger) (claim : RunClaim)
    → claim_run new_id now timer_id scheduled_for rows ≡ some (claim, rows')
    → (run_id : ℕ) (r : RunClaim) → get_run run_id rows ≡ some r
    → Remains run_id r rows'
unfolding new_claim
claim_run-Remains new_id now timer_id scheduled_for rows rows' claim h run_id r found =
    let (free, _, same) = claim_run-some new_id now timer_id scheduled_for rows rows' claim h in
    subst (Remains run_id r) same (r, get_run-cons _ r rows run_id free found, Follows-refl r)

-- A write keeps the runs of the ledger.
Write-Remains :
    (rows rows' : Ledger)
    → Write rows rows'
    → (run_id : ℕ) (r : RunClaim) → get_run run_id rows ≡ some r
    → Remains run_id r rows'
unfolding finish_run finish_run_conn activate_run repend_run repend_all_active request_cancel_active
Write-Remains rows rows' (claims new_id now timer_id scheduled_for h) =
    claim_run-Remains new_id now timer_id scheduled_for rows rows' _ h
Write-Remains rows rows' (finishes id outcome reason now) = λ run_id r.
    update_where-Remains (can_finish id) (finished_by outcome reason now)
      (λ q h. (refl, refl, refl, refl, λ closed. ground arith)) run_id r rows
Write-Remains rows rows' (finishes_in_fire id outcome reason now) = λ run_id r.
    update_where-Remains (can_finish id) (finished_by outcome reason now)
      (λ q h. (refl, refl, refl, refl, λ closed. ground arith)) run_id r rows
Write-Remains rows rows' (activates id) = λ run_id r.
    update_where-Remains _ (with_status active)
      (λ q h. (refl, refl, refl, refl, λ closed. ground (arith, pending_open q.status))) run_id r
      rows
Write-Remains rows rows' (repends id) = λ run_id r.
    update_where-Remains _ (with_status pending)
      (λ q h. (refl, refl, refl, refl, λ closed. ground (arith, active_open q.status))) run_id r
      rows
Write-Remains rows rows' repends_all = λ run_id r.
    update_where-Remains _ (with_status pending)
      (λ q h. (refl, refl, refl, refl, λ closed. ground (arith, active_open q.status))) run_id r
      rows
Write-Remains rows rows' (cancels timer_id exclude) = λ run_id r.
    update_where-Remains _ _
      (λ q h. (refl, refl, refl, refl, λ closed. ground (arith, active_open q.status))) run_id r
      rows

-- A run that the ledger has stays in it through every sequence of these writes, with its timer, its slot and
-- its event sequence, and once it is finished nothing of its row changes any more.
pub Steps-Remains :
    (rows rows' : Ledger)
    → Steps Write rows rows'
    → (run_id : ℕ) (r : RunClaim) → get_run run_id rows ≡ some r
    → Remains run_id r rows'
Steps-Remains rows rows' writes run_id r found =
    Steps-invariant {P = λ rows. Remains run_id r rows}
      (λ s t write (r', h, follows).
        let (r'', h', follows') = Write-Remains s t write run_id r' h in
        (r'', h', Follows-trans r r' r'' follows follows'))
      writes (r, found, Follows-refl r)
