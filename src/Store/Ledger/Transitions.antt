-- ===== src/Store/Ledger/Transitions.antt =====
-- Which runs can be activated and finished.
use mathlib.Core.Option.{some-injective}
use bellman.Common.{
  ℕ, ◌≡◌, ◌≢◌, refl, sym, ◌∙◌, ap, subst, arith, Bool, true, false, ◌&&◌, ◌==◌, Option, none, some,
  [], ◌∷◌, All, String, if◌then◌else◌, ℕ_discrete, count_where, update_where,
}
use bellman.Store.Ledger.{
  RunClaim, Ledger, ClaimStatus, RunOutcome, pending, active, finished, is_open, is_pending,
  get_run, activate_run, finish_run, with_status, finished_by,
}
use bellman.Store.Ledger.Keys.{IsKeyed, IsNewer}

-- A lookup meets the run that it looks for, or goes on.
get_run-first :
    (run_id : ℕ) (q : RunClaim) (rows : Ledger)
    → q.run_id ≡ run_id
    → get_run run_id (q ∷ rows) ≡ some q
unfolding get_run
get_run-first run_id q rows same = ground arith

get_run-later :
    (run_id : ℕ) (q : RunClaim) (rows : Ledger)
    → q.run_id ≢ run_id
    → get_run run_id (q ∷ rows) ≡ get_run run_id rows
unfolding get_run
get_run-later run_id q rows other = ground arith

found_first :
    (run_id : ℕ) (q r : RunClaim) (rows : Ledger)
    → q.run_id ≡ run_id
    → get_run run_id (q ∷ rows) ≡ some r
    → q ≡ r
found_first run_id q r rows same found =
    some-injective _ _ (sym (get_run-first run_id q rows same) ∙ found)

updated_id :
    (change : RunClaim → RunClaim)
    → ((q : RunClaim) → (change q).run_id ≡ q.run_id)
    → (q : RunClaim) (b : Bool) → (if b then change q else q).run_id ≡ q.run_id
updated_id change keeps q true = keeps q
updated_id change keeps q false = refl

-- An update of one run, in some states of it.
module _ (run_id : ℕ) (in_state : ClaimStatus → Bool) where
  abbrev selects : RunClaim → Bool
  selects r = (r.run_id == run_id) && in_state r.status

  count_others :
      (c : RunClaim) (rows : Ledger)
      → c.run_id ≡ run_id
      → All (λ q. IsNewer c q) rows
      → count_where selects rows ≡ 0
  unfolding count_where
  count_others c [] same newer = refl
  count_others c (q ∷ rows) same newer = ground (arith, count_others c rows same newer.1)

  count_selected :
      (rows : Ledger) (r : RunClaim)
      → IsKeyed rows
      → get_run run_id rows ≡ some r
      → count_where selects rows ≡ (if in_state r.status then 1 else 0)
  unfolding count_where get_run
  count_selected [] r ok found = ground arith
  count_selected (q ∷ rows) r ok found = elim (ℕ_discrete q.run_id run_id) [
    | yes same ↦
        subst (λ r. count_where selects (q ∷ rows) ≡ (if in_state r.status then 1 else 0))
          (found_first run_id q r rows same found) (ground (arith, count_others q rows same ok.1))
    | no other ↦ ground (arith, count_selected rows r ok.2)
  ]

  selects_by_state : (q : RunClaim) → q.run_id ≡ run_id → selects q ≡ in_state q.status
  selects_by_state q same = ground arith

  get_run-updated :
      (change : RunClaim → RunClaim)
      → ((q : RunClaim) → (change q).run_id ≡ q.run_id)
      → (rows : Ledger) (r : RunClaim) → get_run run_id rows ≡ some r
      → get_run run_id (update_where selects change rows)
        ≡ some (if in_state r.status then change r else r)
  unfolding update_where get_run
  get_run-updated change keeps [] r found = ground arith
  get_run-updated change keeps (q ∷ rows) r found =
      let updated = if selects q then change q else q in
      let same_id = updated_id change keeps q (selects q) in
      elim (ℕ_discrete q.run_id run_id) [
        | yes same ↦
            get_run-first run_id updated _ (same_id ∙ same)
            ∙ ap (λ b. some (if b then change q else q)) (selects_by_state q same)
            ∙ ap (λ r. some (if in_state r.status then change r else r))
                (found_first run_id q r rows same found)
        | no other ↦
            get_run-later run_id updated _ (λ e. other (sym same_id ∙ e))
            ∙ get_run-updated change keeps rows r (sym (get_run-later run_id q rows other) ∙ found)
      ]

-- What is left of a row that `activate_run` was called for, and whether it succeeded.
abbrev pub activated : ClaimStatus → RunClaim → Bool × RunClaim
activated pending r = (true, record r { status = active })
activated active r = (false, r)
activated finished r = (false, r)

-- What `finish_run` returns and leaves of a row.
abbrev pub ended :
    ClaimStatus → RunOutcome → Option String → ℕ → RunClaim → Option RunClaim × RunClaim
ended finished outcome reason now r = (none, r)
ended pending outcome reason now r =
    let done = record r {
      status = finished;
      outcome = some outcome;
      outcome_reason = reason;
      completed_at = some now;
    } in
    (some done, done)
ended active outcome reason now r =
    let done = record r {
      status = finished;
      outcome = some outcome;
      outcome_reason = reason;
      completed_at = some now;
    } in
    (some done, done)

activated_state :
    (status : ClaimStatus) (r : RunClaim)
    → (is_pending status ≡ (activated status r).0)
      × ((if is_pending status then with_status active r else r) ≡ (activated status r).1)
activated_state pending r = (refl, refl)
activated_state active r = (refl, refl)
activated_state finished r = (refl, refl)

ended_state :
    (status : ClaimStatus) (outcome : RunOutcome) (reason : Option String) (now : ℕ) (r : RunClaim)
    → (◌≡◌ {A = Option RunClaim}
        (if is_open status then some (finished_by outcome reason now r) else none)
        (ended status outcome reason now r).0)
      × ((if is_open status then finished_by outcome reason now r else r)
          ≡ (ended status outcome reason now r).1)
ended_state pending outcome reason now r = (refl, refl)
ended_state active outcome reason now r = (refl, refl)
ended_state finished outcome reason now r = (refl, refl)

-- In a ledger with its keys in order, activating a run succeeds exactly if it is pending, and then its status
-- is active and every other field is as it was; an active or finished run stays as it is.
pub activate_run-exact :
    (run_id : ℕ) (rows : Ledger) (r : RunClaim)
    → IsKeyed rows
    → get_run run_id rows ≡ some r
    → ((activate_run run_id rows).0 ≡ (activated r.status r).0)
      × (get_run run_id (activate_run run_id rows).1 ≡ some (activated r.status r).1)
unfolding activate_run
activate_run-exact run_id rows r ok found =
    let state = activated_state r.status r in
    let changed : (activate_run run_id rows).0 ≡ is_pending r.status =
      ground (arith, count_selected run_id is_pending rows r ok found) in
    (
      changed ∙ state.0,
      get_run-updated run_id is_pending (with_status active) (λ q. refl) rows r found
          ∙ ap (λ (q : RunClaim). some q) state.1,
    )

-- In a ledger with its keys in order, finishing a pending or active run returns and stores the row with the
-- status finished, the outcome, the reason and the time, and with every other field as it was; a finished run
-- is refused and stays as it is.
pub finish_run-exact :
    (run_id : ℕ) (outcome : RunOutcome) (reason : Option String) (now : ℕ) (rows : Ledger)
    (r : RunClaim)
    → IsKeyed rows
    → get_run run_id rows ≡ some r
    → ((finish_run run_id outcome reason now rows).0 ≡ (ended r.status outcome reason now r).0)
      × (get_run run_id (finish_run run_id outcome reason now rows).1
          ≡ some (ended r.status outcome reason now r).1)
unfolding finish_run
finish_run-exact run_id outcome reason now rows r ok found =
    let state = ended_state r.status outcome reason now r in
    let updated =
      get_run-updated run_id is_open (finished_by outcome reason now) (λ q. refl) rows r found in
    let returned : ◌≡◌ {A = Option RunClaim} (finish_run run_id outcome reason now rows).0
        (if is_open r.status then some (finished_by outcome reason now r) else none) =
      ground (arith, count_selected run_id is_open rows r ok found, updated) in
    (returned ∙ state.0, updated ∙ ap (λ (q : RunClaim). some q) state.1)
