-- ===== src/Store/RunStates/Rows.antt =====
-- The rows found before and after a write: `run_states` in crates/bellman-core/src/store/mod.rs.
use mathlib.Core.Option.{some-injective}
use bellman.Common.{
  ℕ, ◌≡◌, ◌≢◌, refl, ap, subst, arith, Bool, true, false, ◌==◌, if◌then◌else◌, Option, none, some,
  List, [], ◌∷◌, update_where, All, OnSome, if_cases, order_by, ◌∙◌,
}
use bellman.Store.Ledger.{RunClaim, by_sequence}
use bellman.Store.RunStates.{
  RunStateRow, Db, get_run_state, newest, row_of_timer, current_run_state,
}

module _ {V : Type 0} where
  found_head :
      (same : Bool) (id : ℕ) (r row : RunStateRow V) (rest : Option (RunStateRow V))
      → r.run_id == id ≡ same
      → (rest ≡ some row → row.run_id ≡ id)
      → (if same then some r else rest) ≡ some row
      → row.run_id ≡ id
  found_head true id r row rest e later h =
      let same : r.run_id ≡ row.run_id =
        ap (λ (q : RunStateRow V). q.run_id) (some-injective _ _ h) in
      ground arith
  found_head false id r row rest e later h = later h

  pub get_run_state-run_id :
      (id : ℕ) (rows : List (RunStateRow V)) (row : RunStateRow V)
      → get_run_state id rows ≡ some row
      → row.run_id ≡ id
  unfolding get_run_state
  get_run_state-run_id id [] row h = ground arith
  get_run_state-run_id id (r ∷ rows) row h =
      found_head (r.run_id == id) id r row _ refl (get_run_state-run_id id rows row) h

  module _ (id : ℕ) (change : RunStateRow V → RunStateRow V)
      (keeps : (r : RunStateRow V) → (change r).run_id ≡ id) where
    changed_head :
        (same : Bool) (r old : RunStateRow V) (rest rest' : Option (RunStateRow V))
        → r.run_id == id ≡ same
        → (rest ≡ some old → rest' ≡ some (change old))
        → (if same then some r else rest) ≡ some old
        → (if (if same then change r else r).run_id == id
            then some (if same then change r else r)
            else rest')
          ≡ some (change old)
    changed_head true r old rest rest' e later h =
        let found : r ≡ old = some-injective _ _ h in
        let changed : change r ≡ change old = ap change found in
        ground (arith, keeps r, ap (λ (q : RunStateRow V). some q) changed)
    changed_head false r old rest rest' e later h = ground (arith, later h)

    -- The row of the run is changed.
    pub get_run_state-update_where :
        (rows : List (RunStateRow V)) (old : RunStateRow V)
        → get_run_state id rows ≡ some old
        → get_run_state id (update_where (λ r. r.run_id == id) change rows) ≡ some (change old)
    unfolding get_run_state update_where
    get_run_state-update_where [] old h = ground (arith, h)
    get_run_state-update_where (r ∷ rows) old h =
        changed_head (r.run_id == id) r old _ _ refl (get_run_state-update_where rows old) h

    -- Every other run keeps its row.
    pub get_run_state-other :
        (other : ℕ) (rows : List (RunStateRow V))
        → other ≢ id
        → get_run_state other (update_where (λ r. r.run_id == id) change rows)
          ≡ get_run_state other rows
    unfolding get_run_state update_where
    get_run_state-other other [] ne = refl
    get_run_state-other other (r ∷ rows) ne =
        ground (arith, keeps r, ne, get_run_state-other other rows ne)

    -- A run without a row gets none.
    pub get_run_state-none :
        (rows : List (RunStateRow V))
        → get_run_state id rows ≡ none
        → get_run_state id (update_where (λ r. r.run_id == id) change rows) ≡ none
    unfolding get_run_state update_where
    get_run_state-none [] h = refl
    get_run_state-none (r ∷ rows) h = ground (arith, h, keeps r, get_run_state-none rows)

  All-head {κ} :
      (P : RunStateRow V → Type κ) (same : Bool) (r row : RunStateRow V)
      (rest : Option (RunStateRow V))
      → P r
      → (rest ≡ some row → P row)
      → (if same then some r else rest) ≡ some row
      → P row
  All-head P true r row rest p later h = subst P (some-injective _ _ h) p
  All-head P false r row rest p later h = later h

  pub All-get_run_state {κ} :
      (P : RunStateRow V → Type κ) (id : ℕ) (rows : List (RunStateRow V)) (row : RunStateRow V)
      → All P rows
      → get_run_state id rows ≡ some row
      → P row
  unfolding get_run_state
  All-get_run_state P id [] row all h = absurd (ground arith)
  All-get_run_state P id (r ∷ rows) row all h =
      All-head P (r.run_id == id) r row _ all.0 (All-get_run_state P id rows row all.1) h

  last_of {κ} :
      (P : RunStateRow V → Type κ) (rest first : Option (RunStateRow V))
      → OnSome P rest
      → OnSome P first
      → OnSome P (elim rest [ none ↦ first | some r ↦ some r ])
  last_of P none first p q = q
  last_of P (some r) first p q = p

  newest_found {κ} :
      (P : RunStateRow V → Type κ) (find : RunClaim → Option (RunStateRow V))
      (claims : List RunClaim)
      → ((c : RunClaim) → OnSome P (find c))
      → OnSome P (newest find claims)
  unfolding newest
  newest_found P find [] h = tt
  newest_found P find (c ∷ claims) h =
      last_of P (newest find claims) (find c) (newest_found P find claims h) (h c)

  -- The row found is the one of its run.
  abbrev pub IsFound : List (RunStateRow V) → RunStateRow V → Type 0
  IsFound rows row = get_run_state row.run_id rows ≡ some row

  row_of_timer-IsFound :
      (timer_id id : ℕ) (rows : List (RunStateRow V)) (row : Option (RunStateRow V))
      → get_run_state id rows ≡ row
      → OnSome (IsFound rows) (row_of_timer timer_id row)
  row_of_timer-IsFound timer_id id rows none h = tt
  row_of_timer-IsFound timer_id id rows (some row) h =
      if_cases (OnSome (IsFound rows)) (row.timer_id == timer_id)
        (λ same. ap (λ n. get_run_state n rows) (get_run_state-run_id id rows row h) ∙ h)
        (λ other. tt)

  pub current_run_state-IsFound :
      (timer_id : ℕ) (db : Db V) → OnSome (IsFound db.run_states) (current_run_state timer_id db)
  unfolding current_run_state
  current_run_state-IsFound timer_id db =
      newest_found (IsFound db.run_states) _ (order_by by_sequence db.runs)
        (λ c. row_of_timer-IsFound timer_id c.run_id db.run_states _ refl)
