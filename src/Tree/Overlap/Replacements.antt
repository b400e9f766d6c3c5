-- ===== src/Tree/Overlap/Replacements.antt =====
-- What `Replace` leaves of the older runs.
use bellman.Common.{
  ℕ, ◌≡◌, refl, arith, Bool, true, false, ◌&&◌, ◌||◌, ◌==◌, if◌then◌else◌, Option, List, [], ◌∷◌,
  All, String, update_where,
}
use bellman.Store.Ledger.{
  RunClaim, Ledger, is_pending, is_active, is_other, can_finish, finished_by, wake_failed,
  finish_run_conn, request_cancel_active,
}
use bellman.Store.Ledger.Keys.{pending_open}
use bellman.Store.Models.{replace}
use bellman.Tree.Overlap.{
  FireTx, pending_claims_for_timer, insert_ordered, replace_pending, replace_older,
  apply_overlap_disposition,
}

-- One of the claims has this run id.
names : ℕ → List RunClaim → Bool
names run_id [] = false
names run_id (p ∷ ps) = (p.run_id == run_id) || names run_id ps

names-insert_ordered :
    (run_id : ℕ) (r : RunClaim) (ps : List RunClaim)
    → names run_id (insert_ordered r ps) ≡ (r.run_id == run_id) || names run_id ps
unfolding names insert_ordered
names-insert_ordered run_id r [] = refl
names-insert_ordered run_id r (q ∷ ps) = ground (arith, names-insert_ordered run_id r ps)

-- A claim more keeps the names.
names_more :
    (run_id : ℕ) (r : RunClaim) (ps : List RunClaim) (b : Bool)
    → names run_id ps ≡ true
    → names run_id (if b then insert_ordered r ps else ps) ≡ true
names_more run_id r ps true h = ground (arith, names-insert_ordered run_id r ps)
names_more run_id r ps false h = h

names_self :
    (r : RunClaim) (ps : List RunClaim) (b : Bool)
    → b ≡ true
    → names r.run_id (if b then insert_ordered r ps else ps) ≡ true
names_self r ps true h = ground (arith, names-insert_ordered r.run_id r ps)
names_self r ps false h = ground arith

module _ (timer_id exclude : ℕ) where
  -- The older runs of the timer that are pending are among the named ones.
  abbrev AreNamed : List RunClaim → Ledger → Type 0
  AreNamed ps rows =
      All
        (λ r. is_other timer_id exclude r && is_pending r.status ≡ true → names r.run_id ps ≡ true)
        rows

  AreNamed-mono :
      (ps qs : List RunClaim) (rows : Ledger)
      → ((n : ℕ) → names n ps ≡ true → names n qs ≡ true)
      → AreNamed ps rows
      → AreNamed qs rows
  AreNamed-mono ps qs [] more all = tt
  AreNamed-mono ps qs (r ∷ rows) more all =
      (λ h. more r.run_id (all.0 h), AreNamed-mono ps qs rows more all.1)

  pending_claims_for_timer-AreNamed :
      (rows : Ledger) → AreNamed (pending_claims_for_timer timer_id exclude rows) rows
  unfolding pending_claims_for_timer
  pending_claims_for_timer-AreNamed [] = tt
  pending_claims_for_timer-AreNamed (r ∷ rows) =
      let rest = pending_claims_for_timer timer_id exclude rows in
      let is_more = is_other timer_id exclude r && is_pending r.status in
      (
        λ h. names_self r rest is_more h,
        AreNamed-mono rest (if is_more then insert_ordered r rest else rest) rows
            (λ n h. names_more n r rest is_more h) (pending_claims_for_timer-AreNamed rows),
      )

  finished_name :
      (p r : RunClaim) (ps : List RunClaim) (reason : Option String) (now : ℕ) (b : Bool)
      → can_finish p.run_id r ≡ b
      → (is_other timer_id exclude r && is_pending r.status ≡ true → names r.run_id (p ∷ ps) ≡ true)
      → (let q = if b then finished_by wake_failed reason now r else r in
          is_other timer_id exclude q && is_pending q.status ≡ true → names q.run_id ps ≡ true)
  unfolding names
  finished_name p r ps reason now true k named h = ground arith
  finished_name p r ps reason now false k named h = ground (arith, pending_open r.status)

  finished-AreNamed :
      (p : RunClaim) (ps : List RunClaim) (reason : Option String) (now : ℕ) (rows : Ledger)
      → AreNamed (p ∷ ps) rows
      → AreNamed ps (update_where (can_finish p.run_id) (finished_by wake_failed reason now) rows)
  unfolding update_where names
  finished-AreNamed p ps reason now [] all = tt
  finished-AreNamed p ps reason now (r ∷ rows) all = (
    finished_name p r ps reason now (can_finish p.run_id r) refl all.0,
    finished-AreNamed p ps reason now rows all.1,
  )

  replace_pending-AreNamed :
      (now : ℕ) (ps : List RunClaim) (tx : FireTx)
      → AreNamed ps tx.rows
      → AreNamed [] (replace_pending now ps tx).rows
  unfolding replace_pending finish_run_conn
  replace_pending-AreNamed now [] tx all = all
  replace_pending-AreNamed now (p ∷ ps) tx all =
      replace_pending-AreNamed now ps _ (finished-AreNamed p ps _ now tx.rows all)

  -- A row that `Replace` leaves: an older run of the timer does not wait any more, and is asked to stop
  -- if it is active.
  abbrev pub IsReplaced : RunClaim → Type 0
  IsReplaced r =
      is_other timer_id exclude r ≡ true
      → (is_pending r.status ≡ false) × (is_active r.status ≡ true → r.cancel_requested ≡ true)

  cancelled_row :
      (r : RunClaim) (b : Bool)
      → (is_other timer_id exclude r && is_active r.status) ≡ b
      → (is_other timer_id exclude r && is_pending r.status ≡ true → names r.run_id [] ≡ true)
      → IsReplaced (if b then record r { cancel_requested = true } else r)
  unfolding names
  cancelled_row r true k named = λ h. ground arith
  cancelled_row r false k named = λ h. ground arith

  request_cancel_active-IsReplaced :
      (rows : Ledger)
      → AreNamed [] rows
      → All (λ r. IsReplaced r) (request_cancel_active timer_id exclude rows)
  unfolding request_cancel_active update_where
  request_cancel_active-IsReplaced [] all = tt
  request_cancel_active-IsReplaced (r ∷ rows) all = (
    cancelled_row r (is_other timer_id exclude r && is_active r.status) refl all.0,
    request_cancel_active-IsReplaced rows all.1,
  )

-- A fire under `Replace` returns its own claim unchanged, and of the other runs of its timer none is
-- pending then, and every active one has a request to stop.
pub apply_overlap_disposition-replace :
    (now : ℕ) (claim : RunClaim) (tx : FireTx)
    → ((apply_overlap_disposition replace now claim tx).0 ≡ claim)
      × All
          (λ r. IsReplaced claim.timer_id claim.run_id r)
          (apply_overlap_disposition replace now claim tx).1.rows
unfolding apply_overlap_disposition replace_older
apply_overlap_disposition-replace now claim tx = (
  refl,
  request_cancel_active-IsReplaced claim.timer_id claim.run_id _ (
      replace_pending-AreNamed claim.timer_id claim.run_id now
        (pending_claims_for_timer claim.timer_id claim.run_id tx.rows) tx
        (pending_claims_for_timer-AreNamed claim.timer_id claim.run_id tx.rows)),
)
