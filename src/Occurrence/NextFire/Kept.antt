-- ===== src/Occurrence/NextFire/Kept.antt =====
-- What a search leaves of the schedule: next_fire in crates/bellman-core/src/occurrence/schedule.rs.
use bellman.Common.{
  ℕ, zero, suc, ◌≡◌, refl, Bool, true, false, Option, none, some, Call, returned, >>=-eq-returned,
  if◌then◌else◌,
}
use bellman.Occurrence.Chrono.{Chrono}
use bellman.Occurrence.Schedule.{Occurrence}
use bellman.Occurrence.Candidates.{raw_next_after}
use bellman.Occurrence.NextFire.{
  next_fire, next_fire_within, fire_from, consume, on_verdict, on_found, Verdict, give_up, try_next,
  jump_day, skip_one, fire, jump_past_exclusion_day, is_spent, search_floor, max_candidates,
}

-- The schedule but for its pending skips.
abbrev pub IsKept : Occurrence → Occurrence → Type 0
IsKept o o' = (skips : ℕ) × (o' ≡ record o { pending_skips = skips })

IsKept-returned :
    (o : Occurrence) (a b : Option ℕ × Occurrence)
    → returned a ≡ returned b
    → IsKept o a.1
    → IsKept o b.1
IsKept-returned o a b h (skips, e) = let same : a.1 ≡ b.1 = cc in (skips, cc)

module _ (o : Occurrence) (again : ℕ → ℕ → Call (Option ℕ × Occurrence))
    (kept : (t s : ℕ) (r : Option ℕ × Occurrence) → again t s ≡ returned r → IsKept o r.1) where
  on_verdict-IsKept :
      (jump : Call (Option ℕ)) (skipped t : ℕ) (v : Verdict) (r : Option ℕ × Occurrence)
      → on_verdict again o jump skipped t v ≡ returned r
      → IsKept o r.1
  unfolding on_verdict consume
  on_verdict-IsKept jump skipped t give_up r h = IsKept-returned o _ r h (_, refl)
  on_verdict-IsKept jump skipped t try_next r h = kept _ _ r h
  on_verdict-IsKept jump skipped t jump_day r h =
      let (jumped, _, e) = >>=-eq-returned jump _ h in kept _ _ r e
  on_verdict-IsKept jump skipped t skip_one r h = kept _ _ r h
  on_verdict-IsKept jump skipped t fire r h = IsKept-returned o _ r h (_, refl)

  on_found-IsKept :
      (jump : ℕ → Call (Option ℕ)) (skipped : ℕ) (found : Option ℕ) (r : Option ℕ × Occurrence)
      → on_found again o jump skipped found ≡ returned r
      → IsKept o r.1
  unfolding on_found consume
  on_found-IsKept jump skipped none r h = IsKept-returned o _ r h (_, refl)
  on_found-IsKept jump skipped (some t) r h = on_verdict-IsKept (jump t) skipped t _ r h

module _ (c : Chrono) (o : Occurrence) where
  fire_from-IsKept :
      (left cursor skipped : ℕ) (r : Option ℕ × Occurrence)
      → fire_from c left o cursor skipped ≡ returned r
      → IsKept o r.1
  unfolding fire_from consume
  fire_from-IsKept zero cursor skipped r h = IsKept-returned o _ r h (_, refl)
  fire_from-IsKept (suc left) cursor skipped r h =
      let (found, _, e) = >>=-eq-returned (raw_next_after c o cursor) _ h in
      on_found-IsKept o (λ t s. fire_from c left o t s) (λ t s. fire_from-IsKept left t s)
        (λ t. jump_past_exclusion_day c o t) skipped found r e

  spent-IsKept :
      (spent : Bool) (search : Call (Option ℕ × Occurrence)) (r : Option ℕ × Occurrence)
      → ((r' : Option ℕ × Occurrence) → search ≡ returned r' → IsKept o r'.1)
      → (if spent then returned (none, o) else search) ≡ returned r
      → IsKept o r.1
  spent-IsKept true search r kept h = IsKept-returned o (none, o) r h (o.pending_skips, refl)
  spent-IsKept false search r kept h = kept r h

  -- The schedule that a search leaves differs from the given one in its pending skips at most.
  pub next_fire-IsKept :
      (after : ℕ) (r : Option ℕ × Occurrence) → next_fire c o after ≡ returned r → IsKept o r.1
  unfolding next_fire next_fire_within
  next_fire-IsKept after r h =
      spent-IsKept (is_spent o.max_runs o.runs_done) _ r
        (λ r' e. fire_from-IsKept max_candidates (search_floor o.valid_from after) 0 r' e) h
