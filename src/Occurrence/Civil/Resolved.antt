-- ===== src/Occurrence/Civil/Resolved.antt =====
-- What an instant resolved from a wall-clock time has to do with that time.
use bellman.Common.{
  ℕ, zero, suc, ◌+◌, ◌-◌, ◌*◌, ◌/◌, ◌<◌, ◌≤◌, ◌≡◌, refl, arith, Option, none, some, Call, returned,
  leb, Ensures, returns, panics, OnSome, Ensures-if, Ensures->>=,
}
use bellman.Occurrence.Chrono.{
  Chrono, Zone, LocalResult, single, ambiguous, nonexistent, second, minute, day_length, add_naive,
}
use bellman.Occurrence.Civil.{
  DstGapPolicy, first_valid_after_gap, DstFoldPolicy, first_occurrence, settle,
  first_second_in_window, probe_minutes, probe_seconds, probe_gap, resolve_naive, resolve_local,
}

-- The instant of a wall-clock time, the earlier one where there are two.
abbrev pub earliest : LocalResult → Option ℕ
earliest (single t) = some t
earliest (ambiguous t latest) = some t
earliest nonexistent = none

-- Some wall-clock time at or after `naive` has the instant `t`.
pub data MapsFrom (z : Zone) (naive t : ℕ) : Type 0 where
  maps_at : (n : ℕ) → naive ≤ n → earliest (z.from_local_datetime n) ≡ some t → MapsFrom z naive t

-- A split on what the zone says, which keeps the equation.
pub LocalResult-Ensures {ℓ κ} :
    {A : Type ℓ} (Q : A → Type κ) (r : LocalResult) {f : ℕ → Call A} {g : ℕ → ℕ → Call A}
    {x : Call A}
    → ((t : ℕ) → earliest r ≡ some t → Ensures Q (f t))
    → ((t latest : ℕ) → earliest r ≡ some t → Ensures Q (g t latest))
    → Ensures Q x
    → Ensures Q (elim r [ single t ↦ f t | ambiguous t latest ↦ g t latest | nonexistent ↦ x ])
LocalResult-Ensures Q (single t) h k l = h t refl
LocalResult-Ensures Q (ambiguous t latest) h k l = k t latest refl
LocalResult-Ensures Q nonexistent h k l = l

add_naive-Ensures : (c : Chrono) (naive d : ℕ) → Ensures (λ p. p ≡ naive + d) (add_naive c naive d)
unfolding add_naive
add_naive-Ensures c naive d = Ensures-if _ _ (λ _. returns refl) (λ _. panics)

module _ (c : Chrono) (z : Zone) (naive : ℕ) where
  -- With rounds for every second up to `end` the loop stops.
  settle-Ensures :
      (rounds probe end after_gap : ℕ)
      → naive ≤ probe
      → end < probe + rounds * second
      → MapsFrom z naive after_gap
      → Ensures (MapsFrom z naive) (settle c (suc rounds) z probe end after_gap)
  unfolding settle
  settle-Ensures zero probe end after_gap h enough m =
      Ensures-if _ (leb probe end) (λ le. absurd (ground arith)) (λ _. returns m)
  settle-Ensures (suc rounds) probe end after_gap h enough m =
      Ensures-if _ (leb probe end)
        (λ le. Ensures->>= _ (add_naive-Ensures c probe second) λ p e.
          LocalResult-Ensures _ (z.from_local_datetime p)
            (λ t r. returns (maps_at p (omega arith) r))
            (λ t latest r. returns (maps_at p (omega arith) r))
            (settle-Ensures rounds p end after_gap (omega arith) (omega arith) m))
        (λ _. returns m)

  first_second_in_window-Ensures :
      (probe after_gap : ℕ)
      → naive ≤ probe
      → MapsFrom z naive after_gap
      → Ensures (MapsFrom z naive) (first_second_in_window c z probe after_gap)
  unfolding first_second_in_window
  first_second_in_window-Ensures probe after_gap h m =
      Ensures->>= _ (add_naive-Ensures c (z.naive_local after_gap) second)
        λ end _. settle-Ensures (suc ((end - probe) / second)) probe end after_gap h (omega arith) m

  probe_minutes-Ensures :
      (left probe : ℕ)
      → naive ≤ probe
      → Ensures (OnSome (MapsFrom z naive)) (probe_minutes c left z probe)
  unfolding probe_minutes
  probe_minutes-Ensures zero probe h = returns tt
  probe_minutes-Ensures (suc left) probe h = Ensures->>= _ (add_naive-Ensures c probe minute) λ p e.
      LocalResult-Ensures _ (z.from_local_datetime p)
        (λ t r.
          Ensures->>= _
            (first_second_in_window-Ensures (p - minute) t (omega arith)
              (maps_at p (omega arith) r))
            (λ t m. returns m))
        (λ t latest r. returns (maps_at p (omega arith) r))
        (probe_minutes-Ensures left p (omega arith))

  probe_seconds-Ensures :
      (left probe : ℕ)
      → naive ≤ probe
      → Ensures (OnSome (MapsFrom z naive)) (probe_seconds c left z probe)
  unfolding probe_seconds
  probe_seconds-Ensures zero probe h = returns tt
  probe_seconds-Ensures (suc left) probe h = Ensures->>= _ (add_naive-Ensures c probe second) λ p e.
      LocalResult-Ensures _ (z.from_local_datetime p) (λ t r. returns (maps_at p (omega arith) r))
        (λ t latest r. returns (maps_at p (omega arith) r))
        (probe_seconds-Ensures left p (omega arith))

  probe_gap-Ensures :
      (minutes seconds : ℕ)
      → Ensures (OnSome (MapsFrom z naive)) (probe_gap c minutes seconds z naive)
  unfolding probe_gap
  probe_gap-Ensures minutes seconds =
      Ensures->>= _ (probe_minutes-Ensures minutes naive (omega arith))
        λ found m. found_or_seconds found m
    where
      found_or_seconds :
          (found : Option ℕ)
          → OnSome (MapsFrom z naive) found
          → Ensures
              (OnSome (MapsFrom z naive))
              (elim found [ some t ↦ returned (some t) | none ↦ probe_seconds c seconds z naive ])
      found_or_seconds (some t) m = returns m
      found_or_seconds none m = probe_seconds-Ensures seconds naive (omega arith)

  pub resolve_naive-Ensures :
      (gap : DstGapPolicy) (fold : DstFoldPolicy)
      → Ensures (OnSome (MapsFrom z naive)) (resolve_naive c z naive gap fold)
  unfolding resolve_naive
  resolve_naive-Ensures first_valid_after_gap first_occurrence =
      LocalResult-Ensures _ (z.from_local_datetime naive)
        (λ t r. returns (maps_at naive (omega arith) r))
        (λ t latest r. returns (maps_at naive (omega arith) r)) (probe_gap-Ensures 180 (3 * 3600))

-- Resolving a civil date and time always ends, without running through the window loop for ever, and
-- an instant that it returns is the instant of that time or of a later wall-clock time.
pub resolve_local-Ensures :
    (c : Chrono) (z : Zone) (date time : ℕ) (gap : DstGapPolicy) (fold : DstFoldPolicy)
    → Ensures
        (OnSome (MapsFrom z (date * day_length + time)))
        (resolve_local c z date time gap fold)
unfolding resolve_local
resolve_local-Ensures c z date time gap fold =
    resolve_naive-Ensures c z (date * day_length + time) gap fold
