-- ===== src/Scheduler/Misfire/Walk.antt =====
-- The walk over missed fires: walk_missed in crates/bellman-core/src/scheduler/engine/misfire.rs.
use bellman.Common.{
  ℕ, zero, suc, ◌≤◌, ◌<◌, ◌≡◌, refl, sym, ap, subst, arith, Bool, true, false, ltb, inl, inr,
  Option, none, some, List, [], ◌∷◌, All, length, Call, returned, ◌>>=◌, Ensures, returns,
  Ensures->>=, Ensures-if, ltb→lt, ltb→le, if_cases,
}
use bellman.Common.Meets.{Partial, Partial-after, Partial-any}
use bellman.Occurrence.Chrono.{Chrono, CronIsExclusive}
use bellman.Occurrence.Schedule.{Occurrence}
use bellman.Occurrence.NextFire.{next_fire}
use bellman.Occurrence.NextFire.Admissible.{DatesInOrder}
use bellman.Occurrence.NextFire.Order.{NextFireResult, next_fire-Ensures}
use bellman.Store.Models.{Timer}
use bellman.Scheduler.Misfire.{walk_found, walk_from, walk_missed, max_walk}

-- The instants grow from `low` on.
abbrev pub Increasing : ℕ → List ℕ → Type 0
Increasing low [] = Unit
Increasing low (x ∷ xs) = (low < x) × Increasing x xs

-- The missed fires after an instant: in order, none later than now, and at most as many as given.
abbrev pub AreMissed : ℕ → ℕ → ℕ → List ℕ → Type 0
AreMissed now left low xs = Increasing low xs × All (λ x. x ≤ now) xs × (length xs ≤ left)

-- The zone stays the same under a search.
found_zone :
    (o : Occurrence) (after t : ℕ) (o' : Occurrence)
    → NextFireResult o after (some t, o')
    → (after < t) × (o'.tz ≡ o.tz)
found_zone o after t o' (inl (left, (later, admissible, same))) =
    (later, ap (λ (q : Occurrence). q.tz) same)
found_zone o after t o' (inr (spent, nothing, same)) = absurd (ground arith)

module _ (now left low t : ℕ) (later : low < t) where
  -- A fire that is past now ends the walk, another one is missed.
  walk_step :
      (b : Bool) (rest : Call (List ℕ))
      → ltb now t ≡ b
      → Ensures (AreMissed now left t) rest
      → Ensures
          (AreMissed now (suc left) low)
          (elim b [ true ↦ returned [] | false ↦ rest >>= λ xs. returned (t ∷ xs) ])
  walk_step true rest h e = returns (tt, tt, omega arith)
  walk_step false rest h e =
      Ensures->>= _ e
        λ xs (inc, all, few). returns ((later, inc), (ltb→le now t h, all), omega (arith, few))

module _ (c : Chrono) (now : ℕ) (law : CronIsExclusive c) where
  walk_found-Ensures :
      (left : ℕ) (o : Occurrence) (cursor : ℕ) (more : Occurrence → ℕ → Call (List ℕ))
      (r : Option ℕ × Occurrence)
      → ((o' : Occurrence) (t : ℕ) → o'.tz ≡ o.tz → Ensures (AreMissed now left t) (more o' t))
      → NextFireResult o cursor r
      → Ensures (AreMissed now (suc left) cursor) (walk_found more now r)
  unfolding walk_found
  walk_found-Ensures left o cursor more (none, o') k r = returns (tt, tt, omega arith)
  walk_found-Ensures left o cursor more (some t, o') k r =
      let (later, zone) = found_zone o cursor t o' r in
      walk_step now left cursor t later (ltb now t) (more o' t) refl (k o' t zone)

  walk_from-Ensures :
      (left : ℕ) (o : Occurrence) (cursor : ℕ)
      → DatesInOrder o.tz
      → Ensures (AreMissed now left cursor) (walk_from c now left o cursor)
  unfolding walk_from
  walk_from-Ensures zero o cursor order = returns (tt, tt, omega arith)
  walk_from-Ensures (suc left) o cursor order =
      Ensures->>= _ (next_fire-Ensures c o cursor law order) (λ r h.
        walk_found-Ensures left o cursor _ r
          (λ o' t zone. walk_from-Ensures left o' t (subst DatesInOrder (sym zone) order)) h)

-- What a walk returns: nothing when the first fire is past now, and otherwise that fire and later ones.
abbrev pub IsWalk : ℕ → ℕ → List ℕ → Type 0
IsWalk first_due now [] = now < first_due
IsWalk first_due now (x ∷ xs) =
    (x ≡ first_due) × (first_due ≤ now) × AreMissed now max_walk first_due xs

-- The walk always ends. It is empty when the first due fire is past now; otherwise it starts with that
-- fire, the instants grow strictly, none is later than now, and there are at most 10000 after the first.
-- The zone is assumed to have no fold over midnight, and croner to search strictly after the given instant.
pub walk_missed-Ensures :
    (c : Chrono) (t : Timer) (first_due now : ℕ)
    → CronIsExclusive c
    → DatesInOrder t.occurrence.tz
    → Ensures (IsWalk first_due now) (walk_missed c t first_due now)
unfolding walk_missed
walk_missed-Ensures c t first_due now law order =
    Ensures-if _ (ltb now first_due) (λ h. returns {a = []} (ltb→lt now first_due h))
      (λ h.
        Ensures->>= _ (walk_from-Ensures c now law max_walk t.occurrence first_due order)
          λ xs missed. returns (refl, ltb→le now first_due h, missed))

-- Without an assumption: a walk that ends has only instants up to now.
abbrev pub NoneLater : ℕ → List ℕ → Type 0
NoneLater now xs = All (λ x. x ≤ now) xs

step-NoneLater :
    (now t : ℕ) (b : Bool) (rest : Call (List ℕ))
    → ltb now t ≡ b
    → Partial (NoneLater now) rest
    → Partial
        (NoneLater now)
        (elim b [ true ↦ returned [] | false ↦ rest >>= λ xs. returned (t ∷ xs) ])
step-NoneLater now t true rest h p = tt
step-NoneLater now t false rest h p =
    Partial-after _ (NoneLater now) rest _ p (λ xs q. (ltb→le now t h, q))

found-NoneLater :
    (now : ℕ) (more : Occurrence → ℕ → Call (List ℕ)) (r : Option ℕ × Occurrence)
    → ((o : Occurrence) (t : ℕ) → Partial (NoneLater now) (more o t))
    → Partial (NoneLater now) (walk_found more now r)
unfolding walk_found
found-NoneLater now more (none, o) k = tt
found-NoneLater now more (some t, o) k = step-NoneLater now t (ltb now t) (more o t) refl (k o t)

from-NoneLater :
    (c : Chrono) (now left : ℕ) (o : Occurrence) (cursor : ℕ)
    → Partial (NoneLater now) (walk_from c now left o cursor)
unfolding walk_from
from-NoneLater c now zero o cursor = tt
from-NoneLater c now (suc left) o cursor =
    Partial-after _ (NoneLater now) (next_fire c o cursor) _ (Partial-any _)
      (λ r _. found-NoneLater now _ r (λ o' t. from-NoneLater c now left o' t))

pub walk-NoneLater :
    (c : Chrono) (t : Timer) (first_due now : ℕ)
    → Partial (NoneLater now) (walk_missed c t first_due now)
unfolding walk_missed
walk-NoneLater c t first_due now =
    if_cases (Partial (NoneLater now)) (ltb now first_due) (λ h. tt)
      (λ h.
        Partial-after _ (NoneLater now) (walk_from c now max_walk t.occurrence first_due) _
          (from-NoneLater c now max_walk t.occurrence first_due)
          (λ xs q. (ltb→le now first_due h, q)))
