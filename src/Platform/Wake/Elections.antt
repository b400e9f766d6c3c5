-- ===== src/Platform/Wake/Elections.antt =====
-- The election of the next wake, and the instant that the alarm is set to.
use mathlib.Core.Option.{none-ne-some}
use bellman.Common.{
  sym, ◌∙◌, ℕ, ◌+◌, ◌*◌, ◌<◌, ◌≤◌, ◌≡◌, refl, arith, Bool, true, false, ltb, if◌then◌else◌, Option,
  none, some, List, [], ◌∷◌, All, ◌⊎◌, inl, inr, Ensures, Ensures-if, returns, panics, ◌||◌, ◌-◌,
}
use bellman.Occurrence.Chrono.{Chrono, second}
use bellman.Platform.Wake.{
  WakeCandidate, stands, earlier, elect_next_wake, arm_instant, clamped, arm_slack_secs,
}

-- One of the candidates stands with `t`, and every candidate that stands is at `t` or later.
abbrev StandsIn : ℕ → List WakeCandidate → Type 0
StandsIn t [] = ⊥
StandsIn t (x ∷ timers) = (stands x ≡ some t) ⊎ StandsIn t timers

abbrev IsNoEarlier : ℕ → WakeCandidate → Type 0
IsNoEarlier t x = (u : ℕ) → stands x ≡ some u → t ≤ u

abbrev Elected : List WakeCandidate → Option ℕ → Type 0
Elected timers none = All (λ x. stands x ≡ none) timers
Elected timers (some t) = StandsIn t timers × All (λ x. IsNoEarlier t x) timers

IsNoEarlier-mono :
    (t u : ℕ) (timers : List WakeCandidate)
    → u ≤ t
    → All (λ x. IsNoEarlier t x) timers
    → All (λ x. IsNoEarlier u x) timers
IsNoEarlier-mono t u [] le all = tt
IsNoEarlier-mono t u (x ∷ timers) le all =
    (λ v h. grind (arith, all.0 v h), IsNoEarlier-mono t u timers le all.1)

none_earlier :
    (t : ℕ) (timers : List WakeCandidate)
    → All (λ x. stands x ≡ none) timers
    → All (λ x. IsNoEarlier t x) timers
none_earlier t [] all = tt
none_earlier t (x ∷ timers) all = (λ v h. ground (arith, all.0), none_earlier t timers all.1)

Elected-earlier :
    (x : WakeCandidate) (timers : List WakeCandidate) (t u : ℕ) (is_less : Bool)
    → ltb u t ≡ is_less
    → stands x ≡ some t
    → Elected timers (some u)
    → Elected (x ∷ timers) (if is_less then some u else some t)
Elected-earlier x timers t u true less h (found, all) = (inr found, (λ v k. ground arith, all))
Elected-earlier x timers t u false less h (found, all) =
    (inl h, (λ v k. ground arith, IsNoEarlier-mono u t timers (ground arith) all))

-- One candidate more.
Elected-cons :
    (x : WakeCandidate) (timers : List WakeCandidate) (a b : Option ℕ)
    → stands x ≡ a
    → Elected timers b
    → Elected (x ∷ timers) (earlier a b)
Elected-cons x timers none none h all = (h, all)
Elected-cons x timers none (some u) h (found, all) = (inr found, (λ v k. ground arith, all))
Elected-cons x timers (some t) none h all =
    (inl h, (λ v k. ground arith, none_earlier t timers all))
Elected-cons x timers (some t) (some u) h elected = Elected-earlier x timers t u _ refl h elected

elected : (timers : List WakeCandidate) → Elected timers (elect_next_wake timers)
unfolding elect_next_wake
elected [] = tt
elected (x ∷ timers) =
    Elected-cons x timers (stands x) (elect_next_wake timers) refl (elected timers)

-- An enabled timer that may wake the machine and fires next at `t`.
abbrev pub IsWaking : ℕ → WakeCandidate → Type 0
IsWaking t x = (x.enabled ≡ true) × (x.wake_machine ≡ true) × (x.next_fire_utc ≡ some t)

abbrev pub IsAmong : ℕ → List WakeCandidate → Type 0
IsAmong t [] = ⊥
IsAmong t (x ∷ timers) = IsWaking t x ⊎ IsAmong t timers

-- The first of the fires of the timers that may wake the machine.
abbrev pub IsNextWake : List WakeCandidate → Option ℕ → Type 0
IsNextWake timers none = (t : ℕ) → ¬ (IsAmong t timers)
IsNextWake timers (some t) = IsAmong t timers × ((u : ℕ) → IsAmong u timers → t ≤ u)

stands-IsWaking : (t : ℕ) (x : WakeCandidate) → stands x ≡ some t → IsWaking t x
stands-IsWaking t x h = (ground arith, ground arith, ground arith)

IsWaking-stands : (t : ℕ) (x : WakeCandidate) → IsWaking t x → stands x ≡ some t
IsWaking-stands t x (on, wakes, next) = ground (arith, on, wakes, next)

StandsIn-IsAmong : (t : ℕ) (timers : List WakeCandidate) → StandsIn t timers → IsAmong t timers
StandsIn-IsAmong t [] h = elim h [ ]
StandsIn-IsAmong t (x ∷ timers) (inl h) = inl (stands-IsWaking t x h)
StandsIn-IsAmong t (x ∷ timers) (inr h) = inr (StandsIn-IsAmong t timers h)

none-IsAmong :
    (timers : List WakeCandidate)
    → All (λ x. stands x ≡ none) timers
    → (t : ℕ) → ¬ (IsAmong t timers)
none-IsAmong [] all t among = elim among [ ]
none-IsAmong (x ∷ timers) (h, all) t (inl waking) =
    none-ne-some t (sym h ∙ IsWaking-stands t x waking)
none-IsAmong (x ∷ timers) (h, all) t (inr among) = none-IsAmong timers all t among

no_earlier_among :
    (t : ℕ) (timers : List WakeCandidate)
    → All (λ x. IsNoEarlier t x) timers
    → (u : ℕ) → IsAmong u timers
    → t ≤ u
no_earlier_among t [] all u among = elim among [ ]
no_earlier_among t (x ∷ timers) (h, all) u (inl waking) = h u (IsWaking-stands u x waking)
no_earlier_among t (x ∷ timers) (h, all) u (inr among) = no_earlier_among t timers all u among

Elected-IsNextWake :
    (timers : List WakeCandidate) (next : Option ℕ) → Elected timers next → IsNextWake timers next
Elected-IsNextWake timers none all = none-IsAmong timers all
Elected-IsNextWake timers (some t) (among, all) =
    (StandsIn-IsAmong t timers among, no_earlier_among t timers all)

-- The election ends with none if no enabled timer that may wake the machine has a next fire. Otherwise
-- it ends with the fire of such a timer, and no other fire of such a timer is earlier.
pub elect_next_wake-IsNextWake :
    (timers : List WakeCandidate) → IsNextWake timers (elect_next_wake timers)
elect_next_wake-IsNextWake timers =
    Elected-IsNextWake timers (elect_next_wake timers) (elected timers)

-- The instant for an alarm: after `now`, and 45 seconds before the fire where that is a second away.
abbrev pub IsArmInstant : ℕ → ℕ → ℕ → Type 0
IsArmInstant wake_utc now at =
    (now < at)
    × (now + (arm_slack_secs + 1) * second ≤ wake_utc → at + arm_slack_secs * second ≡ wake_utc)
    × (wake_utc ≤ now + (arm_slack_secs + 1) * second → at ≡ now + second)

-- An alarm lies after `now`. It is 45 seconds before the fire if that is at least a second away, and else
-- a second after `now`.
pub arm_instant-Ensures :
    (c : Chrono) (wake_utc now : ℕ)
    → Ensures (IsArmInstant wake_utc now) (arm_instant c wake_utc now)
unfolding arm_instant
arm_instant-Ensures c wake_utc now =
    Ensures-if _ (ltb wake_utc (arm_slack_secs * second) || ltb c.last_instant (now + second))
      (λ h. panics)
      (λ h.
        returns {a = clamped (wake_utc - arm_slack_secs * second) (now + second)} (ground arith))
