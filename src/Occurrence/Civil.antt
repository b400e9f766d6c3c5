-- ===== src/Occurrence/Civil.antt =====
-- From a civil date and time to an instant: crates/bellman-core/src/occurrence/civil.rs, with the
-- policies of policy.rs. A result `none` is the `None` of the source.
pub mod Resolved
use bellman.Common.{
  ℕ, zero, suc, ◌+◌, ◌-◌, ◌*◌, ◌/◌, min, Option, none, some, Call, returned, out_of_fuel, ◌>>=◌,
  leb, if◌then◌else◌,
}
use bellman.Occurrence.Chrono.{
  Chrono, Zone, single, ambiguous, nonexistent, second, minute, day_length, add_naive,
}
use bellman.Occurrence.Kind.{days_in_month}

pub data DstGapPolicy : Type 0 where
  first_valid_after_gap : DstGapPolicy

pub data DstFoldPolicy : Type 0 where
  first_occurrence : DstFoldPolicy

pub data InvalidMonthDayPolicy : Type 0 where
  clamp : InvalidMonthDayPolicy

-- A round moves `probe` by a second, so this fuel is enough.
abbrev pub window_fuel : ℕ → ℕ → ℕ
window_fuel probe end = suc (suc ((end - probe) / second))

module _ (c : Chrono) where
  unfoldable pub clamp_month_day : ℕ → ℕ → ℕ → InvalidMonthDayPolicy → Call (Option ℕ)
  unfolding days_in_month
  clamp_month_day year month day clamp = do
    last ← days_in_month c year month
    returned (c.from_ymd_opt year month (min day last))

  -- The `while` loop of `first_second_in_window`.
  unfoldable pub settle : ℕ → Zone → ℕ → ℕ → ℕ → Call ℕ
  settle zero z probe end after_gap = out_of_fuel
  settle (suc fuel) z probe end after_gap =
      let next = add_naive c probe second >>= λ p. elim (z.from_local_datetime p) [
        | single dt ↦ returned dt
        | ambiguous earliest _ ↦ returned earliest
        | nonexistent ↦ settle fuel z p end after_gap
      ] in
      if leb probe end then next else returned after_gap

  unfoldable pub first_second_in_window : Zone → ℕ → ℕ → Call ℕ
  unfolding settle
  first_second_in_window z before_or_at_gap after_gap = do
    end ← add_naive c (z.naive_local after_gap) second
    settle (window_fuel before_or_at_gap end) z before_or_at_gap end after_gap

  -- The minutes of `first_valid_after_gap`; `none` is a loop that found nothing.
  unfoldable pub probe_minutes : ℕ → Zone → ℕ → Call (Option ℕ)
  unfolding first_second_in_window
  probe_minutes zero z probe = returned none
  probe_minutes (suc left) z probe = add_naive c probe minute >>= λ p.
      elim (z.from_local_datetime p) [
        | single dt ↦ first_second_in_window z (p - minute) dt >>= λ t. returned (some t)
        | ambiguous earliest _ ↦ returned (some earliest)
        | nonexistent ↦ probe_minutes left z p
      ]

  -- Its seconds.
  unfoldable pub probe_seconds : ℕ → Zone → ℕ → Call (Option ℕ)
  probe_seconds zero z probe = returned none
  probe_seconds (suc left) z probe = add_naive c probe second >>= λ p.
      elim (z.from_local_datetime p) [
        | single dt ↦ returned (some dt)
        | ambiguous earliest _ ↦ returned (some earliest)
        | nonexistent ↦ probe_seconds left z p
      ]

  unfoldable pub probe_gap : ℕ → ℕ → Zone → ℕ → Call (Option ℕ)
  unfolding probe_minutes probe_seconds
  probe_gap minutes seconds z naive = probe_minutes minutes z naive >>= λ found. elim found [
    | some t ↦ returned (some t)
    | none ↦ probe_seconds seconds z naive
  ]

  unfoldable pub first_valid_instant_after_gap : Zone → ℕ → Call (Option ℕ)
  unfolding probe_gap
  first_valid_instant_after_gap z naive = probe_gap 180 (3 * 3600) z naive

  gap_result : DstGapPolicy → Zone → ℕ → Call (Option ℕ)
  unfolding first_valid_instant_after_gap
  gap_result first_valid_after_gap z naive = first_valid_instant_after_gap z naive

  fold_result : DstFoldPolicy → ℕ → Call (Option ℕ)
  fold_result first_occurrence earliest = returned (some earliest)

  unfoldable pub resolve_naive : Zone → ℕ → DstGapPolicy → DstFoldPolicy → Call (Option ℕ)
  unfolding gap_result fold_result
  resolve_naive z naive gap fold = elim (z.from_local_datetime naive) [
    | single dt ↦ returned (some dt)
    | ambiguous earliest _ ↦ fold_result fold earliest
    | nonexistent ↦ gap_result gap z naive
  ]

  unfoldable pub resolve_local : Zone → ℕ → ℕ → DstGapPolicy → DstFoldPolicy → Call (Option ℕ)
  unfolding resolve_naive
  resolve_local z date time gap fold = resolve_naive z (date * day_length + time) gap fold
