-- ===== src/Occurrence/NextFire.antt =====
-- The next fire, the preview and its iterator: crates/bellman-core/src/occurrence/schedule.rs.
pub mod Admissible
pub mod Kept
pub mod Order
pub mod Previews
pub mod Searches
pub mod Skips
use bellman.Common.{
  ℕ, zero, suc, ◌+◌, ◌-◌, ◌*◌, Bool, true, false, Option, none, some, List, [], ◌∷◌, Call, returned,
  ◌>>=◌, or_none, ltb, leb, contains, if◌then◌else◌,
}
use bellman.Occurrence.Chrono.{
  Chrono, single, ambiguous, nonexistent, day_length, succ_opt, date_naive, nanosecond_before,
}
use bellman.Occurrence.Civil.{resolve_local}
use bellman.Occurrence.Schedule.{Occurrence, record_run}
use bellman.Occurrence.Candidates.{raw_next_after}

-- The end of the validity window is exclusive, its start inclusive.
abbrev pub is_past_end : Option ℕ → ℕ → Bool
is_past_end none candidate = false
is_past_end (some until) candidate = leb until candidate

abbrev pub is_before_start : Option ℕ → ℕ → Bool
is_before_start none candidate = false
is_before_start (some from) candidate = ltb candidate from

abbrev pub is_spent : Option ℕ → ℕ → Bool
is_spent none runs_done = false
is_spent (some max) runs_done = leb max runs_done

-- The search floor; `from` is past `after` where 1 is subtracted, so `-` is exact.
abbrev pub search_floor : Option ℕ → ℕ → ℕ
search_floor none after = after
search_floor (some from) after = if ltb after from then from - 1 else after

-- What one round of the loop does with a candidate.
pub data Verdict : Type 0 where
  give_up try_next jump_day skip_one fire : Verdict

unfoldable pub judge : Occurrence → ℕ → ℕ → Verdict
judge o skipped candidate =
    if is_past_end o.valid_until candidate
    then give_up
    else if is_before_start o.valid_from candidate
    then try_next
    else if contains (date_naive o.tz candidate) o.exclusions
    then jump_day
    else if ltb skipped o.pending_skips
    then skip_one
    else fire

-- `self.pending_skips = self.pending_skips.saturating_sub(skipped)`.
unfoldable pub consume : Occurrence → ℕ → Occurrence
consume o skipped = record o { pending_skips = o.pending_skips - skipped }

abbrev pub or_candidate : Option ℕ → ℕ → ℕ
or_candidate none candidate = candidate
or_candidate (some t) candidate = t

-- A round of the loop of `next_fire`, past the search for a candidate. `again` is the rest of the loop,
-- from a cursor and a number of skipped candidates; `jump` is `jump_past_exclusion_day`.
unfoldable pub on_verdict :
    (ℕ → ℕ → Call (Option ℕ × Occurrence))
    → Occurrence
    → Call (Option ℕ)
    → ℕ
    → ℕ
    → Verdict
    → Call (Option ℕ × Occurrence)
on_verdict again o jump skipped candidate give_up = returned (none, consume o skipped)
on_verdict again o jump skipped candidate try_next = again candidate skipped
on_verdict again o jump skipped candidate jump_day =
    jump >>= λ jumped. again (or_candidate jumped candidate) skipped
on_verdict again o jump skipped candidate skip_one = again candidate (skipped + 1)
on_verdict again o jump skipped candidate fire = returned (some candidate, consume o skipped)

unfoldable pub on_found :
    (ℕ → ℕ → Call (Option ℕ × Occurrence))
    → Occurrence
    → (ℕ → Call (Option ℕ))
    → ℕ
    → Option ℕ
    → Call (Option ℕ × Occurrence)
unfolding on_verdict
on_found again o jump skipped none = returned (none, consume o skipped)
on_found again o jump skipped (some candidate) =
    on_verdict again o (jump candidate) skipped candidate (judge o skipped candidate)

abbrev pub max_candidates : ℕ
max_candidates = 10000

-- What `preview` does with the outcome of one search; `more` is the rest of its loop.
list_fire : (Occurrence → ℕ → Call (List ℕ)) → Option ℕ × Occurrence → Call (List ℕ)
list_fire more (none, working) = returned []
list_fire more (some t, working) = more (record_run working) t >>= λ rest. returned (t ∷ rest)

module _ (c : Chrono) where
  unfoldable pub jump_past_exclusion_day : Occurrence → ℕ → Call (Option ℕ)
  jump_past_exclusion_day o candidate = or_none (succ_opt c (date_naive o.tz candidate)) λ next_day.
      elim (o.tz.from_local_datetime (next_day * day_length)) [
        | single dt ↦ nanosecond_before dt >>= λ t. returned (some t)
        | ambiguous earliest _ ↦ nanosecond_before earliest >>= λ t. returned (some t)
        | nonexistent ↦ resolve_local c o.tz next_day 0 o.dst_gap o.dst_fold >>= λ found.
            or_none found (λ dt. nanosecond_before dt >>= λ t. returned (some t))
      ]

  -- The loop of `next_fire`, with the candidates left to try.
  unfoldable pub fire_from : ℕ → Occurrence → ℕ → ℕ → Call (Option ℕ × Occurrence)
  unfolding on_found
  fire_from zero o cursor skipped = returned (none, consume o skipped)
  fire_from (suc left) o cursor skipped =
      raw_next_after c o cursor
      >>= on_found (λ t s. fire_from left o t s) o (λ t. jump_past_exclusion_day o t) skipped

  unfoldable pub next_fire_within : ℕ → Occurrence → ℕ → Call (Option ℕ × Occurrence)
  next_fire_within max_candidates o after =
      if is_spent o.max_runs o.runs_done
      then returned (none, o)
      else fire_from max_candidates o (search_floor o.valid_from after) 0

  unfoldable pub next_fire : Occurrence → ℕ → Call (Option ℕ × Occurrence)
  unfolding next_fire_within
  next_fire o after = next_fire_within max_candidates o after

  -- On a clone, so the state is dropped.
  unfoldable pub peek_next_fire : Occurrence → ℕ → Call (Option ℕ)
  peek_next_fire o after = next_fire o after >>= λ (t, o'). returned t

  -- The loop of `preview`.
  unfoldable pub preview : Occurrence → ℕ → ℕ → Call (List ℕ)
  unfolding list_fire
  preview working cursor zero = returned []
  preview working cursor (suc n) =
      next_fire working cursor >>= list_fire (λ working' t. preview working' t n)

pub record PreviewIter : Type 0 where
  pub working : Occurrence
  pub cursor : ℕ
  pub is_done : Bool

abbrev pub iter_at : Occurrence → ℕ → PreviewIter
iter_at o t = record { working = o; cursor = t; is_done = false }

unfoldable pub iter_after : Occurrence → ℕ → PreviewIter
iter_after o after = iter_at o after

-- The two outcomes of a search inside `Iterator::next`.
advance : PreviewIter → Option ℕ × Occurrence → Call (Option ℕ × PreviewIter)
advance it (some t, working) = returned (some t, iter_at (record_run working) t)
advance it (none, working) = returned (none, record it { working = working; is_done = true })

-- `take(n).collect()`: what it does with an item.
gather : (PreviewIter → Call (List ℕ)) → Option ℕ × PreviewIter → Call (List ℕ)
gather more (none, it) = returned []
gather more (some t, it) = more it >>= λ rest. returned (t ∷ rest)

module _ (c : Chrono) where
  -- `Iterator::next`: the item and the iterator after it.
  unfoldable pub next : PreviewIter → Call (Option ℕ × PreviewIter)
  unfolding advance
  next it =
      let step = next_fire c it.working it.cursor >>= advance it in
      if it.is_done then returned (none, it) else step

  unfoldable pub collect : ℕ → PreviewIter → Call (List ℕ)
  unfolding gather
  collect zero it = returned []
  collect (suc n) it = next it >>= gather (λ it'. collect n it')
