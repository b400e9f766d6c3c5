-- ===== src/Occurrence/Schedule.antt =====
-- The schedule, its constructor and its setters: crates/bellman-core/src/occurrence/schedule.rs.
-- The zone stands resolved in the record, where the source resolves its name at each use.
pub mod Exclusions
use bellman.Common.{
  ℕ, Option, none, some, List, [], ◌∷◌, ◌==◌, if◌then◌else◌, contains, u32_max, u64_max,
  saturating_add,
}
use bellman.Occurrence.Chrono.{Zone}
use bellman.Occurrence.Kind.{OccurrenceKind, KindError, validate}
use bellman.Occurrence.Civil.{
  DstGapPolicy, first_valid_after_gap, DstFoldPolicy, first_occurrence, InvalidMonthDayPolicy,
  clamp,
}

pub record Occurrence : Type 0 where
  pub kind : OccurrenceKind
  pub tz : Zone
  pub dst_gap : DstGapPolicy
  pub dst_fold : DstFoldPolicy
  pub invalid_monthday : InvalidMonthDayPolicy
  pub valid_from : Option ℕ
  pub valid_until : Option ℕ
  pub max_runs : Option ℕ
  pub runs_done : ℕ
  pub exclusions : List ℕ
  pub pending_skips : ℕ

pub data NewError : Type 0 where
  bad_kind : KindError → NewError
  unknown_timezone : NewError

pub data NewResult : Type 0 where
  built : Occurrence → NewResult
  refused : NewError → NewResult

plain : OccurrenceKind → Zone → Occurrence
plain kind tz = record {
  kind = kind;
  tz = tz;
  dst_gap = first_valid_after_gap;
  dst_fold = first_occurrence;
  invalid_monthday = clamp;
  valid_from = none;
  valid_until = none;
  max_runs = none;
  runs_done = 0;
  exclusions = [];
  pending_skips = 0;
}

-- `Occurrence::new`; `tz` is what `Tz::from_str` makes of the name.
unfoldable pub new : OccurrenceKind → Option Zone → NewResult
unfolding plain
new kind tz = elim (validate kind) [
  | some e ↦ refused (bad_kind e)
  | none ↦ elim tz [ none ↦ refused unknown_timezone | some z ↦ built (plain kind z) ]
]

unfoldable pub skip_next : Occurrence → Occurrence
skip_next o = record o { pending_skips = saturating_add u32_max o.pending_skips 1 }

unfoldable pub record_run : Occurrence → Occurrence
record_run o = record o { runs_done = saturating_add u64_max o.runs_done 1 }

-- A set of dates as a list; inserting a date twice does not matter to the test.
unfoldable pub exclude_date : Occurrence → ℕ → Occurrence
exclude_date o date =
    if contains date o.exclusions then o else record o { exclusions = date ∷ o.exclusions }

remove_date : ℕ → List ℕ → List ℕ
remove_date d [] = []
remove_date d (x ∷ xs) = let rest = remove_date d xs in if d == x then rest else x ∷ rest

unfoldable pub clear_exclusion : Occurrence → ℕ → Occurrence
unfolding remove_date
clear_exclusion o date = record o { exclusions = remove_date date o.exclusions }
