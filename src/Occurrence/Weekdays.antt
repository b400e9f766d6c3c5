-- ===== src/Occurrence/Weekdays.antt =====
-- The weekday set of crates/bellman-core/src/occurrence/kind.rs: a bit mask in a u8.
pub mod Sets
use bellman.Common.{
  ℕ, ◌+◌, ◌^◌, ◌/◌, ◌%◌, Bool, true, false, not, List, [], ◌∷◌, bit_and, bit_or, ◌==◌,
  if◌then◌else◌, String, Option, none, some,
}
use bellman.Occurrence.Chrono.{Weekday, mon, tue, wed, thu, fri, sat, sun}

abbrev pub Weekdays : Type 0
Weekdays = ℕ

-- `Weekdays::new()`.
abbrev pub no_days : Weekdays
no_days = 0

abbrev pub num_days_from_monday : Weekday → ℕ
num_days_from_monday mon = 0
num_days_from_monday tue = 1
num_days_from_monday wed = 2
num_days_from_monday thu = 3
num_days_from_monday fri = 4
num_days_from_monday sat = 5
num_days_from_monday sun = 6

-- `1u8 << n`.
unfoldable pub bit : Weekday → ℕ
bit d = 2 ^ num_days_from_monday d % 256

unfoldable pub insert : Weekdays → Weekday → Weekdays
unfolding bit
insert w d = bit_or w (bit d)

unfoldable pub contains : Weekdays → Weekday → Bool
unfolding bit
contains w d = not (bit_and w (bit d) == 0)

insert_all : Weekdays → List Weekday → Weekdays
insert_all w [] = w
insert_all w (d ∷ ds) = insert_all (insert w d) ds

unfoldable pub from_slice : List Weekday → Weekdays
unfolding insert_all
from_slice ds = insert_all no_days ds

unfoldable pub is_empty : Weekdays → Bool
is_empty w = w == 0

unfoldable pub from_u8 : ℕ → Weekdays
from_u8 bits = bit_and bits 127

abbrev pub order : List Weekday
order = mon ∷ tue ∷ wed ∷ thu ∷ fri ∷ sat ∷ sun ∷ []

-- `filter_map` over the enumerated `ORDER`, from the index `i` of the first day on: the test is of `1u8 << i`.
filter_set : Weekdays → ℕ → List Weekday → List Weekday
filter_set w i [] = []
filter_set w i (d ∷ ds) =
    let rest = filter_set w (i + 1) ds in
    if not (bit_and w (2 ^ i % 256) == 0) then d ∷ rest else rest

unfoldable pub iter : Weekdays → List Weekday
unfolding filter_set
iter w = filter_set w 0 order
