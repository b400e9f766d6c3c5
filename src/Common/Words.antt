-- ===== src/Common/Words.antt =====
-- Machine-width numbers: the bounds, and the operations that stop at them.
use Prim.Native.Nat.{ℕ, ◌+◌, min}
use mathlib.Core.Option.{Option, none, some}
use bellman.Common.Tests.{leb, if◌then◌else◌}

abbrev pub u32_max : ℕ
u32_max = 4294967295

abbrev pub u64_max : ℕ
u64_max = 18446744073709551615

abbrev pub i64_max : ℕ
i64_max = 9223372036854775807

-- `a.saturating_add(b)` at the type whose largest value is `max`.
abbrev pub saturating_add : ℕ → ℕ → ℕ → ℕ
saturating_add max a b = min (a + b) max

-- A checked operation: its value, unless that passes `max`.
abbrev pub checked : ℕ → ℕ → Option ℕ
checked max n = if leb n max then some n else none
