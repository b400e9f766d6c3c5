-- ===== src/Occurrence/Weekdays/Sets.antt =====
-- The mask behaves as a set of days.
use bellman.Common.{
  ℕ, zero, suc, ◌≡◌, ◌<◌, ◌≤◌, ℕ_discrete, sym, subst, refl, arith, Bool, true, false, ◌&&◌, ◌||◌,
  ◌==◌,
}
use bellman.Occurrence.Chrono.{Weekday, mon, tue, wed, thu, fri, sat, sun}
use bellman.Occurrence.Weekdays.{
  Weekdays, num_days_from_monday, insert, contains, from_slice, from_u8, iter,
}

-- A test that every mask up to a last one passes, by evaluation.
passes_to : (Weekdays → Bool) → ℕ → Bool
passes_to test zero = test zero
passes_to test (suc last) = passes_to test last && test (suc last)

passes_at :
    (test : Weekdays → Bool) (mask last : ℕ)
    → mask ≤ last
    → passes_to test last ≡ true
    → test mask ≡ true
unfolding passes_to
passes_at test zero zero within passed = passed
passes_at test (suc mask) zero within passed = absurd (omega arith)
passes_at test mask (suc last) within passed = elim (ℕ_discrete mask (suc last)) [
  | yes same ↦ subst (λ m. test m ≡ true) (sym same) (ground arith)
  | no other ↦ passes_at test mask last (omega arith) (ground arith)
]

abbrev bool_eq : Bool → Bool → Bool
bool_eq true b = b
bool_eq false true = false
bool_eq false false = true

bool_eq_sound : (a b : Bool) → bool_eq a b ≡ true → a ≡ b
bool_eq_sound true b h = ground arith
bool_eq_sound false true h = ground arith
bool_eq_sound false false h = refl

abbrev same_day : Weekday → Weekday → Bool
same_day d e = num_days_from_monday d == num_days_from_monday e

abbrev all_days : (Weekday → Bool) → Bool
all_days p = p mon && (p tue && (p wed && (p thu && (p fri && (p sat && p sun)))))

all_days_sound : (p : Weekday → Bool) (d : Weekday) → all_days p ≡ true → p d ≡ true
all_days_sound p mon h = ground arith
all_days_sound p tue h = ground arith
all_days_sound p wed h = ground arith
all_days_sound p thu h = ground arith
all_days_sound p fri h = ground arith
all_days_sound p sat h = ground arith
all_days_sound p sun h = ground arith

abbrev insert_test : Weekdays → Weekday → Weekday → Bool
insert_test w d e = bool_eq (contains (insert w d) e) (same_day d e || contains w e)

insert_table : passes_to (λ w. all_days (λ d. all_days (λ e. insert_test w d e))) 127 ≡ true
unfolding passes_to contains insert
insert_table = refl

-- After `insert d` the set includes `d` and what it included before, and nothing else.
contains-insert :
    (w : Weekdays) (d e : Weekday)
    → w < 128
    → contains (insert w d) e ≡ (num_days_from_monday d == num_days_from_monday e) || contains w e
contains-insert w d e h = bool_eq_sound _ _ (
    all_days_sound (λ e. insert_test w d e) e
      (all_days_sound (λ d. all_days (λ e. insert_test w d e)) d
        (passes_at _ w 127 (omega arith) insert_table)))

rebuild_table : passes_to (λ w. from_slice (iter (from_u8 w)) == from_u8 w) 255 ≡ true
unfolding passes_to from_slice iter from_u8 insert
rebuild_table = refl

==_sound : (a b : ℕ) → (a == b) ≡ true → a ≡ b
==_sound a b h = ground arith

-- Listing the days of any mask from the webview and building a set from the list gives the mask back: the day
-- listed for an index of the enumeration is the one that `insert` sets the bit of that index for.
pub from_slice-iter : (bits : ℕ) → bits < 256 → from_slice (iter (from_u8 bits)) ≡ from_u8 bits
from_slice-iter bits h = ==_sound _ _ (passes_at _ bits 255 (omega arith) rebuild_table)
