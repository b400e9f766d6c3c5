-- ===== src/Reply/Document/Truncation.antt =====
-- What a cap leaves of a text: crates/bellman-core/src/reply/document.rs.
use Prim.Native.String.{len, slice}
use text.Mathlib.Text
use text.Mathlib.Text.{is_char_boundary, starts_with}
use text.Mathlib.TextPositions.{boundary-zero, eq_refl, slice_all}
use bellman.Common.{
  ℕ_discrete, ℕ, zero, suc, ◌≤◌, ◌<◌, ◌≡◌, refl, arith, true, false, leb, if_cases, String, subst,
  sym,
}
use bellman.Reply.Document.{floor_boundary, truncate_text}

-- The last boundary of a text up to a position.
abbrev IsFloor : String → ℕ → ℕ → Type 0
IsFloor s cap b =
    (is_char_boundary s b ≡ true)
    × (b ≤ cap)
    × ((end : ℕ) → end ≤ cap → is_char_boundary s end ≡ true → end ≤ b)

IsFloor-step :
    (s : String) (cap b : ℕ)
    → is_char_boundary s (suc cap) ≡ false
    → IsFloor s cap b
    → IsFloor s (suc cap) b
IsFloor-step s cap b no_end (at, le, last) = (
  at,
  ground arith,
  λ end h bound. elim (ℕ_discrete end (suc cap)) [
    | yes same ↦ absurd (
        let e : is_char_boundary s (suc cap) ≡ true =
          subst (λ n. is_char_boundary s n ≡ true) same bound in
        ground (arith, e))
    | no other ↦ last end (ground arith) bound
  ],
)

floor_boundary-IsFloor : (s : String) (cap : ℕ) → IsFloor s cap (floor_boundary s cap)
unfolding floor_boundary
floor_boundary-IsFloor s zero = (boundary-zero s, omega arith, λ end h bound. h)
floor_boundary-IsFloor s (suc cap) =
    if_cases (IsFloor s (suc cap)) (is_char_boundary s (suc cap))
      (λ at. (at, omega arith, λ end h bound. h))
      (λ no_end. IsFloor-step s cap _ no_end (floor_boundary-IsFloor s cap))

-- The text itself if it fits; else its longest beginning of whole characters that fits.
abbrev pub IsTruncated : String → ℕ → String → Type 0
IsTruncated s cap t =
    (len t ≤ cap)
    × (starts_with s t ≡ true)
    × (len s ≤ cap → t ≡ s)
    × (cap < len s → (end : ℕ) → end ≤ cap → is_char_boundary s end ≡ true → end ≤ len t)

len-slice : (s : String) (b : ℕ) → is_char_boundary s b ≡ true → len (slice s 0 b) ≡ b
len-slice s b h = ground (arith, h)

slice_starts :
    (s : String) (b : ℕ) → is_char_boundary s b ≡ true → starts_with s (slice s 0 b) ≡ true
slice_starts s b h =
    subst (λ n. Text.◌==◌ (slice s 0 n) (slice s 0 b) ≡ true) (sym (len-slice s b h))
      (eq_refl (slice s 0 b))

whole_starts : (s : String) → starts_with s s ≡ true
whole_starts s = subst (λ t. Text.◌==◌ t s ≡ true) (sym (slice_all s)) (eq_refl s)

slice-IsTruncated :
    (s : String) (cap b : ℕ) → cap < len s → IsFloor s cap b → IsTruncated s cap (slice s 0 b)
slice-IsTruncated s cap b long (at, le, last) =
    let same = len-slice s b at in
    (
      ground (arith, same),
      slice_starts s b at,
      λ short. absurd (omega arith),
      λ h end fits bound. let e = last end fits bound in ground (arith, same),
    )

-- A text is never over its cap, is the beginning of the text given, and the whole of it if that fits; a text
-- that does not fit loses only what lies behind the last character boundary up to the cap.
pub truncate_text-IsTruncated : (s : String) (cap : ℕ) → IsTruncated s cap (truncate_text s cap)
unfolding truncate_text
truncate_text-IsTruncated s cap =
    if_cases (IsTruncated s cap) (leb (len s) cap)
      (λ fits. (ground arith, whole_starts s, λ _. refl, λ long. absurd (ground arith)))
      (λ long. slice-IsTruncated s cap _ (ground arith) (floor_boundary-IsFloor s cap))
