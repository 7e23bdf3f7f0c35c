-- ===== src/Tailq/Difference.antt =====
-- include/csg/core/tailq.h: `size_type` and `difference_type`, and what becomes of a distance when it
-- is added to a size member or subtracted from one.
use csd_mirror.Prelude.{
  ℕ, ◌+◌, ◌-◌, ◌%◌, ◌^◌, ◌<◌, ◌≤◌, ◌≡◌, refl, true, ltb, if◌then◌else◌, arith, ap, ◌∙◌, Bool-cases,
  inl, inr,
}
use native.Mathlib.Nat.{
  mod-eq_of_lt, mod-mod, mod_self, add-mod-mod, add-mod_right, pow-le-pow_right,
}
use csd_mirror.Intrusive.Size.{
  SizeMember, no_size, integral, add_size, sub_size, Counts, add_size-Counts, sub_size-Counts,
}

-- `size_type` is as wide as the size member, and 64 bits wide without one.
unfoldable pub size_width : SizeMember → ℕ
size_width no_size = 64
size_width (integral width) = width

-- A distance between iterators of a list with the size member `s`, by its bits: `difference_type` is
-- signed and as wide as `size_type`.
unfoldable pub difference : SizeMember → ℕ → ℕ
difference s n = n % 2 ^ size_width s

-- The bits `d` of a difference of a list with the size member `s`, converted to the `size_type` of a
-- list with the size member `s'`: the sign is extended to a wider one.
unfoldable pub convert : (s s' : SizeMember) → ℕ → ℕ
convert s s' d =
    let range = 2 ^ size_width s in
    let range' = 2 ^ size_width s' in
    if ltb d (2 ^ (size_width s - 1)) then d % range' else (d + range' - range % range') % range'

-- A conversion to a type of the same width keeps the bits.
pub convert_own : (s : SizeMember) (n : ℕ) → convert s s (difference s n) ≡ n % 2 ^ size_width s
unfolding convert difference
convert_own s n =
    let range = 2 ^ size_width s in
    elim (Bool-cases (ltb (n % range) (2 ^ (size_width s - 1)))) [
      | inl small ↦ rw small (mod-mod n range)
      | inr large ↦
          rw (large, mod_self range)
            (ap (λ x. x % range) (omega arith) ∙ add-mod_right (n % range) range ∙ mod-mod n range)
    ]

half : (w : ℕ) → 2 ^ (w - 1) ≤ 2 ^ w
half w = pow-le-pow_right (omega arith) (omega arith)

-- So does one of a distance that the difference type can hold.
pub convert_small :
    (s s' : SizeMember) (n : ℕ)
    → n < 2 ^ (size_width s - 1)
    → convert s s' (difference s n) ≡ n % 2 ^ size_width s'
unfolding convert difference
convert_small s s' n lt =
    let same : n % 2 ^ size_width s ≡ n = mod-eq_of_lt (omega (arith, half (size_width s))) in
    let small : ltb n (2 ^ (size_width s - 1)) ≡ true = ground arith in rw same (rw small refl)

-- Adding or subtracting a number modulo the range of the size member.
pub reduced-Counts :
    (w sz j n k : ℕ)
    → k ≡ n % 2 ^ w
    → (Counts (integral w) sz (j + n) → Counts (integral w) (sub_size (integral w) sz k) j)
      × (Counts (integral w) sz j → Counts (integral w) (add_size (integral w) sz k) (j + n))
unfolding add_size sub_size
reduced-Counts w sz j n k e = (
  λ h. rw (e, mod-mod n (2 ^ w)) (sub_size-Counts (integral w) sz j n h),
  λ h. rw (e, add-mod-mod sz n (2 ^ w)) (add_size-Counts (integral w) sz j n h),
)
