-- ===== src/Tailq/Scan.antt =====
-- include/csg/core/tailq.h: the operations that walk through a whole list. A loop has fuel, one
-- unit for each round.
pub mod Kept
pub mod Remove
pub mod Reverse
pub mod Turn
pub mod Unique
use csd_mirror.Prelude.{
  ℕ, zero, suc, ◌+◌, ◌%◌, ◌^◌, Bool, true, false, ◌&&◌, Option, none, some, ◌==◌, ◌!=◌,
  if◌then◌else◌, ◌>>=◌,
}
use csd_mirror.Intrusive.{EntryRefCodec}
use csd_mirror.Tailq.Difference.{size_width}
use csd_mirror.Utility.{projections_are_equivalent}
use csd_mirror.Tailq.Memory.{Memory, Head, set_next, set_prev}
use csd_mirror.Tailq.Iterator.{deref, forward, begin, end}
use csd_mirror.Tailq.Range.{erase_range}

module _ (c : EntryRefCodec) where
  -- One round turns the links of the entry `current` around; the loop ends at `end_entry`.
  unfoldable pub reverse_from : ℕ → Memory → (end_entry current : ℕ) → Option Memory
  reverse_from zero m end_entry current = none
  reverse_from (suc fuel) m end_entry current =
      let m' = set_prev current (m.next current) (set_next current (m.prev current) m) in
      let current' = c.get_entry (m'.next current) in
      let rest = reverse_from fuel m' end_entry current' in
      if current' == end_entry then some m' else rest

  unfoldable pub reverse : ℕ → Memory → Head → Option Memory
  unfolding reverse_from
  reverse fuel m h = reverse_from fuel m h.end_entry h.end_entry

  -- The first position from `scan` on where `stop` holds of the item, or the end; `n` counts.
  unfoldable pub scan_while : ℕ → Memory → (ℕ → Bool) → (scan e : ℕ) → (n : ℕ) → Option (ℕ × ℕ)
  unfolding deref
  scan_while zero m holds scan e n = none
  scan_while (suc fuel) m holds scan e n =
      let rest = scan_while fuel m holds (forward c m scan) e (suc n) in
      if scan != e && holds (deref c scan) then rest else some (scan, n)

  module _ {ℓ} {A : Type ℓ} (pred : A → Bool) (proj : ℕ → A) where
    unfoldable pub remove_from : ℕ → Memory → Head → (i n_removed : ℕ) → Option (Memory × Head × ℕ)
    unfolding deref
    remove_from zero m h i n_removed = none
    remove_from (suc fuel) m h i n_removed =
        if i == end c h then some (m, h, n_removed) else elim (pred (proj (deref c i))) [
          | false ↦ remove_from fuel m h (forward c m i) n_removed
          | true ↦ scan_while fuel m (λ x. pred (proj x)) (forward c m i) (end c h) 1 >>= λ scanned.
              erase_range c fuel m h i scanned.0 >>= λ erased.
              remove_from fuel erased.0 erased.1
                (if erased.2 != end c h then forward c erased.0 erased.2 else erased.2)
                ((n_removed + scanned.1) % 2 ^ size_width h.size_member)
        ]

    -- It returns the number of the items that it has removed, as a `size_type`.
    unfoldable pub remove_if : ℕ → Memory → Head → Option (Memory × Head × ℕ)
    unfolding remove_from
    remove_if fuel m h = remove_from fuel m h (begin c m h) 0

  -- `remove(value, eq, proj)`.
  unfoldable pub remove {ℓ} :
      {A : Type ℓ}
      → (value : A) → (A → A → Bool)
      → (ℕ → A)
      → ℕ
      → Memory
      → Head
      → Option (Memory × Head × ℕ)
  unfolding remove_if
  remove value eq proj fuel m h = remove_if (λ v. eq v value) proj fuel m h

  -- What `unique` does with the items from `first` to `last`, the duplicates of the one before them:
  -- the position that it goes on at comes last.
  unfoldable pub erase_duplicates :
      ℕ → Memory → Head → (first last : ℕ) → Option (Memory × Head × ℕ)
  erase_duplicates fuel m h first last =
      if first != last then erase_range c fuel m h first last else some (m, h, first)

  module _ {ℓ} {A : Type ℓ} (eq : A → A → Bool) (proj : ℕ → A) where
    unfoldable pub unique_from : ℕ → Memory → Head → (scan_start : ℕ) → Option (Memory × Head)
    unfolding deref projections_are_equivalent erase_duplicates
    unique_from zero m h scan_start = none
    unique_from (suc fuel) m h scan_start =
        if scan_start == end c h
        then some (m, h)
        else (scan_while fuel m (projections_are_equivalent proj eq (deref c scan_start))
              (forward c m scan_start) (end c h) 0
            >>= λ scanned.
                erase_duplicates fuel m h (forward c m scan_start) scanned.0 >>= λ erased.
                unique_from fuel erased.0 erased.1 erased.2)

    unfoldable pub unique : ℕ → Memory → Head → Option (Memory × Head)
    unfolding unique_from
    unique fuel m h = unique_from fuel m h (begin c m h)
