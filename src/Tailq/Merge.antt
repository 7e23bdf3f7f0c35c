-- ===== src/Tailq/Merge.antt =====
-- include/csg/core/tailq.h: `merge`, `merge_sort` and `sort`. A loop has fuel, one unit for each
-- round, and `merge_sort` has fuel for its depth, too.
pub mod Reference
pub mod Loop
pub mod Lanes
pub mod Lists
pub mod Sort
pub mod Parts
pub mod Laws
use csd_mirror.Prelude.{
  ℕ, zero, suc, ◌-◌, ◌/◌, Bool, true, false, ◌&&◌, ◌||◌, Option, none, some, ◌==◌, ◌!=◌,
  if◌then◌else◌, ◌>>=◌,
}
use csd_mirror.Intrusive.{EntryRefCodec}
use csd_mirror.Intrusive.Size.{add_size, set_size}
use csd_mirror.Utility.{projection_is_ordered_before}
use csd_mirror.Tailq.Memory.{Memory, Head}
use csd_mirror.Tailq.Iterator.{deref, forward, backward, begin, end, size}
use csd_mirror.Tailq.Range.{insert_range, remove_range, counted_size}

-- Where the first of the two lists that are merged ends: in `merge_sort`, where the second begins.
unfoldable pub stop_at : Option ℕ → ℕ → ℕ
stop_at none f2 = f2
stop_at (some e) f2 = e

module _ (c : EntryRefCodec) where
  -- The items of the other list from `f2` on are put at the end of this one.
  unfoldable pub merge_rest : Memory → (this other : Head) → (f2 : ℕ) → Memory
  merge_rest m this other f2 =
      let e2 = backward c m (end c other) in
      if f2 != end c other then insert_range c (remove_range c m f2 e2) (end c this) f2 e2 else m

  -- `std::ranges::next(i, n)`.
  unfoldable pub advance : Memory → (i n : ℕ) → ℕ
  advance m i zero = i
  advance m i (suc n) = advance m (forward c m i) n

module _ {ℓ} {A : Type ℓ} (c : EntryRefCodec) (comp : A → A → Bool) (proj : ℕ → A) where
  unfoldable pub before_at : (f1 f2 : ℕ) → Bool
  unfolding projection_is_ordered_before deref
  before_at f1 f2 = projection_is_ordered_before proj comp (deref c f1) (deref c f2)

  -- `mPrev` and `mEnd` when the scan ends.
  unfoldable pub merge_scan : ℕ → Memory → (f1 e2 m_prev m_end : ℕ) → Option (ℕ × ℕ)
  unfolding before_at
  merge_scan zero m f1 e2 m_prev m_end = none
  merge_scan (suc fuel) m f1 e2 m_prev m_end =
      let rest = merge_scan fuel m f1 e2 m_end (forward c m m_end) in
      if m_end != e2 && before_at m_end f1 then rest else some (m_prev, m_end)

  -- The loop of both merges, which ends at `e1` in the first list and at `e2` in the second.
  unfoldable pub merge_loop : ℕ → Memory → (e1 : Option ℕ) → (f1 f2 e2 : ℕ) → Option (Memory × ℕ)
  unfolding stop_at before_at merge_scan
  merge_loop zero m e1 f1 f2 e2 = none
  merge_loop (suc fuel) m e1 f1 f2 e2 =
      if f1 == stop_at e1 f2 || f2 == e2 then some (m, f2) else elim (before_at f1 f2) [
        | true ↦ merge_loop fuel m e1 (forward c m f1) f2 e2
        | false ↦ merge_scan fuel m f1 e2 f2 (forward c m f2) >>= λ scanned.
            let m' = insert_range c (remove_range c m f2 scanned.0) f1 f2 scanned.0 in
            merge_loop fuel m' e1 (forward c m' f1) scanned.1 e2
      ]

  -- `merge(other)`: the memory, this list's head and the other's. The source compares the addresses
  -- of the list objects, the model those of the end entries.
  unfoldable pub merge : ℕ → Memory → (this other : Head) → Option (Memory × Head × Head)
  unfolding merge_loop merge_rest
  merge fuel m this other =
      if this.end_entry == other.end_entry
      then some (m, this, other)
      else (counted_size c this.size_member fuel m other >>= λ n.
          merge_loop fuel m (some (end c this)) (begin c m this) (begin c m other) (end c other)
          >>= λ merged. some (
            merge_rest c merged.0 this other merged.1,
            record this { m_sz = add_size this.size_member this.m_sz n },
            record other { m_sz = set_size other.size_member other.m_sz 0 },
          ))

  -- `merge_sort(f1, e2, n)`: the memory and the iterator to the first item of the range.
  unfoldable pub merge_sort : (depth fuel : ℕ) → Memory → (f1 e2 n : ℕ) → Option (Memory × ℕ)
  unfolding before_at merge_loop advance
  merge_sort depth fuel m f1 e2 zero = some (m, f1)
  merge_sort depth fuel m f1 e2 (suc zero) = some (m, f1)
  merge_sort depth fuel m f1 e2 (suc (suc zero)) =
      let last = backward c m e2 in
      if before_at f1 last
      then some (m, f1)
      else some (insert_range c (remove_range c m last last) f1 last last, last)
  merge_sort zero fuel m f1 e2 (suc (suc (suc n))) = none
  merge_sort (suc depth) fuel m f1 e2 (suc (suc (suc n))) =
      let pivot = suc (suc (suc n)) / 2 in
      let e1 = advance c m f1 pivot in
      merge_sort depth fuel m f1 e1 pivot >>= λ left.
      merge_sort depth fuel left.0 e1 e2 (suc (suc (suc n)) - pivot) >>= λ right.
      let merged_min = if before_at left.1 right.1 then left.1 else right.1 in
      merge_loop fuel right.0 none left.1 right.1 e2 >>= λ merged. some (merged.0, merged_min)

  unfoldable pub sort : ℕ → Memory → Head → Option Memory
  unfolding merge_sort
  sort fuel m h = size c fuel m h >>= λ n.
      merge_sort n fuel m (begin c m h) (end c h) n >>= λ sorted. some sorted.0
