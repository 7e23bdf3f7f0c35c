-- ===== src/Slist/Range.antt =====
-- include/csg/core/slist.h: the operations on ranges, between two lists and on a whole list.
use csd_mirror.Prelude.{
  ℕ, zero, suc, ◌+◌, ◌%◌, ◌^◌, Bool, true, false, ◌||◌, Option, none, some, ◌==◌, ◌!=◌,
  if◌then◌else◌, ◌>>=◌,
}
use csd_mirror.Intrusive.{EntryRefCodec}
use csd_mirror.Intrusive.Size.{add_size, sub_size}
use csd_mirror.Utility.{projections_are_equivalent}
use csd_mirror.Tailq.Memory.{update}
use csd_mirror.Chain.{
  Links, size_type_width, counted, forward, deref, distance, scan_while, before_at, merge_scan,
  forward_list_merge_sort,
}
use csd_mirror.Slist.Element.{Head, empty, before_begin, begin, end, size, clear, swap_with}

module _ (c : EntryRefCodec) where
  -- The closed range from `first` to `last` is put behind `pos`; the second result is the
  -- successor that `last` had.
  unfoldable pub insert_range_after : Links → (pos first last : ℕ) → Links × ℕ
  insert_range_after next pos first last =
      let pos_entry = c.get_entry pos in
      let last_entry = c.get_entry last in
      let old_next = next last_entry in
      let next1 = update next last_entry (next pos_entry) in
      (update next1 pos_entry first, old_next)

  -- `erase_after(first, last)`: the open range between them goes.
  unfoldable pub erase_range_after : ℕ → Links → Head → (first last : ℕ) → Option (Links × Head × ℕ)
  erase_range_after fuel next h first last =
      if first == end
      then some (next, h, first)
      else (counted h.size_member (distance c fuel next (forward c next first) last) >>= λ n. some (
        update next (c.get_entry first) last,
        record h { m_sz = sub_size h.size_member h.m_sz n },
        last,
      ))

  -- `swap(other)`: both sizes are taken before the head entries are swapped.
  unfoldable pub swap : ℕ → Links → (this other : Head) → Option (Links × Head × Head)
  unfolding swap_with
  swap fuel next this other = size c fuel next other >>= λ other_size.
      size c fuel next this >>= λ our_size. some (swap_with next this other other_size our_size)

  -- `splice_after(pos, other)`.
  unfoldable pub splice_after :
      ℕ → Links → (this other : Head) → (pos : ℕ) → Option (Links × Head × Head)
  unfolding empty clear
  splice_after fuel next this other pos =
      if empty next other
      then some (next, this, other)
      else (let next1 = update next (c.get_entry pos) (begin c next other) in
          counted this.size_member (size c fuel next1 other) >>= λ n.
          let (next2, other') = clear c next1 other in
          some (next2, record this { m_sz = add_size this.size_member this.m_sz n }, other'))

  -- The last position in front of `last`, and the number of positions up to it.
  unfoldable pub last_insert : ℕ → Links → (last_inserted scan last sz : ℕ) → Option (ℕ × ℕ)
  last_insert zero next last_inserted scan last sz = none
  last_insert (suc fuel) next last_inserted scan last sz =
      let rest = last_insert fuel next scan (forward c next scan) last (suc sz) in
      if scan == last then some (last_inserted, sz) else rest

  -- `splice_after(pos, other, first, last)`: the open range between `first` and `last`.
  unfoldable pub splice_range_after :
      ℕ → Links → (this other : Head) → (pos first last : ℕ) → Option (Links × Head × Head)
  unfolding last_insert insert_range_after
  splice_range_after fuel next this other pos first last =
      if first == last
      then some (next, this, other)
      else (let first' = forward c next first in
          let next1 = update next (c.get_entry first) last in
          if first' == last
          then some (next1, this, other)
          else (last_insert fuel next1 first' (forward c next1 first') last 1 >>= λ found. some (
            (insert_range_after next1 pos first' found.0).0,
            record this { m_sz = add_size this.size_member this.m_sz found.1 },
            record other { m_sz = sub_size other.size_member other.m_sz found.1 },
          )))

  -- `splice_after(pos, other, it)`.
  unfoldable pub splice_from_after :
      ℕ → Links → (this other : Head) → (pos it : ℕ) → Option (Links × Head × Head)
  unfolding splice_range_after
  splice_from_after fuel next this other pos it = splice_range_after fuel next this other pos it end

  -- The links when the loop of `reverse` ends, and its `prev`.
  unfoldable pub reverse_from : ℕ → Links → (i prev : ℕ) → Option (Links × ℕ)
  reverse_from zero next i prev = none
  reverse_from (suc fuel) next i prev =
      let rest = reverse_from fuel (update next (c.get_entry i) prev) (forward c next i) i in
      if i == end then some (next, prev) else rest

  unfoldable pub reverse : ℕ → Links → Head → Option Links
  unfolding reverse_from
  reverse fuel next h = reverse_from fuel next (begin c next h) end >>= λ reversed.
      some (update reversed.0 h.head_entry reversed.1)

module _ {ℓ} {A : Type ℓ} (c : EntryRefCodec) (proj : ℕ → A) where
  -- `find_predecessor_if`: the position in front of an item that `pred` holds of, and whether
  -- there is one.
  module _ (pred : A → Bool) where
    unfoldable pub find_from : ℕ → Links → (prev scan last : ℕ) → Option (ℕ × Bool)
    unfolding deref
    find_from zero next prev scan last = none
    find_from (suc fuel) next prev scan last =
        let rest = find_from fuel next scan (forward c next scan) last in
        if scan == last
        then some (prev, false)
        else (if pred (proj (deref c scan)) then some (prev, true) else rest)

    unfoldable pub find_predecessor_if : ℕ → Links → (prev last : ℕ) → Option (ℕ × Bool)
    unfolding find_from
    find_predecessor_if fuel next prev last =
        if prev == last
        then some (0, false)
        else find_from fuel next prev (forward c next prev) last

    unfoldable pub remove_from :
        ℕ → Links → Head → (prev i n_removed : ℕ) → Option (Links × Head × ℕ)
    unfolding deref erase_range_after
    remove_from zero next h prev i n_removed = none
    remove_from (suc fuel) next h prev i n_removed =
        if i == end then some (next, h, n_removed) else elim (pred (proj (deref c i))) [
          | false ↦ remove_from fuel next h i (forward c next i) n_removed
          | true ↦
              scan_while c fuel next (λ x. pred (proj x)) (forward c next i) end 1 >>= λ scanned.
              erase_range_after c fuel next h prev scanned.0 >>= λ erased.
              remove_from fuel erased.0 erased.1 erased.2
                (if erased.2 != end then forward c erased.0 erased.2 else end)
                ((n_removed + scanned.1) % 2 ^ size_type_width)
        ]

    unfoldable pub remove_if : ℕ → Links → Head → Option (Links × Head × ℕ)
    unfolding remove_from
    remove_if fuel next h = remove_from fuel next h (before_begin c h) (begin c next h) 0

  unfoldable pub remove :
      (A → A → Bool) → ℕ → Links → Head → (value : A) → Option (Links × Head × ℕ)
  unfolding remove_if
  remove eq fuel next h value = remove_if (λ projected. eq projected value) fuel next h

  module _ (eq : A → A → Bool) where
    unfoldable pub unique_from : ℕ → Links → Head → (prev i : ℕ) → Option (Links × Head)
    unfolding deref projections_are_equivalent erase_range_after
    unique_from zero next h prev i = none
    unique_from (suc fuel) next h prev i =
        if i == end
        then some (next, h)
        else elim (projections_are_equivalent proj eq (deref c prev) (deref c i)) [
          | false ↦ unique_from fuel next h i (forward c next i)
          | true ↦
              scan_while c fuel next (projections_are_equivalent proj eq (deref c prev))
                (forward c next i) end 0
              >>= λ scanned. erase_range_after c fuel next h prev scanned.0 >>= λ erased.
                  unique_from fuel erased.0 erased.1 erased.2
                    (if erased.2 != end then forward c erased.0 erased.2 else end)
        ]

    unfoldable pub unique : ℕ → Links → Head → Option (Links × Head)
    unfolding unique_from empty
    unique fuel next h =
        if empty next h
        then some (next, h)
        else unique_from fuel next h (begin c next h) (forward c next (begin c next h))

  module _ (comp : A → A → Bool) where
    -- The loop of `merge`: the links, `p1` and `f2` when it ends.
    unfoldable pub merge_loop : ℕ → Links → (p1 f1 f2 : ℕ) → Option (Links × ℕ × ℕ)
    unfolding before_at merge_scan insert_range_after
    merge_loop zero next p1 f1 f2 = none
    merge_loop (suc fuel) next p1 f1 f2 =
        if f1 == end || f2 == end then some (next, p1, f2) else elim (before_at c comp proj f1 f2) [
          | true ↦ merge_loop fuel next f1 (forward c next f1) f2
          | false ↦ merge_scan c comp proj fuel next f1 end f2 (forward c next f2) >>= λ scanned.
              let (next', f2') = insert_range_after c next p1 f2 scanned.0 in
              merge_loop fuel next' scanned.0 (forward c next' scanned.0) f2'
        ]

    -- The source compares the addresses of the list objects, the model those of the head entries.
    unfoldable pub merge : ℕ → Links → (this other : Head) → Option (Links × Head × Head)
    unfolding merge_loop clear
    merge fuel next this other =
        if this.head_entry == other.head_entry
        then some (next, this, other)
        else (counted this.size_member (size c fuel next other) >>= λ n.
            merge_loop fuel next (before_begin c this) (begin c next this) (begin c next other)
            >>= λ merged.
                let (next1, p1, f2) = merged in
                let next2 = if f2 != end then update next1 (c.get_entry p1) f2 else next1 in
                let (next3, other') = clear c next2 other in
                some (next3, record this { m_sz = add_size this.size_member this.m_sz n }, other'))

    unfoldable pub sort : ℕ → Links → Head → Option Links
    unfolding forward_list_merge_sort insert_range_after
    sort fuel next h = size c fuel next h >>= λ n.
        forward_list_merge_sort c comp proj (insert_range_after c) n fuel next (before_begin c h)
          end n
        >>= λ sorted. some sorted.0
