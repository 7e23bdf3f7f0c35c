-- ===== src/Chain.antt =====
-- include/csg/core/listfwd.h, slist.h and stailq.h: what the two singly linked lists share, their
-- iterators, the scans that only read, and `forward_list_merge_sort`. The memory of such a list is
-- the member `next` of the entry at each address, and 0 is the null link and the end of a list.
pub mod Laws
pub mod Forward
pub mod Ranges
pub mod Merge
pub mod Scan
pub mod Apart
pub mod Walk
pub mod Reverse
pub mod Splice
pub mod Ends
pub mod Sort
pub mod Exchange
pub mod Heads
pub mod Visit
use csd_mirror.Prelude.{
  ℕ, zero, suc, ◌-◌, ◌/◌, Bool, true, false, ◌&&◌, ◌||◌, Option, none, some, ◌==◌, ◌!=◌,
  if◌then◌else◌, ◌>>=◌,
}
use csd_mirror.Intrusive.{EntryRefCodec}
use csd_mirror.Intrusive.Size.{SizeMember, no_size, integral}
use csd_mirror.Utility.{projection_is_ordered_before}
use csd_mirror.Tailq.Memory.{update}

abbrev pub Links : Type 0
Links = ℕ → ℕ

-- `slist_base` and `stailq_base` name the `size_type` of a head without size member, whatever their
-- own: it is `std::size_t`.
abbrev pub size_type_width : ℕ
size_type_width = 64

-- A count that is only taken where there is a size member to change.
abbrev pub counted : SizeMember → Option ℕ → Option ℕ
counted no_size n = some 0
counted (integral width) n = n

module _ (c : EntryRefCodec) where
  unfoldable pub deref : ℕ → ℕ
  deref i = c.get_value i

  -- `++i`.
  abbrev pub forward : Links → ℕ → ℕ
  forward next i = next (c.get_entry i)

  -- `std::ranges::next(i, n)`.
  unfoldable pub advance : Links → (i n : ℕ) → ℕ
  advance next i zero = i
  advance next i (suc n) = advance next (forward next i) n

  -- `std::ranges::distance`: the number of steps from `first` to `last`.
  unfoldable pub distance : ℕ → Links → (first last : ℕ) → Option ℕ
  distance zero next first last = none
  distance (suc fuel) next first last = elim (first == last) [
    | true ↦ some 0
    | false ↦ distance fuel next (forward next first) last >>= λ n. some (suc n)
  ]

  -- The first position from `scan` on where `holds` fails of the item, or the end; `n` counts.
  unfoldable pub scan_while : ℕ → Links → (ℕ → Bool) → (scan e n : ℕ) → Option (ℕ × ℕ)
  unfolding deref
  scan_while zero next holds scan e n = none
  scan_while (suc fuel) next holds scan e n =
      let rest = scan_while fuel next holds (forward next scan) e (suc n) in
      if scan != e && holds (deref scan) then rest else some (scan, n)

  -- The position in front of `e`.
  unfoldable pub find_last : ℕ → Links → (p e : ℕ) → Option ℕ
  find_last zero next p e = none
  find_last (suc fuel) next p e =
      let rest = find_last fuel next (forward next p) e in
      if forward next p == e then some p else rest

  -- The last position of the merged range, which is `p_end` or is found from `p2` on.
  unfoldable pub last_position : ℕ → Links → (p2 p_end e2 : ℕ) → Option ℕ
  unfolding find_last
  last_position fuel next p2 p_end e2 =
      let found = find_last fuel next p2 e2 in
      if forward next p_end == e2 then some p_end else found

module _ {ℓ} {A : Type ℓ} (c : EntryRefCodec) (comp : A → A → Bool) (proj : ℕ → A) where
  unfoldable pub before_at : (f1 f2 : ℕ) → Bool
  unfolding projection_is_ordered_before deref
  before_at f1 f2 = projection_is_ordered_before proj comp (deref c f1) (deref c f2)

  -- The last position of the merge range that begins at `merge_end`, and the one behind it.
  unfoldable pub merge_scan : ℕ → Links → (f1 e2 merge_end scan : ℕ) → Option (ℕ × ℕ)
  unfolding before_at
  merge_scan zero next f1 e2 merge_end scan = none
  merge_scan (suc fuel) next f1 e2 merge_end scan =
      let rest = merge_scan fuel next f1 e2 scan (forward c next scan) in
      if scan != e2 && before_at scan f1 then rest else some (merge_end, scan)

  -- `insert_range_after` is the list's.
  module _ (insert_range_after : Links → (pos first last : ℕ) → Links × ℕ) where
    -- The merge of the sorted open ranges that begin behind `p1` and `p2`.
    unfoldable pub merge_ranges : ℕ → Links → (p1 p2 f1 f2 e2 : ℕ) → Option Links
    unfolding before_at merge_scan
    merge_ranges zero next p1 p2 f1 f2 e2 = none
    merge_ranges (suc fuel) next p1 p2 f1 f2 e2 =
        if f1 == f2 || f2 == e2 then some next else elim (before_at f1 f2) [
          | true ↦ merge_ranges fuel next f1 p2 (forward c next f1) f2 e2
          | false ↦ merge_scan fuel next f1 e2 f2 (forward c next f2) >>= λ scanned.
              let unlinked = update next (c.get_entry p2) scanned.1 in
              let next' = (insert_range_after unlinked p1 f2 scanned.0).0 in
              merge_ranges fuel next' f1 p2 (forward c next' f1) scanned.1 e2
        ]

    -- `forward_list_merge_sort(p1, e2, n)`: the links and the last position of the sorted range.
    unfoldable pub forward_list_merge_sort :
        (depth fuel : ℕ) → Links → (p1 e2 n : ℕ) → Option (Links × ℕ)
    unfolding before_at merge_ranges advance last_position
    forward_list_merge_sort depth fuel next p1 e2 zero = some (next, forward c next p1)
    forward_list_merge_sort depth fuel next p1 e2 (suc zero) = some (next, forward c next p1)
    forward_list_merge_sort depth fuel next p1 e2 (suc (suc zero)) =
        let f1 = forward c next p1 in
        let f2 = forward c next f1 in
        if before_at f1 f2
        then some (next, f2)
        else (let next1 = update next (c.get_entry p1) f2 in
            let next2 = update next1 (c.get_entry f2) f1 in
            some (update next2 (c.get_entry f1) e2, f1))
    forward_list_merge_sort zero fuel next p1 e2 (suc (suc (suc n))) = none
    forward_list_merge_sort (suc depth) fuel next p1 e2 (suc (suc (suc n))) =
        let pivot = suc (suc (suc n)) / 2 in
        let p2 = advance c next p1 pivot in
        forward_list_merge_sort depth fuel next p1 (forward c next p2) pivot >>= λ left.
        forward_list_merge_sort depth fuel left.0 left.1 e2 (suc (suc (suc n)) - pivot) >>= λ right.
        merge_ranges fuel right.0 p1 left.1 (forward c right.0 p1) (forward c right.0 left.1) e2
        >>= λ merged. last_position c fuel merged left.1 right.1 e2 >>= λ p. some (merged, p)
