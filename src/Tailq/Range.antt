-- ===== src/Tailq/Range.antt =====
-- include/csg/core/tailq.h: the operations on ranges of items, within a list and between two.
pub mod Links
pub mod Erase
pub mod Splice
pub mod Transfer
pub mod Swap
use csd_mirror.Prelude.{ℕ, Bool, true, false, Option, none, some, ◌==◌, if◌then◌else◌, ◌>>=◌}
use csd_mirror.Intrusive.{EntryRefCodec}
use csd_mirror.Intrusive.Size.{SizeMember, no_size, integral, add_size, sub_size, set_size}
use csd_mirror.Tailq.Memory.{Memory, Head, set_next, set_prev}
use csd_mirror.Tailq.Difference.{difference, convert}
use csd_mirror.Tailq.Iterator.{forward, backward, begin, end, empty, distance, size}

-- The second write of `splice(pos, other)` to a size member, which goes to this list's, as in the
-- source. Where only the other list has one, that write does not compile, and there is no result.
unfoldable pub spliced_size : (other this : SizeMember) → (sz : ℕ) → Option ℕ
spliced_size no_size this sz = some sz
spliced_size (integral width') no_size sz = none
spliced_size (integral width') (integral width) sz = some (set_size (integral width) sz 0)

module _ (c : EntryRefCodec) where
  -- The closed range from `first` to `last` is put in front of `pos`.
  unfoldable pub insert_range : Memory → (pos first last : ℕ) → Memory
  insert_range m pos first last =
      let pos_entry = c.get_entry pos in
      let first_entry = c.get_entry first in
      let last_entry = c.get_entry last in
      let before_pos_entry = c.get_entry (m.prev pos_entry) in
      let m1 = set_prev first_entry (m.prev pos_entry) m in
      let m2 = set_next before_pos_entry first m1 in
      let m3 = set_next last_entry pos m2 in set_prev pos_entry last m3

  -- The closed range from `first` to `last` is taken out.
  unfoldable pub remove_range : Memory → (first last : ℕ) → Memory
  remove_range m first last =
      let first_entry = c.get_entry first in
      let last_entry = c.get_entry last in
      let before_first_entry = c.get_entry (m.prev first_entry) in
      let after_last_entry = c.get_entry (m.next last_entry) in
      let m1 = set_next before_first_entry (m.next last_entry) m in
      set_prev after_last_entry (m1.prev first_entry) m1

  -- The distance from `first` to `last` in a list with the size member `walked`, converted to the
  -- size member that it changes. It is taken only where there is one.
  unfoldable pub counted_distance :
      (walked changed : SizeMember) → ℕ → Memory → (first last : ℕ) → Option ℕ
  unfolding difference convert
  counted_distance walked no_size fuel m first last = some 0
  counted_distance walked (integral width) fuel m first last = distance c fuel m first last >>= λ n.
      some (convert walked (integral width) (difference walked n))

  -- The size of a list, which is taken only where there is a size member to change.
  unfoldable pub counted_size : SizeMember → ℕ → Memory → Head → Option ℕ
  counted_size no_size fuel m h = some 0
  counted_size (integral width) fuel m h = size c fuel m h

  -- `erase(first, last)`. The distance is taken after the range has been unlinked.
  unfoldable pub erase_range : ℕ → Memory → Head → (first last : ℕ) → Option (Memory × Head × ℕ)
  erase_range fuel m h first last =
      if first == last
      then some (m, h, last)
      else (let m' = remove_range m first (backward c m last) in
          counted_distance h.size_member h.size_member fuel m' first last >>= λ n.
          some (m', record h { m_sz = sub_size h.size_member h.m_sz n }, last))

  -- `splice(pos, other)`: the memory, this list's head and the other's.
  unfoldable pub splice :
      ℕ → Memory → (this other : Head) → (pos : ℕ) → Option (Memory × Head × Head)
  unfolding spliced_size
  splice fuel m this other pos =
      if empty c m other
      then some (m, this, other)
      else (let first = begin c m other in
          let last = backward c m (end c other) in
          counted_size this.size_member fuel m other >>= λ n.
          spliced_size other.size_member this.size_member (add_size this.size_member this.m_sz n)
          >>= λ sz. some (
            insert_range (remove_range m first last) pos first last,
            record this { m_sz = sz },
            other,
          ))

  -- `splice(pos, other, first, last)`.
  unfoldable pub splice_range :
      ℕ → Memory → (this other : Head) → (pos first last : ℕ) → Option (Memory × Head × Head)
  splice_range fuel m this other pos first last =
      if first == last
      then some (m, this, other)
      else (counted_distance other.size_member this.size_member fuel m first last >>= λ n.
          counted_distance other.size_member other.size_member fuel m first last >>= λ n'.
          let last' = backward c m last in
          some (
            insert_range (remove_range m first last') pos first last',
            record this { m_sz = add_size this.size_member this.m_sz n },
            record other { m_sz = sub_size other.size_member other.m_sz n' },
          ))

  -- `splice(pos, other, it)`: from `it` to the end of the other list.
  unfoldable pub splice_from :
      ℕ → Memory → (this other : Head) → (pos it : ℕ) → Option (Memory × Head × Head)
  unfolding splice_range
  splice_from fuel m this other pos it = splice_range fuel m this other pos it (end c other)

  -- The sizes that `swap_lists` leaves in this list and in the other. `std::swap` takes two size
  -- members of the same type only; the model is defined for two widths, too.
  unfoldable pub swap_sizes : ℕ → Memory → (this other : Head) → Option (ℕ × ℕ)
  swap_sizes fuel m this other = elim this.size_member [
    | integral w ↦ elim other.size_member [
      | integral w' ↦ some (
        set_size this.size_member this.m_sz other.m_sz,
        set_size other.size_member other.m_sz this.m_sz,
      )
      | no_size ↦
          size c fuel m other >>= λ n. some (set_size this.size_member this.m_sz n, other.m_sz)
    ]
    | no_size ↦ elim other.size_member [
      | integral w' ↦
          size c fuel m this >>= λ n. some (this.m_sz, set_size other.size_member other.m_sz n)
      | no_size ↦ some (this.m_sz, other.m_sz)
    ]
  ]

  -- The links of `swap_lists`.
  unfoldable pub swap_links : Memory → (this other : Head) → Memory
  swap_links m this other =
      let lhs_end = this.end_entry in
      let lhs_first = c.get_entry (m.next lhs_end) in
      let lhs_last = c.get_entry (m.prev lhs_end) in
      let rhs_end = other.end_entry in
      let rhs_first = c.get_entry (m.next rhs_end) in
      let rhs_last = c.get_entry (m.prev rhs_end) in
      let m1 = set_next lhs_last (c.create_direct_entry_ref rhs_end) m in
      let m2 = set_prev lhs_first (c.create_direct_entry_ref rhs_end) m1 in
      let m3 = set_next rhs_last (c.create_direct_entry_ref lhs_end) m2 in
      let m4 = set_prev rhs_first (c.create_direct_entry_ref lhs_end) m3 in
      let m5 = set_next lhs_end (m4.next rhs_end) (set_prev lhs_end (m4.prev rhs_end) m4) in
      set_next rhs_end (m4.next lhs_end) (set_prev rhs_end (m4.prev lhs_end) m5)

  unfoldable pub swap_lists : ℕ → Memory → (this other : Head) → Option (Memory × Head × Head)
  unfolding swap_sizes swap_links
  swap_lists fuel m this other = swap_sizes fuel m this other >>= λ sizes.
      some
        (swap_links m this other, record this { m_sz = sizes.0 }, record other { m_sz = sizes.1 })
