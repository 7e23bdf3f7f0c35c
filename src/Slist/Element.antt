-- ===== src/Slist/Element.antt =====
-- include/csg/core/slist.h: the head of a list, its positions, and the operations on one item.
use csd_mirror.Prelude.{
  ℕ, zero, suc, Bool, Option, none, some, List, [], ◌∷◌, ◌==◌, if◌then◌else◌, ◌>>=◌,
}
use csd_mirror.Intrusive.{EntryRefCodec}
use csd_mirror.Intrusive.Size.{SizeMember, no_size, integral, add_size, sub_size, set_size}
use csd_mirror.Tailq.Memory.{update}
use csd_mirror.Chain.{Links, forward, deref, distance}

-- The address of `m_headEntry`, the type of `m_sz` and its value.
pub record Head : Type 0 where
  pub head_entry : ℕ
  pub size_member : SizeMember
  pub m_sz : ℕ

-- `slist_fwd_head()` at the address `e`.
unfoldable pub init : Links → ℕ → SizeMember → Links × Head
init next e s = (update next e 0, record { head_entry = e; size_member = s; m_sz = 0 })

abbrev pub end : ℕ
end = 0

unfoldable pub empty : Links → Head → Bool
empty next h = next h.head_entry == 0

-- `swap_with(other, other_size, our_size)`: the head entries are swapped, and each size member that
-- is there is set.
unfoldable pub swap_with :
    Links → (this other : Head) → (other_size our_size : ℕ) → Links × Head × Head
swap_with next this other other_size our_size =
    let next1 = update next this.head_entry (next other.head_entry) in
    (
      update next1 other.head_entry (next this.head_entry),
      record this { m_sz = set_size this.size_member this.m_sz other_size },
      record other { m_sz = set_size other.size_member other.m_sz our_size },
    )

module _ (c : EntryRefCodec) where
  abbrev pub before_begin : Head → ℕ
  before_begin h = c.create_direct_entry_ref h.head_entry

  abbrev pub begin : Links → Head → ℕ
  begin next h = forward c next (before_begin h)

  unfoldable pub front : Links → Head → ℕ
  unfolding deref
  front next h = deref c (begin next h)

  unfoldable pub size : ℕ → Links → Head → Option ℕ
  size fuel next h = elim h.size_member [
    | no_size ↦ distance c fuel next (begin next h) end
    | integral width ↦ some h.m_sz
  ]

  -- `iter(p)`: the iterator to the item at `p`.
  unfoldable pub iter : ℕ → ℕ
  iter p = c.create_item_entry_ref p

  unfoldable pub clear : Links → Head → Links × Head
  clear next h = (update next h.head_entry 0, record h { m_sz = set_size h.size_member h.m_sz 0 })

  -- The third result is the iterator that the source returns, here and below.
  unfoldable pub insert_after : Links → Head → (pos value : ℕ) → Links × Head × ℕ
  insert_after next h pos value =
      let item_ref = c.create_item_entry_ref value in
      let pos_entry = c.get_entry pos in
      let insert_entry = c.get_entry item_ref in
      let next1 = update next insert_entry (next pos_entry) in
      (
        update next1 pos_entry item_ref,
        record h { m_sz = add_size h.size_member h.m_sz 1 },
        item_ref,
      )

  unfoldable pub insert_values_after : Links → Head → ℕ → List ℕ → Links × Head × ℕ
  unfolding insert_after
  insert_values_after next h pos [] = (next, h, pos)
  insert_values_after next h pos (value ∷ values) =
      let (next', h', pos') = insert_after next h pos value in
      insert_values_after next' h' pos' values

  unfoldable pub assign : Links → Head → List ℕ → Links × Head
  unfolding clear insert_values_after
  assign next h values =
      let (next', h') = clear next h in
      let (next'', h'', _) = insert_values_after next' h' (before_begin h') values in (next'', h'')

  unfoldable pub erase_after : Links → Head → (pos : ℕ) → Links × Head × ℕ
  erase_after next h pos =
      let pos_entry = c.get_entry pos in
      if next pos_entry == 0
      then (next, h, end)
      else (let erased_entry = c.get_entry (next pos_entry) in
          let next' = update next pos_entry (next erased_entry) in
          (next', record h { m_sz = sub_size h.size_member h.m_sz 1 }, next' pos_entry))

  unfoldable pub push_front : Links → Head → ℕ → Links × Head
  unfolding insert_after
  push_front next h p = let (next', h', _) = insert_after next h (before_begin h) p in (next', h')

  unfoldable pub pop_front : Links → Head → Links × Head
  unfolding erase_after
  pop_front next h = let (next', h', _) = erase_after next h (before_begin h) in (next', h')

  -- The position in front of `pos`, or the null iterator.
  unfoldable pub find_predecessor : ℕ → Links → (scan last pos : ℕ) → Option ℕ
  find_predecessor zero next scan last pos = none
  find_predecessor (suc fuel) next scan last pos =
      let rest = find_predecessor fuel next (forward c next scan) last pos in
      if scan == last then some 0 else (if forward c next scan == pos then some scan else rest)

  -- `find_erase(pos)`: the address of the erased item, too.
  unfoldable pub find_erase : ℕ → Links → Head → (pos : ℕ) → Option (ℕ × Links × Head × ℕ)
  unfolding deref find_predecessor erase_after
  find_erase fuel next h pos = find_predecessor fuel next (before_begin h) end pos >>= λ prev.
      let (next', h', it) = erase_after next h prev in some (deref c pos, next', h', it)
