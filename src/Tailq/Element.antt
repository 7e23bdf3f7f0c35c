-- ===== src/Tailq/Element.antt =====
-- include/csg/core/tailq.h: the operations on one item, and the list head's own life.
pub mod Insert
pub mod Values
pub mod Erase
pub mod Access
pub mod Ends
use csd_mirror.Prelude.{ℕ, List, [], ◌∷◌}
use csd_mirror.Intrusive.{EntryRefCodec}
use csd_mirror.Intrusive.Size.{SizeMember, add_size, sub_size, set_size}
use csd_mirror.Tailq.Memory.{Memory, Head, set_next, set_prev}
use csd_mirror.Tailq.Iterator.{forward, backward, begin, end}

-- `tailq_fwd_head()` at the address `e`: both links of the end entry are its own raw address.
unfoldable pub init : Memory → ℕ → SizeMember → Memory × Head
init m e s =
    let m = set_prev e e m in (set_next e e m, record { end_entry = e; size_member = s; m_sz = 0 })

module _ (c : EntryRefCodec) where
  unfoldable pub clear : Memory → Head → Memory × Head
  clear m h =
      let ref = c.create_direct_entry_ref h.end_entry in
      let m = set_prev h.end_entry ref m in
      (set_next h.end_entry ref m, record h { m_sz = set_size h.size_member h.m_sz 0 })

  -- The third result is the iterator that the source returns.
  unfoldable pub insert : Memory → Head → (pos value : ℕ) → Memory × Head × ℕ
  insert m h pos value =
      let pos_entry = c.get_entry pos in
      let prev_entry = c.get_entry (m.prev pos_entry) in
      let item_ref = c.create_item_entry_ref value in
      let insert_entry = c.get_entry item_ref in
      let m1 = set_prev insert_entry (m.prev pos_entry) m in
      let m2 = set_next insert_entry pos m1 in
      let m3 = set_prev pos_entry item_ref m2 in
      let m4 = set_next prev_entry item_ref m3 in
      (m4, record h { m_sz = add_size h.size_member h.m_sz 1 }, item_ref)

  -- The loop of the range `insert`, over the pointers that are left.
  unfoldable pub insert_rest : Memory → Head → ℕ → List ℕ → Memory × Head
  insert_rest m h pos [] = (m, h)
  insert_rest m h pos (value ∷ values) =
      let (m', h', pos') = insert m h (forward c m pos) value in insert_rest m' h' pos' values

  unfoldable pub insert_values : Memory → Head → ℕ → List ℕ → Memory × Head × ℕ
  unfolding insert_rest
  insert_values m h pos [] = (m, h, pos)
  insert_values m h pos (value ∷ values) =
      let (m', h', first_insert) = insert m h pos value in
      let (m'', h'') = insert_rest m' h' first_insert values in (m'', h'', first_insert)

  unfoldable pub assign : Memory → Head → List ℕ → Memory × Head
  unfolding clear insert_values
  assign m h values =
      let (m', h') = clear m h in
      let (m'', h'', _) = insert_values m' h' (begin c m' h') values in (m'', h'')

  unfoldable pub erase : Memory → Head → (pos : ℕ) → Memory × Head × ℕ
  erase m h pos =
      let erased_entry = c.get_entry pos in
      let next_entry = c.get_entry (m.next erased_entry) in
      let prev_entry = c.get_entry (m.prev erased_entry) in
      let m1 = set_next prev_entry (m.next erased_entry) m in
      let m2 = set_prev next_entry (m1.prev erased_entry) m1 in
      (m2, record h { m_sz = sub_size h.size_member h.m_sz 1 }, m2.next erased_entry)

  unfoldable pub push_back : Memory → Head → ℕ → Memory × Head
  unfolding insert
  push_back m h p = let (m', h', _) = insert m h (end c h) p in (m', h')

  unfoldable pub pop_back : Memory → Head → Memory × Head
  unfolding erase
  pop_back m h = let (m', h', _) = erase m h (backward c m (end c h)) in (m', h')

  unfoldable pub push_front : Memory → Head → ℕ → Memory × Head
  unfolding insert
  push_front m h p = let (m', h', _) = insert m h (begin c m h) p in (m', h')

  unfoldable pub pop_front : Memory → Head → Memory × Head
  unfolding erase
  pop_front m h = let (m', h', _) = erase m h (begin c m h) in (m', h')
