-- ===== src/Stailq/Head.antt =====
-- include/csg/core/stailq.h: how the heads are made, swapped and moved, in `stailq_fwd_head` and
-- `stailq_head`.
pub mod Laws
use csd_mirror.Prelude.{ℕ, Option, some, List, [], ◌∷◌, ◌>>=◌}
use csd_mirror.Intrusive.{EntryRefCodec}
use csd_mirror.Intrusive.Size.{SizeMember}
use csd_mirror.Tailq.Memory.{update}
use csd_mirror.Chain.{Links, counted}
use csd_mirror.Stailq.Element.{Head, init, size, clear, assign, swap_with, swapped_tail}

-- `stailq_fwd_head::swap(other)` of two heads with the same type of size member.
unfoldable pub swap_heads : Links → (this other : Head) → Links × Head × Head
swap_heads next this other =
    let next1 = update next this.head_entry (next other.head_entry) in
    let next2 = update next1 other.head_entry (next this.head_entry) in
    (
      next2,
      record this { encoded_tail = swapped_tail next2 this other; m_sz = other.m_sz },
      record other { encoded_tail = swapped_tail next2 other this; m_sz = this.m_sz },
    )

-- A head at the address `e` that is made from another one of its type, which is swapped with it.
unfoldable pub move_make_head : Links → (e : ℕ) → (other : Head) → Links × Head × Head
unfolding init swap_heads
move_make_head next e other =
    let (next', h) = init next e other.size_member in swap_heads next' h other

-- `this = std::move(other)` of heads of one type: `this` is made again, in its place.
unfoldable pub move_assign_head : Links → (this other : Head) → Links × Head × Head
unfolding move_make_head
move_assign_head next this other = move_make_head next this.head_entry other

-- `stailq_head(stailq_head &&other)` and the assignment from one.
unfoldable pub move_make : Links → (e : ℕ) → (other : Head) → Links × Head × Head
unfolding move_make_head
move_make next e other = move_make_head next e other

unfoldable pub move_assign : Links → (this other : Head) → Links × Head × Head
unfolding move_assign_head
move_assign next this other = move_assign_head next this other

module _ (c : EntryRefCodec) where
  -- A head at the address `e` that is made with items.
  unfoldable pub make : Links → (e : ℕ) → SizeMember → List ℕ → Links × Head
  unfolding init assign
  make next e s values = let (next', h) = init next e s in assign c next' h values

  -- A head at the address `e` that is made from a list with another type of head.
  unfoldable pub take_make :
      ℕ → Links → (e : ℕ) → SizeMember → (other : Head) → Option (Links × Head × Head)
  unfolding init swap_with
  take_make fuel next e s other =
      let (next', h) = init next e s in
      counted s (size c fuel next' other) >>= λ n. some (swap_with next' h other n 0)

  -- `this = std::move(other)` from a list with another type of head.
  unfoldable pub take_assign : ℕ → Links → (this other : Head) → Option (Links × Head × Head)
  unfolding clear swap_with
  take_assign fuel next this other =
      let (next', h) = clear c next this in
      counted h.size_member (size c fuel next' other) >>= λ n. some (swap_with next' h other n 0)
