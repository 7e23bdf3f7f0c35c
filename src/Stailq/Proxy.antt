-- ===== src/Stailq/Proxy.antt =====
-- include/csg/core/stailq.h: `stailq_proxy`, the list whose head is elsewhere.
use csd_mirror.Prelude.{ℕ, Option, List}
use csd_mirror.Intrusive.{EntryRefCodec}
use csd_mirror.Chain.{Links}
use csd_mirror.Stailq.Element.{Head, assign}
use csd_mirror.Stailq.Head.{move_assign_head, take_assign}

-- A proxy of the head `h` that is made from another proxy: the head of the other is moved to `h`.
unfoldable pub proxy_move_make : Links → (h other : Head) → Links × Head × Head
unfolding move_assign_head
proxy_move_make next h other = move_assign_head next h other

unfoldable pub proxy_move_assign : Links → (this rhs : Head) → Links × Head × Head
unfolding move_assign_head
proxy_move_assign next this rhs = move_assign_head next this rhs

module _ (c : EntryRefCodec) where
  -- A proxy of the head `h` that is made with items, whatever `h` holds.
  unfoldable pub proxy_make : Links → (h : Head) → List ℕ → Links × Head
  unfolding assign
  proxy_make next h values = assign c next h values

  -- A proxy of the head `h` that is made from a list with another type of head, and the assignment
  -- from one.
  unfoldable pub proxy_take_make : ℕ → Links → (h other : Head) → Option (Links × Head × Head)
  unfolding take_assign
  proxy_take_make fuel next h other = take_assign c fuel next h other

  unfoldable pub proxy_take_assign : ℕ → Links → (this rhs : Head) → Option (Links × Head × Head)
  unfolding take_assign
  proxy_take_assign fuel next this rhs = take_assign c fuel next this rhs

  -- The assignment of items.
  unfoldable pub proxy_assign : Links → (this : Head) → List ℕ → Links × Head
  unfolding assign
  proxy_assign next this values = assign c next this values
