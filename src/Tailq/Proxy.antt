-- ===== src/Tailq/Proxy.antt =====
-- include/csg/core/tailq.h: `tailq_proxy`, the list whose head is elsewhere.
use csd_mirror.Prelude.{ℕ, Option, List}
use csd_mirror.Intrusive.{EntryRefCodec}
use csd_mirror.Tailq.Memory.{Memory, Head}
use csd_mirror.Tailq.Element.{assign}
use csd_mirror.Tailq.Head.{move_assign}

module _ (c : EntryRefCodec) where
  -- A proxy of the head `h` that is made with items, whatever `h` holds.
  unfoldable pub proxy_make : Memory → (h : Head) → List ℕ → Memory × Head
  unfolding assign
  proxy_make m h values = assign c m h values

  -- A proxy of the head `h` that is made from another list, and the assignments from one.
  unfoldable pub proxy_move_make : ℕ → Memory → (h other : Head) → Option (Memory × Head × Head)
  unfolding move_assign
  proxy_move_make fuel m h other = move_assign c fuel m h other

  unfoldable pub proxy_move_assign : ℕ → Memory → (this rhs : Head) → Option (Memory × Head × Head)
  unfolding move_assign
  proxy_move_assign fuel m this rhs = move_assign c fuel m this rhs

  -- The assignment of items.
  unfoldable pub proxy_assign : Memory → (this : Head) → List ℕ → Memory × Head
  unfolding assign
  proxy_assign m this values = assign c m this values
