-- ===== src/Tailq/Head.antt =====
-- include/csg/core/tailq.h: how the heads are made and moved, in `tailq_head` and `tailq_proxy`.
pub mod Laws
use csd_mirror.Prelude.{ℕ, Option, some, List, [], ◌∷◌, ◌>>=◌}
use csd_mirror.Intrusive.{EntryRefCodec}
use csd_mirror.Intrusive.Size.{SizeMember}
use csd_mirror.Tailq.Memory.{Memory, Head}
use csd_mirror.Tailq.Element.{init, clear, assign}
use csd_mirror.Tailq.Range.{swap_lists}

module _ (c : EntryRefCodec) where
  -- A head at the address `e` that is made with items.
  unfoldable pub make : Memory → ℕ → SizeMember → List ℕ → Memory × Head
  unfolding init assign
  make m e s values = let (m', h) = init m e s in assign c m' h values

  -- A head at the address `e` that is made from another one.
  unfoldable pub move_make :
      ℕ → Memory → ℕ → SizeMember → (other : Head) → Option (Memory × Head × Head)
  unfolding init swap_lists
  move_make fuel m e s other = let (m', h) = init m e s in swap_lists c fuel m' h other

  -- `this = std::move(other)`.
  unfoldable pub move_assign : ℕ → Memory → (this other : Head) → Option (Memory × Head × Head)
  unfolding clear swap_lists
  move_assign fuel m this other = let (m', h) = clear c m this in swap_lists c fuel m' h other
