-- ===== src/Slist/Laws.antt =====
-- The representation relation of `Slist`.
use csd_mirror.Prelude.{ℕ, ◌<◌, ◌≡◌, some, List, length}
use csd_mirror.Intrusive.{EntryRefCodec}
use csd_mirror.Intrusive.Size.{Counts, Fits}
use csd_mirror.Chain.{Links}
use csd_mirror.Chain.Forward.{IsForward}
use csd_mirror.Chain.Walk.{size_of}
use csd_mirror.Slist.Element.{Head, size}

-- The list of head `h` holds the items `xs`: they are chained in order from the head entry, and the
-- size member counts them.
pub record IsSlist (c : EntryRefCodec) (next : Links) (h : Head) (xs : List ℕ) : Type 0 where
  pub forward : IsForward c next h.head_entry xs
  pub count : Counts h.size_member h.m_sz (length xs)

module _ (c : EntryRefCodec) where
  pub size_after_lem :
      (fuel : ℕ) (next : Links) (h : Head) (xs : List ℕ)
      → IsSlist c next h xs
      → length xs < fuel
      → Fits h.size_member (length xs)
      → size c fuel next h ≡ some (length xs)
  unfolding size
  size_after_lem fuel next h xs v lt fits =
      size_of c h.head_entry fuel next xs h.size_member h.m_sz v.forward v.count lt fits
