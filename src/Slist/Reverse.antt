-- ===== src/Slist/Reverse.antt =====
-- `reverse` of `Slist`.
use csd_mirror.Prelude.{ℕ, ◌<◌, ◌≡◌, refl, some, List, length, subst, sym}
use mathlib.Core.List.{reverse}
use csd_mirror.Intrusive.{EntryRefCodec}
use csd_mirror.Intrusive.Size.{Counts}
use csd_mirror.Tailq.Scan.Turn.{length-reverse}
use csd_mirror.Chain.{Links}
use csd_mirror.Chain.Reverse.{reverse_chain}
use csd_mirror.Slist.Element.{Head}
use csd_mirror.Slist.Range
use csd_mirror.Slist.Laws.{IsSlist}

-- With more fuel than there are items, `reverse` of a singly linked list gives a result: a list of
-- the items in the opposite order.
pub slist_reverse_lem :
    (c : EntryRefCodec) (fuel : ℕ) (next : Links) (h : Head) (xs : List ℕ)
    → IsSlist c next h xs
    → length xs < fuel
    → (next' : Links) × (Range.reverse c fuel next h ≡ some next') × IsSlist c next' h (reverse xs)
unfolding Range.reverse Range.reverse_from
slist_reverse_lem c fuel next h xs v lt =
    let (next', eq, done) =
      reverse_chain c (Range.reverse_from c) (λ fuel next i prev. refl) fuel next h.head_entry xs
        v.forward lt in
    (
      _,
      rw eq refl,
      record {
        forward = done;
        count = subst (Counts h.size_member h.m_sz) (sym (length-reverse xs)) v.count;
      },
    )
