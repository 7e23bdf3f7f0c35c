-- ===== src/Stailq/Reverse.antt =====
-- `reverse` of `Stailq`.
use csd_mirror.Prelude.{ℕ, ◌<◌, ◌≡◌, refl, some, List, [], ◌∷◌, length, subst, sym, ap, ◌∙◌}
use mathlib.Core.List.{reverse, reverse-cons}
use csd_mirror.Intrusive.{EntryRefCodec}
use csd_mirror.Intrusive.Size.{Counts}
use csd_mirror.Tailq.Scan.Turn.{length-reverse}
use csd_mirror.Chain.{Links}
use csd_mirror.Chain.Reverse.{reverse_chain}
use csd_mirror.Stailq.Element.{Head}
use csd_mirror.Stailq.Range
use csd_mirror.Stailq.Laws.{IsStailq, queue_of, forward_of, after, after-append}

-- With more fuel than there are items, `reverse` of a singly linked tail queue that has an item
-- gives a result: a queue of the items in the opposite order, whose tail is the last of them.
pub stailq_reverse_lem :
    (c : EntryRefCodec) (fuel : ℕ) (next : Links) (h : Head) (x : ℕ) (xs : List ℕ)
    → IsStailq c next h (x ∷ xs)
    → length (x ∷ xs) < fuel
    → (next' : Links) × (h' : Head) × (Range.reverse c fuel next h ≡ some (next', h'))
      × IsStailq c next' h' (reverse (x ∷ xs))
unfolding Range.reverse Range.reverse_from
stailq_reverse_lem c fuel next h x xs v lt =
    let (next', eq, done) =
      reverse_chain c (Range.reverse_from c) (λ fuel next i prev. refl) fuel next h.head_entry
        (x ∷ xs) (forward_of c v) lt in
    let tail =
      v.chain.0
      ∙ sym (after-append c h (reverse xs) x [])
      ∙ ap (after c h) (sym (reverse-cons x xs)) in
    (
      _,
      _,
      rw eq refl,
      queue_of c done tail
          (subst (Counts h.size_member h.m_sz) (sym (length-reverse (x ∷ xs))) v.count),
    )
