-- ===== src/Slist/Transfer.antt =====
-- `erase_after` and `splice_after` of ranges of `Slist`.
use csd_mirror.Prelude.{
  ℕ, ◌+◌, ◌<◌, ◌≡◌, refl, some, List, [], ◌∷◌, ◌++◌, length, length-append, arith, Disjoint, eq→==,
  subst, sym, ap, ◌∙◌,
}
use csd_mirror.Intrusive.{EntryRefCodec}
use csd_mirror.Intrusive.Size.{Counts, add_size, sub_size, add_size-Counts, sub_size-Counts}
use csd_mirror.Tailq.Memory.{update}
use csd_mirror.Tailq.Valid.{entries}
use csd_mirror.Chain.{Links, distance}
use csd_mirror.Chain.Forward.{at, behind, forward-behind}
use csd_mirror.Chain.Walk.{distance_lem, counted-Counts}
use csd_mirror.Chain.Ranges.{cut}
use csd_mirror.Chain.Apart.{item_ne_at}
use csd_mirror.Chain.Splice.{behind_not_null, behind_ne_at, other_link, move_run, last_insert_run}
use csd_mirror.Slist.Element.{Head}
use csd_mirror.Slist.Range.{erase_range_after, insert_range_after, last_insert, splice_range_after}
use csd_mirror.Slist.Laws.{IsSlist}

joined :
    (pre : List ℕ) (f : ℕ) (ms post : List ℕ)
    → length (pre ++ ((f ∷ ms) ++ post)) ≡ length (pre ++ post) + length (f ∷ ms)
joined pre f ms post = omega (
  arith,
  length-append {0} pre post,
  length-append {0} pre (f ∷ (ms ++ post)),
  length-append {0} ms post,
)

module _ (c : EntryRefCodec) where
  -- With more fuel than the range has items, `erase_after(first, last)` from one position of a
  -- singly linked list to a later one gives a result: a list of the items outside the open range,
  -- its size member counting what is left, and the iterator `last`.
  pub erase_range_after_lem :
      (fuel : ℕ) (next : Links) (h : Head) (pre mid post : List ℕ)
      → IsSlist c next h (pre ++ (mid ++ post))
      → length mid < fuel
      → (next' : Links) × (h' : Head) × (erase_range_after c fuel next h
            (behind c h.head_entry pre)
            (at c post)
          ≡ some (next', h', at c post))
        × IsSlist c next' h' (pre ++ post)
  unfolding erase_range_after
  erase_range_after_lem fuel next h pre mid post v lt =
      let e = h.head_entry in
      let steps =
        ap (λ i. distance c fuel next i (at c post))
          (forward-behind c e pre (mid ++ post) v.forward)
        ∙ distance_lem c e fuel next pre mid post lt v.forward in
      let (k, eq, count, _) = counted-Counts h.size_member _ (length mid) steps in
      (
        update next (c.get_entry (behind c e pre)) (at c post),
        record h { m_sz = sub_size h.size_member h.m_sz k },
        rw (behind_not_null c next e pre (mid ++ post) v.forward) (rw eq refl),
        record {
          forward = cut c e next pre mid post v.forward;
          count = count h.m_sz (length (pre ++ post)) (
              subst (Counts h.size_member h.m_sz)
                (omega (
                  arith,
                  length-append {0} pre post,
                  length-append {0} pre (mid ++ post),
                  length-append {0} mid post,
                ))
                v.count);
        },
      )

  -- For two singly linked lists without common entries and more fuel than the range has items,
  -- `splice_after(pos, other, first, last)` gives a result: this list has the items between `first`
  -- and `last` behind `pos`, the other has the items outside the range, and both size members count
  -- their items.
  pub splice_range_after_lem :
      (fuel : ℕ) (next : Links) (this other : Head) (pre post pre' mid post' : List ℕ)
      → IsSlist c next this (pre ++ post)
      → IsSlist c next other (pre' ++ (mid ++ post'))
      → Disjoint
          (entries c this.head_entry (pre ++ post))
          (entries c other.head_entry (pre' ++ (mid ++ post')))
      → length mid < fuel
      → (next' : Links) × (this' : Head) × (other' : Head) × (splice_range_after c fuel next this
            other
            (behind c this.head_entry pre)
            (behind c other.head_entry pre')
            (at c post')
          ≡ some (next', this', other'))
        × IsSlist c next' this' (pre ++ (mid ++ post))
        × IsSlist c next' other' (pre' ++ post')
  unfolding splice_range_after insert_range_after last_insert
  splice_range_after_lem fuel next this other pre post pre' [] post' v v' apart lt =
      let e' = other.head_entry in
      let start = forward-behind c e' pre' post' v'.forward in
      (
        update next (c.get_entry (behind c e' pre')) (at c post'),
        this,
        other,
        rw (behind_ne_at c next e' pre' [] post' v'.forward)
            (rw start (rw (eq→== (at c post') (at c post') refl) refl)),
        record {
          forward =
              other_link c next this.head_entry e' (pre ++ post) pre' post' (at c post') v.forward
                apart;
          count = v.count;
        },
        record { forward = cut c e' next pre' [] post' v'.forward; count = v'.count },
      )
  splice_range_after_lem fuel next this other pre post pre' (f ∷ ms) post' v v' apart lt =
      let e = this.head_entry in
      let e' = other.head_entry in
      let start = forward-behind c e' pre' ((f ∷ ms) ++ post') v'.forward in
      let found =
        last_insert_run c (last_insert c) (λ fuel next l scan stop sz. refl) fuel next e' pre' f ms
          post' v'.forward lt in
      let (ring, ring') =
        move_run c next e e' pre post f ms pre' post' v.forward v'.forward apart in
      (
        _,
        record this { m_sz = add_size this.size_member this.m_sz (length (f ∷ ms)) },
        record other { m_sz = sub_size other.size_member other.m_sz (length (f ∷ ms)) },
        rw (behind_ne_at c next e' pre' (f ∷ ms) post' v'.forward)
            (rw start (rw (item_ne_at c e' pre' f ms post' v'.forward) (rw found refl))),
        record {
          forward = ring;
          count = subst (Counts this.size_member _) (sym (joined pre f ms post)) (
              add_size-Counts this.size_member this.m_sz (length (pre ++ post)) (length (f ∷ ms))
                v.count);
        },
        record {
          forward = ring';
          count =
              sub_size-Counts other.size_member other.m_sz (length (pre' ++ post'))
                (length (f ∷ ms))
                (subst (Counts other.size_member other.m_sz) (joined pre' f ms post') v'.count);
        },
      )
