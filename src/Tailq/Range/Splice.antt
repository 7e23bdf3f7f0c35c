-- ===== src/Tailq/Range/Splice.antt =====
-- `splice`: items of another list are moved into this one.
use csd_mirror.Prelude.{
  ℕ, ◌+◌, ◌-◌, ◌^◌, ◌<◌, ◌≡◌, refl, some, List, ◌∷◌, ◌++◌, map, length, length-append, arith,
  Disjoint, subst, sym, ◌∙◌,
}
use csd_mirror.Intrusive.{EntryRefCodec}
use csd_mirror.Intrusive.Size.{add_size, sub_size, Counts}
use csd_mirror.Tailq.Memory.{Memory, Head}
use csd_mirror.Tailq.Difference.{size_width}
use csd_mirror.Tailq.Attach.{run_last, IsRun}
use csd_mirror.Tailq.Frame.{IsRing-frame}
use csd_mirror.Tailq.Walk.{backward-at, before-append, item_ne_at, IsRing-append, distance_lem}
use csd_mirror.Tailq.Valid.{IsRing, IsTailq, item, items, entries, at, not_has_parts, not_has_join}
use csd_mirror.Tailq.Range.{remove_range, insert_range, splice_range}
use csd_mirror.Tailq.Range.Links.{remove_range_lem, insert_range_lem}
use csd_mirror.Tailq.Range.Erase.{counted_distance-Counts, added_distance-Counts}

-- The two lists have no entry in common.
abbrev pub Separate : EntryRefCodec → (this other : Head) → (xs ys : List ℕ) → Type 0
Separate c this other xs ys = Disjoint (entries c this.end_entry xs) (entries c other.end_entry ys)

-- The items from `f` on, which `ms` follow, are moved from between `pre'` and `post'` of the other
-- list to between `pre` and `post` of this one.
module _ (c : EntryRefCodec) (m : Memory) (this other : Head) (pre post : List ℕ) (f : ℕ)
    (ms pre' post' : List ℕ) where
  -- The entries of the moved items are not this list's.
  pub run_apart_this :
      Separate c this other (pre ++ post) (pre' ++ ((f ∷ ms) ++ post'))
      → Disjoint (map c.get_entry (items c (f ∷ ms))) (entries c this.end_entry (pre ++ post))
  run_apart_this apart x n =
      ground (arith, apart x, not_has_parts c other.end_entry pre' (f ∷ ms) post' x)

  -- The entries that stay in the other list are not those of this one afterwards.
  pub rest_apart_joined :
      Separate c this other (pre ++ post) (pre' ++ ((f ∷ ms) ++ post'))
      → Disjoint (map c.get_entry (items c (f ∷ ms))) (entries c other.end_entry (pre' ++ post'))
      → Disjoint
          (entries c other.end_entry (pre' ++ post'))
          (entries c this.end_entry (pre ++ ((f ∷ ms) ++ post)))
  rest_apart_joined apart run x n =
      not_has_join c this.end_entry pre (f ∷ ms) post x
        (ground (arith, apart x, not_has_parts c other.end_entry pre' (f ∷ ms) post' x))
        (ground (arith, run x))

  pub move_run :
      IsRing c m this.end_entry (pre ++ post)
      → IsRing c m other.end_entry (pre' ++ ((f ∷ ms) ++ post'))
      → Separate c this other (pre ++ post) (pre' ++ ((f ∷ ms) ++ post'))
      → let m1 = remove_range c m (item c f) (run_last c f ms) in
        let m' = insert_range c m1 (at c this post) (item c f) (run_last c f ms) in
        IsRing c m' this.end_entry (pre ++ ((f ∷ ms) ++ post))
        × IsRing c m' other.end_entry (pre' ++ post')
  move_run v v' apart =
      let m1 = remove_range c m (item c f) (run_last c f ms) in
      let (ring', run, _, same) = remove_range_lem c m other pre' f ms post' v' in
      let ring =
        IsRing-frame c {m' = m1} this.end_entry (pre ++ post) v
          (λ x n. same x (not_has_parts c other.end_entry pre' (f ∷ ms) post' x (apart x n)).0) in
      let moved : IsRun c m1 this.end_entry f ms (pre ++ post) = record {
        linked = run.linked;
        distinct = run.distinct;
        apart = run_apart_this apart;
        items_ok = run.items_ok;
      } in
      let (ring2, same2) = insert_range_lem c m1 this pre f ms post ring moved in
      (
        ring2,
        IsRing-frame c other.end_entry (pre' ++ post') ring'
            (λ x n. same2 x (rest_apart_joined apart run.apart x n)),
      )

  -- The lengths of the two lists, before and after.
  pub length_joined : length (pre ++ ((f ∷ ms) ++ post)) ≡ length (pre ++ post) + length (f ∷ ms)
  length_joined = omega (
    arith,
    length-append {0} pre post,
    length-append {0} pre (f ∷ (ms ++ post)),
    length-append {0} ms post,
  )

  length_left : length (pre' ++ ((f ∷ ms) ++ post')) ≡ length (pre' ++ post') + length (f ∷ ms)
  length_left = omega (
    arith,
    length-append {0} pre' post',
    length-append {0} pre' (f ∷ (ms ++ post')),
    length-append {0} ms post',
  )

  -- `splice(pos, other, first, last)` with a range that is not empty.
  pub splice_items :
      (fuel : ℕ)
      → IsTailq c m this (pre ++ post)
      → IsTailq c m other (pre' ++ ((f ∷ ms) ++ post'))
      → Separate c this other (pre ++ post) (pre' ++ ((f ∷ ms) ++ post'))
      → length (f ∷ ms) < fuel
      → length (f ∷ ms) < 2 ^ (size_width other.size_member - 1)
      → (m' : Memory) × (this' : Head) × (other' : Head) × (splice_range c fuel m this other
            (at c this post)
            (item c f)
            (at c other post')
          ≡ some (m', this', other'))
        × IsTailq c m' this' (pre ++ ((f ∷ ms) ++ post))
        × IsTailq c m' other' (pre' ++ post')
  unfolding splice_range
  splice_items fuel v v' apart lt held =
      let (ring, ring') = move_run v.ring v'.ring apart in
      let steps = distance_lem c other fuel pre' (f ∷ ms) post' lt v'.ring in
      let (n, eq, count) =
        added_distance-Counts c other.size_member this.size_member fuel m (item c f)
          (at c other post') _ steps held in
      let (n', eq', count') =
        counted_distance-Counts c other.size_member fuel m (item c f) (at c other post') _ steps in
      let last_eq =
        backward-at c other (pre' ++ f ∷ ms) post'
          (IsRing-append c other pre' (f ∷ ms) post' v'.ring)
        ∙ before-append c other pre' f ms in
      (
        _,
        record this { m_sz = add_size this.size_member this.m_sz n },
        record other { m_sz = sub_size other.size_member other.m_sz n' },
        rw (item_ne_at c other pre' f ms post' v'.ring) (rw eq (rw eq' (rw last_eq refl))),
        record {
          ring = ring;
          count =
              subst (Counts this.size_member _) (sym length_joined)
                (count this.m_sz (length (pre ++ post)) v.count);
        },
        record {
          ring = ring';
          count =
              count' other.m_sz (length (pre' ++ post'))
                (subst (Counts other.size_member other.m_sz) length_left v'.count);
        },
      )
