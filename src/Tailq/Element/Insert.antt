-- ===== src/Tailq/Element/Insert.antt =====
-- `insert` puts one item in front of a position.
use csd_mirror.Prelude.{
  ℕ, ◌≡◌, refl, true, false, List, [], ◌∷◌, ◌++◌, length, length-append, arith, has, ◌==◌, subst,
}
use csd_mirror.Intrusive.{EntryRefCodec}
use csd_mirror.Intrusive.Size.{add_size, add_size-Counts, Counts}
use csd_mirror.Tailq.Memory.{Memory, Head}
use csd_mirror.Tailq.Relink.{LinksIn}
use csd_mirror.Tailq.Attach.{attach, Gap-at, outside_at, before}
use csd_mirror.Tailq.Valid.{IsTailq, entries, at, SameOutside}
use csd_mirror.Tailq.Element.{insert}

module _ (c : EntryRefCodec) (m : Memory) (h : Head) where
  insert_links :
      (a p value : ℕ)
      → m.prev (c.get_entry p) ≡ a
      → (c.get_entry (c.create_item_entry_ref value) == c.get_entry a) ≡ false
      → (c.get_entry (c.create_item_entry_ref value) == c.get_entry p) ≡ false
      → let w = c.create_item_entry_ref value in
        LinksIn c.get_entry m (insert c m h p value).0 a w w p
  unfolding insert
  insert_links a p value prev ne_a ne_p = record {
    next_before = ground arith;
    next_last = ground arith;
    prev_first = ground arith;
    prev_after = ground arith;
    next_same = λ x n1 n2. ground arith;
    prev_same = λ x n1 n2. ground arith;
  }

  -- `insert` of an item at an address that the codec accepts, whose entry is not in the list, puts
  -- it in front of the position, counts it, returns the iterator to it, and changes no link of an
  -- entry outside the resulting list.
  pub insert_lem :
      (pre post : List ℕ) (value : ℕ)
      → IsTailq c m h (pre ++ post)
      → c.item_ok value ≡ true
      → has (c.get_entry (c.create_item_entry_ref value)) (entries c h.end_entry (pre ++ post))
        ≡ false
      → let (m', h', it) = insert c m h (at c h post) value in
        IsTailq c m' h' (pre ++ value ∷ post)
        × (it ≡ at c h (value ∷ post))
        × SameOutside c (entries c h.end_entry (pre ++ value ∷ post)) m m'
  unfolding insert
  insert_lem pre post value v ok fresh =
      let gap = Gap-at c h pre post v.ring in
      let (ne_a, ne_p) =
        outside_at c h pre post (c.get_entry (c.create_item_entry_ref value)) fresh in
      let (ring, same) =
        attach c h pre value [] post v.ring
          (record {
            linked = tt;
            distinct = (refl, tt);
            apart = λ x n. ground arith;
            items_ok = (ok, tt);
          })
          (insert_links (before c h pre) (at c h post) value gap.edge.1 ne_a ne_p) in
      (
        record {
          ring = ring;
          count =
              subst (Counts h.size_member (add_size h.size_member h.m_sz 1))
                (omega (arith, length-append {0} pre post, length-append {0} pre (value ∷ post)))
                (add_size-Counts h.size_member h.m_sz (length (pre ++ post)) 1 v.count);
        },
        refl,
        same,
      )
