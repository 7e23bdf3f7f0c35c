-- ===== src/Slist/Changes.antt =====
-- `insert_after` and `erase_after` of one item of `Slist`.
use csd_mirror.Prelude.{
  ℕ, ◌+◌, ◌≡◌, refl, true, false, List, [], ◌∷◌, ◌++◌, length, length-append, arith, has, one_apart,
  eq→==, ◌==◌, subst, sym, ap, ◌∙◌,
}
use csd_mirror.Intrusive.{EntryRefCodec}
use csd_mirror.Intrusive.Size.{Counts, sub_size, add_size-Counts, sub_size-Counts}
use csd_mirror.Tailq.Memory.{update}
use csd_mirror.Tailq.Valid.{item, entries, ItemsOk-split}
use csd_mirror.Chain.{Links}
use csd_mirror.Chain.Forward.{
  at, behind, behind-append, forward-behind, forward-item, item_not_null,
}
use csd_mirror.Chain.Ranges.{IsRun, cut, link_in}
use csd_mirror.Slist.Element.{Head, insert_after, erase_after}
use csd_mirror.Slist.Laws.{IsSlist}

module _ (c : EntryRefCodec) (next : Links) (h : Head) (pre : List ℕ) (x : ℕ) (post : List ℕ) where
  one_more : length (pre ++ x ∷ post) ≡ length (pre ++ post) + 1
  one_more = omega (arith, length-append {0} pre post, length-append {0} pre (x ∷ post))

  -- `insert_after` of an item at an address that the codec accepts, whose entry is not in the
  -- singly linked list, puts it behind the position, counts it, and returns the iterator to it.
  pub slist_insert_after_lem :
      IsSlist c next h (pre ++ post)
      → c.item_ok x ≡ true
      → has (c.get_entry (c.create_item_entry_ref x)) (entries c h.head_entry (pre ++ post)) ≡ false
      → let (next', h', it) = insert_after c next h (behind c h.head_entry pre) x in
        IsSlist c next' h' (pre ++ x ∷ post) × (it ≡ behind c h.head_entry (pre ++ x ∷ []))
  unfolding insert_after
  slist_insert_after_lem v ok fresh =
      let run : IsRun c h.head_entry next x [] (pre ++ post) = record {
        linked = tt;
        distinct = (refl, tt);
        apart = one_apart (c.get_entry (item c x)) (entries c h.head_entry (pre ++ post)) fresh;
        items_ok = (ok, tt);
      } in
      (
        record {
          forward = link_in c h.head_entry next pre x [] post v.forward run;
          count =
              subst (Counts h.size_member _) (sym one_more)
                (add_size-Counts h.size_member h.m_sz (length (pre ++ post)) 1 v.count);
        },
        sym (behind-append c h.head_entry pre x []),
      )

  -- `erase_after` at a position of a singly linked list that an item follows takes that item out,
  -- counts it off, and returns the iterator to what follows, which is null at the end.
  pub slist_erase_after_lem :
      IsSlist c next h (pre ++ x ∷ post)
      → let (next', h', it) = erase_after c next h (behind c h.head_entry pre) in
        IsSlist c next' h' (pre ++ post) × (it ≡ at c post)
  unfolding erase_after
  slist_erase_after_lem v =
      let e = h.head_entry in
      let ok = (ItemsOk-split c pre (x ∷ post) v.forward.items_ok).1.0 in
      let p = c.get_entry (behind c e pre) in
      let follows = forward-behind c e pre (x ∷ post) v.forward in
      let then_follows = forward-item c e pre x post v.forward in
      let not_last : (next p == 0) ≡ false = ap (λ w. w == 0) follows ∙ item_not_null c x ok in
      let erased : erase_after c next h (behind c e pre) ≡ (
        update next p (at c post),
        record h { m_sz = sub_size h.size_member h.m_sz 1 },
        at c post,
      ) =
        rw not_last (rw follows (rw then_follows (rw (eq→== p p refl) refl))) in
      rw erased (
        record {
          forward = cut c e next pre (x ∷ []) post v.forward;
          count =
              sub_size-Counts h.size_member h.m_sz (length (pre ++ post)) 1
                (subst (Counts h.size_member h.m_sz) one_more v.count);
        },
        refl,
      )
