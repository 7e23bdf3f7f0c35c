-- ===== src/Stailq/Erase.antt =====
-- `erase_after` of `Stailq`.
use csd_mirror.Prelude.{
  Distinct-remove, eq→==, if◌then◌else◌, ℕ, ◌≡◌, ◌≢◌, refl, false, List, [], ◌∷◌, ◌++◌, map, length,
  length-append, arith, Distinct, ◌==◌, sym, subst,
}
use mathlib.Core.List.{append-nil}
use csd_mirror.Intrusive.{EntryRefCodec}
use csd_mirror.Intrusive.Size.{Counts, sub_size, sub_size-Counts}
use csd_mirror.Tailq.Memory.{update}
use csd_mirror.Tailq.Cycle.{first}
use csd_mirror.Tailq.Valid.{
  item, items, ItemsOk, entries-append, items-append, ItemsOk-append, ItemsOk-split,
}
use csd_mirror.Chain.{Links}
use csd_mirror.Chain.Laws.{IsChain, IsChain-erase, IsChain-behind}
use csd_mirror.Stailq.Element.{Head, before_begin, erase_after}
use csd_mirror.Stailq.Laws.{IsStailq, after, after-append}

module _ (c : EntryRefCodec) where
  erase_eq :
      (next : Links) (h : Head) (pos x : ℕ)
      → next (c.get_entry pos) ≡ item c x
      → item c x ≢ 0
      → let follower = next (c.get_entry (item c x)) in
        erase_after c next h pos ≡ (
          update next (c.get_entry pos) follower,
          record h {
            encoded_tail = if follower == 0 then pos else h.encoded_tail;
            m_sz = sub_size h.size_member h.m_sz 1;
          },
          follower,
        )
  unfolding erase_after
  erase_eq next h pos x follows ne =
      let not_last : (next (c.get_entry pos) == 0) ≡ false = ground (arith, follows, ne) in
      rw not_last (rw follows (rw (eq→== (c.get_entry pos) (c.get_entry pos) refl) refl))

  tail-erase :
      (next : Links) (h : Head) (pre : List ℕ) (x : ℕ) (post : List ℕ)
      → h.encoded_tail ≡ after c h (pre ++ x ∷ post)
      → ItemsOk c post
      → IsChain c.get_entry next (item c x) (items c post)
      → (next (c.get_entry (item c x)) ≡ first c.get_entry 0 (items c post))
        × ((if next (c.get_entry (item c x)) == 0 then after c h pre else h.encoded_tail)
            ≡ after c h (pre ++ post))
  tail-erase next h pre x [] tail ok k = (k, rw (append-nil pre) (rw (eq→== _ 0 k) refl))
  tail-erase next h pre x (p ∷ ps) tail ok k =
      let before = after-append c h pre x (p ∷ ps) in
      let at_end = after-append c h pre p ps in
      (k.0, ground (arith, k.0, c.item-ne-null p ok.0, before, at_end, tail))

  -- `erase_after` at a position that an item follows takes that item out, counts it off, returns
  -- the iterator to what follows, which is null at the end, and keeps the tail that of the last
  -- item, or that of the head entry when none is left.
  pub erase_after_lem :
      (next : Links) (h : Head) (pre : List ℕ) (x : ℕ) (post : List ℕ)
      → IsStailq c next h (pre ++ x ∷ post)
      → let (next', h', it) = erase_after c next h (after c h pre) in
        IsStailq c next' h' (pre ++ post) × (it ≡ first c.get_entry 0 (items c post))
  unfolding erase_after
  erase_after_lem next h pre x post v =
      let (ok_pre, ok_post) = ItemsOk-split c pre (x ∷ post) v.items_ok in
      let (follows, k) =
        IsChain-behind c.get_entry next (before_begin c h) (items c pre) (item c x) (items c post) (
          subst (IsChain c.get_entry next (before_begin c h)) (items-append c pre (x ∷ post))
            v.chain) in
      let (it, tail) = tail-erase next h pre x post v.tail ok_post.1 k in
      rw (erase_eq next h (after c h pre) x follows (c.item-ne-null x ok_post.0)) (
        record {
          head_ok = v.head_ok;
          items_ok = ItemsOk-append c pre post ok_pre ok_post.1;
          chain =
              subst
                (IsChain c.get_entry
                  (update next (c.get_entry (after c h pre)) (next (c.get_entry (item c x))))
                  (before_begin c h))
                (sym (items-append c pre post))
                (IsChain-erase c.get_entry next (before_begin c h) (items c pre) (item c x)
                  (items c post)
                  (subst (IsChain c.get_entry next (before_begin c h))
                    (items-append c pre (x ∷ post)) v.chain)
                  (subst (λ l. Distinct (c.get_entry (before_begin c h) ∷ map c.get_entry l))
                    (items-append c pre (x ∷ post)) v.distinct));
          distinct =
              subst (λ es. Distinct (c.get_entry (before_begin c h) ∷ es))
                (sym (entries-append c pre post))
                (Distinct-remove (c.get_entry (before_begin c h) ∷ map c.get_entry (items c pre))
                  (c.get_entry (item c x) ∷ []) (map c.get_entry (items c post))
                  (subst (λ es. Distinct (c.get_entry (before_begin c h) ∷ es))
                    (entries-append c pre (x ∷ post)) v.distinct));
          tail = tail;
          count = sub_size-Counts h.size_member h.m_sz (length (pre ++ post)) 1 (
              subst (Counts h.size_member h.m_sz)
                (omega (arith, length-append {0} pre post, length-append {0} pre (x ∷ post)))
                v.count);
        },
        it,
      )
