-- ===== src/Tailq/Range/Transfer.antt =====
-- The three forms of `splice`, in what they do to both lists and to both size members.
use csd_mirror.Prelude.{
  ℕ, ◌+◌, ◌-◌, ◌^◌, ◌<◌, ◌≡◌, refl, some, List, [], ◌∷◌, ◌++◌, length, subst, sym, ap, ◌∙◌, eq→==,
}
use mathlib.Core.List.{append-nil}
use native.Mathlib.Nat.{mod-eq_of_lt, zero-mod}
use csd_mirror.Intrusive.{EntryRefCodec}
use csd_mirror.Intrusive.Size.{
  SizeMember, no_size, integral, add_size, set_size, Counts, Fits, add_size-Counts,
}
use csd_mirror.Tailq.Memory.{Memory, Head}
use csd_mirror.Tailq.Difference.{size_width}
use csd_mirror.Tailq.Iterator.{backward, size, begin, end}
use csd_mirror.Tailq.Walk.{backward-at, before-append, begin-at}
use csd_mirror.Tailq.Valid.{IsRing, IsTailq, at, item}
use csd_mirror.Tailq.Element.Access.{empty_lem, size_lem}
use csd_mirror.Tailq.Range.{
  remove_range, insert_range, counted_size, splice, splice_range, splice_from,
}
use csd_mirror.Tailq.Range.Splice.{Separate, move_run, splice_items, length_joined}

module _ (c : EntryRefCodec) (fuel : ℕ) (m : Memory) (this other : Head) (pre post : List ℕ) where
  -- For two lists without common entries, more fuel than the range has items, and a length of the
  -- range that the difference type of the other list can hold, `splice(pos, other, first, last)`
  -- gives a result: this list has the items of the range in front of `pos`, the other has the items
  -- outside the range, and both size members count their items.
  pub splice_range_lem :
      (pre' mid post' : List ℕ)
      → IsTailq c m this (pre ++ post)
      → IsTailq c m other (pre' ++ (mid ++ post'))
      → Separate c this other (pre ++ post) (pre' ++ (mid ++ post'))
      → length mid < fuel
      → length mid < 2 ^ (size_width other.size_member - 1)
      → (m' : Memory) × (this' : Head) × (other' : Head) × (splice_range c fuel m this other
            (at c this post)
            (at c other (mid ++ post'))
            (at c other post')
          ≡ some (m', this', other'))
        × IsTailq c m' this' (pre ++ (mid ++ post))
        × IsTailq c m' other' (pre' ++ post')
  unfolding splice_range
  splice_range_lem pre' [] post' v v' apart lt held =
      (m, this, other, rw (eq→== (at c other post') (at c other post') refl), v, v')
  splice_range_lem pre' (f ∷ ms) post' v v' apart lt held =
      splice_items c m this other pre post f ms pre' post' fuel v v' apart lt held

  -- For two lists without common entries, more fuel than there are items from `it` on, and a number
  -- of them that the difference type of the other list can hold, `splice(pos, other, it)` gives a
  -- result: the items of the other list from `it` on are in front of `pos` in this one, those before
  -- `it` stay, and both size members count their items.
  pub splice_from_lem :
      (pre' mid : List ℕ)
      → IsTailq c m this (pre ++ post)
      → IsTailq c m other (pre' ++ mid)
      → Separate c this other (pre ++ post) (pre' ++ mid)
      → length mid < fuel
      → length mid < 2 ^ (size_width other.size_member - 1)
      → (m' : Memory) × (this' : Head) × (other' : Head) × (splice_from c fuel m this other
            (at c this post)
            (at c other mid)
          ≡ some (m', this', other'))
        × IsTailq c m' this' (pre ++ (mid ++ post))
        × IsTailq c m' other' pre'
  unfolding splice_from
  splice_from_lem pre' mid v v' apart lt held =
      let same = ap (λ l. pre' ++ l) (sym (append-nil mid)) in
      let (m', this', other', eq, w, w') =
        splice_range_lem pre' mid [] v (subst (IsTailq c m other) same v')
          (subst (Separate c this other (pre ++ post)) same apart) lt held in
      (
        m',
        this',
        other',
        subst
            (λ l.
              splice_range c fuel m this other (at c this post) (at c other l) (end c other)
              ≡ some (m', this', other'))
            (append-nil mid) eq,
        w,
        subst (IsTailq c m' other') (append-nil pre') w',
      )

  -- What the size member grows by, where the size of the other list is known.
  pub counted_size-Counts :
      (s : SizeMember) (n : ℕ)
      → size c fuel m other ≡ some n
      → (k : ℕ) × (counted_size c s fuel m other ≡ some k)
        × ((sz j : ℕ) → Counts s sz j → Counts s (add_size s sz k) (j + n))
  unfolding counted_size add_size
  counted_size-Counts no_size n e = (0, refl, λ sz j h. tt)
  counted_size-Counts (integral w) n e = (n, e, λ sz j h. add_size-Counts (integral w) sz j n h)

  -- All items of the other list are moved.
  pub move_all :
      (f : ℕ) (ms : List ℕ)
      → IsRing c m this.end_entry (pre ++ post)
      → IsRing c m other.end_entry (f ∷ ms)
      → Separate c this other (pre ++ post) (f ∷ ms)
      → let last = backward c m (end c other) in
        let m' =
          insert_range c (remove_range c m (item c f) last) (at c this post) (item c f) last in
        IsRing c m' this.end_entry (pre ++ ((f ∷ ms) ++ post)) × IsRing c m' other.end_entry []
  move_all f ms v v' apart =
      let same = sym (append-nil (f ∷ ms)) in
      let last_eq =
        backward-at c other (f ∷ ms) [] (subst (IsRing c m other.end_entry) same v')
        ∙ before-append c other [] f ms in
      let moved =
        move_run c m this other pre post f ms [] [] v (subst (IsRing c m other.end_entry) same v')
          (subst (Separate c this other (pre ++ post)) same apart) in
      rw last_eq moved

  -- The links of `splice(pos, other)`, of a list that is not empty.
  splice_links :
      (f : ℕ) (ms : List ℕ)
      → IsRing c m this.end_entry (pre ++ post)
      → IsRing c m other.end_entry (f ∷ ms)
      → Separate c this other (pre ++ post) (f ∷ ms)
      → let first = begin c m other in
        let last = backward c m (end c other) in
        let m' = insert_range c (remove_range c m first last) (at c this post) first last in
        IsRing c m' this.end_entry (pre ++ ((f ∷ ms) ++ post)) × IsRing c m' other.end_entry []
  splice_links f ms v v' apart = rw (begin-at c other (f ∷ ms) v') (move_all f ms v v' apart)

  -- For two lists without common entries, of which the other has no size member, and more fuel than
  -- it has items, `splice(pos, other)` gives a result: all its items are in front of `pos` in this
  -- list, whose size member counts them, and the other list is empty.
  pub splice_lem :
      (ys : List ℕ)
      → IsTailq c m this (pre ++ post)
      → IsTailq c m other ys
      → Separate c this other (pre ++ post) ys
      → length ys < fuel
      → other.size_member ≡ no_size
      → (m' : Memory) × (this' : Head) × (other' : Head) × (splice c fuel m this other
            (at c this post)
          ≡ some (m', this', other'))
        × IsTailq c m' this' (pre ++ (ys ++ post))
        × IsTailq c m' other' []
  unfolding splice
  splice_lem [] v v' apart lt none = (m, this, other, rw (empty_lem c m other [] v') refl, v, v')
  splice_lem (f ∷ ms) v v' apart lt none =
      let (ring, ring') = splice_links f ms v.ring v'.ring apart in
      let (k, eq, count) = counted_size-Counts this.size_member (length (f ∷ ms)) (
        size_lem c fuel m other (f ∷ ms) v' lt
          (subst (λ s. Fits s (length (f ∷ ms))) (sym none) tt)) in
      (
        _,
        record this { m_sz = add_size this.size_member this.m_sz k },
        other,
        rw (empty_lem c m other (f ∷ ms) v') (rw eq (rw none refl)),
        record {
          ring = ring;
          count =
              subst (Counts this.size_member _)
                (sym (length_joined c m this other pre post f ms [] []))
                (count this.m_sz (length (pre ++ post)) v.count);
        },
        record { ring = ring'; count = subst (λ s. Counts s other.m_sz 0) (sym none) tt },
      )

  -- Where two lists without common entries both have integral size members, `splice(pos, other)` of
  -- a list that is not empty, whose length its size member can hold, moves its items in front of
  -- `pos`, but leaves 0 in the size member of this list, and in the size member of the other, now
  -- empty list the number of the items that it had.
  pub splice-sizes_wrong :
      (f : ℕ) (ms : List ℕ) (w w' : ℕ)
      → IsTailq c m this (pre ++ post)
      → IsTailq c m other (f ∷ ms)
      → Separate c this other (pre ++ post) (f ∷ ms)
      → this.size_member ≡ integral w
      → other.size_member ≡ integral w'
      → length (f ∷ ms) < 2 ^ w'
      → (m' : Memory) × (this' : Head) × (splice c fuel m this other (at c this post)
          ≡ some (m', this', other))
        × IsRing c m' this.end_entry (pre ++ ((f ∷ ms) ++ post))
        × IsRing c m' other.end_entry []
        × (this'.m_sz ≡ 0)
        × (other.m_sz ≡ length (f ∷ ms))
  unfolding splice counted_size set_size size
  splice-sizes_wrong f ms w w' v v' apart eq eq' fits =
      let (ring, ring') = splice_links f ms v.ring v'.ring apart in
      let stored : other.m_sz ≡ length (f ∷ ms) =
        subst (λ s. Counts s other.m_sz (length (f ∷ ms))) eq' v'.count ∙ mod-eq_of_lt fits in
      (
        _,
        record this { m_sz = 0 },
        rw (empty_lem c m other (f ∷ ms) v') (rw eq (rw eq' (rw (zero-mod (2 ^ w)) refl))),
        ring,
        ring',
        refl,
        stored,
      )
