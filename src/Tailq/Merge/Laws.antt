-- ===== src/Tailq/Merge/Laws.antt =====
-- What `merge` and `sort` promise of the items.
use csd_mirror.Prelude.{
  [], ℕ, ◌+◌, ◌<◌, ◌≡◌, refl, Bool, some, List, ◌++◌, length, arith, subst, sym, ap, ◌∙◌,
}
use mathlib.Core.List.{Perm, append-nil}
use csd_mirror.Intrusive.{EntryRefCodec}
use csd_mirror.Intrusive.Size.{Fits, Counts}
use csd_mirror.Tailq.Memory.{Memory, Head}
use csd_mirror.Tailq.Valid.{IsRing, IsTailq, at}
use csd_mirror.Tailq.Walk.{begin-at}
use csd_mirror.Tailq.Element.Access.{size_lem}
use csd_mirror.Tailq.Range.Splice.{Separate}
use csd_mirror.Tailq.Merge.{merge, sort}
use csd_mirror.Tailq.Merge.Reference.{IsStrictWeakOrder, Ascending, Merged-Perm, Merged-Ascending}
use csd_mirror.Tailq.Merge.Lanes.{ordered}
use csd_mirror.Tailq.Merge.Lists.{merge-Merged}
use csd_mirror.Tailq.Merge.Sort.{Sorts, merge_sort_lem}

module _ {ℓ} {A : Type ℓ} (c : EntryRefCodec) (comp : A → A → Bool) (proj : ℕ → A) where
  -- For a comparison that is a strict weak order, and two lists without common entries in each of
  -- which no item is ordered before an earlier one, where the other's size fits its size member and
  -- there is more fuel than both have items together, `merge` gives a result: this list holds a
  -- permutation of all items in which no item is ordered before an earlier one, and the other is
  -- empty.
  pub merge-Ascending :
      (fuel : ℕ) (m : Memory) (this other : Head) (xs ys : List ℕ)
      → IsStrictWeakOrder comp
      → IsTailq c m this xs
      → IsTailq c m other ys
      → Separate c this other xs ys
      → length xs + length ys < fuel
      → Fits other.size_member (length ys)
      → Ascending (ordered comp proj) xs
      → Ascending (ordered comp proj) ys
      → (m' : Memory) × (this' : Head) × (other' : Head) × (zs : List ℕ) × (merge c comp proj fuel m
            this other
          ≡ some (m', this', other'))
        × IsTailq c m' this' zs
        × IsTailq c m' other' []
        × Perm (xs ++ ys) zs
        × Ascending (ordered comp proj) zs
  merge-Ascending fuel m this other xs ys o v v' apart lt fits sorted sorted' =
      let (m', this', other', zs, eq, w, w', r) =
        merge-Merged c this other comp proj fuel m xs ys v v' apart lt fits in
      (
        m',
        this',
        other',
        zs,
        eq,
        w,
        w',
        Merged-Perm (ordered comp proj) r,
        Merged-Ascending (ordered comp proj) (λ a b. o.asym (proj a) (proj b))
            (λ a b d. o.trans (proj a) (proj b) (proj d)) r sorted sorted',
      )

  sort-Sorts :
      (fuel : ℕ) (m : Memory) (h : Head) (xs : List ℕ)
      → IsTailq c m h xs
      → length xs < fuel
      → Fits h.size_member (length xs)
      → (m' : Memory) × (ys : List ℕ) × (sort c comp proj fuel m h ≡ some m')
        × IsTailq c m' h ys
        × Sorts c comp proj xs ys
  unfolding sort
  sort-Sorts fuel m h xs v lt fits =
      let none_behind = append-nil xs in
      let (m', ys, eq, ring, s) =
        merge_sort_lem c comp proj h (length xs) fuel m [] xs [] (length xs) refl (omega arith) lt
          (subst (IsRing c m h.end_entry) (sym none_behind) v.ring) in
      let start = begin-at c h xs v.ring ∙ ap (at c h) (sym none_behind) in
      (
        m',
        ys,
        rw (size_lem c fuel m h xs v lt fits) (rw start (rw eq refl)),
        record {
          ring = subst (IsRing c m' h.end_entry) (append-nil ys) ring;
          count = subst (Counts h.size_member h.m_sz) (sym s.same_length) v.count;
        },
        s,
      )

  -- For any comparison, even one that is no order, with more fuel than there are items and a length
  -- that the size member can hold, `sort` gives a result, and the list holds a permutation of its
  -- items.
  pub sort-Perm :
      (fuel : ℕ) (m : Memory) (h : Head) (xs : List ℕ)
      → IsTailq c m h xs
      → length xs < fuel
      → Fits h.size_member (length xs)
      → (m' : Memory) × (ys : List ℕ) × (sort c comp proj fuel m h ≡ some m')
        × IsTailq c m' h ys
        × Perm xs ys
  sort-Perm fuel m h xs v lt fits =
      let (m', ys, eq, w, s) = sort-Sorts fuel m h xs v lt fits in (m', ys, eq, w, s.permuted)

  -- For a comparison that is a strict weak order, more fuel than there are items, and a length that
  -- the size member can hold, `sort` gives a result: a list of a permutation of the items in which
  -- no item is ordered before an earlier one.
  pub sort-Ascending :
      (fuel : ℕ) (m : Memory) (h : Head) (xs : List ℕ)
      → IsStrictWeakOrder comp
      → IsTailq c m h xs
      → length xs < fuel
      → Fits h.size_member (length xs)
      → (m' : Memory) × (ys : List ℕ) × (sort c comp proj fuel m h ≡ some m')
        × IsTailq c m' h ys
        × Perm xs ys
        × Ascending (ordered comp proj) ys
  sort-Ascending fuel m h xs o v lt fits =
      let (m', ys, eq, w, s) = sort-Sorts fuel m h xs v lt fits in
      (m', ys, eq, w, s.permuted, s.ascending o)
