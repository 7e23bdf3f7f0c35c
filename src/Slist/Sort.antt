-- ===== src/Slist/Sort.antt =====
-- `sort` of `Slist`.
use csd_mirror.Prelude.{ℕ, ◌<◌, ◌≡◌, refl, Bool, some, List, [], ◌∷◌, length, arith, subst, sym}
use mathlib.Core.List.{Perm, append-nil}
use mathlib.Core.List.Perm
use csd_mirror.Intrusive.{EntryRefCodec}
use csd_mirror.Intrusive.Size.{Counts, Fits}
use csd_mirror.Tailq.Merge.Reference.{IsStrictWeakOrder, Ascending}
use csd_mirror.Tailq.Merge.Lanes.{ordered}
use csd_mirror.Tailq.Merge.Sort.{Sorts}
use csd_mirror.Chain.{Links, forward_list_merge_sort}
use csd_mirror.Chain.Forward.{IsForward}
use csd_mirror.Chain.Sort.{forward_list_merge_sort_lem}
use csd_mirror.Slist.Element.{Head}
use csd_mirror.Slist.Range.{insert_range_after, sort}
use csd_mirror.Slist.Laws.{IsSlist, size_after_lem}

module _ {ℓ} {A : Type ℓ} (c : EntryRefCodec) (comp : A → A → Bool) (proj : ℕ → A) where
  sort-Sorts :
      (fuel : ℕ) (next : Links) (h : Head) (xs : List ℕ)
      → IsSlist c next h xs
      → length xs < fuel
      → Fits h.size_member (length xs)
      → (next' : Links) × (ys : List ℕ) × (sort c proj comp fuel next h ≡ some next')
        × IsSlist c next' h ys
        × Sorts c comp proj xs ys
  unfolding sort insert_range_after forward_list_merge_sort
  sort-Sorts fuel next h [] v lt fits = (
    next,
    [],
    rw (size_after_lem c fuel next h [] v lt fits) refl,
    v,
    record { same_length = refl; permuted = Perm.refl []; ascending = λ o. tt },
  )
  sort-Sorts fuel next h (x ∷ xs) v lt fits =
      let none_behind = append-nil (x ∷ xs) in
      let (next', ys, eq, done, s) =
        forward_list_merge_sort_lem c h.head_entry comp proj (insert_range_after c)
          (λ next pos first last. refl) (length (x ∷ xs)) fuel next [] (x ∷ xs) [] (length (x ∷ xs))
          refl (omega arith) (omega arith) lt
          (subst (IsForward c next h.head_entry) (sym none_behind) v.forward) in
      (
        next',
        ys,
        rw (size_after_lem c fuel next h (x ∷ xs) v lt fits) (rw eq refl),
        record {
          forward = subst (IsForward c next' h.head_entry) (append-nil ys) done;
          count = subst (Counts h.size_member h.m_sz) (sym s.same_length) v.count;
        },
        s,
      )

  -- For a comparison that is a strict weak order, more fuel than there are items, and a length that
  -- the size member can hold, `sort` of a singly linked list gives a result: a list of a
  -- permutation of the items in which no item is ordered before an earlier one.
  pub sort_after-Ascending :
      (fuel : ℕ) (next : Links) (h : Head) (xs : List ℕ)
      → IsStrictWeakOrder comp
      → IsSlist c next h xs
      → length xs < fuel
      → Fits h.size_member (length xs)
      → (next' : Links) × (ys : List ℕ) × (sort c proj comp fuel next h ≡ some next')
        × IsSlist c next' h ys
        × Perm xs ys
        × Ascending (ordered comp proj) ys
  sort_after-Ascending fuel next h xs o v lt fits =
      let (next', ys, eq, w, s) = sort-Sorts fuel next h xs v lt fits in
      (next', ys, eq, w, s.permuted, s.ascending o)
