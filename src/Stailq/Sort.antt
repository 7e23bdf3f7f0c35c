-- ===== src/Stailq/Sort.antt =====
-- `sort` of `Stailq`.
use csd_mirror.Prelude.{ℕ, ◌<◌, ◌≡◌, refl, Bool, some, List, [], ◌∷◌, length, arith, subst, sym}
use mathlib.Core.List.{Perm, append-nil}
use csd_mirror.Intrusive.{EntryRefCodec}
use csd_mirror.Intrusive.Size.{Counts, Fits}
use csd_mirror.Tailq.Merge.Reference.{IsStrictWeakOrder, Ascending}
use csd_mirror.Tailq.Merge.Lanes.{ordered}
use csd_mirror.Chain.{Links}
use csd_mirror.Chain.Forward.{IsForward}
use csd_mirror.Chain.Sort.{forward_list_merge_sort_lem}
use csd_mirror.Stailq.Element.{Head}
use csd_mirror.Stailq.Range.{insert_range_after, sort}
use csd_mirror.Stailq.Laws.{IsStailq, queue_size, queue_of, forward_of, after}

module _ {ℓ} {A : Type ℓ} (c : EntryRefCodec) (comp : A → A → Bool) (proj : ℕ → A) where
  -- For a comparison that is a strict weak order, a queue that has an item, more fuel than there
  -- are items, and a length that the size member can hold, `sort` of a singly linked tail queue
  -- gives a result: a queue of a permutation of the items in which no item is ordered before an
  -- earlier one, whose tail is the last of them.
  pub queue_sort-Ascending :
      (fuel : ℕ) (next : Links) (h : Head) (x : ℕ) (xs : List ℕ)
      → IsStrictWeakOrder comp
      → IsStailq c next h (x ∷ xs)
      → length (x ∷ xs) < fuel
      → Fits h.size_member (length (x ∷ xs))
      → (next' : Links) × (h' : Head) × (ys : List ℕ) × (sort c proj comp fuel next h
          ≡ some (next', h'))
        × IsStailq c next' h' ys
        × Perm (x ∷ xs) ys
        × Ascending (ordered comp proj) ys
  unfolding sort insert_range_after
  queue_sort-Ascending fuel next h x xs o v lt fits =
      let none_behind = append-nil (x ∷ xs) in
      let (next', ys, eq, done, s) =
        forward_list_merge_sort_lem c h.head_entry comp proj (insert_range_after c)
          (λ next pos first last. refl) (length (x ∷ xs)) fuel next [] (x ∷ xs) [] (length (x ∷ xs))
          refl (omega arith) (omega arith) lt
          (subst (IsForward c next h.head_entry) (sym none_behind) (forward_of c v)) in
      (
        next',
        record h { encoded_tail = after c h ys },
        ys,
        rw (queue_size c fuel next h (x ∷ xs) v lt fits) (rw eq refl),
        queue_of c (subst (IsForward c next' h.head_entry) (append-nil ys) done) refl
            (subst (Counts h.size_member h.m_sz) (sym s.same_length) v.count),
        s.permuted,
        s.ascending o,
      )
