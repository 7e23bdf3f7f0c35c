-- ===== src/Tailq/Range/Swap.antt =====
-- `swap_lists`: two lists exchange their items.
pub mod Links
pub mod Ring
use csd_mirror.Prelude.{
  ℕ, ◌%◌, ◌^◌, ◌<◌, ◌≡◌, refl, true, false, Option, some, List, [], ◌∷◌, ◌++◌, map, length, arith,
  has, Disjoint, ◌==◌, subst, sym, ap, ◌∙◌, Distinct, Distinct-middle, Distinct-Disjoint, has_front,
  has_back, ◌>>=◌,
}
use csd_mirror.Intrusive.{EntryRefCodec}
use csd_mirror.Tailq.Memory.{Memory, Head}
use csd_mirror.Tailq.Iterator.{begin, end, backward}
use csd_mirror.Tailq.Links.{Linked, last, starts, Linked-append, Linked-frame, Linked-split}
use csd_mirror.Tailq.Cycle.{Cycle}
use csd_mirror.Tailq.Relink.{run_end, starts-last}
use csd_mirror.Tailq.Valid.{IsRing, IsTailq, ItemsOk, item, items, entries, at, end_entry_eq}
use csd_mirror.Tailq.Walk.{begin-at, backward-at, before-append}
use mathlib.Core.List.{append-nil}
use csd_mirror.Tailq.Attach.{run_last}
use csd_mirror.Tailq.Range.Splice.{Separate}
use csd_mirror.Tailq.Range.{swap_links}
use csd_mirror.Tailq.Range.Swap.Links.{
  Ends, next_elsewhere, prev_elsewhere, this_items, this_empty, other_items, other_empty, first_of,
  last_of,
}
use csd_mirror.Tailq.Range.Swap.Ring.{
  IsRing-of_run, empty-IsRing, bounds, ne_of_has, ends_in, apart_ne, run_kept,
}
use csd_mirror.Intrusive.Size.{SizeMember, no_size, integral, set_size, Counts, Fits}
use csd_mirror.Tailq.Iterator.{size}
use csd_mirror.Tailq.Element.Access.{size_lem}
use csd_mirror.Tailq.Range.{swap_sizes, swap_lists}
use native.Mathlib.Nat.{mod-eq_of_lt}

module _ (c : EntryRefCodec) where
  module _ (m : Memory) (this other : Head) where
    this-IsRing :
        (xs ys : List ℕ)
        → IsRing c m this.end_entry xs
        → IsRing c m other.end_entry ys
        → Separate c this other xs ys
        → IsRing c (swap_links c m this other) this.end_entry ys
    this-IsRing xs [] v v' apart =
        let (a, f, l) = ends_in c m this xs v in
        let (b, f', l') = ends_in c m other [] v' in
        let e = end_entry_eq c other v' in
        let n = begin-at c other [] v' in
        let p = ap m.prev (sym e) ∙ backward-at c other [] [] v' in
        let ends =
          this_empty c m this other (apart_ne c this other xs [] _ _ apart a b).0
            (ap c.get_entry p ∙ e) (ap c.get_entry n ∙ e) in
        empty-IsRing c (swap_links c m this other) this v.end_ok ends.0 ends.1
    this-IsRing xs (g ∷ gs) v v' apart =
        let (a, f, l) = ends_in c m this xs v in
        let (b, f', l') = ends_in c m other (g ∷ gs) v' in
        let k = bounds c m other g gs v' in
        let ne = λ (x y : ℕ). apart_ne c this other xs (g ∷ gs) x y apart in
        let in_list = λ (x : ℕ). λ (n : has x (map c.get_entry (items c (g ∷ gs))) ≡ true).
          has_back x (c.get_entry (end c other) ∷ []) (map c.get_entry (items c (g ∷ gs))) n in
        let ne_last =
          ne_of_has _ other.end_entry (map c.get_entry (items c (g ∷ gs))) k.last_in k.end_out in
        let ne_first =
          ne_of_has _ other.end_entry (map c.get_entry (items c (g ∷ gs))) k.first_in k.end_out in
        let ends =
          this_items c m this other (ne _ _ a b).0 (ne _ _ l b).0 (ne _ _ f b).0
            (subst (λ w. (c.get_entry w == other.end_entry) ≡ false) (sym k.prev_eq) ne_last.0)
            (subst (λ w. (c.get_entry w == other.end_entry) ≡ false) (sym k.next_eq) ne_first.0)
            (ne _ _ a l').1 (ne _ _ a f').1 in
        let run =
          run_kept c m (swap_links c m this other) other g gs v'
            (λ x n n'.
              next_elsewhere c m this other x (ne _ x a (in_list x n)).1
                (ne_of_has x _ (map c.get_entry (items c (g ∷ gs))) n k.end_out).0
                (ne _ x l (in_list x n)).1 n')
            (λ x n n'.
              prev_elsewhere c m this other x (ne _ x a (in_list x n)).1
                (ne_of_has x _ (map c.get_entry (items c (g ∷ gs))) n k.end_out).0
                (ne _ x f (in_list x n)).1 n') in
        let out : has this.end_entry (map c.get_entry (items c (g ∷ gs))) ≡ false =
          ground (arith, apart this.end_entry a) in
        IsRing-of_run c (swap_links c m this other) this g gs v.end_ok v'.items_ok run
          v'.cycle.distinct.1 out
          (subst (Ends c (swap_links c m this other) this (item c g)) k.prev_eq (
            subst (λ w. Ends c (swap_links c m this other) this w (m.prev other.end_entry))
              k.next_eq ends))

    other-IsRing :
        (xs ys : List ℕ)
        → IsRing c m this.end_entry xs
        → IsRing c m other.end_entry ys
        → Separate c this other xs ys
        → IsRing c (swap_links c m this other) other.end_entry xs
    other-IsRing [] ys v v' apart =
        let (a, _, _) = ends_in c m this [] v in
        let (_, f', l') = ends_in c m other ys v' in
        let e = end_entry_eq c this v in
        let n = begin-at c this [] v in
        let p = ap m.prev (sym e) ∙ backward-at c this [] [] v in
        let ne = λ (x y : ℕ). apart_ne c this other [] ys x y apart in
        let ends =
          other_empty c m this other (ne _ _ a (ends_in c m other ys v').0).0 (ap c.get_entry p ∙ e)
            (ap c.get_entry n ∙ e) (ne _ _ a l').1 (ne _ _ a f').1 in
        empty-IsRing c (swap_links c m this other) other v'.end_ok ends.0 ends.1
    other-IsRing (g ∷ gs) ys v v' apart =
        let (a, f, l) = ends_in c m this (g ∷ gs) v in
        let (b, f', l') = ends_in c m other ys v' in
        let k = bounds c m this g gs v in
        let ne = λ (x y : ℕ). apart_ne c this other (g ∷ gs) ys x y apart in
        let in_list = λ (x : ℕ). λ (n : has x (map c.get_entry (items c (g ∷ gs))) ≡ true).
          has_back x (c.get_entry (end c this) ∷ []) (map c.get_entry (items c (g ∷ gs))) n in
        let ne_last =
          ne_of_has _ this.end_entry (map c.get_entry (items c (g ∷ gs))) k.last_in k.end_out in
        let ne_first =
          ne_of_has _ this.end_entry (map c.get_entry (items c (g ∷ gs))) k.first_in k.end_out in
        let ends =
          other_items c m this other (ne _ _ a b).0
            (subst (λ w. (c.get_entry w == this.end_entry) ≡ false) (sym k.prev_eq) ne_last.0)
            (subst (λ w. (c.get_entry w == this.end_entry) ≡ false) (sym k.next_eq) ne_first.0)
            (ne _ _ l b).0 (ne _ _ f b).0 (ne _ _ a l').1 (ne _ _ a f').1 (ne _ _ l l').0
            (ne _ _ f f').0 in
        let run =
          run_kept c m (swap_links c m this other) this g gs v
            (λ x n n'.
              next_elsewhere c m this other x
                (ne_of_has x _ (map c.get_entry (items c (g ∷ gs))) n k.end_out).0
                (ne x _ (in_list x n) b).0 n' (ne x _ (in_list x n) l').0)
            (λ x n n'.
              prev_elsewhere c m this other x
                (ne_of_has x _ (map c.get_entry (items c (g ∷ gs))) n k.end_out).0
                (ne x _ (in_list x n) b).0 n' (ne x _ (in_list x n) f').0) in
        let out : has other.end_entry (map c.get_entry (items c (g ∷ gs))) ≡ false =
          ground (arith, apart other.end_entry) in
        IsRing-of_run c (swap_links c m this other) other g gs v'.end_ok v.items_ok run
          v.cycle.distinct.1 out
          (subst (Ends c (swap_links c m this other) other (item c g)) k.prev_eq (
            subst (λ w. Ends c (swap_links c m this other) other w (m.prev this.end_entry))
              k.next_eq ends))

-- The sizes that are left, from what `size` gives for each list.
sizes_lem :
    (c : EntryRefCodec) (fuel : ℕ) (m : Memory) (a b : ℕ) (s s' : SizeMember) (sz sz' : ℕ)
    (n n' : ℕ)
    → let this : Head = record { end_entry = a; size_member = s; m_sz = sz } in
      let other : Head = record { end_entry = b; size_member = s'; m_sz = sz' } in
      Counts s sz n
      → Counts s' sz' n'
      → Fits s n
      → Fits s' n'
      → size c fuel m this ≡ some n
      → size c fuel m other ≡ some n'
      → (k k' : ℕ) × (swap_sizes c fuel m this other ≡ some (k, k'))
        × Counts s k n'
        × Counts s' k' n
unfolding swap_sizes set_size
sizes_lem c fuel m a b no_size no_size sz sz' n n' k k' fits fits' e e' = (sz, sz', refl, tt, tt)
sizes_lem c fuel m a b no_size (integral w') sz sz' n n' k k' fits fits' e e' =
    (sz, n % 2 ^ w', rw e refl, tt, refl)
sizes_lem c fuel m a b (integral w) no_size sz sz' n n' k k' fits fits' e e' =
    (n' % 2 ^ w, sz', rw e' refl, refl, tt)
sizes_lem c fuel m a b (integral w) (integral w') sz sz' n n' k k' fits fits' e e' = (
  sz' % 2 ^ w,
  sz % 2 ^ w',
  refl,
  ap (λ x. x % 2 ^ w) (k' ∙ mod-eq_of_lt fits'),
  ap (λ x. x % 2 ^ w') (k ∙ mod-eq_of_lt fits),
)

module _ (c : EntryRefCodec) where
  -- For two lists without common entries, each with a size member that can hold its length, and
  -- with more fuel than either has items, `swap_lists` gives a result: each list has the items of
  -- the other, its size member counts them, and the end entries stay where they are. Each list may
  -- be empty and may be without a size member.
  pub swap_lists_lem :
      (fuel : ℕ) (m : Memory) (this other : Head) (xs ys : List ℕ)
      → IsTailq c m this xs
      → IsTailq c m other ys
      → Separate c this other xs ys
      → length xs < fuel
      → length ys < fuel
      → Fits this.size_member (length xs)
      → Fits other.size_member (length ys)
      → (m' : Memory) × (this' : Head) × (other' : Head) × (swap_lists c fuel m this other
          ≡ some (m', this', other'))
        × IsTailq c m' this' ys
        × IsTailq c m' other' xs
        × (this'.end_entry ≡ this.end_entry)
        × (other'.end_entry ≡ other.end_entry)
  unfolding swap_lists
  swap_lists_lem fuel m this other xs ys v v' apart lt lt' fits fits' =
      let (sz, sz', eq, count, count') =
        sizes_lem c fuel m this.end_entry other.end_entry this.size_member other.size_member
          this.m_sz other.m_sz (length xs) (length ys) v.count v'.count fits fits'
          (size_lem c fuel m this xs v lt fits) (size_lem c fuel m other ys v' lt' fits') in
      (
        swap_links c m this other,
        record this { m_sz = sz },
        record other { m_sz = sz' },
        rw eq refl,
        record { ring = this-IsRing c m this other xs ys v.ring v'.ring apart; count = count },
        record { ring = other-IsRing c m this other xs ys v.ring v'.ring apart; count = count' },
        refl,
        refl,
      )
