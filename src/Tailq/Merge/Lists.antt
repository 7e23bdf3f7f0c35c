-- ===== src/Tailq/Merge/Lists.antt =====
-- `merge`: all items of another list are merged into this one.
use csd_mirror.Prelude.{
  inl, inr, ℕ, ◌+◌, ◌<◌, ◌≡◌, ◌⊎◌, refl, Bool, false, some, List, [], ◌∷◌, ◌++◌, length, arith,
  ◌==◌, eq→==, subst, sym, ap, ◌∙◌,
}
use mathlib.Core.List.{append_assoc, append-nil}
use csd_mirror.Intrusive.{EntryRefCodec}
use csd_mirror.Intrusive.Size.{Counts, Fits, add_size, set_size, set_size-Counts}
use csd_mirror.Tailq.Memory.{Memory, Head}
use csd_mirror.Tailq.Iterator.{begin, end, backward}
use csd_mirror.Tailq.Attach.{run_last}
use csd_mirror.Tailq.Valid.{IsRing, IsTailq, item, at, ItemsOk-split, end_entry_eq}
use csd_mirror.Tailq.Walk.{begin-at, forward-item, IsRing-concat}
use csd_mirror.Tailq.Element.Access.{size_lem}
use csd_mirror.Tailq.Range.{insert_range, remove_range, counted_size}
use csd_mirror.Tailq.Range.Links.{remove_range_lem}
use csd_mirror.Tailq.Range.Splice.{Separate, move_run, rest_apart_joined}
use csd_mirror.Tailq.Range.Transfer.{move_all, counted_size-Counts}
use csd_mirror.Tailq.Scan.Kept.{item_ne_end}
use csd_mirror.Tailq.Merge.{stop_at, merge_loop, merge, merge_rest}
use csd_mirror.Tailq.Merge.Reference.{Merged, Merged-length}
use csd_mirror.Tailq.Merge.Lanes.{Lanes, position, ordered}
use csd_mirror.Tailq.Merge.Loop.{merge_loop_lem}

pub position-at : (c : EntryRefCodec) (h : Head) (xs : List ℕ) → position c (end c h) xs ≡ at c h xs
position-at c h [] = refl
position-at c h (x ∷ xs) = refl

module _ (c : EntryRefCodec) (this other : Head) where
  -- Two lists without common entries, of which `pre` and `xs`, and `ys`, are the items.
  abbrev Apart : Memory → (pre xs ys : List ℕ) → Type 0
  Apart m pre xs ys =
      IsRing c m this.end_entry (pre ++ xs)
      × IsRing c m other.end_entry ys
      × Separate c this other (pre ++ xs) ys

  Apart-move :
      (m : Memory) (pre : List ℕ) (x : ℕ) (xs : List ℕ) (y : ℕ) (taken rest : List ℕ)
      → Apart m pre (x ∷ xs) ((y ∷ taken) ++ rest)
      → Apart
          (insert_range c
            (remove_range c m (item c y) (run_last c y taken))
            (item c x)
            (item c y)
            (run_last c y taken))
          (pre ++ (y ∷ taken))
          (x ∷ xs)
          rest
  Apart-move m pre x xs y taken rest (v, v', apart) =
      let (ring, ring') = move_run c m this other pre (x ∷ xs) y taken [] rest v v' apart in
      let (_, run, _, _) = remove_range_lem c m other [] y taken rest v' in
      let same = sym (append_assoc pre (y ∷ taken) (x ∷ xs)) in
      let free = rest_apart_joined c m this other pre (x ∷ xs) y taken [] rest apart run.apart in
      (
        subst (IsRing c _ this.end_entry) same ring,
        ring',
        subst (λ l. Separate c this other l rest) same (λ a h. ground (arith, free a)),
      )

  lanes : Lanes c (some (end c this)) (end c other)
  unfolding stop_at
  lanes = record {
    State = Apart;
    front_ok = λ m pre x xs ys (v, _, _). (ItemsOk-split c pre (x ∷ xs) v.items_ok).1.0;
    front_ne = λ m pre x xs ys (v, _, _). item_ne_end c m this pre x xs v;
    front_forward =
        λ m pre x xs ys (v, _, _). forward-item c this pre x xs v ∙ sym (position-at c this xs);
    back_ok = λ m pre xs mid y ys (_, v, _). (ItemsOk-split c mid (y ∷ ys) v.items_ok).1.0;
    back_ne = λ m pre xs mid y ys (_, v, _). item_ne_end c m other mid y ys v;
    back_forward = λ m pre xs mid y ys (_, v, _).
        forward-item c other mid y ys v ∙ sym (position-at c other ys);
    keep = λ m pre x xs ys (v, v', apart). (
      IsRing-concat c this pre x xs v,
      v',
      subst (λ l. Separate c this other l ys) (sym (append_assoc pre (x ∷ []) xs)) apart,
    );
    move = Apart-move;
  }

  -- The heads that are left.
  abbrev this_after : ℕ → Head
  this_after n = record this { m_sz = add_size this.size_member this.m_sz n }

  abbrev other_after : Head
  other_after = record other { m_sz = set_size other.size_member other.m_sz 0 }

  different :
      (xs ys : List ℕ) (m : Memory)
      → IsRing c m this.end_entry xs
      → IsRing c m other.end_entry ys
      → Separate c this other xs ys
      → (this.end_entry == other.end_entry) ≡ false
  different xs ys m v v' apart =
      let e = end_entry_eq c this v in
      let e' = end_entry_eq c other v' in
      let free = apart this.end_entry (ground (arith, eq→== this.end_entry _ (sym e))) in
      subst (λ a. (this.end_entry == a) ≡ false) e' (ground (arith, free))

  module _ {ℓ} {A : Type ℓ} (comp : A → A → Bool) (proj : ℕ → A) where
    merge_rest-rings :
        (m : Memory) (zs xs' ys' : List ℕ)
        → Apart m zs xs' ys'
        → ((xs' ≡ []) ⊎ (ys' ≡ []))
        → let m' = merge_rest c m this other (position c (end c other) ys') in
          IsRing c m' this.end_entry (zs ++ (xs' ++ ys')) × IsRing c m' other.end_entry []
    unfolding merge_rest
    merge_rest-rings m zs xs' [] (v, v', apart) used =
        let stays : merge_rest c m this other (end c other) ≡ m =
          ground (arith, eq→== (end c other) (end c other) refl) in
        let same = ap (λ l. zs ++ l) (sym (append-nil xs')) in
        rw stays (subst (IsRing c m this.end_entry) same v, v')
    merge_rest-rings m zs (x ∷ xs') (y ∷ ys') (v, v', apart) (inl used) = absurd cc
    merge_rest-rings m zs xs' (y ∷ ys') (v, v', apart) (inr used) = absurd cc
    merge_rest-rings m zs [] (y ∷ ys') (v, v', apart) (inl used) =
        let e2 = backward c m (end c other) in
        let moves : merge_rest c m this other (item c y)
            ≡ insert_range c (remove_range c m (item c y) e2) (end c this) (item c y) e2 =
          ground (arith, item_ne_end c m other [] y ys' v') in
        let (ring, ring') = move_all c 0 m this other zs [] y ys' v v' apart in
        rw moves
          (subst (IsRing c _ this.end_entry) (ap (λ l. zs ++ l) (append-nil (y ∷ ys'))) ring, ring')

    merge_eq :
        (fuel : ℕ) (m m' : Memory) (n f2 : ℕ)
        → (this.end_entry == other.end_entry) ≡ false
        → counted_size c this.size_member fuel m other ≡ some n
        → merge_loop c comp proj fuel m
            (some (end c this))
            (begin c m this)
            (begin c m other)
            (end c other)
          ≡ some (m', f2)
        → merge c comp proj fuel m this other
          ≡ some (merge_rest c m' this other f2, this_after n, other_after)
    unfolding merge
    merge_eq fuel m m' n f2 ne counted looped = rw ne (rw counted (rw looped refl))

    -- For two lists without common entries, of which the other's size fits its size member, and
    -- more fuel than both have items together, `merge` gives a result: this list holds what the
    -- reference relation `Merged` makes of the two sequences, the other is empty, and both size
    -- members count their items.
    pub merge-Merged :
        (fuel : ℕ) (m : Memory) (xs ys : List ℕ)
        → IsTailq c m this xs
        → IsTailq c m other ys
        → Separate c this other xs ys
        → length xs + length ys < fuel
        → Fits other.size_member (length ys)
        → (m' : Memory) × (this' : Head) × (other' : Head) × (zs : List ℕ) × (merge c comp proj fuel
              m this other
            ≡ some (m', this', other'))
          × IsTailq c m' this' zs
          × IsTailq c m' other' []
          × Merged (ordered comp proj) xs ys zs
    unfolding stop_at lanes
    merge-Merged fuel m xs ys v v' apart lt fits =
        let (n, counted, count) =
          counted_size-Counts c fuel m this other [] [] this.size_member (length ys)
            (size_lem c fuel m other ys v' (omega arith) fits) in
        let (m', zs, xs', ys', looped, left, used, r) =
          merge_loop_lem c comp proj (some (end c this)) (end c other) lanes fuel m [] xs ys
            (v.ring, v'.ring, apart) lt in
        let begin_this = begin-at c this xs v.ring ∙ sym (position-at c this xs) in
        let begin_other = begin-at c other ys v'.ring ∙ sym (position-at c other ys) in
        let (ring, ring') = merge_rest-rings m' zs xs' ys' left used in
        (
          merge_rest c m' this other (position c (end c other) ys'),
          this_after n,
          other_after,
          zs ++ (xs' ++ ys'),
          merge_eq fuel m m' n _ (different xs ys m v.ring v'.ring apart) counted
              (rw (begin_this, begin_other) looped),
          record {
            ring = ring;
            count =
                subst (Counts this.size_member _) (sym (Merged-length (ordered comp proj) r))
                  (count this.m_sz (length xs) v.count);
          },
          record { ring = ring'; count = set_size-Counts other.size_member other.m_sz 0 },
          r,
        )
