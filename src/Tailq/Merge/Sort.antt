-- ===== src/Tailq/Merge/Sort.antt =====
-- `merge_sort` and `sort`: the items of a range, which are sorted in their list.
use csd_mirror.Prelude.{
  inl, inr, Bool-cases, ℕ, zero, suc, ◌+◌, ◌-◌, ◌/◌, ◌<◌, ◌≤◌, ◌≡◌, refl, Bool, true, false, none,
  some, List, [], ◌∷◌, ◌++◌, length, length-append, arith, if◌then◌else◌, subst, sym, ap, ◌∙◌,
}
use mathlib.Core.List.{Perm, append_assoc}
use mathlib.Core.List.Perm
use csd_mirror.Intrusive.{EntryRefCodec}
use csd_mirror.Tailq.Memory.{Memory, Head}
use csd_mirror.Tailq.Valid.{IsRing, item, at, ItemsOk-split}
use csd_mirror.Tailq.Walk.{backward-item, IsRing-concat}
use csd_mirror.Tailq.Merge.{before_at, merge_loop, advance, merge_sort}
use csd_mirror.Tailq.Merge.Reference.{
  IsStrictWeakOrder, Ascending, Merged, Merged-length, Merged-Perm, Merged-first, Merged-Ascending,
}
use csd_mirror.Tailq.Merge.Lanes.{before_at-items, position, ordered}
use csd_mirror.Tailq.Merge.Loop.{merge_loop_lem}
use csd_mirror.Tailq.Merge.Parts.{Parts-move, lanes, part, advance_lem}

module _ {ℓ} {A : Type ℓ} (c : EntryRefCodec) (comp : A → A → Bool) (proj : ℕ → A) where
  abbrev less : ℕ → ℕ → Bool
  less = ordered comp proj

  -- The items `ys` are `xs` in order.
  pub record Sorts (xs ys : List ℕ) : Type ℓ where
    pub same_length : length ys ≡ length xs
    pub permuted : Perm xs ys
    pub ascending : IsStrictWeakOrder comp → Ascending less ys

  -- Sorting both parts and merging them sorts the whole.
  pub Sorts-Merged :
      {xs xs' ys ys' zs : List ℕ}
      → Sorts xs xs'
      → Sorts ys ys'
      → Merged less xs' ys' zs
      → Sorts (xs ++ ys) zs
  Sorts-Merged {xs} {xs'} {ys} {ys'} {zs} s t r = record {
    same_length =
        Merged-length less r ∙ omega (arith, s.same_length, t.same_length, length-append {0} xs ys);
    permuted = Perm.trans (Perm.append s.permuted t.permuted) (Merged-Perm less r);
    ascending = λ o.
        Merged-Ascending less (λ a b. o.asym (proj a) (proj b))
          (λ a b d. o.trans (proj a) (proj b) (proj d)) r (s.ascending o) (t.ascending o);
  }

  sort_eq :
      (depth fuel : ℕ) (m : Memory) (f1 e1 e2 n : ℕ) (m1 : Memory) (l : ℕ) (m2 : Memory) (r : ℕ)
      (m3 : Memory) (f : ℕ)
      → let k = suc (suc (suc n)) in
        advance c m f1 (k / 2) ≡ e1
        → merge_sort c comp proj depth fuel m f1 e1 (k / 2) ≡ some (m1, l)
        → merge_sort c comp proj depth fuel m1 e1 e2 (k - k / 2) ≡ some (m2, r)
        → merge_loop c comp proj fuel m2 none l r e2 ≡ some (m3, f)
        → merge_sort c comp proj (suc depth) fuel m f1 e2 k
          ≡ some (m3, if before_at c comp proj l r then l else r)
  unfolding merge_sort
  sort_eq depth fuel m f1 e1 e2 n m1 l m2 r m3 f start left right merged =
      rw start (rw left (rw right (rw merged refl)))

  module _ (h : Head) where
    abbrev pub SortResult : (depth fuel : ℕ) → Memory → (pre xs post : List ℕ) → (n : ℕ) → Type ℓ
    SortResult depth fuel m pre xs post n =
        (m' : Memory) × (ys : List ℕ) × (merge_sort c comp proj depth fuel m (at c h (xs ++ post))
            (at c h post) n
          ≡ some (m', at c h (ys ++ post)))
        × IsRing c m' h.end_entry (pre ++ (ys ++ post))
        × Sorts xs ys

    two-SortResult :
        (depth fuel : ℕ) (m : Memory) (pre : List ℕ) (x y : ℕ) (post : List ℕ)
        → IsRing c m h.end_entry (pre ++ (x ∷ y ∷ post))
        → SortResult depth fuel m pre (x ∷ y ∷ []) post 2
    unfolding merge_sort
    two-SortResult depth fuel m pre x y post v =
        let last =
          backward-item c h (pre ++ x ∷ []) y post (IsRing-concat c h pre x (y ∷ post) v) in
        let ok = (ItemsOk-split c pre (x ∷ y ∷ post) v.items_ok).1 in
        let value = before_at-items c comp proj x y ok.0 ok.1.0 in
        elim (Bool-cases (less x y)) [
          | inl lt ↦ (
            m,
            x ∷ y ∷ [],
            rw last (rw (value ∙ lt) refl),
            v,
            record {
              same_length = refl;
              permuted = Perm.refl (x ∷ y ∷ []);
              ascending = λ o. ((o.asym (proj x) (proj y) lt, tt), (tt, tt));
            },
          )
          | inr ge ↦ (
            _,
            y ∷ x ∷ [],
            rw last (rw (value ∙ ge) refl),
            subst (IsRing c _ h.end_entry) (append_assoc pre (y ∷ []) (x ∷ post))
                (Parts-move c h post m pre x [] y [] [] v),
            record {
              same_length = refl;
              permuted = Perm.swap y x [];
              ascending = λ o. ((ge, tt), (tt, tt));
            },
          )
        ]

    regroup :
        (pre zs xs ys post : List ℕ)
        → (pre ++ zs) ++ (xs ++ (ys ++ post)) ≡ pre ++ ((zs ++ (xs ++ ys)) ++ post)
    regroup pre zs xs ys post =
        append_assoc pre zs (xs ++ (ys ++ post))
        ∙ ap (λ l. pre ++ (zs ++ l)) (sym (append_assoc xs ys post))
        ∙ ap (λ l. pre ++ l) (sym (append_assoc zs (xs ++ ys) post))

    first_item :
        (first : Bool) (a b : ℕ) (zs ws post : List ℕ)
        → zs ≡ (if first then a else b) ∷ ws
        → (if first then item c a else item c b) ≡ at c h (zs ++ post)
    first_item true a b zs ws post eq = ap (λ l. at c h (l ++ post)) (sym eq)
    first_item false a b zs ws post eq = ap (λ l. at c h (l ++ post)) (sym eq)

    -- The merge of two sorted parts, neither of them empty.
    merge_parts :
        (fuel : ℕ) (m : Memory) (pre : List ℕ) (a : ℕ) (us : List ℕ) (b : ℕ) (vs post : List ℕ)
        → IsRing c m h.end_entry ((pre ++ a ∷ us) ++ (b ∷ vs ++ post))
        → length (a ∷ us) + length (b ∷ vs) < fuel
        → (m' : Memory) × (f : ℕ) × (zs : List ℕ) × (merge_loop c comp proj fuel m none
              (item c a)
              (item c b)
              (at c h post)
            ≡ some (m', f))
          × IsRing c m' h.end_entry (pre ++ (zs ++ post))
          × Merged less (a ∷ us) (b ∷ vs) zs
          × ((if before_at c comp proj (item c a) (item c b) then item c a else item c b)
              ≡ at c h (zs ++ post))
    unfolding lanes
    merge_parts fuel m pre a us b vs post v lt =
        let parts =
          subst (IsRing c m h.end_entry) (append_assoc pre (a ∷ us) (b ∷ (vs ++ post))) v in
        let (m', zs, xs', ys', merged, v', _, r) =
          merge_loop_lem c comp proj none (at c h post) (lanes c h post) fuel m pre (a ∷ us)
            (b ∷ vs) parts lt in
        let (ws, first_eq) = Merged-first less r in
        let ok = ItemsOk-split c pre (a ∷ (us ++ (b ∷ (vs ++ post)))) parts.items_ok in
        let ok' = ItemsOk-split c (a ∷ us) (b ∷ (vs ++ post)) ok.1 in
        let value = before_at-items c comp proj a b ok.1.0 ok'.1.0 in
        (
          m',
          position c (at c h post) ys',
          zs ++ (xs' ++ ys'),
          merged,
          subst (IsRing c m' h.end_entry) (regroup pre zs xs' ys' post) v',
          r,
          ap (λ t. if t then item c a else item c b) value
              ∙ first_item (less a b) a b (zs ++ (xs' ++ ys')) ws post first_eq,
        )

    -- Both halves are sorted, and merged.
    join-SortResult :
        (depth fuel : ℕ) (m : Memory) (pre xs ys post : List ℕ) (n : ℕ)
        → let k = suc (suc (suc n)) in
          length xs ≡ k / 2
          → length ys ≡ k - k / 2
          → k < fuel
          → IsRing c m h.end_entry (pre ++ (xs ++ (ys ++ post)))
          → (l : SortResult depth fuel m pre xs (ys ++ post) (k / 2))
          → SortResult depth fuel l.0 (pre ++ l.1) ys post (k - k / 2)
          → SortResult (suc depth) fuel m pre (xs ++ ys) post k
    join-SortResult depth fuel m pre xs ys post n len len' lt v (m1, [], left, v1, s) r =
        let none_left = s.same_length in absurd (omega arith)
    join-SortResult depth fuel m pre xs ys post n len len' lt v (m1, a ∷ us, left, v1, s)
          (m2, [], right, v2, t) =
        let none_left = t.same_length in absurd (omega arith)
    join-SortResult depth fuel m pre xs ys post n len len' lt v (m1, a ∷ us, left, v1, s)
          (m2, b ∷ vs, right, v2, t) =
        let same = s.same_length in
        let same' = t.same_length in
        let (m3, f, zs, merged, v3, r, first_eq) =
          merge_parts fuel m2 pre a us b vs post v2 (omega arith) in
        let start =
          subst (λ k. advance c m (at c h (xs ++ (ys ++ post))) k ≡ at c h (ys ++ post)) len
            (advance_lem c h m pre xs (ys ++ post) v) in
        (
          m3,
          zs,
          ap
                (λ l.
                  merge_sort c comp proj (suc depth) fuel m (at c h l) (at c h post)
                    (suc (suc (suc n))))
                (append_assoc xs ys post)
              ∙ sort_eq depth fuel m _ _ (at c h post) n m1 (item c a) m2 (item c b) m3 f start left
                  right merged
              ∙ ap (λ i. some (m3, i)) first_eq,
          v3,
          Sorts-Merged s t r,
        )

    small-SortResult :
        (depth fuel : ℕ) (m : Memory) (pre xs post : List ℕ) (n : ℕ)
        → length xs ≡ n
        → n ≤ 2
        → IsRing c m h.end_entry (pre ++ (xs ++ post))
        → SortResult depth fuel m pre xs post n
    unfolding merge_sort
    small-SortResult depth fuel m pre [] post zero len le v = (
      m,
      [],
      refl,
      v,
      record { same_length = refl; permuted = Perm.refl []; ascending = λ o. tt },
    )
    small-SortResult depth fuel m pre (x ∷ []) post (suc zero) len le v = (
      m,
      x ∷ [],
      refl,
      v,
      record { same_length = refl; permuted = Perm.refl (x ∷ []); ascending = λ o. (tt, tt) },
    )
    small-SortResult depth fuel m pre (x ∷ y ∷ []) post (suc (suc zero)) len le v =
        two-SortResult depth fuel m pre x y post v
    small-SortResult depth fuel m pre xs post n len le v = absurd (omega arith)

    -- A range of `n` items is sorted with fuel for `n` rounds of a loop and for a depth of `n - 2`.
    pub merge_sort_lem :
        (depth fuel : ℕ) (m : Memory) (pre xs post : List ℕ) (n : ℕ)
        → length xs ≡ n
        → n ≤ suc (suc depth)
        → n < fuel
        → IsRing c m h.end_entry (pre ++ (xs ++ post))
        → SortResult depth fuel m pre xs post n
    merge_sort_lem depth fuel m pre xs post zero len le lt v =
        small-SortResult depth fuel m pre xs post 0 len (omega arith) v
    merge_sort_lem depth fuel m pre xs post (suc zero) len le lt v =
        small-SortResult depth fuel m pre xs post 1 len (omega arith) v
    merge_sort_lem depth fuel m pre xs post (suc (suc zero)) len le lt v =
        small-SortResult depth fuel m pre xs post 2 len (omega arith) v
    merge_sort_lem zero fuel m pre xs post (suc (suc (suc n))) len le lt v = absurd (omega arith)
    merge_sort_lem (suc depth) fuel m pre xs post (suc (suc (suc n))) len le lt v =
        let (us, vs, eq, us_len) = part (suc (suc (suc n)) / 2) xs (omega arith) in
        let len' = subst (λ l. length l ≡ suc (suc (suc n))) eq len in
        let vs_len : length vs ≡ suc (suc (suc n)) - suc (suc (suc n)) / 2 =
          omega (arith, length-append {0} us vs) in
        let v' : IsRing c m h.end_entry (pre ++ (us ++ (vs ++ post))) =
          subst (IsRing c m h.end_entry)
            (ap (λ l. pre ++ (l ++ post)) eq ∙ ap (λ l. pre ++ l) (append_assoc us vs post)) v in
        let left : SortResult depth fuel m pre us (vs ++ post) (suc (suc (suc n)) / 2) =
          merge_sort_lem depth fuel m pre us (vs ++ post) (suc (suc (suc n)) / 2) us_len
            (omega arith) (omega arith) v' in
        let right =
          merge_sort_lem depth fuel left.0 (pre ++ left.1) vs post _ vs_len (omega arith)
            (omega arith)
            (subst (IsRing c left.0 h.end_entry) (sym (append_assoc pre left.1 (vs ++ post)))
              left.3) in
        subst (λ l. SortResult (suc depth) fuel m pre l post (suc (suc (suc n)))) (sym eq)
          (join-SortResult depth fuel m pre us vs post n us_len vs_len lt v' left right)
