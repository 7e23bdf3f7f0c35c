-- ===== src/Chain/Sort.antt =====
-- `forward_list_merge_sort`: the items of a range, which are sorted in their list.
use csd_mirror.Prelude.{
  inl, inr, Bool-cases, ℕ, zero, suc, ◌+◌, ◌-◌, ◌/◌, ◌<◌, ◌≤◌, ◌≡◌, refl, Bool, true, Option, some,
  List, [], ◌∷◌, ◌++◌, length, length-append, arith, has, subst, sym, ap, ◌∙◌,
}
use mathlib.Core.List.{append_assoc}
use mathlib.Core.List.Perm
use csd_mirror.Intrusive.{EntryRefCodec}
use csd_mirror.Tailq.Links.{last}
use csd_mirror.Tailq.Valid.{ItemsOk-split}
use csd_mirror.Tailq.Merge.Reference.{Merged, Merged-has, Merged-length}
use csd_mirror.Tailq.Merge.Lanes.{ordered}
use csd_mirror.Tailq.Merge.Parts.{part}
use csd_mirror.Tailq.Merge.Sort.{Sorts, Sorts-Merged}
use csd_mirror.Chain.{Links, forward, advance, last_position, merge_ranges, forward_list_merge_sort}
use csd_mirror.Chain.Forward.{IsForward, at, behind, behind-append, forward-behind, forward-item}
use csd_mirror.Chain.Ends.{last-has, last-items, advance-behind, last_position_lem}
use csd_mirror.Chain.Ranges.{linked_in}
use csd_mirror.Chain.Scan.{before_at-items}
use csd_mirror.Chain.Merge.{merge_ranges_lem}
use csd_mirror.Chain.Exchange.{exchanged, swapped}

module _ {ℓ} {A : Type ℓ} (c : EntryRefCodec) (e : ℕ) (comp : A → A → Bool) (proj : ℕ → A)
    (insert_range_after : Links → (pos first last : ℕ) → Links × ℕ)
    (insert_eq : (next : Links) (pos first last : ℕ)
      → (insert_range_after next pos first last).0 ≡ linked_in c e next pos first last) where
  abbrev less : ℕ → ℕ → Bool
  less = ordered comp proj

  abbrev list_sort : (depth fuel : ℕ) → Links → (p1 e2 n : ℕ) → Option (Links × ℕ)
  list_sort = forward_list_merge_sort c comp proj insert_range_after

  abbrev pub SortResult : (depth fuel : ℕ) → Links → (pre xs post : List ℕ) → (n : ℕ) → Type ℓ
  SortResult depth fuel next pre xs post n =
      (next' : Links) × (ys : List ℕ) × (list_sort depth fuel next (behind c e pre) (at c post) n
        ≡ some (next', behind c e (pre ++ ys)))
      × IsForward c next' e (pre ++ (ys ++ post))
      × Sorts c comp proj xs ys

  sort_eq :
      (depth fuel : ℕ) (next : Links) (p1 p2 e2 n : ℕ) (next1 : Links) (l : ℕ) (next2 : Links)
      (r : ℕ) (next3 : Links) (p : ℕ)
      → let k = suc (suc (suc n)) in
        advance c next p1 (k / 2) ≡ p2
        → list_sort depth fuel next p1 (forward c next p2) (k / 2) ≡ some (next1, l)
        → list_sort depth fuel next1 l e2 (k - k / 2) ≡ some (next2, r)
        → merge_ranges c comp proj insert_range_after fuel next2 p1 l
            (forward c next2 p1)
            (forward c next2 l)
            e2
          ≡ some next3
        → last_position c fuel next3 l r e2 ≡ some p
        → list_sort (suc depth) fuel next p1 e2 k ≡ some (next3, p)
  unfolding forward_list_merge_sort
  sort_eq depth fuel next p1 p2 e2 n next1 l next2 r next3 p start left right merged at_last =
      rw start (rw left (rw right (rw merged (rw at_last refl))))

  one-SortResult :
      (depth fuel : ℕ) (next : Links) (pre : List ℕ) (x : ℕ) (post : List ℕ)
      → IsForward c next e (pre ++ (x ∷ post))
      → SortResult depth fuel next pre (x ∷ []) post 1
  unfolding forward_list_merge_sort
  one-SortResult depth fuel next pre x post v = (
    next,
    x ∷ [],
    ap (λ i. some (next, i))
        (forward-behind c e pre (x ∷ post) v ∙ sym (behind-append c e pre x [])),
    v,
    record { same_length = refl; permuted = Perm.refl (x ∷ []); ascending = λ o. (tt, tt) },
  )

  two-SortResult :
      (depth fuel : ℕ) (next : Links) (pre : List ℕ) (x y : ℕ) (post : List ℕ)
      → IsForward c next e (pre ++ (x ∷ y ∷ post))
      → SortResult depth fuel next pre (x ∷ y ∷ []) post 2
  unfolding forward_list_merge_sort
  two-SortResult depth fuel next pre x y post v =
      let ok = (ItemsOk-split c pre (x ∷ y ∷ post) v.items_ok).1 in
      let value = before_at-items c e comp proj x y ok.0 ok.1.0 in
      let first = forward-behind c e pre (x ∷ y ∷ post) v in
      let second = forward-item c e pre x (y ∷ post) v in
      elim (Bool-cases (less x y)) [
        | inl lt ↦ (
          next,
          x ∷ y ∷ [],
          rw first (
              rw second (
                rw (value ∙ lt)
                  (ap (λ i. some (next, i)) (sym (behind-append c e pre x (y ∷ [])))))),
          v,
          record {
            same_length = refl;
            permuted = Perm.refl (x ∷ y ∷ []);
            ascending = λ o. ((o.asym (proj x) (proj y) lt, tt), (tt, tt));
          },
        )
        | inr ge ↦ (
          exchanged c e next pre x y post,
          y ∷ x ∷ [],
          rw first (
              rw second (
                rw (value ∙ ge) (
                  ap (λ i. some (exchanged c e next pre x y post, i))
                    (sym (behind-append c e pre y (x ∷ [])))))),
          swapped c e next pre x y post v,
          record {
            same_length = refl;
            permuted = Perm.swap y x [];
            ascending = λ o. ((ge, tt), (tt, tt));
          },
        )
      ]

  -- The items `zs` that two sorted parts make have the last items of both.
  end_has :
      (us vs zs : List ℕ) (a b : ℕ)
      → Merged less (a ∷ us) (b ∷ vs) zs
      → (has (last (λ x. x) a us) zs ≡ true) × (has (last (λ x. x) b vs) zs ≡ true)
  end_has us vs zs a b r =
      let left = last-has a us in
      let right = last-has b vs in
      (
        ground (arith, Merged-has less (last (λ x. x) a us) r),
        ground (arith, Merged-has less (last (λ x. x) b vs) r),
      )

  -- The merge of two sorted parts, neither of them empty, and the search for its end.
  merge_parts :
      (fuel : ℕ) (next : Links) (pre : List ℕ) (a : ℕ) (us : List ℕ) (b : ℕ) (vs post : List ℕ)
      → IsForward c next e ((pre ++ a ∷ us) ++ (b ∷ vs ++ post))
      → length (a ∷ us) + length (b ∷ vs) < fuel
      → let l = behind c e (pre ++ a ∷ us) in
        let r = behind c e ((pre ++ a ∷ us) ++ b ∷ vs) in
        (next' : Links) × (zs : List ℕ) × (merge_ranges c comp proj insert_range_after fuel next
            (behind c e pre)
            l
            (forward c next (behind c e pre))
            (forward c next l)
            (at c post)
          ≡ some next')
        × (last_position c fuel next' l r (at c post) ≡ some (behind c e (pre ++ zs)))
        × IsForward c next' e (pre ++ (zs ++ post))
        × Merged less (a ∷ us) (b ∷ vs) zs
  merge_parts fuel next pre a us b vs post v lt =
      let v' = subst (IsForward c next e) (append_assoc pre (a ∷ us) (b ∷ (vs ++ post))) v in
      let (next', zs, merged, done, r) =
        merge_ranges_lem c e comp proj insert_range_after insert_eq post fuel next pre (a ∷ us)
          (b ∷ vs) v' lt in
      let (has_u, has_v) = end_has us vs zs a b r in
      let first = forward-behind c e pre (a ∷ (us ++ (b ∷ (vs ++ post)))) v' in
      let second = forward-behind c e (pre ++ a ∷ us) (b ∷ (vs ++ post)) v in
      let l_eq = behind-append c e pre a us ∙ last-items c a us in
      let r_eq = behind-append c e (pre ++ a ∷ us) b vs ∙ last-items c b vs in
      (
        next',
        zs,
        rw (first, second) merged,
        rw (l_eq, r_eq)
            (last_position_lem c e fuel next' pre zs post (last (λ x. x) a us) (last (λ x. x) b vs)
              done (omega (arith, Merged-length less r)) has_u has_v),
        done,
        r,
      )

  -- Both halves are sorted, and merged.
  join-SortResult :
      (depth fuel : ℕ) (next : Links) (pre xs ys post : List ℕ) (n : ℕ)
      → let k = suc (suc (suc n)) in
        length xs ≡ k / 2
        → length ys ≡ k - k / 2
        → k < fuel
        → IsForward c next e (pre ++ (xs ++ (ys ++ post)))
        → (l : SortResult depth fuel next pre xs (ys ++ post) (k / 2))
        → SortResult depth fuel l.0 (pre ++ l.1) ys post (k - k / 2)
        → SortResult (suc depth) fuel next pre (xs ++ ys) post k
  join-SortResult depth fuel next pre xs ys post n len len' lt v (next1, [], left, v1, s) r =
      let none_left = s.same_length in absurd (omega arith)
  join-SortResult depth fuel next pre xs ys post n len len' lt v (next1, a ∷ us, left, v1, s)
        (next2, [], right, v2, t) =
      let none_left = t.same_length in absurd (omega arith)
  join-SortResult depth fuel next pre xs ys post n len len' lt v (next1, a ∷ us, left, v1, s)
        (next2, b ∷ vs, right, v2, t) =
      let same = s.same_length in
      let same' = t.same_length in
      let (next3, zs, merged, at_last, done, r) =
        merge_parts fuel next2 pre a us b vs post v2 (omega arith) in
      let start =
        subst (λ k. advance c next (behind c e pre) k ≡ behind c e (pre ++ xs)) len
          (advance-behind c e next pre xs (ys ++ post) v) in
      let follows =
        forward-behind c e (pre ++ xs) (ys ++ post)
          (subst (IsForward c next e) (sym (append_assoc pre xs (ys ++ post))) v) in
      (
        next3,
        zs,
        sort_eq depth fuel next _ _ (at c post) n next1 _ next2 _ next3 _ start
            (ap (λ i. list_sort depth fuel next (behind c e pre) i (suc (suc (suc n)) / 2)) follows
              ∙ left)
            right merged at_last,
        done,
        Sorts-Merged c comp proj s t r,
      )

  small-SortResult :
      (depth fuel : ℕ) (next : Links) (pre xs post : List ℕ) (n : ℕ)
      → length xs ≡ n
      → 0 < n
      → n ≤ 2
      → IsForward c next e (pre ++ (xs ++ post))
      → SortResult depth fuel next pre xs post n
  small-SortResult depth fuel next pre (x ∷ []) post (suc zero) len some_left le v =
      one-SortResult depth fuel next pre x post v
  small-SortResult depth fuel next pre (x ∷ y ∷ []) post (suc (suc zero)) len some_left le v =
      two-SortResult depth fuel next pre x y post v
  small-SortResult depth fuel next pre xs post n len some_left le v = absurd (omega arith)

  -- A range of `n` items, at least one, is sorted with fuel for `n` rounds of a loop and for a
  -- depth of `n - 2`.
  pub forward_list_merge_sort_lem :
      (depth fuel : ℕ) (next : Links) (pre xs post : List ℕ) (n : ℕ)
      → length xs ≡ n
      → 0 < n
      → n ≤ suc (suc depth)
      → n < fuel
      → IsForward c next e (pre ++ (xs ++ post))
      → SortResult depth fuel next pre xs post n
  forward_list_merge_sort_lem depth fuel next pre xs post zero len some_left le lt v =
      absurd (omega arith)
  forward_list_merge_sort_lem depth fuel next pre xs post (suc zero) len some_left le lt v =
      small-SortResult depth fuel next pre xs post 1 len some_left (omega arith) v
  forward_list_merge_sort_lem depth fuel next pre xs post (suc (suc zero)) len some_left le lt v =
      small-SortResult depth fuel next pre xs post 2 len some_left (omega arith) v
  forward_list_merge_sort_lem zero fuel next pre xs post (suc (suc (suc n))) len some_left le lt v =
      absurd (omega arith)
  forward_list_merge_sort_lem (suc depth) fuel next pre xs post (suc (suc (suc n))) len some_left le
        lt v =
      let (us, vs, eq, us_len) = part (suc (suc (suc n)) / 2) xs (omega arith) in
      let len' = subst (λ l. length l ≡ suc (suc (suc n))) eq len in
      let vs_len : length vs ≡ suc (suc (suc n)) - suc (suc (suc n)) / 2 =
        omega (arith, length-append {0} us vs) in
      let v' : IsForward c next e (pre ++ (us ++ (vs ++ post))) =
        subst (IsForward c next e)
          (ap (λ l. pre ++ (l ++ post)) eq ∙ ap (λ l. pre ++ l) (append_assoc us vs post)) v in
      let left : SortResult depth fuel next pre us (vs ++ post) (suc (suc (suc n)) / 2) =
        forward_list_merge_sort_lem depth fuel next pre us (vs ++ post) (suc (suc (suc n)) / 2)
          us_len (omega arith) (omega arith) (omega arith) v' in
      let right =
        forward_list_merge_sort_lem depth fuel left.0 (pre ++ left.1) vs post _ vs_len (omega arith)
          (omega arith) (omega arith)
          (subst (IsForward c left.0 e) (sym (append_assoc pre left.1 (vs ++ post))) left.3) in
      subst (λ l. SortResult (suc depth) fuel next pre l post (suc (suc (suc n)))) (sym eq)
        (join-SortResult depth fuel next pre us vs post n us_len vs_len lt v' left right)
