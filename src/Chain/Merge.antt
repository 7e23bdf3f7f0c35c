-- ===== src/Chain/Merge.antt =====
-- The merge step of `forward_list_merge_sort`: two neighbouring parts of a list.
use csd_mirror.Prelude.{
  inl, inr, Bool-cases, ℕ, zero, suc, ◌+◌, ◌<◌, ◌≡◌, refl, Bool, true, false, ◌||◌, Option, some,
  List, [], ◌∷◌, ◌++◌, length, length-append, arith, ◌==◌, eq→==, subst, sym, ap, ◌∙◌,
}
use mathlib.Core.List.{append_assoc}
use csd_mirror.Intrusive.{EntryRefCodec}
use csd_mirror.Tailq.Memory.{update}
use csd_mirror.Tailq.Links.{last}
use csd_mirror.Tailq.Valid.{item, items, ItemsOk-split}
use csd_mirror.Tailq.Scan.Kept.{AllHold, Stops, split}
use csd_mirror.Tailq.Merge.Reference.{Merged}
use csd_mirror.Tailq.Merge.Lanes.{ordered}
use csd_mirror.Chain.{Links, forward, before_at, merge_scan, merge_ranges}
use csd_mirror.Chain.Forward.{IsForward, at, behind, behind-append, forward-item, IsForward-concat}
use csd_mirror.Chain.Ranges.{linked_in, cut, cut-IsRun, link_in, IsRun}
use csd_mirror.Chain.Apart.{item_ne_at}
use csd_mirror.Chain.Scan.{before_at-items, merge_scan_lem}

module _ {ℓ} {A : Type ℓ} (c : EntryRefCodec) (e : ℕ) (comp : A → A → Bool) (proj : ℕ → A)
    (insert_range_after : Links → (pos first last : ℕ) → Links × ℕ)
    (insert_eq : (next : Links) (pos first last : ℕ)
      → (insert_range_after next pos first last).0 ≡ linked_in c e next pos first last)
    (post : List ℕ) where
  abbrev less : ℕ → ℕ → Bool
  less = ordered comp proj

  abbrev State : Links → (pre xs ys : List ℕ) → Type 0
  State next pre xs ys = IsForward c next e (pre ++ (xs ++ (ys ++ post)))

  abbrev ranges : ℕ → Links → (p1 p2 f1 f2 : ℕ) → Option Links
  ranges fuel next p1 p2 f1 f2 =
      merge_ranges c comp proj insert_range_after fuel next p1 p2 f1 f2 (at c post)

  abbrev loop : ℕ → Links → (pre xs ys : List ℕ) → Option Links
  loop fuel next pre xs ys =
      ranges fuel next (behind c e pre) (behind c e (pre ++ xs)) (at c (xs ++ (ys ++ post)))
        (at c (ys ++ post))

  abbrev LoopResult : ℕ → Links → (pre xs ys : List ℕ) → Type 0
  LoopResult fuel next pre xs ys =
      (next' : Links) × (zs : List ℕ) × (loop fuel next pre xs ys ≡ some next')
      × IsForward c next' e (pre ++ (zs ++ post))
      × Merged less xs ys zs

  loop_end :
      (fuel : ℕ) (next : Links) (p1 p2 f1 f2 : ℕ)
      → (f1 == f2 || f2 == at c post) ≡ true
      → ranges (suc fuel) next p1 p2 f1 f2 ≡ some next
  unfolding merge_ranges
  loop_end fuel next p1 p2 f1 f2 eq = rw eq refl

  loop_keep :
      (fuel : ℕ) (next : Links) (p1 p2 f1 f2 : ℕ)
      → (f1 == f2 || f2 == at c post) ≡ false
      → before_at c comp proj f1 f2 ≡ true
      → ranges (suc fuel) next p1 p2 f1 f2 ≡ ranges fuel next f1 p2 (forward c next f1) f2
  unfolding merge_ranges
  loop_keep fuel next p1 p2 f1 f2 ne lt = rw (ne, lt) refl

  loop_move :
      (fuel : ℕ) (next : Links) (p1 p2 f1 f2 prev scan : ℕ)
      → (f1 == f2 || f2 == at c post) ≡ false
      → before_at c comp proj f1 f2 ≡ false
      → merge_scan c comp proj fuel next f1 (at c post) f2 (forward c next f2) ≡ some (prev, scan)
      → let next' = linked_in c e (update next (c.get_entry p2) scan) p1 f2 prev in
        ranges (suc fuel) next p1 p2 f1 f2 ≡ ranges fuel next' f1 p2 (forward c next' f1) scan
  unfolding merge_ranges
  loop_move fuel next p1 p2 f1 f2 prev scan ne ge scanned =
      rw (ne, ge) (rw scanned (rw (insert_eq (update next (c.get_entry p2) scan) p1 f2 prev) refl))

  apart_at :
      (next : Links) (pre : List ℕ) (x : ℕ) (xs : List ℕ) (y : ℕ) (ys : List ℕ)
      → State next pre (x ∷ xs) (y ∷ ys)
      → (item c x == item c y || item c y == at c post) ≡ false
  apart_at next pre x xs y ys v =
      let v' = subst (IsForward c next e) (sym (append_assoc pre (x ∷ xs) (y ∷ (ys ++ post)))) v in
      rw (item_ne_at c e pre x xs (y ∷ (ys ++ post)) v)
        (item_ne_at c e (pre ++ x ∷ xs) y ys post v')

  items_ok :
      (next : Links) (pre : List ℕ) (x : ℕ) (xs : List ℕ) (y : ℕ) (ys : List ℕ)
      → State next pre (x ∷ xs) (y ∷ ys)
      → (c.item_ok x ≡ true) × (c.item_ok y ≡ true)
  items_ok next pre x xs y ys v =
      let ok = (ItemsOk-split c pre (x ∷ (xs ++ (y ∷ (ys ++ post)))) v.items_ok).1 in
      (ok.0, (ItemsOk-split c (x ∷ xs) (y ∷ (ys ++ post)) ok).1.0)

  -- The last position of the first part does not depend on what is in front of it.
  same_end :
      (pre pre' : List ℕ) (x : ℕ) (xs : List ℕ)
      → behind c e (pre ++ x ∷ xs) ≡ behind c e (pre' ++ x ∷ xs)
  same_end pre pre' x xs = behind-append c e pre x xs ∙ sym (behind-append c e pre' x xs)

  State-move :
      (next : Links) (pre : List ℕ) (x : ℕ) (xs : List ℕ) (y : ℕ) (taken rest : List ℕ)
      → State next pre (x ∷ xs) ((y ∷ taken) ++ rest)
      → State
          (linked_in c e
            (update next (c.get_entry (behind c e (pre ++ x ∷ xs))) (at c (rest ++ post)))
            (behind c e pre)
            (item c y)
            (last c.get_entry (item c y) (items c taken)))
          (pre ++ (y ∷ taken))
          (x ∷ xs)
          rest
  State-move next pre x xs y taken rest v =
      let v' =
        subst (IsForward c next e)
          (ap (λ l. pre ++ (x ∷ xs ++ l)) (append_assoc (y ∷ taken) rest post)
            ∙ sym (append_assoc pre (x ∷ xs) ((y ∷ taken) ++ (rest ++ post))))
          v in
      let next1 = update next (c.get_entry (behind c e (pre ++ x ∷ xs))) (at c (rest ++ post)) in
      let back = append_assoc pre (x ∷ xs) (rest ++ post) in
      let left =
        subst (IsForward c next1 e) back
          (cut c e next (pre ++ x ∷ xs) (y ∷ taken) (rest ++ post) v') in
      let run =
        subst (IsRun c e next1 y taken) back
          (cut-IsRun c e next (pre ++ x ∷ xs) y taken (rest ++ post) v') in
      subst (IsForward c _ e) (sym (append_assoc pre (y ∷ taken) (x ∷ xs ++ (rest ++ post))))
        (link_in c e next1 pre y taken (x ∷ xs ++ (rest ++ post)) left run)

  same_ranges :
      (fuel : ℕ) (next : Links) (p1 p1' p2 p2' f1 f1' f2 : ℕ)
      → p1 ≡ p1'
      → p2 ≡ p2'
      → f1 ≡ f1'
      → ranges fuel next p1 p2 f1 f2 ≡ ranges fuel next p1' p2' f1' f2
  same_ranges fuel next p1 p1' p2 p2' f1 f1' f2 e1 e2 e3 =
      ap (λ p. ranges fuel next p p2 f1 f2) e1
      ∙ ap (λ p. ranges fuel next p1' p f1 f2) e2
      ∙ ap (λ f. ranges fuel next p1' p2' f f2) e3

  -- The round that follows one in which `x` has been passed over.
  next_round :
      (fuel : ℕ) (next : Links) (p2 f2 : ℕ) (pre : List ℕ) (x : ℕ) (xs rest : List ℕ)
      → IsForward c next e (pre ++ x ∷ (xs ++ rest))
      → p2 ≡ behind c e (pre ++ x ∷ xs)
      → ranges fuel next (item c x) p2 (forward c next (item c x)) f2
        ≡ ranges fuel next
            (behind c e (pre ++ x ∷ []))
            (behind c e ((pre ++ x ∷ []) ++ xs))
            (at c (xs ++ rest))
            f2
  next_round fuel next p2 f2 pre x xs rest v same =
      same_ranges fuel next (item c x) _ p2 _ (forward c next (item c x)) _ f2
        (sym (behind-append c e pre x []))
        (same ∙ ap (behind c e) (sym (append_assoc pre (x ∷ []) xs)))
        (forward-item c e pre x (xs ++ rest) v)

  keep-LoopResult :
      (fuel : ℕ) (next : Links) (pre : List ℕ) (x : ℕ) (xs : List ℕ) (y : ℕ) (ys : List ℕ)
      → State next pre (x ∷ xs) (y ∷ ys)
      → less x y ≡ true
      → LoopResult fuel next (pre ++ x ∷ []) xs (y ∷ ys)
      → LoopResult (suc fuel) next pre (x ∷ xs) (y ∷ ys)
  keep-LoopResult fuel next pre x xs y ys v lt (next', zs, eq, v', r) =
      let (ok, ok') = items_ok next pre x xs y ys v in
      (
        next',
        x ∷ zs,
        loop_keep fuel next (behind c e pre) (behind c e (pre ++ x ∷ xs)) (item c x) (item c y)
              (apart_at next pre x xs y ys v) (before_at-items c e comp proj x y ok ok' ∙ lt)
            ∙ next_round fuel next _ (item c y) pre x xs (y ∷ (ys ++ post)) v refl
            ∙ eq,
        subst (IsForward c next' e) (append_assoc pre (x ∷ []) (zs ++ post)) v',
        Merged.keep x xs y ys zs lt r,
      )

  move-LoopResult :
      (fuel : ℕ) (next : Links) (pre : List ℕ) (x : ℕ) (xs : List ℕ) (y : ℕ) (taken rest : List ℕ)
      → State next pre (x ∷ xs) (y ∷ (taken ++ rest))
      → less x y ≡ false
      → AllHold (λ z. less z x) taken
      → Stops (λ z. less z x) rest
      → length taken < fuel
      → LoopResult fuel
          (linked_in c e
            (update next (c.get_entry (behind c e (pre ++ x ∷ xs))) (at c (rest ++ post)))
            (behind c e pre)
            (item c y)
            (last c.get_entry (item c y) (items c taken)))
          ((pre ++ y ∷ taken) ++ x ∷ [])
          xs
          rest
      → LoopResult (suc fuel) next pre (x ∷ xs) (y ∷ (taken ++ rest))
  move-LoopResult fuel next pre x xs y taken rest v ge all stop lt (next', zs, eq, v', r) =
      let (ok, ok') = items_ok next pre x xs y (taken ++ rest) v in
      let moved = State-move next pre x xs y taken rest v in
      let back =
        subst (IsForward c next e)
          (sym (append_assoc pre (x ∷ xs) (y ∷ (taken ++ rest ++ post)))
            ∙ ap (λ l. (pre ++ x ∷ xs) ++ y ∷ l) (append_assoc taken rest post))
          v in
      let scanned =
        ap (merge_scan c comp proj fuel next (item c x) (at c post) (item c y))
          (forward-item c e (pre ++ x ∷ xs) y (taken ++ (rest ++ post)) back)
        ∙ merge_scan_lem c e comp proj fuel next x ((pre ++ x ∷ xs) ++ y ∷ []) taken rest post
            (item c y) ok (IsForward-concat c e (pre ++ x ∷ xs) y (taken ++ (rest ++ post)) back) lt
            all stop in
      (
        next',
        y ∷ (taken ++ x ∷ zs),
        loop_move fuel next (behind c e pre) (behind c e (pre ++ x ∷ xs)) (item c x) (item c y)
              (last c.get_entry (item c y) (items c taken)) (at c (rest ++ post))
              (apart_at next pre x xs y (taken ++ rest) v)
              (before_at-items c e comp proj x y ok ok' ∙ ge) scanned
            ∙ next_round fuel _ _ (at c (rest ++ post)) (pre ++ y ∷ taken) x xs (rest ++ post) moved
                (same_end pre (pre ++ y ∷ taken) x xs)
            ∙ eq,
        subst (IsForward c next' e)
            (append_assoc (pre ++ y ∷ taken) (x ∷ []) (zs ++ post)
              ∙ append_assoc pre (y ∷ taken) (x ∷ (zs ++ post))
              ∙ ap (λ l. pre ++ y ∷ l) (sym (append_assoc taken (x ∷ zs) post)))
            v',
        Merged.move x xs y (taken ++ rest) taken rest zs _ ge all stop refl refl r,
      )

  pub merge_ranges_lem :
      (fuel : ℕ) (next : Links) (pre xs ys : List ℕ)
      → State next pre xs ys
      → length xs + length ys < fuel
      → LoopResult fuel next pre xs ys
  merge_ranges_lem zero next pre xs ys v lt = absurd (omega arith)
  merge_ranges_lem (suc fuel) next pre [] ys v lt = (
    next,
    ys,
    loop_end fuel next _ _ _ _ (ground (arith, eq→== (at c (ys ++ post)) _ refl)),
    v,
    Merged.right ys,
  )
  merge_ranges_lem (suc fuel) next pre (x ∷ xs) [] v lt = (
    next,
    x ∷ xs,
    loop_end fuel next _ _ _ _ (ground (arith, eq→== (at c post) _ refl)),
    v,
    Merged.left (x ∷ xs),
  )
  merge_ranges_lem (suc fuel) next pre (x ∷ xs) (y ∷ ys) v lt = elim (Bool-cases (less x y)) [
    | inl before ↦ keep-LoopResult fuel next pre x xs y ys v before (
        merge_ranges_lem fuel next (pre ++ x ∷ []) xs (y ∷ ys)
          (IsForward-concat c e pre x (xs ++ (y ∷ (ys ++ post))) v) (omega arith))
    | inr ge ↦
        let (taken, rest, eq, all, stop) = split (λ z. less z x) ys in
        let n = length-append {0} taken rest in
        let lt' = subst (λ zs. length (x ∷ xs) + length (y ∷ zs) < suc fuel) eq lt in
        let v1 = subst (λ zs. State next pre (x ∷ xs) (y ∷ zs)) eq v in
        let v2 = State-move next pre x xs y taken rest v1 in
        subst (λ zs. LoopResult (suc fuel) next pre (x ∷ xs) (y ∷ zs)) (sym eq)
          (move-LoopResult fuel next pre x xs y taken rest v1 ge all stop (omega arith) (
            merge_ranges_lem fuel _ ((pre ++ y ∷ taken) ++ x ∷ []) xs rest
              (IsForward-concat c e (pre ++ y ∷ taken) x (xs ++ (rest ++ post)) v2) (omega arith)))
  ]
