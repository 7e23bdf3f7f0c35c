-- ===== src/Tailq/Merge/Loop.antt =====
-- The loop that `merge` and `merge_sort` share, over any two sequences of items whose links it may
-- change: two lists, or two neighbouring parts of one.
use csd_mirror.Prelude.{
  inl, inr, Bool-cases, ℕ, zero, suc, ◌+◌, ◌<◌, ◌≡◌, ◌⊎◌, refl, Bool, true, false, ◌&&◌, ◌||◌,
  Option, some, List, [], ◌∷◌, ◌++◌, length, length-append, arith, ◌==◌, ◌!=◌, if◌then◌else◌, eq→==,
  subst, sym, ap, ◌∙◌,
}
use mathlib.Core.List.{append_assoc, append-nil}
use csd_mirror.Intrusive.{EntryRefCodec}
use csd_mirror.Tailq.Memory.{Memory}
use csd_mirror.Tailq.Iterator.{forward}
use csd_mirror.Tailq.Links.{last}
use csd_mirror.Tailq.Attach.{run_last}
use csd_mirror.Tailq.Valid.{item, items}
use csd_mirror.Tailq.Range.{insert_range, remove_range}
use csd_mirror.Tailq.Scan.Kept.{AllHold, Stops, split}
use csd_mirror.Tailq.Merge.{stop_at, before_at, merge_scan, merge_loop}
use csd_mirror.Tailq.Merge.Reference.{Merged}
use csd_mirror.Tailq.Merge.Lanes.{position, ordered, Lanes, before_at-items}

module _ {ℓ} {A : Type ℓ} (c : EntryRefCodec) (comp : A → A → Bool) (proj : ℕ → A) (e1 : Option ℕ)
    (e2 : ℕ) (l : Lanes c e1 e2) where
  abbrev less : ℕ → ℕ → Bool
  less = ordered comp proj

  scan_round :
      (fuel : ℕ) (m : Memory) (f1 prev scan : ℕ) (b : Bool)
      → (scan != e2 && before_at c comp proj scan f1) ≡ b
      → merge_scan c comp proj (suc fuel) m f1 e2 prev scan ≡ (
          if b
          then merge_scan c comp proj fuel m f1 e2 scan (forward c m scan)
          else some (prev, scan))
  unfolding merge_scan
  scan_round fuel m f1 prev scan b eq = rw eq refl

  merge_scan_lem :
      (fuel : ℕ) (m : Memory) (pre : List ℕ) (x : ℕ) (xs mid taken rest : List ℕ) (prev : ℕ)
      → l.State m pre (x ∷ xs) (mid ++ (taken ++ rest))
      → length taken < fuel
      → AllHold (λ z. less z x) taken
      → Stops (λ z. less z x) rest
      → merge_scan c comp proj fuel m (item c x) e2 prev (position c e2 (taken ++ rest))
        ≡ some (last c.get_entry prev (items c taken), position c e2 rest)
  merge_scan_lem zero m pre x xs mid taken rest prev v lt all stop = absurd (omega arith)
  merge_scan_lem (suc fuel) m pre x xs mid [] [] prev v lt all stop =
      scan_round fuel m (item c x) prev e2 false (ground (arith, eq→== e2 e2 refl))
  merge_scan_lem (suc fuel) m pre x xs mid [] (r ∷ rest) prev v lt all stop =
      let value =
        before_at-items c comp proj r x (l.back_ok m pre (x ∷ xs) mid r rest v)
          (l.front_ok m pre x xs (mid ++ r ∷ rest) v) in
      let fails = value ∙ stop in
      scan_round fuel m (item c x) prev (item c r) false (ground (arith, fails))
  merge_scan_lem (suc fuel) m pre x xs mid (t ∷ taken) rest prev v lt all stop =
      let value =
        before_at-items c comp proj t x (l.back_ok m pre (x ∷ xs) mid t (taken ++ rest) v)
          (l.front_ok m pre x xs (mid ++ t ∷ (taken ++ rest)) v) in
      let holds = value ∙ all.0 in
      scan_round fuel m (item c x) prev (item c t) true
        (ground (arith, holds, l.back_ne m pre (x ∷ xs) mid t (taken ++ rest) v))
      ∙ ap (merge_scan c comp proj fuel m (item c x) e2 (item c t))
          (l.back_forward m pre (x ∷ xs) mid t (taken ++ rest) v)
      ∙ merge_scan_lem fuel m pre x xs (mid ++ t ∷ []) taken rest (item c t)
          (subst (l.State m pre (x ∷ xs)) (sym (append_assoc mid (t ∷ []) (taken ++ rest))) v)
          (omega arith) all.1 stop

  abbrev loop : ℕ → Memory → (xs ys : List ℕ) → Option (Memory × ℕ)
  loop fuel m xs ys =
      merge_loop c comp proj fuel m e1 (position c (stop_at e1 (position c e2 ys)) xs)
        (position c e2 ys) e2

  -- What the loop leaves: the items `zs` are merged, and one of the sequences is used up.
  abbrev pub LoopResult : ℕ → Memory → (pre xs ys : List ℕ) → Type 0
  LoopResult fuel m pre xs ys =
      (m' : Memory) × (zs : List ℕ) × (xs' : List ℕ) × (ys' : List ℕ) × (loop fuel m xs ys
        ≡ some (m', position c e2 ys'))
      × l.State m' (pre ++ zs) xs' ys'
      × ((xs' ≡ []) ⊎ (ys' ≡ []))
      × Merged less xs ys (zs ++ (xs' ++ ys'))

  loop_end :
      (fuel : ℕ) (m : Memory) (f1 f2 : ℕ)
      → (f1 == stop_at e1 f2 || f2 == e2) ≡ true
      → merge_loop c comp proj (suc fuel) m e1 f1 f2 e2 ≡ some (m, f2)
  unfolding merge_loop
  loop_end fuel m f1 f2 eq = rw eq refl

  loop_keep :
      (fuel : ℕ) (m : Memory) (f1 f2 : ℕ)
      → (f1 == stop_at e1 f2 || f2 == e2) ≡ false
      → before_at c comp proj f1 f2 ≡ true
      → merge_loop c comp proj (suc fuel) m e1 f1 f2 e2
        ≡ merge_loop c comp proj fuel m e1 (forward c m f1) f2 e2
  unfolding merge_loop
  loop_keep fuel m f1 f2 ne lt = rw (ne, lt) refl

  loop_move :
      (fuel : ℕ) (m : Memory) (f1 f2 prev scan : ℕ)
      → (f1 == stop_at e1 f2 || f2 == e2) ≡ false
      → before_at c comp proj f1 f2 ≡ false
      → merge_scan c comp proj fuel m f1 e2 f2 (forward c m f2) ≡ some (prev, scan)
      → let m' = insert_range c (remove_range c m f2 prev) f1 f2 prev in
        merge_loop c comp proj (suc fuel) m e1 f1 f2 e2
        ≡ merge_loop c comp proj fuel m' e1 (forward c m' f1) scan e2
  unfolding merge_loop
  loop_move fuel m f1 f2 prev scan ne ge scanned = rw (ne, ge) (rw scanned refl)

  apart_at :
      (m : Memory) (pre : List ℕ) (x : ℕ) (xs : List ℕ) (y : ℕ) (ys : List ℕ)
      → l.State m pre (x ∷ xs) (y ∷ ys)
      → (item c x == stop_at e1 (item c y) || item c y == e2) ≡ false
  apart_at m pre x xs y ys v =
      rw (l.front_ne m pre x xs (y ∷ ys) v) (l.back_ne m pre (x ∷ xs) [] y ys v)

  -- A result of the rest of the loop is one of the whole.
  keep-LoopResult :
      (fuel : ℕ) (m : Memory) (pre : List ℕ) (x : ℕ) (xs : List ℕ) (y : ℕ) (ys : List ℕ)
      → l.State m pre (x ∷ xs) (y ∷ ys)
      → less x y ≡ true
      → LoopResult fuel m (pre ++ x ∷ []) xs (y ∷ ys)
      → LoopResult (suc fuel) m pre (x ∷ xs) (y ∷ ys)
  keep-LoopResult fuel m pre x xs y ys v lt (m', zs, xs', ys', eq, v', used, r) =
      let value =
        before_at-items c comp proj x y (l.front_ok m pre x xs (y ∷ ys) v)
          (l.back_ok m pre (x ∷ xs) [] y ys v) in
      (
        m',
        x ∷ zs,
        xs',
        ys',
        loop_keep fuel m (item c x) (item c y) (apart_at m pre x xs y ys v) (value ∙ lt)
            ∙ ap (λ i. merge_loop c comp proj fuel m e1 i (item c y) e2)
                (l.front_forward m pre x xs (y ∷ ys) v)
            ∙ eq,
        subst (λ p. l.State m' p xs' ys') (append_assoc pre (x ∷ []) zs) v',
        used,
        Merged.keep x xs y ys (zs ++ (xs' ++ ys')) lt r,
      )

  move-LoopResult :
      (fuel : ℕ) (m : Memory) (pre : List ℕ) (x : ℕ) (xs : List ℕ) (y : ℕ) (taken rest : List ℕ)
      → l.State m pre (x ∷ xs) (y ∷ (taken ++ rest))
      → less x y ≡ false
      → AllHold (λ z. less z x) taken
      → Stops (λ z. less z x) rest
      → length taken < fuel
      → let r = run_last c y taken in
        LoopResult fuel
          (insert_range c (remove_range c m (item c y) r) (item c x) (item c y) r)
          ((pre ++ y ∷ taken) ++ x ∷ [])
          xs
          rest
        → LoopResult (suc fuel) m pre (x ∷ xs) (y ∷ (taken ++ rest))
  move-LoopResult fuel m pre x xs y taken rest v ge all stop lt
        (m', zs, xs', ys', eq, v', used, r) =
      let value =
        before_at-items c comp proj x y (l.front_ok m pre x xs (y ∷ (taken ++ rest)) v)
          (l.back_ok m pre (x ∷ xs) [] y (taken ++ rest) v) in
      let scanned =
        ap (merge_scan c comp proj fuel m (item c x) e2 (item c y))
          (l.back_forward m pre (x ∷ xs) [] y (taken ++ rest) v)
        ∙ merge_scan_lem fuel m pre x xs (y ∷ []) taken rest (item c y) v lt all stop in
      let m1 =
        insert_range c (remove_range c m (item c y) (run_last c y taken)) (item c x) (item c y)
          (run_last c y taken) in
      (
        m',
        y ∷ (taken ++ x ∷ zs),
        xs',
        ys',
        loop_move fuel m (item c x) (item c y) (run_last c y taken) (position c e2 rest)
              (apart_at m pre x xs y (taken ++ rest) v) (value ∙ ge) scanned
            ∙ ap (λ i. merge_loop c comp proj fuel m1 e1 i (position c e2 rest) e2)
                (l.front_forward m1 (pre ++ y ∷ taken) x xs rest (l.move m pre x xs y taken rest v))
            ∙ eq,
        subst (λ p. l.State m' p xs' ys')
            (append_assoc (pre ++ y ∷ taken) (x ∷ []) zs ∙ append_assoc pre (y ∷ taken) (x ∷ zs))
            v',
        used,
        Merged.move x xs y (taken ++ rest) taken rest (zs ++ (xs' ++ ys')) _ ge all stop refl
            (append_assoc taken (x ∷ zs) (xs' ++ ys')) r,
      )

  -- One round for each item of the first sequence, and the scans, take less fuel than there are
  -- items, and one.
  pub merge_loop_lem :
      (fuel : ℕ) (m : Memory) (pre xs ys : List ℕ)
      → l.State m pre xs ys
      → length xs + length ys < fuel
      → LoopResult fuel m pre xs ys
  merge_loop_lem zero m pre xs ys v lt = absurd (omega arith)
  merge_loop_lem (suc fuel) m pre [] ys v lt = (
    m,
    [],
    [],
    ys,
    loop_end fuel m _ _ (ground (arith, eq→== (stop_at e1 (position c e2 ys)) _ refl)),
    subst (λ p. l.State m p [] ys) (sym (append-nil pre)) v,
    inl refl,
    Merged.right ys,
  )
  merge_loop_lem (suc fuel) m pre (x ∷ xs) [] v lt = (
    m,
    [],
    x ∷ xs,
    [],
    loop_end fuel m (item c x) e2 (ground (arith, eq→== e2 e2 refl)),
    subst (λ p. l.State m p (x ∷ xs) []) (sym (append-nil pre)) v,
    inr refl,
    subst (Merged less (x ∷ xs) []) (sym (append-nil (x ∷ xs))) (Merged.left (x ∷ xs)),
  )
  merge_loop_lem (suc fuel) m pre (x ∷ xs) (y ∷ ys) v lt = elim (Bool-cases (less x y)) [
    | inl before ↦ keep-LoopResult fuel m pre x xs y ys v before (
        merge_loop_lem fuel m (pre ++ x ∷ []) xs (y ∷ ys) (l.keep m pre x xs (y ∷ ys) v)
          (omega arith))
    | inr ge ↦
        let (taken, rest, eq, all, stop) = split (λ z. less z x) ys in
        let le = length-append {0} taken rest in
        let lt' = subst (λ zs. length (x ∷ xs) + length (y ∷ zs) < suc fuel) eq lt in
        let v' =
          l.move m pre x xs y taken rest (subst (λ zs. l.State m pre (x ∷ xs) (y ∷ zs)) eq v) in
        subst (λ zs. LoopResult (suc fuel) m pre (x ∷ xs) (y ∷ zs)) (sym eq)
          (move-LoopResult fuel m pre x xs y taken rest
            (subst (λ zs. l.State m pre (x ∷ xs) (y ∷ zs)) eq v) ge all stop (omega arith)
            (merge_loop_lem fuel _ ((pre ++ y ∷ taken) ++ x ∷ []) xs rest
              (l.keep _ (pre ++ y ∷ taken) x xs rest v') (omega arith)))
  ]
