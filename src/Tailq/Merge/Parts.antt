-- ===== src/Tailq/Merge/Parts.antt =====
-- The parts of one list that the merges of `merge_sort` work on.
use csd_mirror.Prelude.{
  ℕ, zero, suc, ◌≤◌, ◌≡◌, refl, false, none, List, [], ◌∷◌, ◌++◌, length, arith, ◌==◌, subst, sym,
  ap, ◌∙◌,
}
use mathlib.Core.List.{append_assoc}
use csd_mirror.Intrusive.{EntryRefCodec}
use csd_mirror.Tailq.Memory.{Memory, Head}
use csd_mirror.Tailq.Attach.{run_last, IsRun}
use csd_mirror.Tailq.Valid.{IsRing, item, at, ItemsOk-split}
use csd_mirror.Tailq.Walk.{forward-item, item_ne_at, IsRing-concat}
use csd_mirror.Tailq.Range.{insert_range, remove_range}
use csd_mirror.Tailq.Range.Links.{remove_range_lem, insert_range_lem}
use csd_mirror.Tailq.Merge.{stop_at, advance}
use csd_mirror.Tailq.Merge.Lanes.{Lanes, position}

module _ (c : EntryRefCodec) (h : Head) (post : List ℕ) where
  pub position-at : (ys : List ℕ) → position c (at c h post) ys ≡ at c h (ys ++ post)
  position-at [] = refl
  position-at (y ∷ ys) = refl

  pub position_parts :
      (xs ys : List ℕ) → position c (position c (at c h post) ys) xs ≡ at c h (xs ++ (ys ++ post))
  position_parts [] ys = position-at ys
  position_parts (x ∷ xs) ys = refl

  -- Two neighbouring parts of a list, in front of the items `post`.
  abbrev pub Parts : Memory → (pre xs ys : List ℕ) → Type 0
  Parts m pre xs ys = IsRing c m h.end_entry (pre ++ (xs ++ (ys ++ post)))

  -- An item of the second part, and what stands before and behind it.
  pub Parts-back :
      (m : Memory) (pre xs mid : List ℕ) (y : ℕ) (ys : List ℕ)
      → Parts m pre xs (mid ++ y ∷ ys)
      → IsRing c m h.end_entry ((pre ++ (xs ++ mid)) ++ y ∷ (ys ++ post))
  Parts-back m pre xs mid y ys v =
      subst (IsRing c m h.end_entry)
        (ap (λ l. pre ++ (xs ++ l)) (append_assoc mid (y ∷ ys) post)
          ∙ ap (λ l. pre ++ l) (sym (append_assoc xs mid (y ∷ (ys ++ post))))
          ∙ sym (append_assoc pre (xs ++ mid) (y ∷ (ys ++ post))))
        v

  pub Parts-move :
      (m : Memory) (pre : List ℕ) (x : ℕ) (xs : List ℕ) (y : ℕ) (taken rest : List ℕ)
      → Parts m pre (x ∷ xs) ((y ∷ taken) ++ rest)
      → Parts
          (insert_range c
            (remove_range c m (item c y) (run_last c y taken))
            (item c x)
            (item c y)
            (run_last c y taken))
          (pre ++ (y ∷ taken))
          (x ∷ xs)
          rest
  Parts-move m pre x xs y taken rest v =
      let back = append_assoc pre (x ∷ xs) (rest ++ post) in
      let v' =
        subst (IsRing c m h.end_entry)
          (ap (λ l. pre ++ (x ∷ xs ++ l)) (append_assoc (y ∷ taken) rest post)
            ∙ sym (append_assoc pre (x ∷ xs) ((y ∷ taken) ++ (rest ++ post))))
          v in
      let (ring, run, _, _) = remove_range_lem c m h (pre ++ x ∷ xs) y taken (rest ++ post) v' in
      let (ring2, _) =
        insert_range_lem c _ h pre y taken (x ∷ xs ++ (rest ++ post))
          (subst (IsRing c _ h.end_entry) back ring)
          (subst (IsRun c _ h.end_entry y taken) back run) in
      subst (IsRing c _ h.end_entry) (sym (append_assoc pre (y ∷ taken) (x ∷ xs ++ (rest ++ post))))
        ring2

  unfoldable pub lanes : Lanes c none (at c h post)
  unfolding stop_at
  lanes = record {
    State = Parts;
    front_ok = λ m pre x xs ys v. (ItemsOk-split c pre (x ∷ (xs ++ (ys ++ post))) v.items_ok).1.0;
    front_ne = λ m pre x xs ys v.
        subst (λ p. (item c x == p) ≡ false) (sym (position-at ys))
          (item_ne_at c h pre x xs (ys ++ post) v);
    front_forward = λ m pre x xs ys v.
        forward-item c h pre x (xs ++ (ys ++ post)) v ∙ sym (position_parts xs ys);
    back_ok = λ m pre xs mid y ys v.
        (ItemsOk-split c (pre ++ (xs ++ mid)) (y ∷ (ys ++ post))
          (Parts-back m pre xs mid y ys v).items_ok).1.0;
    back_ne = λ m pre xs mid y ys v.
        item_ne_at c h (pre ++ (xs ++ mid)) y ys post (Parts-back m pre xs mid y ys v);
    back_forward = λ m pre xs mid y ys v.
        forward-item c h (pre ++ (xs ++ mid)) y (ys ++ post) (Parts-back m pre xs mid y ys v)
        ∙ sym (position-at ys);
    keep = λ m pre x xs ys v. IsRing-concat c h pre x (xs ++ (ys ++ post)) v;
    move = Parts-move;
  }

-- A list parted after `k` items.
pub part :
    (k : ℕ) (xs : List ℕ)
    → k ≤ length xs
    → (front : List ℕ) × (back : List ℕ) × (xs ≡ front ++ back) × (length front ≡ k)
part zero xs le = ([], xs, refl, refl)
part (suc k) [] le = absurd (omega arith)
part (suc k) (x ∷ xs) le =
    let (front, back, eq, n) = part k xs (omega arith) in (x ∷ front, back, ap (◌∷◌ x) eq, ap suc n)

pub advance_lem :
    (c : EntryRefCodec) (h : Head) (m : Memory) (pre mid post : List ℕ)
    → IsRing c m h.end_entry (pre ++ (mid ++ post))
    → advance c m (at c h (mid ++ post)) (length mid) ≡ at c h post
unfolding advance
advance_lem c h m pre [] post v = refl
advance_lem c h m pre (x ∷ mid) post v =
    ap (λ i. advance c m i (length mid)) (forward-item c h pre x (mid ++ post) v)
    ∙ advance_lem c h m (pre ++ x ∷ []) mid post (IsRing-concat c h pre x (mid ++ post) v)
