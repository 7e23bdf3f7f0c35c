-- ===== src/Chain/Ends.antt =====
-- The last position of a range, which `forward_list_merge_sort` looks for.
use csd_mirror.Prelude.{
  inl, inr, Bool-cases, ℕ, zero, suc, ◌<◌, ◌≡◌, refl, true, some, List, [], ◌∷◌, ◌++◌, length,
  length-append, arith, has, ◌==◌, eq→==, subst, sym, ap, ◌∙◌,
}
use mathlib.Core.List.{append_assoc, append-nil}
use csd_mirror.Intrusive.{EntryRefCodec}
use csd_mirror.Tailq.Links.{last}
use csd_mirror.Tailq.Valid.{item, items}
use csd_mirror.Chain.{Links, advance, find_last, last_position}
use csd_mirror.Chain.Forward.{
  IsForward, at, behind, behind-append, forward-behind, forward-item, IsForward-concat,
}
use csd_mirror.Chain.Apart.{item_ne_at}

-- The place of an item that is among others.
pub place :
    (w : ℕ) (xs : List ℕ)
    → has w xs ≡ true
    → (front : List ℕ) × (back : List ℕ) × (xs ≡ front ++ w ∷ back)
place w [] n = absurd cc
place w (x ∷ xs) n = elim (Bool-cases (w == x)) [
  | inl same ↦ let equal : x ≡ w = ground arith in ([], xs, ap (λ y. y ∷ xs) equal)
  | inr other ↦
      let (front, back, eq) = place w xs (ground arith) in (x ∷ front, back, ap (◌∷◌ x) eq)
]

pub last-has : (a : ℕ) (xs : List ℕ) → has (last (λ x. x) a xs) (a ∷ xs) ≡ true
last-has a [] = ground (arith, eq→== a a refl)
last-has a (x ∷ xs) = ground (arith, last-has x xs)

pub last-items :
    (c : EntryRefCodec) (a : ℕ) (xs : List ℕ)
    → last c.get_entry (item c a) (items c xs) ≡ item c (last (λ x. x) a xs)
last-items c a [] = refl
last-items c a (x ∷ xs) = last-items c x xs

module _ (c : EntryRefCodec) (e : ℕ) where
  pub advance-behind :
      (next : Links) (pre mid post : List ℕ)
      → IsForward c next e (pre ++ (mid ++ post))
      → advance c next (behind c e pre) (length mid) ≡ behind c e (pre ++ mid)
  unfolding advance
  advance-behind next pre [] post v = ap (behind c e) (sym (append-nil pre))
  advance-behind next pre (x ∷ mid) post v =
      ap (λ i. advance c next i (length mid))
        (forward-behind c e pre (x ∷ (mid ++ post)) v ∙ sym (behind-append c e pre x []))
      ∙ advance-behind next (pre ++ x ∷ []) mid post (IsForward-concat c e pre x (mid ++ post) v)
      ∙ ap (behind c e) (append_assoc pre (x ∷ []) mid)

  find_last_lem :
      (fuel : ℕ) (next : Links) (pre mid post : List ℕ)
      → IsForward c next e (pre ++ (mid ++ post))
      → length mid < fuel
      → find_last c fuel next (behind c e pre) (at c post) ≡ some (behind c e (pre ++ mid))
  unfolding find_last
  find_last_lem zero next pre mid post v lt = absurd (omega arith)
  find_last_lem (suc fuel) next pre [] post v lt =
      rw (forward-behind c e pre post v, append-nil pre)
        (rw (eq→== (at c post) (at c post) refl) refl)
  find_last_lem (suc fuel) next pre (x ∷ mid) post v lt =
      let v' = IsForward-concat c e pre x (mid ++ post) v in
      let step = forward-behind c e pre (x ∷ (mid ++ post)) v in
      let rest =
        subst
          (λ w. find_last c fuel next w (at c post) ≡ some (behind c e ((pre ++ x ∷ []) ++ mid)))
          (behind-append c e pre x [])
          (find_last_lem fuel next (pre ++ x ∷ []) mid post v' (omega arith)) in
      rw step (
        rw (item_ne_at c e pre x mid post v)
          (rest ∙ ap (λ l. some (behind c e l)) (append_assoc pre (x ∷ []) mid)))

  behind-place :
      (next : Links) (pre zs post : List ℕ) (w : ℕ) (front back : List ℕ)
      → IsForward c next e (pre ++ (zs ++ post))
      → zs ≡ front ++ w ∷ back
      → IsForward c next e ((pre ++ front) ++ w ∷ (back ++ post))
  behind-place next pre zs post w front back v eq =
      subst (IsForward c next e)
        (ap (λ l. pre ++ (l ++ post)) eq
          ∙ ap (λ l. pre ++ l) (append_assoc front (w ∷ back) post)
          ∙ sym (append_assoc pre front (w ∷ (back ++ post))))
        v

  at_places :
      (fuel : ℕ) (next : Links) (pre zs post : List ℕ) (u v : ℕ) (front back front' back' : List ℕ)
      → IsForward c next e (pre ++ (zs ++ post))
      → length zs < fuel
      → zs ≡ front ++ u ∷ back
      → zs ≡ front' ++ v ∷ back'
      → last_position c fuel next (item c u) (item c v) (at c post) ≡ some (behind c e (pre ++ zs))
  unfolding last_position
  at_places fuel next pre zs post u v front back front' [] chained lt eq eq' =
      let w = behind-place next pre zs post v front' [] chained eq' in
      let same =
        sym (behind-append c e (pre ++ front') v [])
        ∙ ap (behind c e) (append_assoc pre front' (v ∷ []) ∙ ap (λ l. pre ++ l) (sym eq')) in
      rw (forward-item c e (pre ++ front') v post w)
        (rw (eq→== (at c post) (at c post) refl) (ap some same))
  at_places fuel next pre zs post u v front back front' (b ∷ back') chained lt eq eq' =
      let w = behind-place next pre zs post v front' (b ∷ back') chained eq' in
      let w' = IsForward-concat c e (pre ++ front') v (b ∷ (back' ++ post)) w in
      let not_end = item_ne_at c e ((pre ++ front') ++ v ∷ []) b back' post w' in
      let x = behind-place next pre zs post u front back chained eq in
      let found =
        find_last_lem fuel next ((pre ++ front) ++ u ∷ []) back post
          (IsForward-concat c e (pre ++ front) u (back ++ post) x)
          (omega (arith, ap length eq, length-append {0} front (u ∷ back))) in
      let same =
        append_assoc (pre ++ front) (u ∷ []) back
        ∙ append_assoc pre front (u ∷ back)
        ∙ ap (λ l. pre ++ l) (sym eq) in
      rw (forward-item c e (pre ++ front') v (b ∷ (back' ++ post)) w) (
        rw not_end (
          subst (λ i. find_last c fuel next i (at c post) ≡ some (behind c e (pre ++ zs)))
            (behind-append c e (pre ++ front) u []) (found ∙ ap (λ l. some (behind c e l)) same)))

  -- Whichever of the two ends of the parts is the last, it is found.
  pub last_position_lem :
      (fuel : ℕ) (next : Links) (pre zs post : List ℕ) (u v : ℕ)
      → IsForward c next e (pre ++ (zs ++ post))
      → length zs < fuel
      → has u zs ≡ true
      → has v zs ≡ true
      → last_position c fuel next (item c u) (item c v) (at c post) ≡ some (behind c e (pre ++ zs))
  unfolding last_position
  last_position_lem fuel next pre zs post u v chained lt has_u has_v =
      let (front, back, eq) = place u zs has_u in
      let (front', back', eq') = place v zs has_v in
      at_places fuel next pre zs post u v front back front' back' chained lt eq eq'
