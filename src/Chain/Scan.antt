-- ===== src/Chain/Scan.antt =====
-- The scan of `merge_ranges` for the items that go in front of one of the first range.
use csd_mirror.Prelude.{
  ℕ, zero, suc, ◌<◌, ◌≡◌, refl, Bool, true, false, ◌&&◌, some, List, [], ◌∷◌, ◌++◌, length, arith,
  ◌!=◌, if◌then◌else◌, eq→==, subst, sym, ap, ◌∙◌,
}
use mathlib.Core.List.{append_assoc}
use csd_mirror.Intrusive.{EntryRefCodec}
use csd_mirror.Utility.{projection_is_ordered_before}
use csd_mirror.Tailq.Links.{last}
use csd_mirror.Tailq.Valid.{item, items, ItemsOk-split}
use csd_mirror.Tailq.Scan.Kept.{AllHold, Stops}
use csd_mirror.Tailq.Merge.Lanes.{ordered}
use csd_mirror.Chain.{Links, forward, deref, before_at, merge_scan}
use csd_mirror.Chain.Forward.{IsForward, at, forward-item, IsForward-concat}
use csd_mirror.Chain.Apart.{item_ne_at}

module _ {ℓ} {A : Type ℓ} (c : EntryRefCodec) (e : ℕ) (comp : A → A → Bool) (proj : ℕ → A) where
  abbrev less : ℕ → ℕ → Bool
  less = ordered comp proj

  pub before_at-items :
      (x y : ℕ)
      → c.item_ok x ≡ true
      → c.item_ok y ≡ true
      → before_at c comp proj (item c x) (item c y) ≡ less x y
  unfolding before_at projection_is_ordered_before deref
  before_at-items x y ok ok' = rw (c.get_value-item x ok, c.get_value-item y ok') refl

  scan_round :
      (fuel : ℕ) (next : Links) (f1 e2 prev scan : ℕ) (b : Bool)
      → (scan != e2 && before_at c comp proj scan f1) ≡ b
      → merge_scan c comp proj (suc fuel) next f1 e2 prev scan ≡ (
          if b
          then merge_scan c comp proj fuel next f1 e2 scan (forward c next scan)
          else some (prev, scan))
  unfolding merge_scan
  scan_round fuel next f1 e2 prev scan b eq = rw eq refl

  -- The scan passes over the items that are ordered before `x`.
  pub merge_scan_lem :
      (fuel : ℕ) (next : Links) (x : ℕ) (front taken rest post : List ℕ) (prev : ℕ)
      → c.item_ok x ≡ true
      → IsForward c next e (front ++ (taken ++ (rest ++ post)))
      → length taken < fuel
      → AllHold (λ z. less z x) taken
      → Stops (λ z. less z x) rest
      → merge_scan c comp proj fuel next
          (item c x)
          (at c post)
          prev
          (at c (taken ++ (rest ++ post)))
        ≡ some (last c.get_entry prev (items c taken), at c (rest ++ post))
  merge_scan_lem zero next x front taken rest post prev ok v lt all stop = absurd (omega arith)
  merge_scan_lem (suc fuel) next x front [] [] post prev ok v lt all stop =
      scan_round fuel next (item c x) (at c post) prev (at c post) false
        (ground (arith, eq→== (at c post) (at c post) refl))
  merge_scan_lem (suc fuel) next x front [] (r ∷ rest) post prev ok v lt all stop =
      let value =
        before_at-items r x (ItemsOk-split c front (r ∷ (rest ++ post)) v.items_ok).1.0 ok in
      let fails = value ∙ stop in
      scan_round fuel next (item c x) (at c post) prev (item c r) false (ground (arith, fails))
  merge_scan_lem (suc fuel) next x front (t ∷ taken) rest post prev ok v lt all stop =
      let value =
        before_at-items t x (ItemsOk-split c front (t ∷ (taken ++ (rest ++ post))) v.items_ok).1.0
          ok in
      let holds = value ∙ all.0 in
      let ne =
        item_ne_at c e front t (taken ++ rest) post (
          subst (λ l. IsForward c next e (front ++ t ∷ l)) (sym (append_assoc taken rest post))
            v) in
      scan_round fuel next (item c x) (at c post) prev (item c t) true (ground (arith, holds, ne))
      ∙ ap (merge_scan c comp proj fuel next (item c x) (at c post) (item c t))
          (forward-item c e front t (taken ++ (rest ++ post)) v)
      ∙ merge_scan_lem fuel next x (front ++ t ∷ []) taken rest post (item c t) ok
          (IsForward-concat c e front t (taken ++ (rest ++ post)) v) (omega arith) all.1 stop
