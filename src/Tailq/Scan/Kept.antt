-- ===== src/Tailq/Scan/Kept.antt =====
-- Lists parted by a predicate, and the scan over the items that it holds of.
use csd_mirror.Prelude.{
  inl, inr, Bool-cases, ℕ, zero, suc, ◌+◌, ◌<◌, ◌≡◌, refl, Bool, true, false, ◌&&◌, some, List, [],
  ◌∷◌, ◌++◌, length, arith, ◌==◌, ◌!=◌, if◌then◌else◌, eq→==, subst, sym, ap, ◌∙◌,
}
use mathlib.Core.List.{append-nil}
use csd_mirror.Intrusive.{EntryRefCodec}
use csd_mirror.Tailq.Memory.{Memory, Head}
use csd_mirror.Tailq.Iterator.{end, deref, forward}
use csd_mirror.Tailq.Valid.{IsRing, ItemsOk-split, item, at}
use csd_mirror.Tailq.Walk.{forward-item, item_ne_at, IsRing-concat}
use csd_mirror.Tailq.Scan.{scan_while}

-- The items that are kept, and the number of the others.
abbrev pub kept : (ℕ → Bool) → List ℕ → List ℕ
kept p [] = []
kept p (x ∷ xs) = if p x then kept p xs else x ∷ kept p xs

abbrev pub removed : (ℕ → Bool) → List ℕ → ℕ
removed p [] = 0
removed p (x ∷ xs) = if p x then suc (removed p xs) else removed p xs

abbrev pub AllHold : (ℕ → Bool) → List ℕ → Type 0
AllHold p [] = Unit
AllHold p (x ∷ xs) = (p x ≡ true) × AllHold p xs

abbrev pub Stops : (ℕ → Bool) → List ℕ → Type 0
Stops p [] = Unit
Stops p (x ∷ xs) = p x ≡ false

-- The longest front part that `p` holds of.
pub split :
    (p : ℕ → Bool) (xs : List ℕ)
    → (taken : List ℕ) × (rest : List ℕ) × (xs ≡ taken ++ rest) × AllHold p taken × Stops p rest
split p [] = ([], [], refl, tt, tt)
split p (x ∷ xs) = elim (Bool-cases (p x)) [
  | inl held ↦
      let (taken, rest, eq, all, stop) = split p xs in
      (x ∷ taken, rest, ap (◌∷◌ x) eq, (held, all), stop)
  | inr fails ↦ ([], x ∷ xs, refl, tt, fails)
]

pub kept-append : (p : ℕ → Bool) (xs ys : List ℕ) → AllHold p xs → kept p (xs ++ ys) ≡ kept p ys
kept-append p [] ys all = refl
kept-append p (x ∷ xs) ys all = rw (all.0) (kept-append p xs ys all.1)

pub removed-append :
    (p : ℕ → Bool) (xs ys : List ℕ) → AllHold p xs → removed p (xs ++ ys) ≡ length xs + removed p ys
removed-append p [] ys all = omega arith
removed-append p (x ∷ xs) ys all = rw (all.0) (omega (arith, removed-append p xs ys all.1))

module _ (c : EntryRefCodec) where
  scan_step :
      (fuel : ℕ) (m : Memory) (p : ℕ → Bool) (scan e n : ℕ) (b : Bool)
      → (scan != e && p (deref c scan)) ≡ b
      → scan_while c (suc fuel) m p scan e n
        ≡ (if b then scan_while c fuel m p (forward c m scan) e (suc n) else some (scan, n))
  unfolding scan_while
  scan_step fuel m p scan e n b eq = rw eq refl

  pub deref-item : (x : ℕ) → c.item_ok x ≡ true → deref c (item c x) ≡ x
  unfolding deref
  deref-item x ok = c.get_value-item x ok

  pub item_ne_end :
      (m : Memory) (h : Head) (pre : List ℕ) (x : ℕ) (post : List ℕ)
      → IsRing c m h.end_entry (pre ++ x ∷ post)
      → (item c x == end c h) ≡ false
  item_ne_end m h pre x post v =
      item_ne_at c h pre x post []
        (subst (λ l. IsRing c m h.end_entry (pre ++ x ∷ l)) (sym (append-nil post)) v)

  pub scan_while_lem :
      (fuel : ℕ) (m : Memory) (h : Head) (p : ℕ → Bool) (pre taken rest : List ℕ) (n : ℕ)
      → IsRing c m h.end_entry (pre ++ (taken ++ rest))
      → length taken < fuel
      → AllHold p taken
      → Stops p rest
      → scan_while c fuel m p (at c h (taken ++ rest)) (end c h) n
        ≡ some (at c h rest, length taken + n)
  unfolding scan_while deref
  scan_while_lem zero m h p pre taken rest n v lt all stop = absurd (omega arith)
  scan_while_lem (suc fuel) m h p pre [] [] n v lt all stop =
      let zero_more : some (end c h, n) ≡ some (end c h, 0 + n) =
        ap (λ k. some (end c h, k)) (omega arith) in
      scan_step fuel m p (end c h) (end c h) n false
        (ground (arith, eq→== (end c h) (end c h) refl))
      ∙ zero_more
  scan_while_lem (suc fuel) m h p pre [] (r ∷ rs) n v lt all stop =
      let value = deref-item r (ItemsOk-split c pre (r ∷ rs) v.items_ok).1.0 in
      let zero_more : some (item c r, n) ≡ some (item c r, 0 + n) =
        ap (λ k. some (item c r, k)) (omega arith) in
      let fails = ap p value ∙ stop in
      scan_step fuel m p (item c r) (end c h) n false (ground (arith, fails)) ∙ zero_more
  scan_while_lem (suc fuel) m h p pre (x ∷ taken) rest n v lt all stop =
      let value = deref-item x (ItemsOk-split c pre (x ∷ (taken ++ rest)) v.items_ok).1.0 in
      let holds = ap p value ∙ all.0 in
      let more : some (at c h rest, length taken + suc n)
          ≡ some (at c h rest, suc (length taken) + n) =
        ap (λ k. some (at c h rest, k)) (omega arith) in
      scan_step fuel m p (item c x) (end c h) n true
        (ground (arith, holds, item_ne_end m h pre x (taken ++ rest) v))
      ∙ ap (λ i. scan_while c fuel m p i (end c h) (suc n))
          (forward-item c h pre x (taken ++ rest) v)
      ∙ scan_while_lem fuel m h p (pre ++ x ∷ []) taken rest (suc n)
          (IsRing-concat c h pre x (taken ++ rest) v) (omega arith) all.1 stop
      ∙ more
