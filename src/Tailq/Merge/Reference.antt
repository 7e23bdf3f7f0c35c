-- ===== src/Tailq/Merge/Reference.antt =====
-- What the merge loop makes of two sequences, told on the sequences alone, and what follows from it.
use csd_mirror.Prelude.{
  has, has-append, ◌||◌, ℕ, ◌+◌, length, length-append, arith, Bool, true, false, ◌≡◌, refl, sym,
  subst, List, [], ◌∷◌, ◌++◌, if◌then◌else◌,
}
use mathlib.Core.List.{Perm, perm_middle, append-nil}
use mathlib.Core.List.Perm
use csd_mirror.Tailq.Scan.Kept.{AllHold, Stops}

-- A strict weak order, as a Boolean test: two that are not ordered either way are equivalent.
pub record IsStrictWeakOrder {ℓ} {A : Type ℓ} (comp : A → A → Bool) : Type ℓ where
  pub asym : (a b : A) → comp a b ≡ true → comp b a ≡ false
  pub trans : (a b d : A) → comp b a ≡ false → comp d b ≡ false → comp d a ≡ false

module _ (less : ℕ → ℕ → Bool) where
  -- No item of the list is ordered before `x`.
  abbrev pub Bounds : ℕ → List ℕ → Type 0
  Bounds x [] = Unit
  Bounds x (y ∷ ys) = (less y x ≡ false) × Bounds x ys

  -- No item is ordered before an earlier one.
  abbrev pub Ascending : List ℕ → Type 0
  Ascending [] = Unit
  Ascending (x ∷ xs) = Bounds x xs × Ascending xs

  -- The third list comes of the first two: the first item of the first is kept where it is ordered
  -- before the second's; otherwise the second's first and all that are ordered before the item are
  -- moved in front of it, and then it is kept.
  pub data Merged : List ℕ → List ℕ → List ℕ → Type 0 where
    left : (xs : List ℕ) → Merged xs [] xs
    right : (ys : List ℕ) → Merged [] ys ys
    keep :
        (x : ℕ) (xs : List ℕ) (y : ℕ) (ys zs : List ℕ)
        → less x y ≡ true
        → Merged xs (y ∷ ys) zs
        → Merged (x ∷ xs) (y ∷ ys) (x ∷ zs)
    move :
        (x : ℕ) (xs : List ℕ) (y : ℕ) (ys taken rest zs ws : List ℕ)
        → less x y ≡ false
        → AllHold (λ z. less z x) taken
        → Stops (λ z. less z x) rest
        → ys ≡ taken ++ rest
        → ws ≡ taken ++ x ∷ zs
        → Merged xs rest zs
        → Merged (x ∷ xs) (y ∷ ys) (y ∷ ws)

  -- The order of the items that are merged in does not matter to what is there.
  Perm-front : (xs ts rest : List ℕ) → Perm (xs ++ (ts ++ rest)) (ts ++ (xs ++ rest))
  Perm-front xs [] rest = Perm.refl (xs ++ rest)
  Perm-front xs (t ∷ ts) rest =
      Perm.trans (perm_middle xs (ts ++ rest)) (Perm.cons t (Perm-front xs ts rest))

  move-Perm :
      (x : ℕ) (xs ts rest zs : List ℕ)
      → Perm (xs ++ rest) zs
      → Perm (x ∷ (xs ++ (ts ++ rest))) (ts ++ x ∷ zs)
  move-Perm x xs ts rest zs p =
      Perm.trans (Perm.cons x (Perm.trans (Perm-front xs ts rest) (Perm.append_left ts p)))
        (Perm.symm (perm_middle ts zs))

  pub Merged-Perm : {xs ys zs : List ℕ} → Merged xs ys zs → Perm (xs ++ ys) zs
  Merged-Perm (left xs) = rw (append-nil xs) (Perm.refl xs)
  Merged-Perm (right ys) = Perm.refl ys
  Merged-Perm (keep x xs y ys zs lt r) = Perm.cons x (Merged-Perm r)
  Merged-Perm (move x xs y ys taken rest zs ws ge all stop eq eq' r) =
      rw (eq, eq') (move-Perm x xs (y ∷ taken) rest zs (Merged-Perm r))

  pub Merged-length : {xs ys zs : List ℕ} → Merged xs ys zs → length zs ≡ length xs + length ys
  Merged-length (left xs) = omega arith
  Merged-length (right ys) = omega arith
  Merged-length (keep x xs y ys zs lt r) = omega (arith, Merged-length r)
  Merged-length (move x xs y ys taken rest zs ws ge all stop eq eq' r) =
      rw (eq, eq')
        (omega
          (arith, Merged-length r, length-append {0} taken rest, length-append {0} taken (x ∷ zs)))

  -- The outcome has the items of both sequences.
  pub Merged-has : {xs ys zs : List ℕ} (w : ℕ) → Merged xs ys zs → has w zs ≡ (has w xs || has w ys)
  Merged-has w (left xs) = ground arith
  Merged-has w (right ys) = refl
  Merged-has w (keep x xs y ys zs lt r) = ground (arith, Merged-has w r)
  Merged-has w (move x xs y ys taken rest zs ws ge all stop eq eq' r) =
      rw (eq, eq')
        (ground (arith, Merged-has w r, has-append w taken rest, has-append w taken (x ∷ zs)))

  -- The first item of the outcome is one of the two first ones.
  pub Merged-first :
      {x y : ℕ} {xs ys zs : List ℕ}
      → Merged (x ∷ xs) (y ∷ ys) zs
      → (ws : List ℕ) × (zs ≡ (if less x y then x else y) ∷ ws)
  Merged-first (keep x xs y ys zs lt r) = (zs, rw lt refl)
  Merged-first (move x xs y ys taken rest zs ws ge all stop eq eq' r) = (ws, rw ge refl)

  Bounds-split : (a : ℕ) (xs ys : List ℕ) → Bounds a (xs ++ ys) → Bounds a xs × Bounds a ys
  Bounds-split a [] ys b = (tt, b)
  Bounds-split a (x ∷ xs) ys b = let (l, r) = Bounds-split a xs ys b.1 in ((b.0, l), r)

  Bounds-append : (a : ℕ) (xs ys : List ℕ) → Bounds a xs → Bounds a ys → Bounds a (xs ++ ys)
  Bounds-append a [] ys b b' = b'
  Bounds-append a (x ∷ xs) ys b b' = (b.0, Bounds-append a xs ys b.1 b')

  Bounds-Merged :
      (a : ℕ) {xs ys zs : List ℕ} → Merged xs ys zs → Bounds a xs → Bounds a ys → Bounds a zs
  Bounds-Merged a (left xs) b b' = b
  Bounds-Merged a (right ys) b b' = b'
  Bounds-Merged a (keep x xs y ys zs lt r) b b' = (b.0, Bounds-Merged a r b.1 b')
  Bounds-Merged a (move x xs y ys taken rest zs ws ge all stop eq eq' r) b b' =
      let (t, s) = Bounds-split a taken rest (subst (Bounds a) eq b'.1) in
      (
        b'.0,
        subst (Bounds a) (sym eq')
            (Bounds-append a taken (x ∷ zs) t (b.0, Bounds-Merged a r b.1 s)),
      )

  Ascending-split : (xs ys : List ℕ) → Ascending (xs ++ ys) → Ascending xs × Ascending ys
  Ascending-split [] ys s = (tt, s)
  Ascending-split (x ∷ xs) ys s =
      let (l, r) = Ascending-split xs ys s.1 in (((Bounds-split x xs ys s.0).0, l), r)

  module _ (asym : (a b : ℕ) → less a b ≡ true → less b a ≡ false)
      (trans : (a b d : ℕ) → less b a ≡ false → less d b ≡ false → less d a ≡ false) where
    Bounds-trans : (a b : ℕ) (xs : List ℕ) → less b a ≡ false → Bounds b xs → Bounds a xs
    Bounds-trans a b [] le s = tt
    Bounds-trans a b (x ∷ xs) le s = (trans a b x le s.0, Bounds-trans a b xs le s.1)

    -- What stops the scan bounds all that is behind it.
    Stops-Bounds :
        (x : ℕ) (rest : List ℕ) → Stops (λ z. less z x) rest → Ascending rest → Bounds x rest
    Stops-Bounds x [] stop s = tt
    Stops-Bounds x (r ∷ rest) stop s = (stop, Bounds-trans x r rest stop s.0)

    Ascending-insert :
        (ts : List ℕ) (x : ℕ) (zs : List ℕ)
        → Ascending ts
        → AllHold (λ z. less z x) ts
        → Bounds x zs
        → Ascending zs
        → Ascending (ts ++ x ∷ zs)
    Ascending-insert [] x zs st all b s = (b, s)
    Ascending-insert (t ∷ ts) x zs st all b s = (
      Bounds-append t ts (x ∷ zs) st.0 (let le = asym t x all.0 in (le, Bounds-trans t x zs le b)),
      Ascending-insert ts x zs st.1 all.1 b s,
    )

    pub Merged-Ascending :
        {xs ys zs : List ℕ} → Merged xs ys zs → Ascending xs → Ascending ys → Ascending zs
    Merged-Ascending (left xs) s s' = s
    Merged-Ascending (right ys) s s' = s'
    Merged-Ascending (keep x xs y ys zs lt r) s s' =
        let le = asym x y lt in
        (Bounds-Merged x r s.0 (le, Bounds-trans x y ys le s'.0), Merged-Ascending r s.1 s')
    Merged-Ascending (move x xs y ys taken rest zs ws ge all stop eq eq' r) s s' =
        let (bt, br) = Bounds-split y taken rest (subst (Bounds y) eq s'.0) in
        let (st, sr) = Ascending-split taken rest (subst Ascending eq s'.1) in
        let bz = Bounds-Merged x r s.0 (Stops-Bounds x rest stop sr) in
        let sz = Merged-Ascending r s.1 sr in
        (
          subst (Bounds y) (sym eq')
              (Bounds-append y taken (x ∷ zs) bt (ge, Bounds-trans y x zs ge bz)),
          subst Ascending (sym eq') (Ascending-insert taken x zs st all bz sz),
        )
