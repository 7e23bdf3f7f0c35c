-- ===== src/Chain/Reverse.antt =====
-- The loop of `reverse` of both singly linked lists.
use csd_mirror.Prelude.{
  member_ne, one_apart, Distinct-insert, ℕ, zero, suc, ◌<◌, ◌≡◌, refl, true, false, Option, some,
  List, [], ◌∷◌, ◌++◌, map, length, arith, has, has-append, Distinct, ◌==◌, if◌then◌else◌, eq→==,
  subst, sym, ap, ◌∙◌,
}
use mathlib.Core.List.{reverse, reverse_aux, append-nil}
use csd_mirror.Intrusive.{EntryRefCodec}
use csd_mirror.Tailq.Memory.{update}
use csd_mirror.Tailq.Valid.{item, items, ItemsOk}
use csd_mirror.Tailq.Scan.Turn.{map-reverse}
use csd_mirror.Tailq.Scan.Reverse.{ItemsOk-reverse, Distinct-turned}
use csd_mirror.Chain.{Links, forward}
use csd_mirror.Chain.Laws.{IsChain, IsChain-frame}
use csd_mirror.Chain.Forward.{IsForward, at, item_not_null, forward-behind}

module _ (c : EntryRefCodec) where
  -- The items are chained from the first of them on.
  abbrev pub IsTail : Links → List ℕ → Type 0
  IsTail next [] = Unit
  IsTail next (x ∷ xs) = IsChain c.get_entry next (item c x) (items c xs)

  abbrev es : List ℕ → List ℕ
  es xs = map c.get_entry (items c xs)

  IsTail-frame :
      (next next' : Links) (xs : List ℕ)
      → ((x : ℕ) → has x (es xs) ≡ true → next' x ≡ next x)
      → IsTail next xs
      → IsTail next' xs
  IsTail-frame next next' [] same k = tt
  IsTail-frame next next' (x ∷ xs) same k =
      IsChain-frame c.get_entry next next' (item c x) (items c xs) same k

  IsTail-rest : (next : Links) (x : ℕ) (xs : List ℕ) → IsTail next (x ∷ xs) → IsTail next xs
  IsTail-rest next x [] k = tt
  IsTail-rest next x (y ∷ xs) k = k.1

  pub IsTail-IsChain :
      (next : Links) (a : ℕ) (xs : List ℕ)
      → next (c.get_entry a) ≡ at c xs
      → IsTail next xs
      → IsChain c.get_entry next a (items c xs)
  IsTail-IsChain next a [] to k = to
  IsTail-IsChain next a (x ∷ xs) to k = (to, k)

  IsChain-IsTail :
      (next : Links) (a : ℕ) (xs : List ℕ)
      → IsChain c.get_entry next a (items c xs)
      → IsTail next xs
  IsChain-IsTail next a [] k = tt
  IsChain-IsTail next a (x ∷ xs) k = k.1

  IsTail-next :
      (next : Links) (x : ℕ) (xs : List ℕ)
      → IsTail next (x ∷ xs)
      → forward c next (item c x) ≡ at c xs
  IsTail-next next x [] k = k
  IsTail-next next x (y ∷ xs) k = k.0

  module _ (loop : ℕ → Links → (i prev : ℕ) → Option (Links × ℕ))
      (round : (fuel : ℕ) (next : Links) (i prev : ℕ)
        → loop (suc fuel) next i prev ≡ (
            if i == 0
            then some (next, prev)
            else loop fuel (update next (c.get_entry i) prev) (forward c next i) i)) where
    pub reverse_from_lem :
        (fuel : ℕ) (next : Links) (xs ds : List ℕ)
        → length xs < fuel
        → ItemsOk c xs
        → IsTail next xs
        → IsTail next ds
        → Distinct (es xs ++ es ds)
        → (next' : Links) × (loop fuel next (at c xs) (at c ds)
            ≡ some (next', at c (reverse_aux xs ds)))
          × IsTail next' (reverse_aux xs ds)
          × ((x : ℕ) → has x (es xs) ≡ false → next' x ≡ next x)
    reverse_from_lem zero next xs ds lt ok k k' d = absurd (omega arith)
    reverse_from_lem (suc fuel) next [] ds lt ok k k' d =
        (next, round fuel next 0 (at c ds), k', λ x n. refl)
    reverse_from_lem (suc fuel) next (x ∷ xs) ds lt ok k k' d =
        let next1 = update next (c.get_entry (item c x)) (at c ds) in
        let ex = c.get_entry (item c x) in
        let parts = has-append ex (es xs) (es ds) in
        let not_xs : has ex (es xs) ≡ false = ground (arith, parts, d.0) in
        let not_ds : has ex (es ds) ≡ false = ground (arith, parts, d.0) in
        let follows = IsTail-next next x xs k in
        let turned : IsTail next1 (x ∷ ds) =
          IsTail-IsChain next1 (item c x) ds (ground (arith, eq→== ex ex refl)) (
            IsTail-frame next next1 ds (λ w n. ground (arith, member_ne ex w (es ds) not_ds n))
              k') in
        let (next', eq, done, same) =
          reverse_from_lem fuel next1 xs (x ∷ ds) (omega arith) ok.1
            (IsTail-frame next next1 xs (λ w n. ground (arith, member_ne ex w (es xs) not_xs n))
              (IsTail-rest next x xs k))
            turned
            (Distinct-insert (es xs) (ex ∷ []) (es ds) d.1 (refl, tt)
              (one_apart ex (es xs ++ es ds) d.0)) in
        (
          next',
          round fuel next (item c x) (at c ds)
              ∙ rw (item_not_null c x ok.0) (ap (λ i. loop fuel next1 i (item c x)) follows)
              ∙ eq,
          done,
          λ w n. ground (arith, same w),
        )

    -- The loop over the items of a list, and the link of the head entry set to what it leaves.
    pub reverse_chain :
        (fuel : ℕ) (next : Links) (e : ℕ) (xs : List ℕ)
        → IsForward c next e xs
        → length xs < fuel
        → (next' : Links) × (loop fuel next (forward c next (c.create_direct_entry_ref e)) 0
            ≡ some (next', at c (reverse xs)))
          × IsForward c (update next' e (at c (reverse xs))) e (reverse xs)
    reverse_chain fuel next e xs v lt =
        let d = c.create_direct_entry_ref e in
        let start = forward-behind c e [] xs v in
        let (next', eq, done, same) =
          reverse_from_lem fuel next xs [] lt v.items_ok (IsChain-IsTail next d xs v.chain) tt
            (subst Distinct (sym (append-nil (es xs))) v.distinct.1) in
        let next2 = update next' e (at c (reverse xs)) in
        let distinct =
          subst (λ l. Distinct (c.get_entry d ∷ map c.get_entry l)) (sym (map-reverse (item c) xs))
            (Distinct-turned c.get_entry d (items c xs) v.distinct) in
        let e_eq = c.get_entry-direct e v.head_ok in
        let not_head : has e (es (reverse xs)) ≡ false =
          subst (λ a. has a (es (reverse xs)) ≡ false) e_eq distinct.0 in
        (
          next',
          rw start eq,
          record {
            head_ok = v.head_ok;
            items_ok = ItemsOk-reverse c xs v.items_ok;
            chain = IsTail-IsChain next2 d (reverse xs) (ground (arith, e_eq, eq→== e e refl)) (
                IsTail-frame next' next2 (reverse xs)
                  (λ w n. ground (arith, member_ne e w (es (reverse xs)) not_head n)) done);
            distinct = distinct;
          },
        )
