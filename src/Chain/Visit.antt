-- ===== src/Chain/Visit.antt =====
-- include/csg/core/slist.h: `for_each_safe`, whose function may change the links of the item that it
-- is given. The state of the caller is passed through the calls.
use csd_mirror.Prelude.{
  ℕ, zero, suc, ◌<◌, ◌≡◌, refl, true, Option, none, some, List, [], ◌∷◌, map, length, arith, has,
  ◌==◌, if◌then◌else◌, ap, ◌∙◌,
}
use csd_mirror.Intrusive.{EntryRefCodec}
use csd_mirror.Tailq.Valid.{item, items, ItemsOk}
use csd_mirror.Chain.{Links, deref, forward}
use csd_mirror.Chain.Laws.{IsChain, IsChain-frame}
use csd_mirror.Chain.Forward.{IsForward, at, item_not_null, forward-behind}

module _ {ℓ ℓ'} {A : Type ℓ} {S : Type ℓ'} (c : EntryRefCodec) (proj : ℕ → A)
    (f : Links → S → A → Links × S) where
  -- `std::invoke(f, std::invoke(proj, *first++))` for each position: the step comes before the call.
  unfoldable pub for_each_safe : ℕ → Links → S → (first last : ℕ) → Option (Links × S)
  unfolding deref
  for_each_safe zero next s first last = none
  for_each_safe (suc fuel) next s first last =
      let (next', s') = f next s (proj (deref c first)) in
      let rest = for_each_safe fuel next' s' (forward c next first) last in
      if first == last then some (next, s) else rest

  -- The calls for the items of a list, in order.
  abbrev pub call_all : Links → S → List ℕ → Links × S
  call_all next s [] = (next, s)
  call_all next s (x ∷ xs) = let (next', s') = f next s (proj x) in call_all next' s' xs

  -- Each call leaves the links of the items that are still to come.
  abbrev pub LeavesRest : Links → S → List ℕ → Type 0
  LeavesRest next s [] = Unit
  LeavesRest next s (x ∷ xs) =
      let (next', s') = f next s (proj x) in
      ((w : ℕ) → has w (map c.get_entry (items c xs)) ≡ true → next' w ≡ next w)
      × LeavesRest next' s' xs

  abbrev Ahead : Links → List ℕ → Type 0
  Ahead next [] = Unit
  Ahead next (x ∷ xs) = IsChain c.get_entry next (item c x) (items c xs)

  Ahead-at :
      (next : Links) (x : ℕ) (xs : List ℕ)
      → Ahead next (x ∷ xs)
      → (forward c next (item c x) ≡ at c xs) × Ahead next xs
  Ahead-at next x [] k = (k, tt)
  Ahead-at next x (y ∷ xs) k = k

  Ahead-frame :
      (next next' : Links) (xs : List ℕ)
      → ((w : ℕ) → has w (map c.get_entry (items c xs)) ≡ true → next' w ≡ next w)
      → Ahead next xs
      → Ahead next' xs
  Ahead-frame next next' [] same k = tt
  Ahead-frame next next' (x ∷ xs) same k =
      IsChain-frame c.get_entry next next' (item c x) (items c xs) same k

  visit-Ahead :
      (fuel : ℕ) (next : Links) (s : S) (xs : List ℕ)
      → length xs < fuel
      → ItemsOk c xs
      → Ahead next xs
      → LeavesRest next s xs
      → for_each_safe fuel next s (at c xs) 0 ≡ some (call_all next s xs)
  unfolding for_each_safe
  visit-Ahead zero next s xs lt ok k leaves = absurd (omega arith)
  visit-Ahead (suc fuel) next s [] lt ok k leaves = refl
  visit-Ahead (suc fuel) next s (x ∷ xs) lt ok k leaves =
      let (next', s') = f next s (proj x) in
      let (follows, ahead) = Ahead-at next x xs k in
      rw (item_not_null c x ok.0) (
        rw (c.get_value-item x ok.0) (
          rw follows (
            visit-Ahead fuel next' s' xs (omega arith) ok.1
              (Ahead-frame next next' xs leaves.0 ahead) leaves.1)))

  Ahead-start :
      (next : Links) (a : ℕ) (xs : List ℕ) → IsChain c.get_entry next a (items c xs) → Ahead next xs
  Ahead-start next a [] k = tt
  Ahead-start next a (x ∷ xs) k = k.1

  -- With more fuel than there are items, and a function each of whose calls leaves the links of the
  -- items that are still to come, `for_each_safe` over a singly linked list gives the result of
  -- calling the function with the projection of every item once, in order, even where the calls
  -- overwrite the links of the items that they are given.
  pub for_each_safe_lem :
      (fuel : ℕ) (next : Links) (s : S) (e : ℕ) (xs : List ℕ)
      → IsForward c next e xs
      → LeavesRest next s xs
      → length xs < fuel
      → for_each_safe fuel next s (forward c next (c.create_direct_entry_ref e)) 0
        ≡ some (call_all next s xs)
  for_each_safe_lem fuel next s e xs v leaves lt =
      ap (λ i. for_each_safe fuel next s i 0) (forward-behind c e [] xs v)
      ∙ visit-Ahead fuel next s xs lt v.items_ok
          (Ahead-start next (c.create_direct_entry_ref e) xs v.chain) leaves
