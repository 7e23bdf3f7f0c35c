-- ===== src/Tailq/Scan/Unique.antt =====
-- `unique` keeps the first of each run of equivalent items.
use csd_mirror.Prelude.{
  inl, inr, Bool-cases, ◌!=◌, ℕ, zero, suc, ◌+◌, ◌<◌, ◌≡◌, refl, Bool, true, false, some, List, [],
  ◌∷◌, ◌++◌, length, length-append, arith, ◌==◌, if◌then◌else◌, eq→==, subst, sym, ap, ◌∙◌,
}
use mathlib.Core.List.{append_assoc}
use csd_mirror.Intrusive.{EntryRefCodec}
use csd_mirror.Utility.{projections_are_equivalent}
use csd_mirror.Tailq.Memory.{Memory, Head}
use csd_mirror.Tailq.Iterator.{end, deref, forward}
use csd_mirror.Tailq.Cycle.{first}
use csd_mirror.Tailq.Valid.{IsTailq, ItemsOk-split, item, items, at}
use csd_mirror.Tailq.Walk.{begin-at, forward-item}
use csd_mirror.Tailq.Range.{erase_range}
use csd_mirror.Tailq.Range.Erase.{erase_range_lem}
use csd_mirror.Tailq.Scan.{scan_while, erase_duplicates, unique_from, unique}
use csd_mirror.Tailq.Scan.Kept.{AllHold, Stops, split, scan_while_lem, deref-item, item_ne_end}

-- Of each run of items that are equivalent to its first, the first, where `x` comes before all.
abbrev pub distinct_after : (ℕ → ℕ → Bool) → ℕ → List ℕ → List ℕ
distinct_after eqv x [] = []
distinct_after eqv x (y ∷ ys) =
    if eqv x y then distinct_after eqv x ys else y ∷ distinct_after eqv y ys

abbrev pub distinct_runs : (ℕ → ℕ → Bool) → List ℕ → List ℕ
distinct_runs eqv [] = []
distinct_runs eqv (x ∷ xs) = x ∷ distinct_after eqv x xs

-- The items equivalent to `x` are passed over.
distinct_after-append :
    (eqv : ℕ → ℕ → Bool) (x : ℕ) (taken rest : List ℕ)
    → AllHold (eqv x) taken
    → Stops (eqv x) rest
    → distinct_after eqv x (taken ++ rest) ≡ distinct_runs eqv rest
distinct_after-append eqv x [] [] all stop = refl
distinct_after-append eqv x [] (r ∷ rest) all stop = rw stop refl
distinct_after-append eqv x (t ∷ taken) rest all stop =
    rw (all.0) (distinct_after-append eqv x taken rest all.1 stop)

module _ {ℓ} {A : Type ℓ} (c : EntryRefCodec) (eq : A → A → Bool) (proj : ℕ → A) where
  abbrev pub equivalent : ℕ → ℕ → Bool
  equivalent = projections_are_equivalent proj eq

  at_end :
      (fuel : ℕ) (m : Memory) (h : Head)
      → unique_from c eq proj (suc fuel) m h (end c h) ≡ some (m, h)
  unfolding unique_from
  at_end fuel m h = rw (eq→== (end c h) (end c h) refl) refl

  round :
      (fuel : ℕ) (m m' : Memory) (h h' : Head) (i s k r : ℕ)
      → (i == end c h) ≡ false
      → scan_while c fuel m (equivalent (deref c i)) (forward c m i) (end c h) 0 ≡ some (s, k)
      → erase_duplicates c fuel m h (forward c m i) s ≡ some (m', h', r)
      → unique_from c eq proj (suc fuel) m h i ≡ unique_from c eq proj fuel m' h' r
  unfolding unique_from projections_are_equivalent
  round fuel m m' h h' i s k r ne scanned erased = rw ne (rw scanned (rw erased refl))

  -- Where there are none, `erase` would do nothing either.
  erase_duplicates_lem :
      (fuel : ℕ) (m : Memory) (h : Head) (i j : ℕ)
      → erase_duplicates c fuel m h i j ≡ erase_range c fuel m h i j
  unfolding erase_duplicates erase_range
  erase_duplicates_lem fuel m h i j = elim (Bool-cases (i == j)) [
    | inl same ↦
        let equal : i ≡ j = ground arith in
        let differs : (j != j) ≡ false = ground (arith, eq→== j j refl) in
        rw equal (rw (differs, eq→== j j refl) refl)
    | inr other ↦ let differs : (i != j) ≡ true = ground arith in rw differs refl
  ]

  abbrev Uniqued : ℕ → Memory → Head → (i : ℕ) → (pre post : List ℕ) → Type 0
  Uniqued fuel m h i pre post =
      (m' : Memory) × (h' : Head) × (unique_from c eq proj fuel m h i ≡ some (m', h'))
      × IsTailq c m' h' (pre ++ distinct_runs equivalent post)

  unique_from_lem :
      (fuel : ℕ) (m : Memory) (h : Head) (pre post : List ℕ)
      → IsTailq c m h (pre ++ post)
      → suc (length post) < fuel
      → Uniqued fuel m h (at c h post) pre post
  unique_from_lem zero m h pre post v lt = absurd (omega arith)
  unique_from_lem (suc fuel) m h pre [] v lt = (m, h, at_end fuel m h, v)
  unique_from_lem (suc fuel) m h pre (x ∷ xs) v lt =
      let value = deref-item c x (ItemsOk-split c pre (x ∷ xs) v.ring.items_ok).1.0 in
      let behind = forward-item c h pre x xs v.ring in
      let (taken, rest, parted, all, stop) = split (equivalent x) xs in
      let n = length-append {0} taken rest in
      let shorter = subst (λ l. suc (suc (length l)) < suc fuel) parted lt in
      let v' : IsTailq c m h ((pre ++ x ∷ []) ++ (taken ++ rest)) =
        subst (IsTailq c m h)
          (ap (λ l. pre ++ x ∷ l) parted ∙ sym (append_assoc pre (x ∷ []) (taken ++ rest))) v in
      let scanned =
        subst
          (λ z.
            scan_while c fuel m (equivalent z) (forward c m (item c x)) (end c h) 0
            ≡ some (at c h rest, length taken + 0))
          (sym value)
          (ap (λ i. scan_while c fuel m (equivalent x) i (end c h) 0) (behind ∙ ap (at c h) parted)
            ∙ scan_while_lem c fuel m h (equivalent x) (pre ++ x ∷ []) taken rest 0 v'.ring
                (omega arith) all stop) in
      let (m', h', erased, w, same_end, _, _) =
        erase_range_lem c fuel m h (pre ++ x ∷ []) taken rest v' (omega arith) in
      let (m1, h1, found, done) = unique_from_lem fuel m' h' (pre ++ x ∷ []) rest w (omega arith) in
      let next =
        round fuel m m' h h' (item c x) (at c h rest) (length taken + 0) (at c h rest)
          (item_ne_end c m h pre x xs v.ring) scanned
          (erase_duplicates_lem fuel m h (forward c m (item c x)) (at c h rest)
            ∙ ap (λ i. erase_range c fuel m h i (at c h rest)) (behind ∙ ap (at c h) parted)
            ∙ erased) in
      let outcome : (pre ++ x ∷ []) ++ distinct_runs equivalent rest
          ≡ pre ++ distinct_runs equivalent (x ∷ xs) =
        append_assoc pre (x ∷ []) (distinct_runs equivalent rest)
        ∙ ap (λ l. pre ++ x ∷ l)
            (sym (
              ap (distinct_after equivalent x) parted
              ∙ distinct_after-append equivalent x taken rest all stop)) in
      (
        m1,
        h1,
        next
            ∙ ap
                (λ e.
                  unique_from c eq proj fuel m' h'
                    (first c.get_entry (c.create_direct_entry_ref e) (items c rest)))
                (sym same_end)
            ∙ found,
        subst (IsTailq c m1 h1) outcome done,
      )

  -- With fuel for two more rounds than there are items, `unique` gives a result: a list of the
  -- items that are not equivalent to the last one that was kept before them, in their order.
  pub unique_lem :
      (fuel : ℕ) (m : Memory) (h : Head) (xs : List ℕ)
      → IsTailq c m h xs
      → suc (length xs) < fuel
      → (m' : Memory) × (h' : Head) × (unique c eq proj fuel m h ≡ some (m', h'))
        × IsTailq c m' h' (distinct_runs (projections_are_equivalent proj eq) xs)
  unfolding unique
  unique_lem fuel m h xs v lt =
      let (m', h', found, done) = unique_from_lem fuel m h [] xs v lt in
      (m', h', ap (unique_from c eq proj fuel m h) (begin-at c h xs v.ring) ∙ found, done)
