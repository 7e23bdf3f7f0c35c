-- ===== src/Tailq/Scan/Remove.antt =====
-- `remove_if` keeps the items that the predicate fails of.
use csd_mirror.Prelude.{
  inl, inr, Bool-cases, ℕ, zero, suc, ◌+◌, ◌<◌, ◌%◌, ◌^◌, ◌≡◌, refl, Bool, true, false, some, List,
  [], ◌∷◌, ◌++◌, length, length-append, arith, ◌==◌, ◌!=◌, if◌then◌else◌, eq→==, subst, sym, ap,
  ◌∙◌,
}
use mathlib.Core.List.{append_assoc}
use native.Mathlib.Nat.{mod-add-mod, zero-mod}
use csd_mirror.Intrusive.{EntryRefCodec}
use csd_mirror.Tailq.Memory.{Memory, Head}
use csd_mirror.Tailq.Iterator.{end, deref, forward}
use csd_mirror.Tailq.Valid.{IsTailq, ItemsOk-split, item, items, at}
use csd_mirror.Tailq.Cycle.{first}
use csd_mirror.Tailq.Walk.{begin-at, forward-item, IsRing-concat}
use csd_mirror.Tailq.Range.{erase_range}
use csd_mirror.Tailq.Range.Erase.{erase_range_lem}
use csd_mirror.Tailq.Difference.{size_width}
use csd_mirror.Tailq.Scan.{scan_while, remove_from, remove_if}
use csd_mirror.Tailq.Scan.Kept.{
  kept, removed, AllHold, Stops, split, kept-append, removed-append, scan_while_lem, deref-item,
  item_ne_end,
}

module _ {ℓ} {A : Type ℓ} (c : EntryRefCodec) (pred : A → Bool) (proj : ℕ → A) where
  abbrev holds : ℕ → Bool
  holds x = pred (proj x)

  at_end :
      (fuel : ℕ) (m : Memory) (h : Head) (n : ℕ)
      → remove_from c pred proj (suc fuel) m h (end c h) n ≡ some (m, h, n)
  unfolding remove_from
  at_end fuel m h n = rw (eq→== (end c h) (end c h) refl) refl

  at_kept :
      (fuel : ℕ) (m : Memory) (h : Head) (i n : ℕ)
      → (i == end c h) ≡ false
      → holds (deref c i) ≡ false
      → remove_from c pred proj (suc fuel) m h i n
        ≡ remove_from c pred proj fuel m h (forward c m i) n
  unfolding remove_from
  at_kept fuel m h i n ne fails = rw ne (rw fails refl)

  at_removed :
      (fuel : ℕ) (m m' : Memory) (h h' : Head) (i n s k : ℕ)
      → (i == end c h) ≡ false
      → holds (deref c i) ≡ true
      → scan_while c fuel m holds (forward c m i) (end c h) 1 ≡ some (s, k)
      → erase_range c fuel m h i s ≡ some (m', h', s)
      → remove_from c pred proj (suc fuel) m h i n
        ≡ remove_from c pred proj fuel m' h'
            (if s != end c h then forward c m' s else s)
            ((n + k) % 2 ^ size_width h.size_member)
  unfolding remove_from
  at_removed fuel m m' h h' i n s k ne held scanned erased =
      rw ne (rw held (rw scanned (rw erased refl)))

  abbrev Removed : ℕ → Memory → Head → (i n k : ℕ) → (pre post : List ℕ) → Type 0
  Removed fuel m h i n k pre post =
      (m' : Memory) × (h' : Head) × (n' : ℕ) × (remove_from c pred proj fuel m h i n
        ≡ some (m', h', n'))
      × IsTailq c m' h' (pre ++ kept holds post)
      × (n' ≡ (k + removed holds post) % 2 ^ size_width h.size_member)

  abbrev width : Head → ℕ
  width h = 2 ^ size_width h.size_member

  abbrev Continues : ℕ → Type 0
  Continues fuel =
      (m : Memory) (h : Head) (pre post : List ℕ) (n k : ℕ)
      → IsTailq c m h (pre ++ post)
      → suc (length post) < fuel
      → n ≡ k % width h
      → Removed fuel m h (at c h post) n k pre post

  -- An item that is kept goes to the front part.
  pass :
      (fuel : ℕ) (m : Memory) (h : Head) (i n k : ℕ) (pre : List ℕ) (x : ℕ) (xs : List ℕ)
      → holds x ≡ false
      → Removed fuel m h i n k (pre ++ x ∷ []) xs
      → Removed fuel m h i n k pre (x ∷ xs)
  pass fuel m h i n k pre x xs fails (m', h', n', eq, done, total) =
      let kept_eq : x ∷ kept holds xs ≡ kept holds (x ∷ xs) = rw fails refl in
      let removed_eq : removed holds xs ≡ removed holds (x ∷ xs) = rw fails refl in
      (
        m',
        h',
        n',
        eq,
        subst (IsTailq c m' h')
            (append_assoc pre (x ∷ []) (kept holds xs) ∙ ap (λ l. pre ++ l) kept_eq) done,
        total ∙ ap (λ j. (k + j) % width h) removed_eq,
      )

  -- The round behind the erased items.
  resume :
      (fuel : ℕ) (m : Memory) (h : Head) (e : ℕ) (pre rest : List ℕ) (n k : ℕ)
      → Continues fuel
      → h.end_entry ≡ e
      → IsTailq c m h (pre ++ rest)
      → Stops holds rest
      → suc (length rest) < fuel
      → n ≡ k % width h
      → let s = first c.get_entry (c.create_direct_entry_ref e) (items c rest) in
        Removed fuel m h
          (if s != c.create_direct_entry_ref e then forward c m s else s)
          n
          k
          pre
          rest
  resume fuel m h e pre [] n k continue end_eq v stop lt count =
      let i : (if end c h != end c h then forward c m (end c h) else end c h) ≡ end c h =
        ground (arith, eq→== (end c h) (end c h) refl) in
      let goal : Removed fuel m h (if end c h != end c h then forward c m (end c h) else end c h) n
          k pre [] =
        subst (λ j. Removed fuel m h j n k pre []) (sym i) (continue m h pre [] n k v lt count) in
      subst
        (λ a.
          Removed fuel m h
            (if c.create_direct_entry_ref a != c.create_direct_entry_ref a
              then forward c m (c.create_direct_entry_ref a)
              else c.create_direct_entry_ref a)
            n k pre [])
        end_eq goal
  resume fuel m h e pre (r ∷ rs) n k continue end_eq v stop lt count =
      let ne =
        subst (λ a. (item c r == c.create_direct_entry_ref a) ≡ false) end_eq
          (item_ne_end c m h pre r rs v.ring) in
      let i : (if item c r != c.create_direct_entry_ref e then forward c m (item c r) else item c r)
          ≡ at c h rs =
        ground (arith, ne, forward-item c h pre r rs v.ring) in
      let (m', h', n', eq, done, total) =
        continue m h (pre ++ r ∷ []) rs n k
          (subst (IsTailq c m h) (sym (append_assoc pre (r ∷ []) rs)) v) (omega arith) count in
      subst (λ j. Removed fuel m h j n k pre (r ∷ rs)) (sym i)
        (pass fuel m h (at c h rs) n k pre r rs stop (m', h', n', eq, done, total))

  run-Removed :
      (fuel : ℕ) (m : Memory) (h : Head) (pre : List ℕ) (x : ℕ) (taken rest : List ℕ) (n k : ℕ)
      → Continues fuel
      → IsTailq c m h (pre ++ x ∷ (taken ++ rest))
      → holds x ≡ true
      → AllHold holds taken
      → Stops holds rest
      → suc (suc (length (taken ++ rest))) < suc fuel
      → n ≡ k % width h
      → Removed (suc fuel) m h (item c x) n k pre (x ∷ (taken ++ rest))
  run-Removed fuel m h pre x taken rest n k continue v held all stop lt count =
      let value = deref-item c x (ItemsOk-split c pre (x ∷ (taken ++ rest)) v.ring.items_ok).1.0 in
      let ne = item_ne_end c m h pre x (taken ++ rest) v.ring in
      let scanned =
        ap (λ i. scan_while c fuel m holds i (end c h) 1)
          (forward-item c h pre x (taken ++ rest) v.ring)
        ∙ scan_while_lem c fuel m h holds (pre ++ x ∷ []) taken rest 1
            (IsRing-concat c h pre x (taken ++ rest) v.ring)
            (omega (arith, length-append {0} taken rest)) all stop in
      let (m', h', erased, v', end_eq, size_eq, _) =
        erase_range_lem c fuel m h pre (x ∷ taken) rest v
          (omega (arith, length-append {0} taken rest)) in
      let j = length taken + 1 in
      let step =
        at_removed fuel m m' h h' (item c x) n (at c h rest) j ne (ap holds value ∙ held) scanned
          erased in
      let same_width : width h' ≡ width h = ap (λ z. 2 ^ size_width z) size_eq in
      let counted : (n + j) % width h ≡ (k + j) % width h' =
        ap (λ z. (z + j) % width h) count
        ∙ mod-add-mod k (width h) j
        ∙ ap (λ w. (k + j) % w) (sym same_width) in
      let (m1, h1, n1, eq1, done1, total1) =
        resume fuel m' h' h.end_entry pre rest ((n + j) % width h) (k + j) continue end_eq v' stop
          (omega (arith, length-append {0} taken rest)) counted in
      let kept_eq : kept holds rest ≡ kept holds (x ∷ (taken ++ rest)) =
        rw held (sym (kept-append holds taken rest all)) in
      let removed_eq : k + j + removed holds rest ≡ k + removed holds (x ∷ (taken ++ rest)) =
        rw held (omega (arith, removed-append holds taken rest all)) in
      (
        m1,
        h1,
        n1,
        step ∙ eq1,
        subst (λ l. IsTailq c m1 h1 (pre ++ l)) kept_eq done1,
        total1
            ∙ ap (λ w. (k + j + removed holds rest) % w) same_width
            ∙ ap (λ z. z % width h) removed_eq,
      )

  remove_from_lem : (fuel : ℕ) → Continues fuel
  remove_from_lem zero m h pre post n k v lt count = absurd (omega arith)
  remove_from_lem (suc fuel) m h pre [] n k v lt count =
      (m, h, n, at_end fuel m h n, v, count ∙ ap (λ j. j % width h) (omega arith))
  remove_from_lem (suc fuel) m h pre (x ∷ xs) n k v lt count =
      let value = deref-item c x (ItemsOk-split c pre (x ∷ xs) v.ring.items_ok).1.0 in
      let ne = item_ne_end c m h pre x xs v.ring in
      elim (Bool-cases (holds x)) [
        | inr fails ↦
            let next =
              at_kept fuel m h (item c x) n ne (ap holds value ∙ fails)
              ∙ ap (λ i. remove_from c pred proj fuel m h i n) (forward-item c h pre x xs v.ring) in
            let (m', h', n', eq, done, total) =
              remove_from_lem fuel m h (pre ++ x ∷ []) xs n k
                (subst (IsTailq c m h) (sym (append_assoc pre (x ∷ []) xs)) v) (omega arith)
                count in
            let (m1, h1, n1, eq1, done1, total1) =
              pass fuel m h (at c h xs) n k pre x xs fails (m', h', n', eq, done, total) in
            (m1, h1, n1, next ∙ eq1, done1, total1)
        | inl held ↦
            let (taken, rest, eq, all, stop) = split holds xs in
            subst (λ l. Removed (suc fuel) m h (item c x) n k pre (x ∷ l)) (sym eq)
              (run-Removed fuel m h pre x taken rest n k (remove_from_lem fuel)
                (subst (λ l. IsTailq c m h (pre ++ x ∷ l)) eq v) held all stop
                (subst (λ l. suc (suc (length l)) < suc fuel) eq lt) count)
      ]

  -- With fuel for two more rounds than there are items, `remove_if` gives a result: a list of the
  -- items whose projection the predicate fails of, in their order, its size member counting them,
  -- and the number of the others modulo the range of the size type.
  pub remove_if_lem :
      (fuel : ℕ) (m : Memory) (h : Head) (xs : List ℕ)
      → IsTailq c m h xs
      → suc (length xs) < fuel
      → (m' : Memory) × (h' : Head) × (n : ℕ) × (remove_if c pred proj fuel m h ≡ some (m', h', n))
        × IsTailq c m' h' (kept holds xs)
        × (n ≡ removed holds xs % width h)
  unfolding remove_if
  remove_if_lem fuel m h xs v lt =
      let (m', h', n, eq, done, total) =
        remove_from_lem fuel m h [] xs 0 0 v lt (sym (zero-mod (width h))) in
      (
        m',
        h',
        n,
        ap (λ i. remove_from c pred proj fuel m h i 0) (begin-at c h xs v.ring) ∙ eq,
        done,
        total ∙ ap (λ j. j % width h) (omega arith),
      )
