-- ===== src/Tailq/Scan/Reverse.antt =====
-- `reverse` turns every link of the list around.
use csd_mirror.Prelude.{
  ℕ, ◌<◌, ◌≡◌, refl, true, some, List, [], ◌∷◌, ◌++◌, map, length, length-map, arith, has,
  has-append, Distinct, eq→==, subst, sym, ap, ◌∙◌,
}
use mathlib.Core.List.{reverse, reverse-cons, append_assoc, map-append}
use csd_mirror.Intrusive.{EntryRefCodec}
use csd_mirror.Intrusive.Size.{Counts}
use csd_mirror.Tailq.Memory.{Memory, Head}
use csd_mirror.Tailq.Iterator.{end}
use csd_mirror.Tailq.Links.{Edge, Linked, Linked-append, Linked-split}
use csd_mirror.Tailq.Cycle.{Cycle}
use csd_mirror.Tailq.Valid.{
  SameOutside, IsTailq, ItemsOk, ItemsOk-append, item, items, entries, end_entry_eq,
}
use csd_mirror.Tailq.Scan
use csd_mirror.Tailq.Scan.{reverse_from}
use csd_mirror.Tailq.Scan.Turn.{
  map-reverse, length-reverse, has-reverse, Distinct-reverse, Visits, Swapped, reverse_from_lem,
}

module _ (e : ℕ → ℕ) where
  Visits-concat :
      (m : Memory) (a : ℕ) (bs : List ℕ) (b stop : ℕ)
      → Visits e m a bs b
      → e (m.prev b) ≡ stop
      → Visits e m a (bs ++ b ∷ []) stop
  Visits-concat m a [] b stop v eq = (v, eq)
  Visits-concat m a (x ∷ bs) b stop v eq = (v.0, Visits-concat m x bs b stop v.1 eq)

  -- The loop visits the entries of a chain from its end to its start.
  Linked-Visits :
      (m : Memory) (a : ℕ) (bs : List ℕ) (x : ℕ)
      → Linked e m a (bs ++ x ∷ [])
      → Visits e m (e x) (map e (reverse bs)) (e a)
  Linked-Visits m a [] x p = ap e p.0.1
  Linked-Visits m a (b ∷ bs) x p =
      subst (λ l. Visits e m (e x) l (e a))
        (sym (ap (map e) (reverse-cons b bs) ∙ map-append e (reverse bs) (b ∷ [])))
        (Visits-concat m (e x) (map e (reverse bs)) (e b) (e a) (Linked-Visits m b bs x p.1)
          (ap e p.0.1))

  -- A chain whose links are all turned around leads from its end to its start.
  Linked-reverse :
      (es : List ℕ) (m m' : Memory) (a : ℕ) (bs : List ℕ) (x : ℕ)
      → Swapped es m m'
      → ((w : ℕ) → has w (map e (a ∷ (bs ++ x ∷ []))) ≡ true → has w es ≡ true)
      → Linked e m a (bs ++ x ∷ [])
      → Linked e m' x (reverse bs ++ a ∷ [])
  Linked-reverse es m m' a [] x s within p =
      let first = within (e a) (ground (arith, eq→== (e a) (e a) refl)) in
      let second = within (e x) (ground (arith, eq→== (e x) (e x) refl)) in
      (((s.inside (e x) second).0 ∙ p.0.1, (s.inside (e a) first).1 ∙ p.0.0), tt)
  Linked-reverse es m m' a (b ∷ bs) x s within p =
      let first = within (e a) (ground (arith, eq→== (e a) (e a) refl)) in
      let second = within (e b) (ground (arith, eq→== (e b) (e b) refl)) in
      let rest = Linked-reverse es m m' b bs x s (λ w n. within w (ground arith)) p.1 in
      let (front, edge, _) = Linked-split e m' x (reverse bs) b [] rest in
      let back : Edge e m' b a =
        ((s.inside (e b) second).0 ∙ p.0.1, (s.inside (e a) first).1 ∙ p.0.0) in
      subst (Linked e m' x)
        (sym
          (ap (λ l. l ++ a ∷ []) (reverse-cons b bs) ∙ append_assoc (reverse bs) (b ∷ []) (a ∷ [])))
        (Linked-append e m' x (reverse bs) b (a ∷ []) front edge (back, tt))

  same_members : (w : ℕ) (ws : List ℕ) → has w (map e (reverse ws)) ≡ has w (map e ws)
  same_members w ws = ap (has w) (map-reverse e ws) ∙ has-reverse w (map e ws)

  pub Distinct-turned :
      (d : ℕ) (ws : List ℕ) → Distinct (e d ∷ map e ws) → Distinct (e d ∷ map e (reverse ws))
  Distinct-turned d ws p = (
    same_members (e d) ws ∙ p.0,
    subst Distinct (sym (map-reverse e ws)) (Distinct-reverse (map e ws) p.1),
  )

  Cycle-reverse :
      (d : ℕ) (ws : List ℕ) (m m' : Memory)
      → Cycle e d m ws
      → Swapped (e d ∷ map e (reverse ws)) m m'
      → Cycle e d m' (reverse ws)
  Cycle-reverse d ws m m' v s = record {
    linked =
        Linked-reverse (e d ∷ map e (reverse ws)) m m' d ws d s
          (λ w n. ground (
            arith,
            same_members w ws,
            has-append w (map e ws) (e d ∷ []),
            subst (λ l. has w (e d ∷ l) ≡ true) (map-append e ws (d ∷ [])) n,
          ))
          v.linked;
    distinct = Distinct-turned d ws v.distinct;
  }

module _ (c : EntryRefCodec) where
  pub ItemsOk-reverse : (xs : List ℕ) → ItemsOk c xs → ItemsOk c (reverse xs)
  ItemsOk-reverse [] ok = tt
  ItemsOk-reverse (x ∷ xs) ok =
      subst (ItemsOk c) (sym (reverse-cons x xs))
        (ItemsOk-append c (reverse xs) (x ∷ []) (ItemsOk-reverse xs ok.1) (ok.0, tt))

  -- With more fuel than there are items, `reverse` gives a result: the list holds its items in the
  -- opposite order, and no link of an entry outside the list has changed.
  pub reverse_lem :
      (fuel : ℕ) (m : Memory) (h : Head) (xs : List ℕ)
      → IsTailq c m h xs
      → length xs < fuel
      → (m' : Memory) × (Scan.reverse c fuel m h ≡ some m')
        × IsTailq c m' h (reverse xs)
        × SameOutside c (entries c h.end_entry xs) m m'
  unfolding Scan.reverse
  reverse_lem fuel m h xs v lt =
      let e = c.get_entry in
      let ws = items c xs in
      let turned = map-reverse (item c) xs in
      let stop = end_entry_eq c h v.ring in
      let distinct = Distinct-turned e (end c h) ws v.ring.cycle.distinct in
      let (m', eq, s) =
        reverse_from_lem c fuel m (e (end c h)) (map e (reverse ws)) (e (end c h))
          (omega (arith, length-map e (reverse ws), length-reverse ws, length-map (item c) xs))
          distinct distinct.0 (Linked-Visits e m (end c h) ws (end c h) v.ring.cycle.linked) in
      (
        m',
        subst (λ a. reverse_from c fuel m a a ≡ some m') stop eq,
        record {
          ring = record {
            end_ok = v.ring.end_ok;
            items_ok = ItemsOk-reverse xs v.ring.items_ok;
            cycle =
                subst (Cycle e (end c h) m') (sym turned)
                  (Cycle-reverse e (end c h) ws m m' v.ring.cycle s);
          };
          count = subst (Counts h.size_member h.m_sz) (sym (length-reverse xs)) v.count;
        },
        λ x n. s.outside x (ground (arith, same_members e x ws)),
      )
