-- ===== src/Tailq/Range/Swap/Ring.antt =====
-- Runs of items that another end entry is put around.
use csd_mirror.Prelude.{
  ℕ, ◌≡◌, refl, true, false, List, [], ◌∷◌, map, arith, has, ◌==◌, subst, sym, ap, ◌∙◌, Distinct,
  Distinct-Disjoint, has_front, has_back,
}
use csd_mirror.Intrusive.{EntryRefCodec}
use csd_mirror.Tailq.Memory.{Memory, Head}
use csd_mirror.Tailq.Iterator.{end}
use csd_mirror.Tailq.Links.{Linked, starts, Linked-append, Linked-frame, Linked-split}
use csd_mirror.Tailq.Relink.{run_end, starts-last}
use csd_mirror.Tailq.Valid.{IsRing, ItemsOk, item, items, entries, end_entry_eq}
use csd_mirror.Tailq.Walk.{begin-at, backward-at, before-append}
use mathlib.Core.List.{append-nil}
use csd_mirror.Tailq.Attach.{run_last}
use csd_mirror.Tailq.Range.Splice.{Separate}
use csd_mirror.Tailq.Range.Swap.Links.{Ends, first_of, last_of}

pub ne_of_has :
    (x y : ℕ) (es : List ℕ)
    → has x es ≡ true
    → has y es ≡ false
    → ((x == y) ≡ false) × ((y == x) ≡ false)
ne_of_has x y es h n = (ground arith, ground arith)

module _ (c : EntryRefCodec) where
  -- A linked run whose ends are linked to an end entry is a ring around it.
  pub IsRing-of_run :
      (m : Memory) (h : Head) (f : ℕ) (ms : List ℕ)
      → c.entry_ok h.end_entry ≡ true
      → ItemsOk c (f ∷ ms)
      → Linked c.get_entry m (item c f) (items c ms)
      → Distinct (map c.get_entry (items c (f ∷ ms)))
      → has h.end_entry (map c.get_entry (items c (f ∷ ms))) ≡ false
      → Ends c m h (item c f) (run_last c f ms)
      → IsRing c m h.end_entry (f ∷ ms)
  IsRing-of_run m h f ms ok items_ok run distinct apart ends =
      let e = c.get_entry-direct h.end_entry ok in
      record {
        end_ok = ok;
        items_ok = items_ok;
        cycle = record {
          linked = (
            (ap m.next e ∙ ends.next_end, ends.prev_first),
            Linked-append c.get_entry m (item c f) (items c ms) (end c h) [] run
                (ends.next_last, ap m.prev e ∙ ends.prev_end) tt,
          );
          distinct = (
            subst (λ x. has x (map c.get_entry (items c (f ∷ ms))) ≡ false) (sym e) apart,
            distinct,
          );
        };
      }

  pub empty-IsRing :
      (m : Memory) (h : Head)
      → c.entry_ok h.end_entry ≡ true
      → m.next h.end_entry ≡ end c h
      → m.prev h.end_entry ≡ end c h
      → IsRing c m h.end_entry []
  empty-IsRing m h ok n p =
      let e = c.get_entry-direct h.end_entry ok in
      record {
        end_ok = ok;
        items_ok = tt;
        cycle = record { linked = ((ap m.next e ∙ n, ap m.prev e ∙ p), tt); distinct = (refl, tt) };
      }

  -- What the links at the end entry of a list that is not empty lead to.
  pub record Bounds (m : Memory) (h : Head) (f : ℕ) (ms : List ℕ) : Type 0 where
    pub next_eq : m.next h.end_entry ≡ item c f
    pub prev_eq : m.prev h.end_entry ≡ run_last c f ms
    pub first_in : has (c.get_entry (item c f)) (map c.get_entry (items c (f ∷ ms))) ≡ true
    pub last_in : has (c.get_entry (run_last c f ms)) (map c.get_entry (items c (f ∷ ms))) ≡ true
    pub end_out : has h.end_entry (map c.get_entry (items c (f ∷ ms))) ≡ false
    pub last_later :
        (x : ℕ)
        → has x (starts c.get_entry (item c f) (items c ms)) ≡ true
        → (x == c.get_entry (run_last c f ms)) ≡ false
    pub starts_in :
        (x : ℕ)
        → has x (starts c.get_entry (item c f) (items c ms)) ≡ true
        → has x (map c.get_entry (items c (f ∷ ms))) ≡ true
    pub run : Linked c.get_entry m (item c f) (items c ms)

  pub bounds :
      (m : Memory) (h : Head) (f : ℕ) (ms : List ℕ)
      → IsRing c m h.end_entry (f ∷ ms)
      → Bounds m h f ms
  bounds m h f ms v =
      let e = end_entry_eq c h v in
      record {
        next_eq = begin-at c h (f ∷ ms) v;
        prev_eq =
            ap m.prev (sym e)
            ∙ backward-at c h (f ∷ ms) []
                (subst (IsRing c m h.end_entry) (sym (append-nil (f ∷ ms))) v)
            ∙ before-append c h [] f ms;
        first_in = ground arith;
        last_in = run_end c.get_entry (item c f) (items c ms);
        end_out =
            subst (λ x. has x (map c.get_entry (items c (f ∷ ms))) ≡ false) e v.cycle.distinct.0;
        last_later = λ x n. ground (
          arith,
          Distinct-Disjoint (starts c.get_entry (item c f) (items c ms))
              (c.get_entry (run_last c f ms) ∷ [])
              (subst Distinct (sym (starts-last c.get_entry (item c f) (items c ms)))
                v.cycle.distinct.1)
              x n,
        );
        starts_in = λ x n.
            subst (λ l. has x l ≡ true) (starts-last c.get_entry (item c f) (items c ms))
              (has_front x (starts c.get_entry (item c f) (items c ms))
                (c.get_entry (run_last c f ms) ∷ []) n);
        run = (Linked-split c.get_entry m (item c f) (items c ms) (end c h) [] v.cycle.linked.1).0;
      }

  -- The end entry and those that it leads to are the list's.
  pub ends_in :
      (m : Memory) (h : Head) (xs : List ℕ)
      → IsRing c m h.end_entry xs
      → (has h.end_entry (entries c h.end_entry xs) ≡ true)
        × (has (first_of c m h) (entries c h.end_entry xs) ≡ true)
        × (has (last_of c m h) (entries c h.end_entry xs) ≡ true)
  ends_in m h [] v =
      let e = end_entry_eq c h v in
      let n = begin-at c h [] v in
      let p = ap m.prev (sym e) ∙ backward-at c h [] [] v in
      (ground arith, ground arith, ground arith)
  ends_in m h (f ∷ ms) v =
      let e = end_entry_eq c h v in
      let b = bounds m h f ms v in
      let in_list = λ (x : ℕ). λ (n : has x (map c.get_entry (items c (f ∷ ms))) ≡ true).
        has_back x (c.get_entry (end c h) ∷ []) (map c.get_entry (items c (f ∷ ms))) n in
      (
        ground arith,
        subst (λ x. has x (entries c h.end_entry (f ∷ ms)) ≡ true) (sym (ap c.get_entry b.next_eq))
            (in_list _ b.first_in),
        subst (λ x. has x (entries c h.end_entry (f ∷ ms)) ≡ true) (sym (ap c.get_entry b.prev_eq))
            (in_list _ b.last_in),
      )

  -- Entries of the one list are not the other's.
  pub apart_ne :
      (this other : Head) (xs ys : List ℕ) (x y : ℕ)
      → Separate c this other xs ys
      → has x (entries c this.end_entry xs) ≡ true
      → has y (entries c other.end_entry ys) ≡ true
      → ((x == y) ≡ false) × ((y == x) ≡ false)
  apart_ne this other xs ys x y apart h h' =
      let (n, n') = ne_of_has y x (entries c other.end_entry ys) h' (apart x h) in (n', n)

  -- The links between the items stay.
  pub run_kept :
      (m m' : Memory) (h : Head) (f : ℕ) (ms : List ℕ)
      → IsRing c m h.end_entry (f ∷ ms)
      → ((x : ℕ)
          → has x (map c.get_entry (items c (f ∷ ms))) ≡ true
          → (x == last_of c m h) ≡ false
          → m'.next x ≡ m.next x)
      → ((x : ℕ)
          → has x (map c.get_entry (items c (f ∷ ms))) ≡ true
          → (x == first_of c m h) ≡ false
          → m'.prev x ≡ m.prev x)
      → Linked c.get_entry m' (item c f) (items c ms)
  run_kept m m' h f ms v same_next same_prev =
      let k = bounds m h f ms v in
      Linked-frame c.get_entry m m' (item c f) (items c ms)
        (λ x n.
          same_next x (k.starts_in x n)
            (subst (λ w. (x == c.get_entry w) ≡ false) (sym k.prev_eq) (k.last_later x n)))
        (λ x n.
          same_prev x (has_back x (c.get_entry (item c f) ∷ []) (map c.get_entry (items c ms)) n) (
            subst (λ w. (x == c.get_entry w) ≡ false) (sym k.next_eq)
              (ne_of_has x _ (map c.get_entry (items c ms)) n v.cycle.distinct.1.0).0))
        k.run
