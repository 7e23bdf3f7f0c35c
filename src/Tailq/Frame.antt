-- ===== src/Tailq/Frame.antt =====
-- A list does not change when links that are not its own do.
use csd_mirror.Prelude.{ℕ, ◌≡◌, true, List, [], ◌∷◌, ◌++◌, map, arith, has, has-append, subst}
use mathlib.Core.List.{map-append}
use csd_mirror.Intrusive.{EntryRefCodec}
use csd_mirror.Tailq.Memory.{Memory}
use csd_mirror.Tailq.Links.{Linked-frame}
use csd_mirror.Tailq.Cycle.{starts-cycle}
use csd_mirror.Tailq.Valid.{IsRing, items, entries}

module _ (c : EntryRefCodec) {m m' : Memory} (e : ℕ) (xs : List ℕ) where
  pub IsRing-frame :
      IsRing c m e xs
      → ((x : ℕ) → has x (entries c e xs) ≡ true → (m'.next x ≡ m.next x) × (m'.prev x ≡ m.prev x))
      → IsRing c m' e xs
  IsRing-frame v same = record {
    end_ok = v.end_ok;
    items_ok = v.items_ok;
    cycle = record {
      linked =
          Linked-frame c.get_entry m m' d (items c xs ++ d ∷ [])
            (λ x n.
              (same x
                (subst (λ l. has x l ≡ true) (starts-cycle c.get_entry d d (items c xs)) n)).0)
            (λ x n. (same x (in_entries x n)).1) v.cycle.linked;
      distinct = v.cycle.distinct;
    };
  }
    where
      d : ℕ
      d = c.create_direct_entry_ref e

      in_entries :
          (x : ℕ)
          → has x (map c.get_entry (items c xs ++ d ∷ [])) ≡ true
          → has x (entries c e xs) ≡ true
      in_entries x n = ground (
        arith,
        subst (λ l. has x l ≡ true) (map-append c.get_entry (items c xs) (d ∷ [])) n,
        has-append x (map c.get_entry (items c xs)) (c.get_entry d ∷ []),
      )
