-- ===== src/Chain/Forward.antt =====
-- What a singly linked list stands for: the addresses of its items, in order.
use csd_mirror.Prelude.{
  ℕ, ◌≡◌, true, false, List, [], ◌∷◌, ◌++◌, map, arith, has, Distinct, Distinct-front,
  Distinct-Disjoint, ◌==◌, subst, sym, ap, ◌∙◌,
}
use mathlib.Core.List.{append_assoc, append-nil}
use csd_mirror.Intrusive.{EntryRefCodec}
use csd_mirror.Tailq.Links.{last}
use csd_mirror.Tailq.Cycle.{first}
use csd_mirror.Tailq.Walk.{last-append}
use csd_mirror.Tailq.Valid.{
  item, items, entries, ItemsOk, ItemsOk-append, ItemsOk-split, items-append, entries-append,
}
use csd_mirror.Chain.{Links, forward}
use csd_mirror.Chain.Laws.{IsChain, IsChain-graft, IsChain-IsLinked, IsChain-split, last_in}

module _ (c : EntryRefCodec) where
  -- The items `xs` are chained in order from the entry at the address `e`, up to the null link.
  pub record IsForward (next : Links) (e : ℕ) (xs : List ℕ) : Type 0 where
    pub head_ok : c.entry_ok e ≡ true
    pub items_ok : ItemsOk c xs
    pub chain : IsChain c.get_entry next (c.create_direct_entry_ref e) (items c xs)
    pub distinct : Distinct (entries c e xs)

  -- The iterator to the first of the items, or the null iterator.
  abbrev pub at : List ℕ → ℕ
  at xs = first c.get_entry 0 (items c xs)

  -- The position behind the items `pre`.
  abbrev pub behind : (e : ℕ) → List ℕ → ℕ
  behind e pre = last c.get_entry (c.create_direct_entry_ref e) (items c pre)

  pub item_not_null : (x : ℕ) → c.item_ok x ≡ true → (item c x == 0) ≡ false
  item_not_null x ok = ground (arith, c.item-ne-null x ok)

  module _ (e : ℕ) where
    pub behind-append :
        (pre : List ℕ) (f : ℕ) (ms : List ℕ)
        → behind e (pre ++ f ∷ ms) ≡ last c.get_entry (item c f) (items c ms)
    behind-append pre f ms =
        ap (last c.get_entry (c.create_direct_entry_ref e)) (items-append c pre (f ∷ ms))
        ∙ last-append c.get_entry (c.create_direct_entry_ref e) (items c pre) (item c f)
            (items c ms)

    -- The entries in front of a position and those behind it.
    pub parts-Distinct :
        (pre post : List ℕ)
        → Distinct (entries c e (pre ++ post))
        → Distinct (entries c e pre ++ map c.get_entry (items c post))
    parts-Distinct pre post d =
        subst (λ es. Distinct (c.get_entry (c.create_direct_entry_ref e) ∷ es))
          (entries-append c pre post) d

    pub join-Distinct :
        (pre post : List ℕ)
        → Distinct (entries c e pre ++ map c.get_entry (items c post))
        → Distinct (entries c e (pre ++ post))
    join-Distinct pre post d =
        subst (λ es. Distinct (c.get_entry (c.create_direct_entry_ref e) ∷ es))
          (sym (entries-append c pre post)) d

    -- The entry of a position is one of those in front of what follows.
    pub behind_in : (pre : List ℕ) → has (c.get_entry (behind e pre)) (entries c e pre) ≡ true
    behind_in pre =
        subst
          (λ l.
            has (c.get_entry (behind e pre))
              (c.get_entry (c.create_direct_entry_ref e) ∷ map c.get_entry l)
            ≡ true)
          (append-nil (items c pre))
          (last_in c.get_entry (c.create_direct_entry_ref e) (items c pre) [])

    pub behind_not_in :
        (pre post : List ℕ)
        → Distinct (entries c e (pre ++ post))
        → has (c.get_entry (behind e pre)) (map c.get_entry (items c post)) ≡ false
    behind_not_in pre post d =
        Distinct-Disjoint (entries c e pre) (map c.get_entry (items c post))
          (parts-Distinct pre post d) (c.get_entry (behind e pre)) (behind_in pre)

    module _ {next : Links} where
      pub behind-IsChain :
          (pre post : List ℕ)
          → IsForward next e (pre ++ post)
          → IsChain c.get_entry next (behind e pre) (items c post)
      behind-IsChain pre post v =
          IsChain-split c.get_entry next (c.create_direct_entry_ref e) (items c pre) (items c post)
            (subst (IsChain c.get_entry next (c.create_direct_entry_ref e))
              (items-append c pre post) v.chain)

      pub forward-behind :
          (pre post : List ℕ)
          → IsForward next e (pre ++ post)
          → forward c next (behind e pre) ≡ at post
      forward-behind pre [] v = behind-IsChain pre [] v
      forward-behind pre (x ∷ post) v = (behind-IsChain pre (x ∷ post) v).0

      pub IsForward-concat :
          (pre : List ℕ) (x : ℕ) (post : List ℕ)
          → IsForward next e (pre ++ x ∷ post)
          → IsForward next e ((pre ++ x ∷ []) ++ post)
      IsForward-concat pre x post = subst (IsForward next e) (sym (append_assoc pre (x ∷ []) post))

      pub forward-item :
          (pre : List ℕ) (x : ℕ) (post : List ℕ)
          → IsForward next e (pre ++ x ∷ post)
          → forward c next (item c x) ≡ at post
      forward-item pre x post v =
          ap (forward c next) (sym (behind-append pre x []))
          ∙ forward-behind (pre ++ x ∷ []) post (IsForward-concat pre x post v)

      -- Other links, with other items from a position on.
      pub IsForward-graft :
          (next' : Links) (pre old new : List ℕ)
          → IsForward next e (pre ++ old)
          → ((x : ℕ)
              → has x (entries c e pre) ≡ true
              → (x == c.get_entry (behind e pre)) ≡ false
              → next' x ≡ next x)
          → IsChain c.get_entry next' (behind e pre) (items c new)
          → ItemsOk c new
          → Distinct (entries c e (pre ++ new))
          → IsForward next' e (pre ++ new)
      IsForward-graft next' pre old new v same k ok d = record {
        head_ok = v.head_ok;
        items_ok = ItemsOk-append c pre new (ItemsOk-split c pre old v.items_ok).0 ok;
        chain =
            subst (IsChain c.get_entry next' (c.create_direct_entry_ref e))
              (sym (items-append c pre new))
              (IsChain-graft c.get_entry next next' (c.create_direct_entry_ref e) (items c pre)
                (items c new)
                (Distinct-front (entries c e pre) (map c.get_entry (items c old))
                  (parts-Distinct pre old v.distinct))
                same
                (IsChain-IsLinked c.get_entry next (c.create_direct_entry_ref e) (items c pre)
                  (items c old)
                  (subst (IsChain c.get_entry next (c.create_direct_entry_ref e))
                    (items-append c pre old) v.chain))
                k);
        distinct = d;
      }
