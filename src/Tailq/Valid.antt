-- ===== src/Tailq/Valid.antt =====
-- What a tail queue stands for: the addresses of its items, in order.
use csd_mirror.Prelude.{
  ℕ, ◌≡◌, refl, true, false, List, [], ◌∷◌, ◌++◌, map, length, arith, has, has-append, ap, subst,
  sym, ◌∙◌, Distinct, Disjoint,
}
use csd_mirror.Intrusive.{EntryRefCodec}
use csd_mirror.Intrusive.Size.{Counts}
use csd_mirror.Tailq.Memory.{Memory, Head}
use csd_mirror.Tailq.Iterator.{end}
use csd_mirror.Tailq.Relink.{map_parts}
use mathlib.Core.List.{map-append}
use csd_mirror.Tailq.Cycle.{Cycle, first}

module _ (c : EntryRefCodec) where
  abbrev pub item : ℕ → ℕ
  item = c.create_item_entry_ref

  abbrev pub items : List ℕ → List ℕ
  items = map c.create_item_entry_ref

  abbrev pub ItemsOk : List ℕ → Type 0
  ItemsOk [] = Unit
  ItemsOk (x ∷ xs) = (c.item_ok x ≡ true) × ItemsOk xs

  -- The entries that the list consists of: the end entry and those of its items.
  abbrev pub entries : ℕ → List ℕ → List ℕ
  entries e xs = c.get_entry (c.create_direct_entry_ref e) ∷ map c.get_entry (items xs)

  -- The entries around the end entry at the address `e` are those of the items `xs`, in order.
  pub record IsRing (m : Memory) (e : ℕ) (xs : List ℕ) : Type 0 where
    pub end_ok : c.entry_ok e ≡ true
    pub items_ok : ItemsOk xs
    pub cycle : Cycle c.get_entry (c.create_direct_entry_ref e) m (items xs)

  -- The list of head `h` holds the items `xs`, and its size member counts them.
  pub record IsTailq (m : Memory) (h : Head) (xs : List ℕ) : Type 0 where
    pub ring : IsRing m h.end_entry xs
    pub count : Counts h.size_member h.m_sz (length xs)

  -- The iterator to the first of `xs`, which are the last items of the list.
  abbrev pub at : Head → List ℕ → ℕ
  at h xs = first c.get_entry (end c h) (items xs)

  -- The links of all entries that are not listed are those they were.
  abbrev pub SameOutside : List ℕ → Memory → Memory → Type 0
  SameOutside es m m' = (x : ℕ) → has x es ≡ false → (m'.next x ≡ m.next x) × (m'.prev x ≡ m.prev x)

  pub ItemsOk-append : (xs ys : List ℕ) → ItemsOk xs → ItemsOk ys → ItemsOk (xs ++ ys)
  ItemsOk-append [] ys p q = q
  ItemsOk-append (x ∷ xs) ys p q = (p.0, ItemsOk-append xs ys p.1 q)

  pub ItemsOk-split : (xs ys : List ℕ) → ItemsOk (xs ++ ys) → ItemsOk xs × ItemsOk ys
  ItemsOk-split [] ys p = (tt, p)
  ItemsOk-split (x ∷ xs) ys p = let (a, b) = ItemsOk-split xs ys p.1 in ((p.0, a), b)

  pub end_entry_eq :
      {m : Memory} {xs : List ℕ} (h : Head)
      → IsRing m h.end_entry xs
      → c.get_entry (end c h) ≡ h.end_entry
  end_entry_eq h v = c.get_entry-direct h.end_entry v.end_ok

  pub items_parts :
      (pre mid post : List ℕ)
      → map c.get_entry (items (pre ++ (mid ++ post)))
        ≡ map c.get_entry (items pre)
          ++ (map c.get_entry (items mid) ++ map c.get_entry (items post))
  items_parts pre mid post =
      ap (map c.get_entry) (map_parts item pre mid post)
      ∙ map_parts c.get_entry (items pre) (items mid) (items post)

  pub items-append : (pre post : List ℕ) → items (pre ++ post) ≡ items pre ++ items post
  items-append pre post = map-append item pre post

  pub entries-append :
      (pre post : List ℕ)
      → map c.get_entry (items (pre ++ post))
        ≡ map c.get_entry (items pre) ++ map c.get_entry (items post)
  entries-append pre post =
      ap (map c.get_entry) (items-append pre post) ∙ map-append c.get_entry (items pre) (items post)

  -- An entry that is none of the list's is none of any part's.
  pub not_has_parts :
      (e : ℕ) (pre mid post : List ℕ) (x : ℕ)
      → has x (entries e (pre ++ (mid ++ post))) ≡ false
      → (has x (entries e (pre ++ post)) ≡ false) × (has x (map c.get_entry (items mid)) ≡ false)
  not_has_parts e pre mid post x n =
      let es = map c.get_entry (items pre) in
      let fs = map c.get_entry (items mid) in
      let gs = map c.get_entry (items post) in
      ground (
        arith,
        has-append x es (fs ++ gs),
        has-append x fs gs,
        has-append x es gs,
        subst (λ l. has x (c.get_entry (c.create_direct_entry_ref e) ∷ l) ≡ false)
            (items_parts pre mid post) n,
        subst (λ l. has x (map c.get_entry (items (pre ++ post))) ≡ has x l)
            (ap (map c.get_entry) (items-append pre post)
              ∙ map-append c.get_entry (items pre) (items post))
            refl,
      )

  pub not_has_join :
      (e : ℕ) (pre mid post : List ℕ) (x : ℕ)
      → has x (entries e (pre ++ post)) ≡ false
      → has x (map c.get_entry (items mid)) ≡ false
      → has x (entries e (pre ++ (mid ++ post))) ≡ false
  not_has_join e pre mid post x n n' =
      let es = map c.get_entry (items pre) in
      let fs = map c.get_entry (items mid) in
      let gs = map c.get_entry (items post) in
      subst (λ l. has x (c.get_entry (c.create_direct_entry_ref e) ∷ l) ≡ false)
        (sym (items_parts pre mid post))
        (ground (
          arith,
          has-append x es (fs ++ gs),
          has-append x fs gs,
          has-append x es gs,
          subst (λ l. has x (c.get_entry (c.create_direct_entry_ref e) ∷ l) ≡ false)
              (entries-append pre post) n,
        ))

  -- Items that may be put into a list of the items `others`: their entries are none of its
  -- entries and all different.
  pub record IsFree (e : ℕ) (values others : List ℕ) : Type 0 where
    pub distinct : Distinct (map c.get_entry (items values))
    pub apart : Disjoint (map c.get_entry (items values)) (entries e others)
    pub items_ok : ItemsOk values
