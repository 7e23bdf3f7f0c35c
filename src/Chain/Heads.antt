-- ===== src/Chain/Heads.antt =====
-- The head entries of two singly linked lists are swapped.
use csd_mirror.Prelude.{
  ℕ, ◌≡◌, refl, true, false, List, [], ◌∷◌, map, arith, has, Disjoint, Disjoint-sym, member_ne,
  one_apart, Option, some, ◌==◌, eq→==, subst, sym, ap, ◌∙◌,
}
use csd_mirror.Intrusive.{EntryRefCodec}
use csd_mirror.Intrusive.Size.{SizeMember, no_size, integral, set_size, Counts}
use csd_mirror.Tailq.Memory.{update}
use csd_mirror.Tailq.Valid.{items, entries}
use csd_mirror.Chain.{Links, counted}
use csd_mirror.Chain.Laws.{IsChain, IsChain-frame}
use csd_mirror.Chain.Forward.{IsForward}
use csd_mirror.Chain.Splice.{IsForward-frame}

abbrev pub swapped : Links → (e e' : ℕ) → Links
swapped next e e' = update (update next e (next e')) e' (next e)

-- A chain that another entry leads to.
pub IsChain-reroot :
    (f : ℕ → ℕ) (next next' : Links) (a b : ℕ) (ws : List ℕ)
    → next' (f b) ≡ next (f a)
    → ((x : ℕ) → has x (map f ws) ≡ true → next' x ≡ next x)
    → IsChain f next a ws
    → IsChain f next' b ws
IsChain-reroot f next next' a b [] to same k = to ∙ k
IsChain-reroot f next next' a b (w ∷ ws) to same k =
    (to ∙ k.0, IsChain-frame f next next' w ws same k.1)

module _ (c : EntryRefCodec) where
  -- An entry without a successor is a list without items.
  pub lone_entry : (next : Links) (e : ℕ) → c.entry_ok e ≡ true → next e ≡ 0 → IsForward c next e []
  lone_entry next e ok to = record {
    head_ok = ok;
    items_ok = tt;
    chain = ap next (c.get_entry-direct e ok) ∙ to;
    distinct = (refl, tt);
  }

  pub IsForward-reroot :
      (next next' : Links) (e e' : ℕ) (xs : List ℕ)
      → c.entry_ok e' ≡ true
      → next' e' ≡ next e
      → ((x : ℕ) → has x (map c.get_entry (items c xs)) ≡ true → next' x ≡ next x)
      → has e' (map c.get_entry (items c xs)) ≡ false
      → IsForward c next e xs
      → IsForward c next' e' xs
  IsForward-reroot next next' e e' xs ok to same free v = record {
    head_ok = ok;
    items_ok = v.items_ok;
    chain =
        IsChain-reroot c.get_entry next next' (c.create_direct_entry_ref e)
          (c.create_direct_entry_ref e') (items c xs)
          (ap next' (c.get_entry-direct e' ok)
            ∙ to
            ∙ ap next (sym (c.get_entry-direct e v.head_ok)))
          same v.chain;
    distinct = (rw (c.get_entry-direct e' ok) free, v.distinct.1);
  }

  own_free :
      {next : Links} (e : ℕ) (xs : List ℕ)
      → IsForward c next e xs
      → has e (map c.get_entry (items c xs)) ≡ false
  own_free e xs v =
      subst (λ a. has a (map c.get_entry (items c xs)) ≡ false) (c.get_entry-direct e v.head_ok)
        v.distinct.0

  -- The entries of a list are none of those of another one.
  pub head_apart :
      (e e' : ℕ) (xs ys : List ℕ)
      → c.entry_ok e ≡ true
      → c.entry_ok e' ≡ true
      → Disjoint (entries c e xs) (entries c e' ys)
      → ((e == e') ≡ false) × (has e (map c.get_entry (items c ys)) ≡ false)
  head_apart e e' xs ys ok ok' apart =
      let free = apart e (
        rw (eq→== e (c.get_entry (c.create_direct_entry_ref e)) (sym (c.get_entry-direct e ok)))
          refl) in
      let same = c.get_entry-direct e' ok' in (ground (arith, free, same), ground (arith, free))

  pub swapped-IsForward :
      (next : Links) (e e' : ℕ) (xs ys : List ℕ)
      → IsForward c next e xs
      → IsForward c next e' ys
      → Disjoint (entries c e xs) (entries c e' ys)
      → IsForward c (swapped next e e') e ys × IsForward c (swapped next e e') e' xs
  swapped-IsForward next e e' xs ys v v' apart =
      let (ne, e_free) = head_apart e e' xs ys v.head_ok v'.head_ok apart in
      let (_, e'_free) =
        head_apart e' e ys xs v'.head_ok v.head_ok
          (Disjoint-sym (entries c e xs) (entries c e' ys) apart) in
      let e'_own = own_free e' ys v' in
      let e_own = own_free e xs v in
      (
        IsForward-reroot next (swapped next e e') e' e ys v.head_ok (ground (arith, ne))
            (λ x n.
              let a = member_ne e x (map c.get_entry (items c ys)) e_free n in
              let b = member_ne e' x (map c.get_entry (items c ys)) e'_own n in
              ground (arith, a, b))
            e_free v',
        IsForward-reroot next (swapped next e e') e e' xs v'.head_ok (ground (arith, ne))
            (λ x n.
              let a = member_ne e x (map c.get_entry (items c xs)) e_own n in
              let b = member_ne e' x (map c.get_entry (items c xs)) e'_free n in
              ground (arith, a, b))
            e'_free v,
      )

  -- A list stays when another head is emptied.
  pub emptied-IsForward :
      (next : Links) (e e' : ℕ) (ys : List ℕ)
      → IsForward c next e' ys
      → has e (entries c e' ys) ≡ false
      → IsForward c (update next e 0) e' ys
  emptied-IsForward next e e' ys v free =
      IsForward-frame c next (update next e 0) e' ys
        (λ x n. let ne = member_ne e x (entries c e' ys) free n in ground (arith, ne)) v

  -- A list is swapped with a head that has just been emptied.
  pub moved-IsForward :
      (next : Links) (e e' : ℕ) (ys : List ℕ)
      → c.entry_ok e ≡ true
      → IsForward c next e' ys
      → has e (entries c e' ys) ≡ false
      → let next' = swapped (update next e 0) e e' in
        IsForward c next' e ys × IsForward c next' e' []
  moved-IsForward next e e' ys ok v free =
      let next0 = update next e 0 in
      let v0 = emptied-IsForward next e e' ys v free in
      swapped-IsForward next0 e e' [] ys (lone_entry next0 e ok (ground arith)) v0 (
        one_apart (c.get_entry (c.create_direct_entry_ref e)) (entries c e' ys)
          (subst (λ a. has a (entries c e' ys) ≡ false) (sym (c.get_entry-direct e ok)) free))

-- A count that a size member is set to, where the number is known.
pub counted-Sets :
    (s : SizeMember) (walk : Option ℕ) (n : ℕ)
    → walk ≡ some n
    → (k : ℕ) × (counted s walk ≡ some k) × ((sz : ℕ) → Counts s (set_size s sz k) n)
unfolding set_size
counted-Sets no_size walk n e = (0, refl, λ sz. tt)
counted-Sets (integral w) walk n e = (n, e, λ sz. refl)
