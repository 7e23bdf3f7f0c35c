-- ===== src/Chain/Ranges.antt =====
-- A run of items is taken out of a singly linked list, and one is put in.
use csd_mirror.Prelude.{
  ℕ, ◌≡◌, refl, true, false, List, [], ◌∷◌, ◌++◌, map, arith, has, has-append, Distinct,
  Distinct-front, Distinct-back, Disjoint, Distinct-Disjoint, Distinct-remove, Distinct-insert,
  Distinct-apart, eq→==, subst, sym, ap, ◌∙◌,
}
use mathlib.Core.List.{append_assoc, append-nil}
use csd_mirror.Intrusive.{EntryRefCodec}
use csd_mirror.Tailq.Memory.{update}
use csd_mirror.Tailq.Links.{last}
use csd_mirror.Tailq.Valid.{
  item, items, entries, ItemsOk, ItemsOk-append, ItemsOk-split, items-append, entries-append,
}
use csd_mirror.Chain.{Links}
use csd_mirror.Chain.Laws.{
  IsChain, IsLinked, IsLinked-frame, IsChain-graft, IsChain-onto, IsChain-IsLinked, last_in,
}
use csd_mirror.Chain.Forward.{
  IsForward, at, behind, behind_in, behind_not_in, behind-IsChain, forward-behind, parts-Distinct,
  join-Distinct, IsForward-graft,
}

module _ (c : EntryRefCodec) (e : ℕ) where
  -- A run of items that are linked to one another, and whose entries are not those of `others`.
  pub record IsRun (next : Links) (f : ℕ) (ms others : List ℕ) : Type 0 where
    pub linked : IsLinked c.get_entry next (item c f) (items c ms)
    pub distinct : Distinct (map c.get_entry (items c (f ∷ ms)))
    pub apart : Disjoint (map c.get_entry (items c (f ∷ ms))) (entries c e others)
    pub items_ok : ItemsOk c (f ∷ ms)

  three-Distinct :
      (pre mid post : List ℕ)
      → entries c e (pre ++ (mid ++ post))
        ≡ entries c e pre ++ (map c.get_entry (items c mid) ++ map c.get_entry (items c post))
  three-Distinct pre mid post =
      ap (λ es. c.get_entry (c.create_direct_entry_ref e) ∷ es)
        (entries-append c pre (mid ++ post)
          ∙ ap (λ es. map c.get_entry (items c pre) ++ es) (entries-append c mid post))

  -- The link of the position behind `pre` is set to what follows `mid`.
  pub cut :
      (next : Links) (pre mid post : List ℕ)
      → IsForward c next e (pre ++ (mid ++ post))
      → IsForward c (update next (c.get_entry (behind c e pre)) (at c post)) e (pre ++ post)
  cut next pre mid post v =
      let d = subst Distinct (three-Distinct pre mid post) v.distinct in
      let d' = join-Distinct c e pre post (
        Distinct-remove (entries c e pre) (map c.get_entry (items c mid))
          (map c.get_entry (items c post)) d) in
      let free = behind_not_in c e pre post d' in
      let p = c.get_entry (behind c e pre) in
      let v' = subst (IsForward c next e) (sym (append_assoc pre mid post)) v in
      IsForward-graft c e (update next p (at c post)) pre (mid ++ post) post v
        (λ x n ne. ground arith)
        (IsChain-onto c.get_entry next (update next p (at c post)) (behind c e (pre ++ mid))
          (behind c e pre) (items c post) (ground arith) (λ x n. ground arith)
          (behind-IsChain c e (pre ++ mid) post v'))
        (ItemsOk-split c (pre ++ mid) post v'.items_ok).1 d'

  -- What was taken out stays linked.
  pub cut-IsRun :
      (next : Links) (pre : List ℕ) (f : ℕ) (ms post : List ℕ)
      → IsForward c next e (pre ++ ((f ∷ ms) ++ post))
      → IsRun (update next (c.get_entry (behind c e pre)) (at c post)) f ms (pre ++ post)
  cut-IsRun next pre f ms post v =
      let run = items c (f ∷ ms) in
      let p = c.get_entry (behind c e pre) in
      let d = subst Distinct (three-Distinct pre (f ∷ ms) post) v.distinct in
      let es = map c.get_entry (items c post) in
      let free =
        subst (λ l. has p l ≡ false) (entries-append c (f ∷ ms) post)
          (behind_not_in c e pre ((f ∷ ms) ++ post) v.distinct) in
      let linked = IsChain-IsLinked c.get_entry next (item c f) (items c ms) (items c post) (
        subst (IsChain c.get_entry next (item c f)) (items-append c ms post)
          (behind-IsChain c e pre ((f ∷ ms) ++ post) v).1) in
      record {
        linked =
            IsLinked-frame c.get_entry next (update next p (at c post)) (item c f) (items c ms)
              (λ x n. ground (arith, has-append p (map c.get_entry run) es)) linked;
        distinct =
            Distinct-front (map c.get_entry run) es
              (Distinct-back (entries c e pre) (map c.get_entry run ++ es) d);
        apart =
            subst
              (λ l. Disjoint (map c.get_entry run) (c.get_entry (c.create_direct_entry_ref e) ∷ l))
              (sym (entries-append c pre post))
              (Distinct-apart (entries c e pre) (map c.get_entry run) es d);
        items_ok =
            (ItemsOk-split c (f ∷ ms) post (ItemsOk-split c pre ((f ∷ ms) ++ post) v.items_ok).1).0;
      }

  -- The links with the closed range from `first` to `last` put behind `pos`.
  abbrev pub linked_in : Links → (pos first last : ℕ) → Links
  linked_in next pos first last =
      update (update next (c.get_entry last) (next (c.get_entry pos))) (c.get_entry pos) first

  -- A run is put in behind `pre`.
  pub link_in :
      (next : Links) (pre : List ℕ) (f : ℕ) (ms post : List ℕ)
      → IsForward c next e (pre ++ post)
      → IsRun next f ms (pre ++ post)
      → IsForward c
          (linked_in next (behind c e pre) (item c f) (last c.get_entry (item c f) (items c ms)))
          e
          (pre ++ ((f ∷ ms) ++ post))
  link_in next pre f ms post v run =
      let pos = behind c e pre in
      let p = c.get_entry pos in
      let end_word = last c.get_entry (item c f) (items c ms) in
      let l = c.get_entry end_word in
      let next' = linked_in next pos (item c f) end_word in
      let rs = map c.get_entry (items c (f ∷ ms)) in
      let es = map c.get_entry (items c post) in
      let d =
        Distinct-insert (entries c e pre) rs es (parts-Distinct c e pre post v.distinct)
          run.distinct
          (subst (λ l. Disjoint rs (c.get_entry (c.create_direct_entry_ref e) ∷ l))
            (entries-append c pre post) run.apart) in
      let p_in = behind_in c e pre in
      let l_in : has l rs ≡ true =
        subst (λ k. has l (c.get_entry (item c f) ∷ map c.get_entry k) ≡ true)
          (append-nil (items c ms)) (last_in c.get_entry (item c f) (items c ms) []) in
      let p_free = Distinct-Disjoint (entries c e pre) (rs ++ es) d p p_in in
      let l_free = Distinct-Disjoint rs es (Distinct-back (entries c e pre) (rs ++ es) d) l l_in in
      let parts = has-append p rs es in
      let follows = forward-behind c e pre post v in
      let tail =
        IsChain-onto c.get_entry next next' pos end_word (items c post)
          (ground (arith, follows, p_free, parts, l_in))
          (λ x n. ground (arith, p_free, parts, l_free)) (behind-IsChain c e pre post v) in
      let inner =
        IsChain-graft c.get_entry next next' (item c f) (items c ms) (items c post) run.distinct
          (λ x n ne. ground (arith, p_free, parts)) run.linked tail in
      let outer : IsChain c.get_entry next' pos (items c ((f ∷ ms) ++ post)) = (
        ground (arith, eq→== p p refl),
        subst (IsChain c.get_entry next' (item c f)) (sym (items-append c ms post)) inner,
      ) in
      IsForward-graft c e next' pre post ((f ∷ ms) ++ post) v
        (λ x n ne.
          ground
            (arith, Distinct-Disjoint (entries c e pre) (rs ++ es) d x, has-append x rs es, l_in))
        outer (ItemsOk-append c (f ∷ ms) post run.items_ok (ItemsOk-split c pre post v.items_ok).1)
        (subst Distinct (sym (three-Distinct pre (f ∷ ms) post)) d)
