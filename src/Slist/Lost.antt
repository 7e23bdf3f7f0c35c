-- ===== src/Slist/Lost.antt =====
-- `splice_after` of a whole list of `Slist`, which loses the items behind the position.
use csd_mirror.Prelude.{
  ℕ, ◌+◌, ◌<◌, ◌≡◌, refl, true, false, some, List, [], ◌∷◌, ◌++◌, map, length, arith, has,
  Distinct-front, Distinct-append, Disjoint, Disjoint-sym, has-append, member_ne, ◌==◌, eq→==,
  subst, ap, ◌∙◌,
}
use csd_mirror.Intrusive.{EntryRefCodec}
use csd_mirror.Intrusive.Size.{Counts, Fits, add_size, set_size, set_size-Counts}
use csd_mirror.Tailq.Memory.{update}
use csd_mirror.Tailq.Valid.{item, items, entries, entries-append}
use csd_mirror.Chain.{Links}
use csd_mirror.Chain.Laws.{IsChain-frame}
use csd_mirror.Chain.Forward.{
  IsForward, IsForward-graft, behind, parts-Distinct, join-Distinct, item_not_null,
}
use csd_mirror.Chain.Walk.{counted-Counts}
use csd_mirror.Chain.Splice.{other_link, behind_member}
use csd_mirror.Slist.Element.{Head, empty, clear}
use csd_mirror.Slist.Range.{splice_after}
use csd_mirror.Slist.Laws.{IsSlist, size_after_lem}

module _ (c : EntryRefCodec) (fuel : ℕ) (next : Links) (this other : Head) (pre post : List ℕ)
    (f : ℕ) (ms : List ℕ) (v : IsSlist c next this (pre ++ post))
    (v' : IsSlist c next other (f ∷ ms))
    (apart : Disjoint
      (entries c this.head_entry (pre ++ post))
      (entries c other.head_entry (f ∷ ms))) where
  abbrev e : ℕ
  e = this.head_entry

  abbrev linked : Links
  linked = update next (c.get_entry (behind c e pre)) (item c f)

  apart' : Disjoint (entries c other.head_entry (f ∷ ms)) (entries c e (pre ++ post))
  apart' = Disjoint-sym (entries c e (pre ++ post)) (entries c other.head_entry (f ∷ ms)) apart

  -- The other list is not touched by the link of the position.
  kept_other : IsSlist c linked other (f ∷ ms)
  kept_other = record {
    forward = other_link c next other.head_entry e (f ∷ ms) pre post (item c f) v'.forward apart';
    count = v'.count;
  }

  abbrev after_clear : Links
  after_clear = update linked other.head_entry 0

  lost_chain : IsForward c after_clear e (pre ++ f ∷ ms)
  lost_chain =
      let p = c.get_entry (behind c e pre) in
      let o = other.head_entry in
      let o_eq = c.get_entry-direct o v'.forward.head_ok in
      let d' = v'.forward.distinct in
      let o_in : has o (entries c o (f ∷ ms)) ≡ true = ground (arith, o_eq, eq→== o o refl) in
      let o_free = apart' o o_in in
      let not_o = member_ne o p (entries c e (pre ++ post)) o_free (behind_member c e pre post) in
      let es = map c.get_entry (items c (f ∷ ms)) in
      let front = entries c e pre in
      let o_front : has o front ≡ false =
        (ground (
          arith,
          has-append o front (map c.get_entry (items c post)),
          subst (λ l. has o (c.get_entry (c.create_direct_entry_ref e) ∷ l) ≡ false)
              (entries-append c pre post) o_free,
        )) in
      let o_es : has o es ≡ false = subst (λ a. has a es ≡ false) o_eq d'.0 in
      let p_es : has p es ≡ false = ground (arith, apart p (behind_member c e pre post)) in
      let front_es : Disjoint front es = λ x n. ground (
        arith,
        apart x,
        has-append x front (map c.get_entry (items c post)),
        subst
            (λ l.
              has x (entries c e (pre ++ post))
              ≡ has x (c.get_entry (c.create_direct_entry_ref e) ∷ l))
            (entries-append c pre post) refl,
      ) in
      let d =
        Distinct-append front es
          (Distinct-front front (map c.get_entry (items c post))
            (parts-Distinct c e pre post v.forward.distinct))
          d'.1 front_es in
      IsForward-graft c e after_clear pre post (f ∷ ms) v.forward
        (λ x n ne. let not_o = member_ne o x front o_front n in ground (arith, not_o))
        (
          ground (arith, not_o, eq→== p p refl),
          IsChain-frame c.get_entry next after_clear (item c f) (items c ms)
              (λ x n.
                let not_o = member_ne o x es o_es n in
                let not_p = member_ne p x es p_es n in ground (arith, not_o, not_p))
              v'.forward.chain.1,
        )
        v'.forward.items_ok (join-Distinct c e pre (f ∷ ms) d)

  -- For two singly linked lists without common entries, of which the other has items, whose number
  -- its size member can hold and is below the fuel, `splice_after(pos, other)` gives a result: the
  -- other list is empty, and this list ends with the items of the other behind `pos`, so that the
  -- items that were behind `pos` are no longer in it, while its size member counts them, too.
  pub splice_after-items_lost :
      length (f ∷ ms) < fuel
      → Fits other.size_member (length (f ∷ ms))
      → (next' : Links) × (this' : Head) × (other' : Head) × (splice_after c fuel next this other
            (behind c this.head_entry pre)
          ≡ some (next', this', other'))
        × IsForward c next' this.head_entry (pre ++ f ∷ ms)
        × Counts this.size_member this'.m_sz (length (pre ++ post) + length (f ∷ ms))
        × IsSlist c next' other' []
  unfolding splice_after empty clear
  splice_after-items_lost lt fits =
      let sized = size_after_lem c fuel linked other (f ∷ ms) kept_other lt fits in
      let (k, eq, _, count) = counted-Counts this.size_member _ (length (f ∷ ms)) sized in
      let o = other.head_entry in
      let o_eq = c.get_entry-direct o v'.forward.head_ok in
      let first_eq : next o ≡ item c f = subst (λ a. next a ≡ item c f) o_eq v'.forward.chain.0 in
      let not_empty : (next o == 0) ≡ false =
        ap (λ w. w == 0) first_eq ∙ item_not_null c f v'.forward.items_ok.0 in
      (
        after_clear,
        record this { m_sz = add_size this.size_member this.m_sz k },
        record other { m_sz = set_size other.size_member other.m_sz 0 },
        rw not_empty (rw (v'.forward.chain.0) (rw eq refl)),
        lost_chain,
        count this.m_sz (length (pre ++ post)) v.count,
        record {
          forward = record {
            head_ok = v'.forward.head_ok;
            items_ok = tt;
            chain = ground (arith, o_eq, eq→== o o refl);
            distinct = (refl, tt);
          };
          count = set_size-Counts other.size_member other.m_sz 0;
        },
      )
