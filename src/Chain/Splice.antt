-- ===== src/Chain/Splice.antt =====
-- A run of items of one singly linked list is put into another.
use csd_mirror.Prelude.{
  ℕ, zero, suc, ◌+◌, ◌<◌, ◌≡◌, refl, true, false, Option, some, List, [], ◌∷◌, ◌++◌, map, length,
  arith, has, Disjoint, member_ne, length-map, not_has_middle, ◌==◌, if◌then◌else◌, eq→==, subst,
  sym, ap, ◌∙◌,
}
use mathlib.Core.List.{append_assoc, append-nil}
use csd_mirror.Intrusive.{EntryRefCodec}
use csd_mirror.Tailq.Memory.{update}
use csd_mirror.Tailq.Links.{last}
use csd_mirror.Tailq.Valid.{
  item, items, entries, ItemsOk, ItemsOk-split, items-append, not_has_parts, entries-append,
}
use csd_mirror.Chain.{Links, forward}
use csd_mirror.Chain.Laws.{IsChain-frame, IsLinked, last_in}
use csd_mirror.Chain.Forward.{
  IsForward, at, behind, behind_not_in, item_not_null, behind-append, forward-behind,
  IsForward-concat,
}
use csd_mirror.Chain.Apart.{item_ne_at}
use csd_mirror.Chain.Ranges.{IsRun, linked_in, cut, cut-IsRun, link_in}

module _ (c : EntryRefCodec) where
  pub IsForward-frame :
      (next next' : Links) (e : ℕ) (xs : List ℕ)
      → ((x : ℕ) → has x (entries c e xs) ≡ true → next' x ≡ next x)
      → IsForward c next e xs
      → IsForward c next' e xs
  IsForward-frame next next' e xs same v = record {
    head_ok = v.head_ok;
    items_ok = v.items_ok;
    chain =
        IsChain-frame c.get_entry next next' (c.create_direct_entry_ref e) (items c xs) same
          v.chain;
    distinct = v.distinct;
  }

  last_not_null :
      (w : ℕ) (pre : List ℕ)
      → (w == 0) ≡ false
      → ItemsOk c pre
      → (last c.get_entry w (items c pre) == 0) ≡ false
  last_not_null w [] ne ok = ne
  last_not_null w (x ∷ pre) ne ok = last_not_null (item c x) pre (item_not_null c x ok.0) ok.1

  -- A position is no null link, and none of the positions behind it.
  pub behind_not_null :
      (next : Links) (e : ℕ) (pre post : List ℕ)
      → IsForward c next e (pre ++ post)
      → (behind c e pre == 0) ≡ false
  behind_not_null next e pre post v =
      last_not_null (c.create_direct_entry_ref e) pre
        (ground (arith, c.entry-ne-null e v.head_ok, c.direct-raw e v.head_ok))
        (ItemsOk-split c pre post v.items_ok).0

  pub behind_ne_at :
      (next : Links) (e : ℕ) (pre mid post : List ℕ)
      → IsForward c next e (pre ++ (mid ++ post))
      → (behind c e pre == at c post) ≡ false
  behind_ne_at next e pre mid [] v = behind_not_null next e pre (mid ++ []) v
  behind_ne_at next e pre mid (q ∷ post) v =
      let free = behind_not_in c e pre (mid ++ q ∷ post) v.distinct in
      let (_, ne, _) =
        not_has_middle (c.get_entry (behind c e pre)) (map c.get_entry (items c mid))
          (c.get_entry (item c q)) (map c.get_entry (items c post))
          (subst (λ l. has (c.get_entry (behind c e pre)) l ≡ false)
            (entries-append c mid (q ∷ post)) free) in
      ground (arith, ne)

  -- The entry of a position is one of the list's.
  pub behind_member :
      (e : ℕ) (pre post : List ℕ)
      → has (c.get_entry (behind c e pre)) (entries c e (pre ++ post)) ≡ true
  behind_member e pre post =
      subst
        (λ l.
          has (c.get_entry (behind c e pre))
            (c.get_entry (c.create_direct_entry_ref e) ∷ map c.get_entry l)
          ≡ true)
        (sym (items-append c pre post))
        (last_in c.get_entry (c.create_direct_entry_ref e) (items c pre) (items c post))

  -- A list stays when a link of another list is set.
  pub other_link :
      (next : Links) (e e' : ℕ) (xs pre post : List ℕ) (w : ℕ)
      → IsForward c next e xs
      → Disjoint (entries c e xs) (entries c e' (pre ++ post))
      → IsForward c (update next (c.get_entry (behind c e' pre)) w) e xs
  other_link next e e' xs pre post w v apart =
      let p = c.get_entry (behind c e' pre) in
      let inside = behind_member e' pre post in
      IsForward-frame next (update next p w) e xs
        (λ x n.
          let ne = member_ne x p (entries c e' (pre ++ post)) (apart x n) inside in
          ground (arith, ne))
        v

  module _ (next : Links) (e e' : ℕ) (pre post : List ℕ) (f : ℕ) (ms pre' post' : List ℕ)
      (v : IsForward c next e (pre ++ post))
      (v' : IsForward c next e' (pre' ++ ((f ∷ ms) ++ post')))
      (apart : Disjoint
        (entries c e (pre ++ post))
        (entries c e' (pre' ++ ((f ∷ ms) ++ post')))) where
    abbrev next1 : Links
    next1 = update next (c.get_entry (behind c e' pre')) (at c post')

    abbrev run_end : ℕ
    run_end = last c.get_entry (item c f) (items c ms)

    pub unlinked-IsRun : IsRun c e next1 f ms (pre ++ post)
    unlinked-IsRun =
        let run = cut-IsRun c e' next pre' f ms post' v' in
        record {
          linked = run.linked;
          distinct = run.distinct;
          apart = λ x n. ground (arith, apart x, not_has_parts c e' pre' (f ∷ ms) post' x);
          items_ok = run.items_ok;
        }

    pub unlinked_this : IsForward c next1 e (pre ++ post)
    unlinked_this = other_link next e e' (pre ++ post) pre' ((f ∷ ms) ++ post') (at c post') v apart

    pub move_run :
        let next2 = linked_in c e next1 (behind c e pre) (item c f) run_end in
        IsForward c next2 e (pre ++ ((f ∷ ms) ++ post)) × IsForward c next2 e' (pre' ++ post')
    move_run =
        let run = cut-IsRun c e' next pre' f ms post' v' in
        let next2 = linked_in c e next1 (behind c e pre) (item c f) run_end in
        let rs = map c.get_entry (items c (f ∷ ms)) in
        let l = c.get_entry run_end in
        let l_in : has l rs ≡ true =
          subst (λ k. has l (c.get_entry (item c f) ∷ map c.get_entry k) ≡ true)
            (append-nil (items c ms)) (last_in c.get_entry (item c f) (items c ms) []) in
        let l_free = run.apart l l_in in
        let p = c.get_entry (behind c e pre) in
        let p_free =
          (not_has_parts c e' pre' (f ∷ ms) post' p (apart p (behind_member e pre post))).0 in
        (
          link_in c e next1 pre f ms post unlinked_this unlinked-IsRun,
          IsForward-frame next1 next2 e' (pre' ++ post')
              (λ x n.
                let not_l = member_ne l x (entries c e' (pre' ++ post')) l_free n in
                let not_p = member_ne p x (entries c e' (pre' ++ post')) p_free n in
                ground (arith, not_l, not_p))
              (cut c e' next pre' (f ∷ ms) post' v'),
        )

-- The loop that looks for the last item of a run.
module _ (c : EntryRefCodec) (loop : ℕ → Links → (last_inserted scan stop sz : ℕ) → Option (ℕ × ℕ))
    (round : (fuel : ℕ) (next : Links) (last_inserted scan stop sz : ℕ)
      → loop (suc fuel) next last_inserted scan stop sz ≡ (
          if scan == stop
          then some (last_inserted, sz)
          else loop fuel next scan (forward c next scan) stop (suc sz))) where
  abbrev AllNot : ℕ → List ℕ → Type 0
  AllNot stop [] = Unit
  AllNot stop (w ∷ ws) = ((w == stop) ≡ false) × AllNot stop ws

  last_insert_lem :
      (fuel : ℕ) (next : Links) (w : ℕ) (ws : List ℕ) (stop sz : ℕ)
      → length ws < fuel
      → IsLinked c.get_entry next w ws
      → next (c.get_entry (last c.get_entry w ws)) ≡ stop
      → AllNot stop ws
      → loop fuel next w (forward c next w) stop sz ≡ some (last c.get_entry w ws, length ws + sz)
  last_insert_lem zero next w ws stop sz lt k to ne = absurd (omega arith)
  last_insert_lem (suc fuel) next w [] stop sz lt k to ne =
      round fuel next w (forward c next w) stop sz
      ∙ rw to (rw (eq→== stop stop refl) (ap (λ n. some (w, n)) (omega arith)))
  last_insert_lem (suc fuel) next w (x ∷ ws) stop sz lt k to ne =
      round fuel next w (forward c next w) stop sz
      ∙ rw k.0 (rw ne.0 refl)
      ∙ last_insert_lem fuel next x ws stop (suc sz) (omega arith) k.1 to ne.1
      ∙ ap (λ n. some (last c.get_entry x ws, n)) (omega arith)

  all_not :
      (next : Links) (e : ℕ) (pre mid post : List ℕ)
      → IsForward c next e (pre ++ (mid ++ post))
      → AllNot (at c post) (items c mid)
  all_not next e pre [] post v = tt
  all_not next e pre (x ∷ mid) post v = (
    item_ne_at c e pre x mid post v,
    all_not next e (pre ++ x ∷ []) mid post (IsForward-concat c e pre x (mid ++ post) v),
  )

  -- It finds the last of the run that has been taken out.
  pub last_insert_run :
      (fuel : ℕ) (next : Links) (e : ℕ) (pre : List ℕ) (f : ℕ) (ms post : List ℕ)
      → IsForward c next e (pre ++ ((f ∷ ms) ++ post))
      → length (f ∷ ms) < fuel
      → let next1 = update next (c.get_entry (behind c e pre)) (at c post) in
        loop fuel next1 (item c f) (forward c next1 (item c f)) (at c post) 1
        ≡ some (last c.get_entry (item c f) (items c ms), length (f ∷ ms))
  last_insert_run fuel next e pre f ms post v lt =
      let p = c.get_entry (behind c e pre) in
      let next1 = update next p (at c post) in
      let end_word = last c.get_entry (item c f) (items c ms) in
      let run = cut-IsRun c e next pre f ms post v in
      let l_in =
        subst (λ k. has (c.get_entry end_word) (c.get_entry (item c f) ∷ map c.get_entry k) ≡ true)
          (append-nil (items c ms)) (last_in c.get_entry (item c f) (items c ms) []) in
      let ne =
        member_ne (c.get_entry end_word) p (entries c e (pre ++ post))
          (run.apart (c.get_entry end_word) l_in) (behind_member c e pre post) in
      let v' = subst (IsForward c next e) (sym (append_assoc pre (f ∷ ms) post)) v in
      let follows =
        subst (λ w. next (c.get_entry w) ≡ at c post) (behind-append c e pre f ms)
          (forward-behind c e (pre ++ f ∷ ms) post v') in
      let to : next1 (c.get_entry end_word) ≡ at c post = ground (arith, ne, follows) in
      last_insert_lem fuel next1 (item c f) (items c ms) (at c post) 1
        (omega (arith, length-map (item c) ms)) run.linked to (all_not next e pre (f ∷ ms) post v).1
      ∙ ap (λ n. some (end_word, n)) (omega (arith, length-map (item c) ms))
