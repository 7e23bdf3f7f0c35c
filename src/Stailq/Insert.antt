-- ===== src/Stailq/Insert.antt =====
-- `insert_after` and `push_back` of `Stailq`.
use csd_mirror.Prelude.{
  Disjoint, Distinct-insert, ℕ, ◌≡◌, refl, true, false, List, [], ◌∷◌, ◌++◌, map, length,
  length-append, arith, has, Distinct, ◌==◌, sym, subst,
}
use mathlib.Core.List.{append-nil}
use csd_mirror.Intrusive.{EntryRefCodec}
use csd_mirror.Intrusive.Size.{Counts, add_size-Counts}
use csd_mirror.Tailq.Memory.{update}
use csd_mirror.Tailq.Valid.{
  item, items, entries, entries-append, items-append, ItemsOk-append, ItemsOk-split,
}
use csd_mirror.Chain.{Links}
use csd_mirror.Chain.Laws.{IsChain, IsChain-insert, IsChain-behind, IsChain-end, last_in}
use csd_mirror.Stailq.Element.{Head, before_begin, insert_after, push_back}
use csd_mirror.Stailq.Laws.{IsStailq, after, after-append}

has_one : (x y : ℕ) → has x (y ∷ []) ≡ true → x ≡ y
has_one x y n = ground arith

apart_one :
    (c : EntryRefCodec) (e : ℕ) (pre : List ℕ) (value : ℕ) (post : List ℕ)
    → has (c.get_entry (item c value)) (entries c e (pre ++ post)) ≡ false
    → Disjoint (c.get_entry (item c value) ∷ []) (
        (c.get_entry (c.create_direct_entry_ref e) ∷ map c.get_entry (items c pre))
        ++ map c.get_entry (items c post))
apart_one c e pre value post fresh =
    subst
      (λ es.
        Disjoint (c.get_entry (item c value) ∷ []) (c.get_entry (c.create_direct_entry_ref e) ∷ es))
      (entries-append c pre post)
      (λ x n. subst (λ y. has y (entries c e (pre ++ post)) ≡ false) (sym (has_one x _ n)) fresh)

module _ (c : EntryRefCodec) where
  -- The entries of the list with an item put in, and with one taken out.
  entries-insert :
      (e : ℕ) (pre : List ℕ) (value : ℕ) (post : List ℕ)
      → Distinct (entries c e (pre ++ post))
      → has (c.get_entry (item c value)) (entries c e (pre ++ post)) ≡ false
      → Distinct (entries c e (pre ++ value ∷ post))
  entries-insert e pre value post d fresh =
      subst (λ es. Distinct (c.get_entry (c.create_direct_entry_ref e) ∷ es))
        (sym (entries-append c pre (value ∷ post)))
        (Distinct-insert (c.get_entry (c.create_direct_entry_ref e) ∷ map c.get_entry (items c pre))
          (c.get_entry (item c value) ∷ []) (map c.get_entry (items c post))
          (subst (λ es. Distinct (c.get_entry (c.create_direct_entry_ref e) ∷ es))
            (entries-append c pre post) d)
          (refl, tt) (apart_one c e pre value post fresh))

  tail-insert :
      (next : Links) (h : Head) (pre post : List ℕ) (value : ℕ)
      → IsStailq c next h (pre ++ post)
      → (c.get_entry (item c value) == c.get_entry (after c h pre)) ≡ false
      → (insert_after c next h (after c h pre) value).1.encoded_tail
        ≡ after c h (pre ++ value ∷ post)
  unfolding insert_after
  tail-insert next h pre [] value v ne =
      let stop = IsChain-end c.get_entry next (before_begin c h) (items c pre) (
        subst (λ l. IsChain c.get_entry next (before_begin c h) (items c l)) (append-nil pre)
          v.chain) in
      let at_end = after-append c h pre value [] in ground (arith, stop, at_end)
  tail-insert next h pre (p ∷ ps) value v ne =
      let (follows, _) =
        IsChain-behind c.get_entry next (before_begin c h) (items c pre) (item c p) (items c ps) (
          subst (IsChain c.get_entry next (before_begin c h)) (items-append c pre (p ∷ ps))
            v.chain) in
      let ok = (ItemsOk-split c pre (p ∷ ps) v.items_ok).1.0 in
      let before = after-append c h pre p ps in
      let at_end = after-append c h pre value (p ∷ ps) in
      ground (arith, follows, c.item-ne-null p ok, before, at_end, v.tail)

  -- `insert_after` of an item at an address that the codec accepts, whose entry is not in the
  -- queue, puts it behind the position, counts it, returns the iterator to it, and keeps the tail
  -- that of the last item.
  pub insert_after_lem :
      (next : Links) (h : Head) (pre post : List ℕ) (value : ℕ)
      → IsStailq c next h (pre ++ post)
      → c.item_ok value ≡ true
      → has (c.get_entry (c.create_item_entry_ref value)) (entries c h.head_entry (pre ++ post))
        ≡ false
      → let (next', h', it) = insert_after c next h (after c h pre) value in
        IsStailq c next' h' (pre ++ value ∷ post) × (it ≡ after c h (pre ++ value ∷ []))
  unfolding insert_after
  insert_after_lem next h pre post value v ok fresh =
      let (ok_pre, ok_post) = ItemsOk-split c pre post v.items_ok in
      let es = c.get_entry (before_begin c h) ∷ map c.get_entry (items c (pre ++ post)) in
      let inside =
        subst
          (λ l.
            has (c.get_entry (after c h pre)) (c.get_entry (before_begin c h) ∷ map c.get_entry l)
            ≡ true)
          (sym (items-append c pre post))
          (last_in c.get_entry (before_begin c h) (items c pre) (items c post)) in
      let ne : (c.get_entry (item c value) == c.get_entry (after c h pre)) ≡ false =
        ground (arith, inside, fresh) in
      (
        record {
          head_ok = v.head_ok;
          items_ok = ItemsOk-append c pre (value ∷ post) ok_pre (ok, ok_post);
          chain =
              subst
                (IsChain c.get_entry
                  (update
                    (update next (c.get_entry (item c value)) (next (c.get_entry (after c h pre))))
                    (c.get_entry (after c h pre)) (item c value))
                  (before_begin c h))
                (sym (items-append c pre (value ∷ post)))
                (IsChain-insert c.get_entry next (before_begin c h) (items c pre) (item c value)
                  (items c post)
                  (subst (IsChain c.get_entry next (before_begin c h)) (items-append c pre post)
                    v.chain)
                  (subst (λ l. Distinct (c.get_entry (before_begin c h) ∷ map c.get_entry l))
                    (items-append c pre post) v.distinct)
                  (subst
                    (λ l.
                      has (c.get_entry (item c value))
                        (c.get_entry (before_begin c h) ∷ map c.get_entry l)
                      ≡ false)
                    (items-append c pre post) fresh));
          distinct = entries-insert h.head_entry pre value post v.distinct fresh;
          tail = tail-insert next h pre post value v ne;
          count =
              subst (Counts h.size_member _)
                (omega (arith, length-append {0} pre post, length-append {0} pre (value ∷ post)))
                (add_size-Counts h.size_member h.m_sz (length (pre ++ post)) 1 v.count);
        },
        sym (after-append c h pre value []),
      )

  -- `push_back` of an item at an address that the codec accepts, whose entry is not in the queue,
  -- appends it.
  pub push_back_after_lem :
      (next : Links) (h : Head) (xs : List ℕ) (value : ℕ)
      → IsStailq c next h xs
      → c.item_ok value ≡ true
      → has (c.get_entry (c.create_item_entry_ref value)) (entries c h.head_entry xs) ≡ false
      → let (next', h') = push_back c next h value in IsStailq c next' h' (xs ++ value ∷ [])
  unfolding push_back
  push_back_after_lem next h xs value v ok fresh =
      let same = sym (append-nil xs) in
      subst
        (λ pos.
          IsStailq c (insert_after c next h pos value).0 (insert_after c next h pos value).1
            (xs ++ value ∷ []))
        (sym v.tail)
        (insert_after_lem next h xs [] value (subst (IsStailq c next h) same v) ok (
          subst (λ l. has (c.get_entry (item c value)) (entries c h.head_entry l) ≡ false) same
            fresh)).0
