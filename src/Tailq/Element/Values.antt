-- ===== src/Tailq/Element/Values.antt =====
-- `insert` of a range, and `assign`.
use csd_mirror.Prelude.{ℕ, ◌≡◌, refl, List, [], ◌∷◌, ◌++◌, arith, subst, sym, ◌∙◌}
use mathlib.Core.List.{append_assoc}
use csd_mirror.Intrusive.{EntryRefCodec}
use csd_mirror.Tailq.Memory.{Memory, Head}
use csd_mirror.Tailq.Attach.{before}
use csd_mirror.Tailq.Walk.{before-concat, forward-before}
use csd_mirror.Tailq.Valid.{IsTailq, IsFree, entries, at, SameOutside, not_has_parts, not_has_join}
use csd_mirror.Tailq.Element.{insert, insert_rest, insert_values}
use csd_mirror.Tailq.Element.Insert.{insert_lem}

module _ (c : EntryRefCodec) where
  -- One item less to insert, one more in the list.
  pub IsFree-tail :
      (e : ℕ) (pre : List ℕ) (value : ℕ) (values post : List ℕ)
      → IsFree c e (value ∷ values) (pre ++ post)
      → IsFree c e values (pre ++ value ∷ post)
  IsFree-tail e pre value values post f = record {
    distinct = f.distinct.1;
    apart = λ x n.
        not_has_join c e pre (value ∷ []) post x (f.apart x (ground arith))
          (ground (arith, f.distinct.0));
    items_ok = f.items_ok.1;
  }

  -- What the loop achieves from the last item of `pre` on.
  Rest : (m : Memory) (h : Head) (pre values post : List ℕ) → Type 0
  Rest m h pre values post =
      let (m', h') = insert_rest c m h (before c h pre) values in
      IsTailq c m' h' (pre ++ (values ++ post))
      × SameOutside c (entries c h.end_entry (pre ++ (values ++ post))) m m'

  -- One value is put in at `pos`, and the loop goes on behind it.
  After : (m : Memory) (h : Head) (pre : List ℕ) (value : ℕ) (values post : List ℕ) → ℕ → Type 0
  After m h pre value values post pos =
      let (m1, h1, it) = insert c m h pos value in
      let (m', h') = insert_rest c m1 h1 it values in
      IsTailq c m' h' (pre ++ ((value ∷ values) ++ post))
      × SameOutside c (entries c h.end_entry (pre ++ ((value ∷ values) ++ post))) m m'

  module _ (m : Memory) (h : Head) (pre : List ℕ) (value : ℕ) (values post : List ℕ)
      (v : IsTailq c m h (pre ++ post))
      (f : IsFree c h.end_entry (value ∷ values) (pre ++ post)) where
    next_memory : Memory
    next_memory = (insert c m h (at c h post) value).0

    next_head : Head
    next_head = (insert c m h (at c h post) value).1

    next_IsTailq :
        IsTailq c next_memory next_head ((pre ++ value ∷ []) ++ post)
        × IsFree c next_head.end_entry values ((pre ++ value ∷ []) ++ post)
        × SameOutside c (entries c h.end_entry (pre ++ value ∷ post)) m next_memory
    unfolding next_memory next_head insert
    next_IsTailq =
        let (v', _, same) =
          insert_lem c m h pre post value v f.items_ok.0 (f.apart _ (ground arith)) in
        let assoc = sym (append_assoc pre (value ∷ []) post) in
        (
          subst (IsTailq c next_memory next_head) assoc v',
          subst (IsFree c h.end_entry values) assoc
              (IsFree-tail h.end_entry pre value values post f),
          same,
        )

    insert_round :
        Rest next_memory next_head (pre ++ value ∷ []) values post
        → After m h pre value values post (at c h post)
    unfolding Rest After next_memory next_head insert
    insert_round next =
        let (done, same') =
          rw (before-concat c next_head pre value, append_assoc pre (value ∷ []) (values ++ post))
            at next in
        (
          done,
          λ x n.
              let (n1, n2) = not_has_parts c h.end_entry pre (value ∷ values) post x n in
              let n3 = not_has_join c h.end_entry pre (value ∷ []) post x n1 (ground (arith, n2)) in
              let first_same = next_IsTailq.2 x n3 in
              ((same' x n).0 ∙ first_same.0, (same' x n).1 ∙ first_same.1),
        )

  insert_rest_lem :
      (m : Memory) (h : Head) (pre values post : List ℕ)
      → IsTailq c m h (pre ++ post)
      → IsFree c h.end_entry values (pre ++ post)
      → Rest m h pre values post
  unfolding insert_rest After Rest
  insert_rest_lem m h pre [] post v f = (v, λ x n. (refl, refl))
  insert_rest_lem m h pre (value ∷ values) post v f =
      let (v', f', _) = next_IsTailq m h pre value values post v f in
      subst (After m h pre value values post) (sym (forward-before c h pre post v.ring)) (
        insert_round m h pre value values post v f (
          insert_rest_lem (next_memory m h pre value values post v f)
            (next_head m h pre value values post v f) (pre ++ value ∷ []) values post v' f'))

  -- The range `insert` of items at addresses that the codec accepts, whose entries are distinct and
  -- not in the list, puts them in front of the position in their order and counts them. It returns
  -- the iterator to the first of them, or to the position if there is none, and changes no link of
  -- an entry outside the resulting list.
  pub insert_values_lem :
      (m : Memory) (h : Head) (pre values post : List ℕ)
      → IsTailq c m h (pre ++ post)
      → IsFree c h.end_entry values (pre ++ post)
      → let (m', h', it) = insert_values c m h (at c h post) values in
        IsTailq c m' h' (pre ++ (values ++ post))
        × (it ≡ at c h (values ++ post))
        × SameOutside c (entries c h.end_entry (pre ++ (values ++ post))) m m'
  unfolding insert_values insert After
  insert_values_lem m h pre [] post v f = (v, refl, λ x n. (refl, refl))
  insert_values_lem m h pre (value ∷ values) post v f =
      let (v', f', _) = next_IsTailq m h pre value values post v f in
      let (done, same) = insert_round m h pre value values post v f (
        insert_rest_lem (next_memory m h pre value values post v f)
          (next_head m h pre value values post v f) (pre ++ value ∷ []) values post v' f') in
      (done, refl, same)
