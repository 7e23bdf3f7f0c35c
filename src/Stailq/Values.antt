-- ===== src/Stailq/Values.antt =====
-- `insert_after` of a sequence of items, and what it makes of `assign` and of new heads.
use csd_mirror.Prelude.{ℕ, ◌≡◌, true, List, [], ◌∷◌, ◌++◌, arith, subst, sym, ap}
use mathlib.Core.List.{append_assoc, append-nil}
use csd_mirror.Intrusive.{EntryRefCodec}
use csd_mirror.Intrusive.Size.{SizeMember}
use csd_mirror.Tailq.Valid.{IsFree}
use csd_mirror.Tailq.Element.Values.{IsFree-tail}
use csd_mirror.Chain.{Links}
use csd_mirror.Stailq.Element.{Head, init, clear, insert_after, insert_values_after, assign}
use csd_mirror.Stailq.Head.{make}
use csd_mirror.Stailq.Laws.{IsStailq, after, clear_after_lem}
use csd_mirror.Stailq.Insert.{insert_after_lem}

module _ (c : EntryRefCodec) where
  -- The items `values` are put in at `pos`, behind `pre`.
  abbrev Placed : Links → Head → (pre values post : List ℕ) → (pos : ℕ) → Type 0
  Placed next h pre values post pos =
      let (next', h', it) = insert_values_after c next h pos values in
      IsStailq c next' h' (pre ++ (values ++ post)) × (it ≡ after c h (pre ++ values))

  pub queue_insert_values_lem :
      (next : Links) (h : Head) (pre values post : List ℕ)
      → IsStailq c next h (pre ++ post)
      → IsFree c h.head_entry values (pre ++ post)
      → Placed next h pre values post (after c h pre)
  unfolding insert_values_after insert_after
  queue_insert_values_lem next h pre [] post v f = (v, ap (after c h) (sym (append-nil pre)))
  queue_insert_values_lem next h pre (value ∷ values) post v f =
      let e = h.head_entry in
      let (v1, it1) =
        insert_after_lem c next h pre post value v f.items_ok.0 (f.apart _ (ground arith)) in
      let (next1, h1, _) = insert_after c next h (after c h pre) value in
      let assoc = sym (append_assoc pre (value ∷ []) post) in
      let rest : Placed next1 h1 (pre ++ value ∷ []) values post (c.create_item_entry_ref value) =
        subst (Placed next1 h1 (pre ++ value ∷ []) values post) (sym it1) (
          queue_insert_values_lem next1 h1 (pre ++ value ∷ []) values post
            (subst (IsStailq c next1 h1) assoc v1)
            (subst (IsFree c e values) assoc (IsFree-tail c e pre value values post f))) in
      rw (append_assoc pre (value ∷ []) (values ++ post), append_assoc pre (value ∷ []) values) at
        rest

  pub stailq_assign_lem :
      (next : Links) (h : Head) (values : List ℕ)
      → c.entry_ok h.head_entry ≡ true
      → IsFree c h.head_entry values []
      → let (next', h') = assign c next h values in IsStailq c next' h' values
  unfolding assign clear
  stailq_assign_lem next h values ok f =
      let (next', h') = clear c next h in
      let (v, _) = queue_insert_values_lem next' h' [] values [] (clear_after_lem c next h ok) f in
      rw append-nil at v

  -- A singly linked tail queue whose head is made with items whose entries are distinct and not its
  -- own, all at addresses that the codec accepts, holds these items in their order, with the last
  -- of them, or its head entry if there is none, as the tail.
  pub stailq_make_lem :
      (next : Links) (e : ℕ) (s : SizeMember) (values : List ℕ)
      → c.entry_ok e ≡ true
      → IsFree c e values []
      → let (next', h) = make c next e s values in IsStailq c next' h values
  unfolding make init
  stailq_make_lem next e s values ok f =
      let (next', h) = init next e s in stailq_assign_lem next' h values ok f
