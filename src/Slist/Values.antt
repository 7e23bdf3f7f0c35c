-- ===== src/Slist/Values.antt =====
-- `insert_after` of a sequence of items, and what it makes of `assign` and of new heads.
use csd_mirror.Prelude.{ℕ, ◌≡◌, true, List, [], ◌∷◌, ◌++◌, arith, subst, sym, ap}
use mathlib.Core.List.{append_assoc, append-nil}
use csd_mirror.Intrusive.{EntryRefCodec}
use csd_mirror.Intrusive.Size.{SizeMember, set_size-Counts}
use csd_mirror.Tailq.Valid.{IsFree}
use csd_mirror.Tailq.Element.Values.{IsFree-tail}
use csd_mirror.Chain.{Links}
use csd_mirror.Chain.Forward.{behind}
use csd_mirror.Chain.Heads.{lone_entry}
use csd_mirror.Slist.Element.{Head, init, clear, insert_after, insert_values_after, assign}
use csd_mirror.Slist.Head.{make}
use csd_mirror.Slist.Laws.{IsSlist}
use csd_mirror.Slist.Changes.{slist_insert_after_lem}

module _ (c : EntryRefCodec) where
  -- The items `values` are put in at `pos`, behind `pre`.
  abbrev Placed : Links → Head → (pre values post : List ℕ) → (pos : ℕ) → Type 0
  Placed next h pre values post pos =
      let (next', h', it) = insert_values_after c next h pos values in
      IsSlist c next' h' (pre ++ (values ++ post)) × (it ≡ behind c h.head_entry (pre ++ values))

  pub insert_values_after_lem :
      (next : Links) (h : Head) (pre values post : List ℕ)
      → IsSlist c next h (pre ++ post)
      → IsFree c h.head_entry values (pre ++ post)
      → Placed next h pre values post (behind c h.head_entry pre)
  unfolding insert_values_after insert_after
  insert_values_after_lem next h pre [] post v f =
      (v, ap (behind c h.head_entry) (sym (append-nil pre)))
  insert_values_after_lem next h pre (value ∷ values) post v f =
      let e = h.head_entry in
      let (v1, it1) =
        slist_insert_after_lem c next h pre value post v f.items_ok.0 (f.apart _ (ground arith)) in
      let (next1, h1, _) = insert_after c next h (behind c e pre) value in
      let assoc = sym (append_assoc pre (value ∷ []) post) in
      let rest : Placed next1 h1 (pre ++ value ∷ []) values post (c.create_item_entry_ref value) =
        subst (Placed next1 h1 (pre ++ value ∷ []) values post) (sym it1) (
          insert_values_after_lem next1 h1 (pre ++ value ∷ []) values post
            (subst (IsSlist c next1 h1) assoc v1)
            (subst (IsFree c e values) assoc (IsFree-tail c e pre value values post f))) in
      rw (append_assoc pre (value ∷ []) (values ++ post), append_assoc pre (value ∷ []) values) at
        rest

  pub slist_assign_lem :
      (next : Links) (h : Head) (values : List ℕ)
      → c.entry_ok h.head_entry ≡ true
      → IsFree c h.head_entry values []
      → let (next', h') = assign c next h values in IsSlist c next' h' values
  unfolding assign clear
  slist_assign_lem next h values ok f =
      let (next', h') = clear c next h in
      let (v, _) =
        insert_values_after_lem next' h' [] values []
          (record {
            forward = lone_entry c next' h.head_entry ok (ground arith);
            count = set_size-Counts h.size_member h.m_sz 0;
          })
          f in
      rw append-nil at v

  -- A singly linked list whose head is made with items whose entries are distinct and not its own,
  -- all at addresses that the codec accepts, holds these items in their order.
  pub slist_make_lem :
      (next : Links) (e : ℕ) (s : SizeMember) (values : List ℕ)
      → c.entry_ok e ≡ true
      → IsFree c e values []
      → let (next', h) = make c next e s values in IsSlist c next' h values
  unfolding make init
  slist_make_lem next e s values ok f =
      let (next', h) = init next e s in slist_assign_lem next' h values ok f
