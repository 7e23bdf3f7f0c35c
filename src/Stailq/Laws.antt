-- ===== src/Stailq/Laws.antt =====
-- The representation relation of `Stailq`, and the operations at its ends.
use csd_mirror.Prelude.{
  ℕ, ◌<◌, some, ◌≡◌, refl, true, List, [], ◌∷◌, ◌++◌, length, arith, Distinct, ap, ◌∙◌,
}
use csd_mirror.Intrusive.{EntryRefCodec}
use csd_mirror.Intrusive.Size.{Counts, Fits, set_size-Counts}
use csd_mirror.Tailq.Links.{last}
use csd_mirror.Tailq.Walk.{last-append}
use csd_mirror.Tailq.Valid.{item, items, ItemsOk, entries, items-append, ItemsOk-split}
use csd_mirror.Chain.{Links, deref}
use csd_mirror.Chain.Laws.{IsChain}
use csd_mirror.Chain.Forward.{IsForward}
use csd_mirror.Chain.Walk.{size_of}
use csd_mirror.Stailq.Element.{Head, before_begin, clear, back, size}

module _ (c : EntryRefCodec) where
  -- The position behind the items `pre`.
  abbrev pub after : Head → List ℕ → ℕ
  after h pre = last c.get_entry (before_begin c h) (items c pre)

  -- The list of head `h` holds the items `xs`: they are chained in order from the head entry, the
  -- last of them is the tail, and the size member counts them.
  pub record IsStailq (next : Links) (h : Head) (xs : List ℕ) : Type 0 where
    pub head_ok : c.entry_ok h.head_entry ≡ true
    pub items_ok : ItemsOk c xs
    pub chain : IsChain c.get_entry next (before_begin c h) (items c xs)
    pub distinct : Distinct (entries c h.head_entry xs)
    pub tail : h.encoded_tail ≡ after h xs
    pub count : Counts h.size_member h.m_sz (length xs)

  -- The chain of a queue, and a queue of a chain with its last position as the tail.
  pub forward_of :
      {next : Links} {h : Head} {xs : List ℕ}
      → IsStailq next h xs
      → IsForward c next h.head_entry xs
  forward_of v = record {
    head_ok = v.head_ok;
    items_ok = v.items_ok;
    chain = v.chain;
    distinct = v.distinct;
  }

  pub queue_of :
      {next : Links} {h : Head} {xs : List ℕ}
      → IsForward c next h.head_entry xs
      → h.encoded_tail ≡ after h xs
      → Counts h.size_member h.m_sz (length xs)
      → IsStailq next h xs
  queue_of v tail count = record {
    head_ok = v.head_ok;
    items_ok = v.items_ok;
    chain = v.chain;
    distinct = v.distinct;
    tail = tail;
    count = count;
  }

  pub queue_size :
      (fuel : ℕ) (next : Links) (h : Head) (xs : List ℕ)
      → IsStailq next h xs
      → length xs < fuel
      → Fits h.size_member (length xs)
      → size c fuel next h ≡ some (length xs)
  unfolding size
  queue_size fuel next h xs v lt fits =
      size_of c h.head_entry fuel next xs h.size_member h.m_sz (forward_of v) v.count lt fits

  pub after-append :
      (h : Head) (pre : List ℕ) (f : ℕ) (ms : List ℕ)
      → after h (pre ++ f ∷ ms) ≡ last c.get_entry (item c f) (items c ms)
  after-append h pre f ms =
      ap (last c.get_entry (before_begin c h)) (items-append c pre (f ∷ ms))
      ∙ last-append c.get_entry (before_begin c h) (items c pre) (item c f) (items c ms)

  -- Where the codec accepts the address of the head entry, `clear` leaves an empty queue whose tail
  -- is its head entry, whatever was linked before.
  pub clear_after_lem :
      (next : Links) (h : Head)
      → c.entry_ok h.head_entry ≡ true
      → let (next', h') = clear c next h in IsStailq next' h' []
  unfolding clear
  clear_after_lem next h ok =
      let e = c.get_entry-direct h.head_entry ok in
      record {
        head_ok = ok;
        items_ok = tt;
        chain = ground arith;
        distinct = (refl, tt);
        tail = refl;
        count = set_size-Counts h.size_member h.m_sz 0;
      }

  -- `back` is the last item of a queue that has one.
  pub back_after_lem :
      (next : Links) (h : Head) (xs : List ℕ) (x : ℕ)
      → IsStailq next h (xs ++ x ∷ [])
      → back c h ≡ x
  unfolding back deref
  back_after_lem next h xs x v =
      ap c.get_value (v.tail ∙ after-append h xs x [])
      ∙ c.get_value-item x (ItemsOk-split c xs (x ∷ []) v.items_ok).1.0
