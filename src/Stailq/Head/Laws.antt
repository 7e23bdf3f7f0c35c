-- ===== src/Stailq/Head/Laws.antt =====
-- What swapping and moving leave of the two lists.
use csd_mirror.Prelude.{
  ℕ, ◌<◌, ◌≡◌, refl, true, false, some, List, [], ◌∷◌, length, has, Disjoint, sym, ap, ◌∙◌,
}
use csd_mirror.Intrusive.{EntryRefCodec}
use csd_mirror.Intrusive.Size.{Fits, none-Counts, set_size-Counts}
use csd_mirror.Tailq.Memory.{update}
use csd_mirror.Tailq.Valid.{item, entries}
use csd_mirror.Chain.{Links}
use csd_mirror.Chain.Forward.{IsForward, item_not_null}
use csd_mirror.Chain.Heads.{
  swapped, emptied-IsForward, swapped-IsForward, moved-IsForward, counted-Sets,
}
use csd_mirror.Stailq.Element.{Head, init, size, clear, swap_with, swapped_tail}
use csd_mirror.Stailq.Range.{swap}
use csd_mirror.Stailq.Head.{swap_heads, move_make_head, move_assign_head, move_assign, take_assign}
use csd_mirror.Stailq.Laws.{IsStailq, queue_size, queue_of, forward_of, after}

module _ (c : EntryRefCodec) where
  swapped_tail_lem :
      (next : Links) (this other : Head) (xs : List ℕ)
      → IsForward c next this.head_entry xs
      → other.encoded_tail ≡ after c other xs
      → swapped_tail next this other ≡ after c this xs
  swapped_tail_lem next this other [] v tail =
      let to : next this.head_entry ≡ 0 =
        ap next (sym (c.get_entry-direct this.head_entry v.head_ok)) ∙ v.chain in
      rw to (sym (c.direct-raw this.head_entry v.head_ok))
  swapped_tail_lem next this other (x ∷ xs) v tail =
      let to : next this.head_entry ≡ item c x =
        ap next (sym (c.get_entry-direct this.head_entry v.head_ok)) ∙ v.chain.0 in
      rw to (rw (item_not_null c x v.items_ok.0) tail)

  -- For two singly linked tail queues without common entries, each with a size member that can hold
  -- its length, and with more fuel than either has items, `swap` gives a result: each queue has the
  -- items of the other with the last of them, or its own head entry if there is none, as the tail,
  -- its size member counts them, and the head entries stay where they are.
  pub stailq_swap_lem :
      (fuel : ℕ) (next : Links) (this other : Head) (xs ys : List ℕ)
      → IsStailq c next this xs
      → IsStailq c next other ys
      → Disjoint (entries c this.head_entry xs) (entries c other.head_entry ys)
      → length xs < fuel
      → length ys < fuel
      → Fits this.size_member (length xs)
      → Fits other.size_member (length ys)
      → (next' : Links) × (this' : Head) × (other' : Head) × (swap c fuel next this other
          ≡ some (next', this', other'))
        × IsStailq c next' this' ys
        × IsStailq c next' other' xs
        × (this'.head_entry ≡ this.head_entry)
        × (other'.head_entry ≡ other.head_entry)
  unfolding swap swap_with
  stailq_swap_lem fuel next this other xs ys v v' apart lt lt' fits fits' =
      let (forward, forward') =
        swapped-IsForward c next this.head_entry other.head_entry xs ys (forward_of c v)
          (forward_of c v') apart in
      let (next', this', other') = swap_with next this other (length ys) (length xs) in
      (
        next',
        this',
        other',
        rw (queue_size c fuel next other ys v' lt' fits')
            (rw (queue_size c fuel next this xs v lt fits) refl),
        queue_of c forward (swapped_tail_lem next' this other ys forward v'.tail)
            (set_size-Counts this.size_member this.m_sz (length ys)),
        queue_of c forward' (swapped_tail_lem next' other this xs forward' v.tail)
            (set_size-Counts other.size_member other.m_sz (length xs)),
        refl,
        refl,
      )

  -- The head entry of a list is none of those of another one.
  module _ (next : Links) (this other : Head) (ys : List ℕ) (ok : c.entry_ok this.head_entry ≡ true)
      (v : IsStailq c next other ys)
      (free : has this.head_entry (entries c other.head_entry ys) ≡ false) where
    -- Move assignment to a head at an address that the codec accepts, from a singly linked tail
    -- queue of the same type among whose entries the head entry is not: this queue has the items of
    -- the other, which is empty, and the tails and size members of both fit their items.
    pub stailq_move_assign_lem :
        let (next', this', other') = move_assign next this other in
        IsStailq c next' this' ys × IsStailq c next' other' []
    unfolding move_assign move_assign_head move_make_head init swap_heads
    stailq_move_assign_lem =
        let (forward, forward') =
          moved-IsForward c next this.head_entry other.head_entry ys ok (forward_of c v) free in
        let this0 : Head = (init next this.head_entry other.size_member).1 in
        let next' = swapped (update next this.head_entry 0) this.head_entry other.head_entry in
        (
          queue_of c forward (swapped_tail_lem next' this0 other ys forward v.tail) v.count,
          queue_of c forward'
              (swapped_tail_lem next' other this0 [] forward'
                (sym (c.direct-raw this.head_entry ok)))
              (none-Counts other.size_member),
        )

    -- Move assignment to a head at an address that the codec accepts, from a singly linked tail
    -- queue with another type of head among whose entries the head entry is not, with more fuel
    -- than the other has items and a length that its size member can hold, gives a result: this
    -- queue has the items of the other, which is empty, and the tails and size members of both fit
    -- their items.
    pub stailq_take_assign_lem :
        (fuel : ℕ)
        → length ys < fuel
        → Fits other.size_member (length ys)
        → (next' : Links) × (this' : Head) × (other' : Head) × (take_assign c fuel next this other
            ≡ some (next', this', other'))
          × IsStailq c next' this' ys
          × IsStailq c next' other' []
    unfolding take_assign clear swap_with
    stailq_take_assign_lem fuel lt fits =
        let next0 = update next this.head_entry 0 in
        let e = this.head_entry in
        let forward0 = emptied-IsForward c next e other.head_entry ys (forward_of c v) free in
        let v0 : IsStailq c next0 other ys = queue_of c forward0 v.tail v.count in
        let (n, takes, sets) =
          counted-Sets this.size_member (size c fuel next0 other) (length ys)
            (queue_size c fuel next0 other ys v0 lt fits) in
        let (forward, forward') =
          moved-IsForward c next this.head_entry other.head_entry ys ok (forward_of c v) free in
        let (next1, this1) = clear c next this in
        let (next', this', other') = swap_with next1 this1 other n 0 in
        (
          next',
          this',
          other',
          rw takes refl,
          queue_of c forward (swapped_tail_lem next' this1 other ys forward v.tail)
              (sets this1.m_sz),
          queue_of c forward' (swapped_tail_lem next' other this1 [] forward' refl)
              (set_size-Counts other.size_member other.m_sz 0),
        )
