-- ===== src/Slist/Head/Laws.antt =====
-- What swapping and moving leave of the two lists.
use csd_mirror.Prelude.{ℕ, ◌<◌, ◌≡◌, refl, true, false, some, List, [], length, has, Disjoint}
use csd_mirror.Intrusive.{EntryRefCodec}
use csd_mirror.Intrusive.Size.{Fits, none-Counts, set_size-Counts}
use csd_mirror.Tailq.Memory.{update}
use csd_mirror.Tailq.Valid.{entries}
use csd_mirror.Chain.{Links}
use csd_mirror.Chain.Heads.{emptied-IsForward, swapped-IsForward, moved-IsForward, counted-Sets}
use csd_mirror.Slist.Element.{Head, init, size, clear, swap_with}
use csd_mirror.Slist.Range.{swap}
use csd_mirror.Slist.Head.{swap_heads, move_make_head, move_assign_head, move_assign, take_assign}
use csd_mirror.Slist.Laws.{IsSlist, size_after_lem}

module _ (c : EntryRefCodec) where
  -- For two singly linked lists without common entries, each with a size member that can hold its
  -- length, and with more fuel than either has items, `swap` gives a result: each list has the
  -- items of the other, its size member counts them, and the head entries stay where they are.
  pub slist_swap_lem :
      (fuel : ℕ) (next : Links) (this other : Head) (xs ys : List ℕ)
      → IsSlist c next this xs
      → IsSlist c next other ys
      → Disjoint (entries c this.head_entry xs) (entries c other.head_entry ys)
      → length xs < fuel
      → length ys < fuel
      → Fits this.size_member (length xs)
      → Fits other.size_member (length ys)
      → (next' : Links) × (this' : Head) × (other' : Head) × (swap c fuel next this other
          ≡ some (next', this', other'))
        × IsSlist c next' this' ys
        × IsSlist c next' other' xs
        × (this'.head_entry ≡ this.head_entry)
        × (other'.head_entry ≡ other.head_entry)
  unfolding swap swap_with
  slist_swap_lem fuel next this other xs ys v v' apart lt lt' fits fits' =
      let (forward, forward') =
        swapped-IsForward c next this.head_entry other.head_entry xs ys v.forward v'.forward
          apart in
      let (next', this', other') = swap_with next this other (length ys) (length xs) in
      (
        next',
        this',
        other',
        rw (size_after_lem c fuel next other ys v' lt' fits')
            (rw (size_after_lem c fuel next this xs v lt fits) refl),
        record {
          forward = forward;
          count = set_size-Counts this.size_member this.m_sz (length ys);
        },
        record {
          forward = forward';
          count = set_size-Counts other.size_member other.m_sz (length xs);
        },
        refl,
        refl,
      )

  -- The head entry of a list is none of those of another one.
  module _ (next : Links) (this other : Head) (ys : List ℕ) (ok : c.entry_ok this.head_entry ≡ true)
      (v : IsSlist c next other ys)
      (free : has this.head_entry (entries c other.head_entry ys) ≡ false) where
    -- A move between heads of one type.
    pub slist_move_assign_lem :
        let (next', this', other') = move_assign next this other in
        IsSlist c next' this' ys × IsSlist c next' other' []
    unfolding move_assign move_assign_head move_make_head init swap_heads
    slist_move_assign_lem =
        let (forward, forward') =
          moved-IsForward c next this.head_entry other.head_entry ys ok v.forward free in
        (
          record { forward = forward; count = v.count },
          record { forward = forward'; count = none-Counts other.size_member },
        )

    -- Move assignment to a head at an address that the codec accepts, from a singly linked list
    -- with another type of head among whose entries the head entry is not, with more fuel than the
    -- other has items and a length that its size member can hold, gives a result: this list has the
    -- items of the other, which is empty, and both size members count their items.
    pub slist_take_assign_lem :
        (fuel : ℕ)
        → length ys < fuel
        → Fits other.size_member (length ys)
        → (next' : Links) × (this' : Head) × (other' : Head) × (take_assign c fuel next this other
            ≡ some (next', this', other'))
          × IsSlist c next' this' ys
          × IsSlist c next' other' []
    unfolding take_assign clear swap_with
    slist_take_assign_lem fuel lt fits =
        let next0 = update next this.head_entry 0 in
        let v0 : IsSlist c next0 other ys = record {
          forward = emptied-IsForward c next this.head_entry other.head_entry ys v.forward free;
          count = v.count;
        } in
        let (n, takes, sets) =
          counted-Sets this.size_member (size c fuel next0 other) (length ys)
            (size_after_lem c fuel next0 other ys v0 lt fits) in
        let (forward, forward') =
          moved-IsForward c next this.head_entry other.head_entry ys ok v.forward free in
        let (next1, this1) = clear c next this in
        let (next', this', other') = swap_with next1 this1 other n 0 in
        (
          next',
          this',
          other',
          rw takes refl,
          record { forward = forward; count = sets this1.m_sz },
          record { forward = forward'; count = set_size-Counts other.size_member other.m_sz 0 },
        )
