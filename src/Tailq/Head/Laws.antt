-- ===== src/Tailq/Head/Laws.antt =====
-- What the heads hold that are made or moved.
use csd_mirror.Prelude.{ℕ, ◌<◌, ◌≡◌, refl, true, some, List, [], length, arith, Disjoint}
use native.Mathlib.Nat.{one-le-pow}
use csd_mirror.Intrusive.{EntryRefCodec}
use csd_mirror.Intrusive.Size.{none-Counts, SizeMember, no_size, integral, Fits}
use csd_mirror.Tailq.Memory.{Memory, Head}
use csd_mirror.Tailq.Valid.{IsTailq, IsFree, entries, SameOutside}
use csd_mirror.Tailq.Frame.{IsRing-frame}
use csd_mirror.Tailq.Element.{init, clear}
use csd_mirror.Tailq.Element.Access.{clear_lem, assign_lem}
use csd_mirror.Tailq.Range.Splice.{Separate}
use csd_mirror.Tailq.Range.Swap.{swap_lists_lem}
use csd_mirror.Tailq.Head.{make, move_make, move_assign}

Fits-zero : (s : SizeMember) → Fits s 0
Fits-zero no_size = tt
Fits-zero (integral w) = one-le-pow w 2 (omega arith)

module _ (c : EntryRefCodec) where
  pub init_lem :
      (m : Memory) (e : ℕ) (s : SizeMember)
      → c.entry_ok e ≡ true
      → let (m', h) = init m e s in IsTailq c m' h [] × SameOutside c (entries c e []) m m'
  unfolding init
  init_lem m e s ok =
      let raw = c.direct-raw e ok in
      let back = c.get_entry-direct e ok in
      (
        record {
          ring = record {
            end_ok = ok;
            items_ok = tt;
            cycle = record { linked = ((ground arith, ground arith), tt); distinct = (refl, tt) };
          };
          count = none-Counts s;
        },
        λ x n. (ground arith, ground arith),
      )

  -- A head that is made with items whose entries are distinct and not its own, all at addresses
  -- that the codec accepts, is a list of these items in their order.
  pub make_lem :
      (m : Memory) (e : ℕ) (s : SizeMember) (values : List ℕ)
      → c.entry_ok e ≡ true
      → IsFree c e values []
      → let (m', h) = make c m e s values in IsTailq c m' h values
  unfolding make init
  make_lem m e s values ok free = let (m', h) = init m e s in assign_lem c m' h values ok free

  -- A list stays where only the end entry of another one changes.
  other_stays :
      {m m' : Memory} (e : ℕ) (other : Head) (ys : List ℕ)
      → IsTailq c m other ys
      → Disjoint (entries c e []) (entries c other.end_entry ys)
      → SameOutside c (entries c e []) m m'
      → IsTailq c m' other ys
  other_stays e other ys v apart same = record {
    ring = IsRing-frame c other.end_entry ys v.ring (λ x n. same x (ground (arith, apart x)));
    count = v.count;
  }

  -- A head that is made from another one, at an address that the codec accepts and that is none of
  -- its entries, with more fuel than the other has items and a length that its size member can
  -- hold, gets all its items and leaves it empty, and both size members count their items.
  pub move_make_lem :
      (fuel : ℕ) (m : Memory) (e : ℕ) (s : SizeMember) (other : Head) (ys : List ℕ)
      → c.entry_ok e ≡ true
      → IsTailq c m other ys
      → Disjoint (entries c e []) (entries c other.end_entry ys)
      → length ys < fuel
      → Fits other.size_member (length ys)
      → (m' : Memory) × (h : Head) × (other' : Head) × (move_make c fuel m e s other
          ≡ some (m', h, other'))
        × IsTailq c m' h ys
        × IsTailq c m' other' []
        × (h.end_entry ≡ e)
        × (other'.end_entry ≡ other.end_entry)
  unfolding move_make init
  move_make_lem fuel m e s other ys ok v apart lt fits =
      let (made, same) = init_lem m e s ok in
      let (m', h) = init m e s in
      swap_lists_lem c fuel m' h other [] ys made (other_stays e other ys v apart same) apart
        (omega arith) lt (Fits-zero s) fits

  -- Move assignment between two lists without common entries, with more fuel than the other has
  -- items and a length that its size member can hold, gives a result: this list has the items of
  -- the other, which is empty, and both size members count their items. The end entries stay where
  -- they are.
  pub move_assign_lem :
      (fuel : ℕ) (m : Memory) (this other : Head) (xs ys : List ℕ)
      → IsTailq c m this xs
      → IsTailq c m other ys
      → Separate c this other xs ys
      → length ys < fuel
      → Fits other.size_member (length ys)
      → (m' : Memory) × (this' : Head) × (other' : Head) × (move_assign c fuel m this other
          ≡ some (m', this', other'))
        × IsTailq c m' this' ys
        × IsTailq c m' other' []
        × (this'.end_entry ≡ this.end_entry)
        × (other'.end_entry ≡ other.end_entry)
  unfolding move_assign clear
  move_assign_lem fuel m this other xs ys v v' apart lt fits =
      let (made, same) = clear_lem c m this v.ring.end_ok in
      let (m', h) = clear c m this in
      let alone : Disjoint (entries c this.end_entry []) (entries c other.end_entry ys) =
        λ x n. apart x (ground arith) in
      swap_lists_lem c fuel m' h other [] ys made
        (other_stays this.end_entry other ys v' alone same) alone (omega arith) lt
        (Fits-zero this.size_member) fits
