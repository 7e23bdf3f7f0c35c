-- ===== src/Tailq/Range/Swap/Links.antt =====
-- What `swap_lists` writes, word by word.
use csd_mirror.Prelude.{ℕ, ◌≡◌, false, ◌==◌, arith}
use csd_mirror.Intrusive.{EntryRefCodec}
use csd_mirror.Tailq.Memory.{Memory, Head}
use csd_mirror.Tailq.Range.{swap_links}

module _ (c : EntryRefCodec) where
  abbrev pub first_of : Memory → Head → ℕ
  first_of m h = c.get_entry (m.next h.end_entry)

  abbrev pub last_of : Memory → Head → ℕ
  last_of m h = c.get_entry (m.prev h.end_entry)

  -- The end entry `h` leads to `f` and `l`, and they lead back to it.
  pub record Ends (m' : Memory) (h : Head) (f l : ℕ) : Type 0 where
    pub next_end : m'.next h.end_entry ≡ f
    pub prev_end : m'.prev h.end_entry ≡ l
    pub next_last : m'.next (c.get_entry l) ≡ c.create_direct_entry_ref h.end_entry
    pub prev_first : m'.prev (c.get_entry f) ≡ c.create_direct_entry_ref h.end_entry

module _ (c : EntryRefCodec) (m : Memory) (this other : Head) where
  pub next_elsewhere :
      (x : ℕ)
      → (x == this.end_entry) ≡ false
      → (x == other.end_entry) ≡ false
      → (x == last_of c m this) ≡ false
      → (x == last_of c m other) ≡ false
      → (swap_links c m this other).next x ≡ m.next x
  unfolding swap_links
  next_elsewhere x n1 n2 n3 n4 = ground arith

  pub prev_elsewhere :
      (x : ℕ)
      → (x == this.end_entry) ≡ false
      → (x == other.end_entry) ≡ false
      → (x == first_of c m this) ≡ false
      → (x == first_of c m other) ≡ false
      → (swap_links c m this other).prev x ≡ m.prev x
  unfolding swap_links
  prev_elsewhere x n1 n2 n3 n4 = ground arith

  module _ (ne : (this.end_entry == other.end_entry) ≡ false) where
    pub this_items :
        (last_of c m this == other.end_entry) ≡ false
        → (first_of c m this == other.end_entry) ≡ false
        → (last_of c m other == other.end_entry) ≡ false
        → (first_of c m other == other.end_entry) ≡ false
        → (last_of c m other == this.end_entry) ≡ false
        → (first_of c m other == this.end_entry) ≡ false
        → Ends c (swap_links c m this other) this (m.next other.end_entry) (m.prev other.end_entry)
    unfolding swap_links
    this_items n1 n2 n3 n4 n5 n6 = record {
      next_end = ground arith;
      prev_end = ground arith;
      next_last = ground arith;
      prev_first = ground arith;
    }

    pub this_empty :
        last_of c m other ≡ other.end_entry
        → first_of c m other ≡ other.end_entry
        → ((swap_links c m this other).next this.end_entry
            ≡ c.create_direct_entry_ref this.end_entry)
          × ((swap_links c m this other).prev this.end_entry
              ≡ c.create_direct_entry_ref this.end_entry)
    unfolding swap_links
    this_empty e1 e2 = (ground arith, ground arith)

    pub other_items :
        (last_of c m this == this.end_entry) ≡ false
        → (first_of c m this == this.end_entry) ≡ false
        → (last_of c m this == other.end_entry) ≡ false
        → (first_of c m this == other.end_entry) ≡ false
        → (last_of c m other == this.end_entry) ≡ false
        → (first_of c m other == this.end_entry) ≡ false
        → (last_of c m this == last_of c m other) ≡ false
        → (first_of c m this == first_of c m other) ≡ false
        → Ends c (swap_links c m this other) other (m.next this.end_entry) (m.prev this.end_entry)
    unfolding swap_links
    other_items n1 n2 n3 n4 n5 n6 n7 n8 = record {
      next_end = ground arith;
      prev_end = ground arith;
      next_last = ground arith;
      prev_first = ground arith;
    }

    pub other_empty :
        last_of c m this ≡ this.end_entry
        → first_of c m this ≡ this.end_entry
        → (last_of c m other == this.end_entry) ≡ false
        → (first_of c m other == this.end_entry) ≡ false
        → ((swap_links c m this other).next other.end_entry
            ≡ c.create_direct_entry_ref other.end_entry)
          × ((swap_links c m this other).prev other.end_entry
              ≡ c.create_direct_entry_ref other.end_entry)
    unfolding swap_links
    other_empty e1 e2 n1 n2 = (ground arith, ground arith)
