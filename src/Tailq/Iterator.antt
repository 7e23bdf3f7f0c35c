-- ===== src/Tailq/Iterator.antt =====
-- include/csg/core/tailq.h: `iterator`, the ends of a list and what is read there. An iterator is
-- the word `m_current`; its extractor is the codec's.
use csd_mirror.Prelude.{ℕ, zero, suc, Bool, true, false, Option, none, some, ◌==◌, ◌>>=◌}
use csd_mirror.Intrusive.{EntryRefCodec}
use csd_mirror.Intrusive.Size.{no_size, integral}
use csd_mirror.Tailq.Memory.{Memory, Head}

module _ (c : EntryRefCodec) where
  -- `*i`, as the address of the item.
  unfoldable pub deref : ℕ → ℕ
  deref i = c.get_value i

  -- `++i` and `--i`.
  abbrev pub forward : Memory → ℕ → ℕ
  forward m i = m.next (c.get_entry i)

  abbrev pub backward : Memory → ℕ → ℕ
  backward m i = m.prev (c.get_entry i)

  abbrev pub begin : Memory → Head → ℕ
  begin m h = m.next h.end_entry

  abbrev pub end : Head → ℕ
  end h = c.create_direct_entry_ref h.end_entry

  unfoldable pub empty : Memory → Head → Bool
  empty m h = c.get_entry (m.next h.end_entry) == h.end_entry

  unfoldable pub front : Memory → Head → ℕ
  unfolding deref
  front m h = deref (begin m h)

  unfoldable pub back : Memory → Head → ℕ
  unfolding deref
  back m h = deref (backward m (end h))

  -- `std::ranges::distance`: the number of steps from `first` to `last`.
  unfoldable pub distance : ℕ → Memory → (first last : ℕ) → Option ℕ
  distance zero m first last = none
  distance (suc fuel) m first last = elim (first == last) [
    | true ↦ some 0
    | false ↦ distance fuel m (forward m first) last >>= λ n. some (suc n)
  ]

  unfoldable pub size : ℕ → Memory → Head → Option ℕ
  size fuel m h = elim h.size_member [
    | no_size ↦ distance fuel m (begin m h) (end h)
    | integral width ↦ some h.m_sz
  ]
