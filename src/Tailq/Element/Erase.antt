-- ===== src/Tailq/Element/Erase.antt =====
-- `erase` takes one item out.
use csd_mirror.Prelude.{
  ℕ, ◌≡◌, false, List, [], ◌∷◌, ◌++◌, length, length-append, arith, ◌==◌, subst,
}
use csd_mirror.Intrusive.{EntryRefCodec}
use csd_mirror.Intrusive.Size.{sub_size-Counts, Counts}
use csd_mirror.Tailq.Memory.{Memory, Head}
use csd_mirror.Tailq.Unlink.{Bridges}
use csd_mirror.Tailq.Attach.{before, detach, IsRun}
use csd_mirror.Tailq.Walk.{forward-item, backward-at, before_ne_at}
use csd_mirror.Tailq.Valid.{IsTailq, item, entries, at, SameOutside}
use csd_mirror.Tailq.Element.{erase}

module _ (c : EntryRefCodec) (m : Memory) (h : Head) where
  erase_links :
      (a x p : ℕ)
      → m.prev (c.get_entry x) ≡ a
      → m.next (c.get_entry x) ≡ p
      → (c.get_entry a == c.get_entry x) ≡ false
      → Bridges c.get_entry m (erase c m h x).0 a p × ((erase c m h x).2 ≡ p)
  unfolding erase
  erase_links a x p prev next ne = (
    record {
      next_before = ground arith;
      prev_after = ground arith;
      next_same = λ y n. ground arith;
      prev_same = λ y n. ground arith;
    },
    ground arith,
  )

  -- `erase` at an item takes it out, counts it off, and returns the iterator to the next position.
  -- The erased entry is no longer among those of the list, and no link of an entry outside the
  -- resulting list has changed.
  pub erase_lem :
      (pre : List ℕ) (x : ℕ) (post : List ℕ)
      → IsTailq c m h (pre ++ x ∷ post)
      → let (m', h', it) = erase c m h (at c h (x ∷ post)) in
        IsTailq c m' h' (pre ++ post)
        × (it ≡ at c h post)
        × IsRun c m' h'.end_entry x [] (pre ++ post)
        × SameOutside c (entries c h.end_entry (pre ++ post)) m m'
  unfolding erase
  erase_lem pre x post v =
      let (bridges, it) =
        erase_links (before c h pre) (item c x) (at c h post)
          (backward-at c h pre (x ∷ post) v.ring) (forward-item c h pre x post v.ring)
          (before_ne_at c h pre x post v.ring) in
      let (ring, run, same) = detach c h pre x [] post v.ring bridges in
      (
        record {
          ring = ring;
          count = sub_size-Counts h.size_member h.m_sz (length (pre ++ post)) 1 (
              subst (Counts h.size_member h.m_sz)
                (omega (arith, length-append {0} pre post, length-append {0} pre (x ∷ post)))
                v.count);
        },
        it,
        run,
        same,
      )
