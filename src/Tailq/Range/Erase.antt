-- ===== src/Tailq/Range/Erase.antt =====
-- `erase` of a range.
use csd_mirror.Prelude.{
  ℕ, ◌+◌, ◌-◌, ◌^◌, ◌<◌, ◌≡◌, refl, Option, some, ◌>>=◌, ap, List, [], ◌∷◌, ◌++◌, length,
  length-append, length-map, arith, subst, ◌∙◌, eq→==,
}
use csd_mirror.Intrusive.{EntryRefCodec}
use csd_mirror.Intrusive.Size.{SizeMember, no_size, integral, sub_size, add_size, Counts}
use csd_mirror.Tailq.Memory.{Memory, Head}
use csd_mirror.Tailq.Difference.{
  size_width, difference, convert, convert_own, convert_small, reduced-Counts,
}
use csd_mirror.Tailq.Iterator.{distance}
use csd_mirror.Tailq.Attach.{run_last, after_entry}
use csd_mirror.Tailq.Walk.{backward-at, before-append, item_ne_at, IsRing-append}
use csd_mirror.Tailq.Valid.{IsTailq, item, items, entries, at, SameOutside}
use csd_mirror.Tailq.Range.{remove_range, counted_distance, erase_range}
use csd_mirror.Tailq.Range.Links.{remove_range_lem, distance_run}

abbrev converted : (walked s : SizeMember) → Option ℕ → Option ℕ
converted walked s steps = steps >>= λ n. some (convert walked s (difference walked n))

module _ (c : EntryRefCodec) where
  -- What the size member is changed by, where the distance in the list itself is known.
  pub counted_distance-Counts :
      (s : SizeMember) (fuel : ℕ) (m : Memory) (first last n : ℕ)
      → distance c fuel m first last ≡ some n
      → (k : ℕ) × (counted_distance c s s fuel m first last ≡ some k)
        × ((sz j : ℕ) → Counts s sz (j + n) → Counts s (sub_size s sz k) j)
  unfolding counted_distance sub_size difference convert size_width
  counted_distance-Counts no_size fuel m first last n e = (0, refl, λ sz j h. tt)
  counted_distance-Counts (integral w) fuel m first last n e = (
    convert (integral w) (integral w) (difference (integral w) n),
    ap (converted (integral w) (integral w)) e,
    λ sz j. (reduced-Counts w sz j n _ (convert_own (integral w) n)).0,
  )

  -- What the size member of another list grows by, where the difference type of the list can hold
  -- the distance.
  pub added_distance-Counts :
      (walked s : SizeMember) (fuel : ℕ) (m : Memory) (first last n : ℕ)
      → distance c fuel m first last ≡ some n
      → n < 2 ^ (size_width walked - 1)
      → (k : ℕ) × (counted_distance c walked s fuel m first last ≡ some k)
        × ((sz j : ℕ) → Counts s sz j → Counts s (add_size s sz k) (j + n))
  unfolding counted_distance add_size difference convert size_width
  added_distance-Counts walked no_size fuel m first last n e lt = (0, refl, λ sz j h. tt)
  added_distance-Counts walked (integral w) fuel m first last n e lt = (
    convert walked (integral w) (difference walked n),
    ap (converted walked (integral w)) e,
    λ sz j. (reduced-Counts w sz j n _ (convert_small walked (integral w) n lt)).1,
  )

  -- With more fuel than the range has items, `erase(first, last)` from one position of a list to a
  -- later one gives a result: a list of the items before and after the range, with the same end
  -- entry and type of size member, its size member counting what is left, and the iterator `last`.
  -- No link of an entry outside the resulting list has changed.
  pub erase_range_lem :
      (fuel : ℕ) (m : Memory) (h : Head) (pre mid post : List ℕ)
      → IsTailq c m h (pre ++ (mid ++ post))
      → length mid < fuel
      → (m' : Memory) × (h' : Head) × (erase_range c fuel m h (at c h (mid ++ post)) (at c h post)
          ≡ some (m', h', at c h post))
        × IsTailq c m' h' (pre ++ post)
        × (h'.end_entry ≡ h.end_entry)
        × (h'.size_member ≡ h.size_member)
        × SameOutside c (entries c h.end_entry (pre ++ post)) m m'
  unfolding erase_range
  erase_range_lem fuel m h pre [] post v lt =
      (m, h, rw (eq→== (at c h post) (at c h post) refl), v, refl, refl, λ x n. (refl, refl))
  erase_range_lem fuel m h pre (f ∷ ms) post v lt =
      let m' = remove_range c m (item c f) (run_last c f ms) in
      let (ring, run, next, same) = remove_range_lem c m h pre f ms post v.ring in
      let free = run.apart (c.get_entry (at c h post)) in
      let steps =
        distance_run c m' fuel (at c h post) (item c f) (items c ms)
          (omega (arith, length-map (item c) ms)) run.linked next
          (ground (arith, after_entry c h pre post, free)) in
      let (k, eq, count) =
        counted_distance-Counts h.size_member fuel m' (item c f) (at c h post) _ steps in
      let last_eq =
        backward-at c h (pre ++ f ∷ ms) post (IsRing-append c h pre (f ∷ ms) post v.ring)
        ∙ before-append c h pre f ms in
      (
        m',
        record h { m_sz = sub_size h.size_member h.m_sz k },
        rw (item_ne_at c h pre f ms post v.ring) (rw last_eq (rw eq)),
        record {
          ring = ring;
          count = count h.m_sz (length (pre ++ post)) (
              subst (Counts h.size_member h.m_sz)
                (omega (
                  arith,
                  length-append {0} pre post,
                  length-append {0} pre (f ∷ (ms ++ post)),
                  length-append {0} ms post,
                  length-map (item c) ms,
                ))
                v.count);
        },
        refl,
        refl,
        same,
      )
