-- ===== src/Tailq/Range/Links.antt =====
-- `remove_range` and `insert_range`, in the list that they act on.
use csd_mirror.Prelude.{
  ℕ, zero, suc, ◌<◌, ◌≡◌, refl, false, some, List, [], ◌∷◌, ◌++◌, map, length, arith, has, ◌==◌,
  subst, ◌∙◌, eq→==,
}
use csd_mirror.Intrusive.{EntryRefCodec}
use csd_mirror.Tailq.Memory.{Memory, Head}
use csd_mirror.Tailq.Iterator.{distance}
use csd_mirror.Tailq.Links.{last, Linked}
use csd_mirror.Tailq.Relink.{LinksIn, run_end}
use csd_mirror.Tailq.Unlink.{Bridges}
use csd_mirror.Tailq.Attach.{before, run_last, attach, detach, outside_at, IsRun}
use csd_mirror.Tailq.Walk.{forward-before, backward-at, IsRing-append, before-append}
use csd_mirror.Tailq.Valid.{IsRing, item, items, entries, at, SameOutside}
use csd_mirror.Tailq.Range.{insert_range, remove_range}

module _ (c : EntryRefCodec) (m : Memory) where
  remove_links :
      (a f l p : ℕ)
      → m.prev (c.get_entry f) ≡ a
      → m.next (c.get_entry l) ≡ p
      → Bridges c.get_entry m (remove_range c m f l) a p
  unfolding remove_range
  remove_links a f l p prev next = record {
    next_before = ground arith;
    prev_after = ground arith;
    next_same = λ x n. ground arith;
    prev_same = λ x n. ground arith;
  }

  insert_links :
      (a f l p : ℕ)
      → m.prev (c.get_entry p) ≡ a
      → (c.get_entry l == c.get_entry a) ≡ false
      → (c.get_entry f == c.get_entry p) ≡ false
      → LinksIn c.get_entry m (insert_range c m p f l) a f l p
  unfolding insert_range
  insert_links a f l p prev ne_a ne_p = record {
    next_before = ground arith;
    next_last = ground arith;
    prev_first = ground arith;
    prev_after = ground arith;
    next_same = λ x n1 n2. ground arith;
    prev_same = λ x n1 n2. ground arith;
  }

module _ (c : EntryRefCodec) (m : Memory) (h : Head) (pre : List ℕ) (f : ℕ) (ms post : List ℕ) where
  -- What is left is a list, and the run stays linked, as far as the position behind it.
  pub remove_range_lem :
      IsRing c m h.end_entry (pre ++ ((f ∷ ms) ++ post))
      → let m' = remove_range c m (item c f) (run_last c f ms) in
        IsRing c m' h.end_entry (pre ++ post)
        × IsRun c m' h.end_entry f ms (pre ++ post)
        × (m'.next (c.get_entry (run_last c f ms)) ≡ at c h post)
        × SameOutside c (entries c h.end_entry (pre ++ post)) m m'
  remove_range_lem v =
      let next =
        subst (λ w. m.next (c.get_entry w) ≡ at c h post) (before-append c h pre f ms)
          (forward-before c h (pre ++ f ∷ ms) post (IsRing-append c h pre (f ∷ ms) post v)) in
      let bridges =
        remove_links c m (before c h pre) (item c f) (run_last c f ms) (at c h post)
          (backward-at c h pre ((f ∷ ms) ++ post) v) next in
      let (ring, run, same) = detach c h pre f ms post v bridges in
      let free =
        run.apart (c.get_entry (run_last c f ms)) (run_end c.get_entry (item c f) (items c ms)) in
      let (ne, _) = outside_at c h pre post (c.get_entry (run_last c f ms)) free in
      (ring, run, bridges.next_same (c.get_entry (run_last c f ms)) ne ∙ next, same)

  -- A run that is linked to nothing of the list is put in.
  pub insert_range_lem :
      IsRing c m h.end_entry (pre ++ post)
      → IsRun c m h.end_entry f ms (pre ++ post)
      → let m' = insert_range c m (at c h post) (item c f) (run_last c f ms) in
        IsRing c m' h.end_entry (pre ++ ((f ∷ ms) ++ post))
        × SameOutside c (entries c h.end_entry (pre ++ ((f ∷ ms) ++ post))) m m'
  insert_range_lem v run =
      let free =
        run.apart (c.get_entry (run_last c f ms)) (run_end c.get_entry (item c f) (items c ms)) in
      let (ne_a, _) = outside_at c h pre post (c.get_entry (run_last c f ms)) free in
      let (_, ne_p) =
        outside_at c h pre post (c.get_entry (item c f)) (run.apart _ (ground arith)) in
      attach c h pre f ms post v run (
        insert_links c m (before c h pre) (item c f) (run_last c f ms) (at c h post)
          (backward-at c h pre post v) ne_a ne_p)

-- A run of `n` linked words whose last leads to `p` is `n` steps away from `p`.
module _ (c : EntryRefCodec) (m : Memory) where
  pub distance_run :
      (fuel p f : ℕ) (ms : List ℕ)
      → length (f ∷ ms) < fuel
      → Linked c.get_entry m f ms
      → m.next (c.get_entry (last c.get_entry f ms)) ≡ p
      → has (c.get_entry p) (map c.get_entry (f ∷ ms)) ≡ false
      → distance c fuel m f p ≡ some (length (f ∷ ms))
  unfolding distance
  distance_run zero p f ms lt linked next free = absurd (omega arith)
  distance_run (suc zero) p f [] lt linked next free = absurd (omega arith)
  distance_run (suc (suc fuel)) p f [] lt linked next free =
      let ne : (f == p) ≡ false = ground arith in
      rw (ne, distance) (rw next (rw (eq→== p p refl, distance)))
  distance_run (suc fuel) p f (b ∷ bs) lt linked next free =
      let ne : (f == p) ≡ false = ground arith in
      rw (ne, distance)
        (rw linked.0.0 (rw (distance_run fuel p b bs (omega arith) linked.1 next (ground arith))))
