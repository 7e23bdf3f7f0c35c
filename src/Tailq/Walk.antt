-- ===== src/Tailq/Walk.antt =====
-- Moving over a list: where an iterator leads, and which iterators differ.
use csd_mirror.Prelude.{
  ℕ, zero, suc, ◌<◌, ◌≡◌, refl, false, some, List, [], ◌∷◌, ◌++◌, map, length, arith, has, ◌==◌,
  not_has_middle, subst, sym, ap, ◌∙◌, eq→==,
}
use mathlib.Core.List.{append_assoc}
use csd_mirror.Intrusive.{EntryRefCodec}
use csd_mirror.Tailq.Memory.{Memory, Head}
use csd_mirror.Tailq.Iterator.{begin, end, forward, backward, distance}
use csd_mirror.Tailq.Links.{last}
use csd_mirror.Tailq.Cycle.{starts-cycle}
use csd_mirror.Tailq.Valid.{IsRing, item, items, at, items-append, entries-append, end_entry_eq}
use csd_mirror.Tailq.Attach.{before, run_last, Gap-at}

pub last-append :
    (e : ℕ → ℕ) (a : ℕ) (bs : List ℕ) (f : ℕ) (ms : List ℕ) → last e a (bs ++ f ∷ ms) ≡ last e f ms
last-append e a [] f ms = refl
last-append e a (b ∷ bs) f ms = last-append e b bs f ms

last-concat : (e : ℕ → ℕ) (a : ℕ) (bs : List ℕ) (b : ℕ) → last e a (bs ++ b ∷ []) ≡ b
last-concat e a [] b = refl
last-concat e a (x ∷ bs) b = last-concat e x bs b

module _ (c : EntryRefCodec) (h : Head) where
  pub before-concat : (pre : List ℕ) (x : ℕ) → before c h (pre ++ x ∷ []) ≡ item c x
  before-concat pre x =
      ap (last c.get_entry (end c h)) (items-append c pre (x ∷ []))
      ∙ last-concat c.get_entry (end c h) (items c pre) (item c x)

  pub before-append :
      (pre : List ℕ) (f : ℕ) (ms : List ℕ) → before c h (pre ++ f ∷ ms) ≡ run_last c f ms
  before-append pre f ms =
      ap (last c.get_entry (end c h)) (items-append c pre (f ∷ ms))
      ∙ last-append c.get_entry (end c h) (items c pre) (item c f) (items c ms)

  module _ {m : Memory} where
    pub IsRing-concat :
        (pre : List ℕ) (x : ℕ) (post : List ℕ)
        → IsRing c m h.end_entry (pre ++ x ∷ post)
        → IsRing c m h.end_entry ((pre ++ x ∷ []) ++ post)
    IsRing-concat pre x post = subst (IsRing c m h.end_entry) (sym (append_assoc pre (x ∷ []) post))

    pub IsRing-append :
        (pre mid post : List ℕ)
        → IsRing c m h.end_entry (pre ++ (mid ++ post))
        → IsRing c m h.end_entry ((pre ++ mid) ++ post)
    IsRing-append pre mid post = subst (IsRing c m h.end_entry) (sym (append_assoc pre mid post))

    pub forward-before :
        (pre post : List ℕ)
        → IsRing c m h.end_entry (pre ++ post)
        → forward c m (before c h pre) ≡ at c h post
    forward-before pre post v = (Gap-at c h pre post v).edge.0

    pub backward-at :
        (pre post : List ℕ)
        → IsRing c m h.end_entry (pre ++ post)
        → backward c m (at c h post) ≡ before c h pre
    backward-at pre post v = (Gap-at c h pre post v).edge.1

    pub forward-item :
        (pre : List ℕ) (x : ℕ) (post : List ℕ)
        → IsRing c m h.end_entry (pre ++ x ∷ post)
        → forward c m (item c x) ≡ at c h post
    forward-item pre x post v =
        ap (forward c m) (sym (before-concat pre x))
        ∙ forward-before (pre ++ x ∷ []) post (IsRing-concat pre x post v)

    pub backward-item :
        (pre : List ℕ) (x : ℕ) (post : List ℕ)
        → IsRing c m h.end_entry (pre ++ x ∷ post)
        → backward c m (at c h post) ≡ item c x
    backward-item pre x post v =
        backward-at (pre ++ x ∷ []) post (IsRing-concat pre x post v) ∙ before-concat pre x

    -- The entry in front of a position is another than the one at it.
    pub before_ne_at :
        (pre : List ℕ) (x : ℕ) (post : List ℕ)
        → IsRing c m h.end_entry (pre ++ x ∷ post)
        → (c.get_entry (before c h pre) == c.get_entry (item c x)) ≡ false
    before_ne_at pre x post v =
        let behind =
          subst (λ es. has (c.get_entry (before c h pre)) es ≡ false)
            (starts-cycle c.get_entry (end c h) (item c x) (items c post))
            (Gap-at c h pre (x ∷ post) v).before_back in
        ground (arith, behind)

    -- An item is none of the positions behind it.
    pub item_ne_at :
        (pre : List ℕ) (x : ℕ) (mid post : List ℕ)
        → IsRing c m h.end_entry (pre ++ x ∷ (mid ++ post))
        → (item c x == at c h post) ≡ false
    item_ne_at pre x mid post v =
        let gap = Gap-at c h (pre ++ x ∷ mid) post (IsRing-append pre (x ∷ mid) post v) in
        let (_, ne, _) =
          not_has_middle (c.get_entry (at c h post)) (map c.get_entry (items c pre))
            (c.get_entry (item c x)) (map c.get_entry (items c mid))
            (subst (λ es. has (c.get_entry (at c h post)) es ≡ false)
              (entries-append c pre (x ∷ mid)) gap.after_front) in
        ground (arith, ne)

    pub begin-at : (xs : List ℕ) → IsRing c m h.end_entry xs → begin c m h ≡ at c h xs
    begin-at xs v = ap m.next (sym (end_entry_eq c h v)) ∙ forward-before [] xs v

    pub distance_lem :
        (fuel : ℕ) (pre mid post : List ℕ)
        → length mid < fuel
        → IsRing c m h.end_entry (pre ++ (mid ++ post))
        → distance c fuel m (at c h (mid ++ post)) (at c h post) ≡ some (length mid)
    unfolding distance
    distance_lem zero pre mid post lt v = absurd (omega arith)
    distance_lem (suc fuel) pre [] post lt v = rw (eq→== (at c h post) (at c h post) refl, distance)
    distance_lem (suc fuel) pre (x ∷ mid) post lt v =
        rw (item_ne_at pre x mid post v, distance)
          (rw (forward-item pre x (mid ++ post) v) (
            rw (
              distance_lem fuel (pre ++ x ∷ []) mid post (omega arith)
                (IsRing-concat pre x (mid ++ post) v))))
