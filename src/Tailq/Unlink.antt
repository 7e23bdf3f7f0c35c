-- ===== src/Tailq/Unlink.antt =====
-- Taking a run of entries out of a cycle: what the writes have to achieve, and what is left.
use csd_mirror.Prelude.{
  ℕ, ◌≡◌, false, List, ◌∷◌, ◌++◌, map, arith, has, has-append, Distinct, Disjoint, not_has_middle,
  Distinct-apart, Distinct-front, Distinct-back, Distinct-remove, sym, ◌==◌, subst,
}
use mathlib.Core.List.{append_assoc, map-append}
use csd_mirror.Tailq.Memory.{Memory}
use csd_mirror.Tailq.Links.{
  Edge, Linked, Linked-split, starts-append, last, starts, Linked-append, Linked-frame,
}
use csd_mirror.Tailq.Cycle.{Cycle, Gap, first, rest, Cycle-Gap}
use csd_mirror.Tailq.Relink.{tail_words, map_parts}

module _ (e : ℕ → ℕ) where
  -- `m'` is `m` with `p` made the successor of `a`.
  pub record Bridges (m m' : Memory) (a p : ℕ) : Type 0 where
    pub next_before : m'.next (e a) ≡ p
    pub prev_after : m'.prev (e p) ≡ a
    pub next_same : (x : ℕ) → (x == e a) ≡ false → m'.next x ≡ m.next x
    pub prev_same : (x : ℕ) → (x == e p) ≡ false → m'.prev x ≡ m.prev x

module _ (e : ℕ → ℕ) (d : ℕ) (pre : List ℕ) (f : ℕ) (ms post : List ℕ) where
  -- What is left of a cycle, and the run that was taken out of it.
  pub record Parts (m : Memory) : Type 0 where
    pub rest_cycle : Cycle e d m (pre ++ post)
    pub run : Linked e m f ms
    pub run_distinct : Distinct (map e (f ∷ ms))
    pub apart : Disjoint (map e (f ∷ ms)) (e d ∷ map e (pre ++ post))

module _ (e : ℕ → ℕ) (d : ℕ) {m m' : Memory} (pre : List ℕ) (f : ℕ) (ms post : List ℕ) where
  module _ (k : Cycle e d m (pre ++ ((f ∷ ms) ++ post)))
      (w : Bridges e m m' (last e d pre) (first e d post)) where
    entry-Gap : Gap e d m pre ((f ∷ ms) ++ post)
    entry-Gap = Cycle-Gap e d pre ((f ∷ ms) ++ post) k

    exit-Gap : Gap e d m (pre ++ f ∷ ms) post
    exit-Gap =
        Cycle-Gap e d (pre ++ f ∷ ms) post
          (subst (Cycle e d m) (sym (append_assoc pre (f ∷ ms) post)) k)

    behind :
        Linked e m f ms
        × Edge e m (last e f ms) (first e d post)
        × Linked e m (first e d post) (rest e d post)
    behind =
        Linked-split e m f ms _ _ (subst (Linked e m f) (tail_words e d ms post) entry-Gap.back)

    before_behind :
        (has (e (last e d pre)) (starts e f ms) ≡ false)
        × ((e (last e d pre) == e (last e f ms)) ≡ false)
        × (has (e (last e d pre)) (starts e (first e d post) (rest e d post)) ≡ false)
    before_behind =
        not_has_middle (e (last e d pre)) (starts e f ms) (e (last e f ms))
          (starts e (first e d post) (rest e d post))
          (subst (λ es. has (e (last e d pre)) es ≡ false)
            (starts-append e f ms (first e d post) (rest e d post))
            (subst (λ ws. has (e (last e d pre)) (starts e f ws) ≡ false) (tail_words e d ms post)
              entry-Gap.before_back))

    after_in_front :
        (has (e (first e d post)) (map e pre) ≡ false)
        × (has (e (first e d post)) (map e (f ∷ ms)) ≡ false)
    after_in_front =
        let x = e (first e d post) in
        ground (
          arith,
          has-append x (map e pre) (map e (f ∷ ms)),
          subst (λ es. has x es ≡ false) (map-append e pre (f ∷ ms)) exit-Gap.after_front,
        )

    all-Distinct : Distinct ((e d ∷ map e pre) ++ (map e (f ∷ ms) ++ map e post))
    all-Distinct = subst (λ es. Distinct (e d ∷ es)) (map_parts e pre (f ∷ ms) post) k.distinct

    front_stays : Linked e m' d pre
    front_stays =
        Linked-frame e m m' d pre (λ x h. w.next_same x (ground (arith, entry-Gap.before_front)))
          (λ x h. w.prev_same x (ground (arith, after_in_front))) entry-Gap.front

    back_stays : Linked e m' (first e d post) (rest e d post)
    back_stays =
        Linked-frame e m m' (first e d post) (rest e d post)
          (λ x h. w.next_same x (ground (arith, before_behind)))
          (λ x h. w.prev_same x (ground (arith, exit-Gap.after_back))) behind.2

    run_stays : Linked e m' f ms
    run_stays =
        Linked-frame e m m' f ms (λ x h. w.next_same x (ground (arith, before_behind)))
          (λ x h. w.prev_same x (ground (arith, after_in_front))) behind.0

    pub Cycle-remove : Parts e d pre f ms post m'
    Cycle-remove = record {
      rest_cycle = record {
        linked = subst (Linked e m' d) (sym (tail_words e d pre post)) (
            Linked-append e m' d pre (first e d post) (rest e d post) front_stays
              (w.next_before, w.prev_after) back_stays);
        distinct =
            subst (λ es. Distinct (e d ∷ es)) (sym (map-append e pre post))
              (Distinct-remove (e d ∷ map e pre) (map e (f ∷ ms)) (map e post) all-Distinct);
      };
      run = run_stays;
      run_distinct =
          Distinct-front (map e (f ∷ ms)) (map e post)
            (Distinct-back (e d ∷ map e pre) _ all-Distinct);
      apart =
          subst (λ es. Disjoint (map e (f ∷ ms)) (e d ∷ es)) (sym (map-append e pre post))
            (Distinct-apart (e d ∷ map e pre) (map e (f ∷ ms)) (map e post) all-Distinct);
    }
