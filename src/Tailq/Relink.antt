-- ===== src/Tailq/Relink.antt =====
-- Linking a run of entries into a cycle: what the writes have to achieve, and the cycle that
-- results.
use csd_mirror.Prelude.{
  ℕ, ◌≡◌, refl, true, false, List, [], ◌∷◌, ◌++◌, map, arith, has, Distinct, Disjoint, has_middle,
  has_front, Distinct-middle, Distinct-insert, ap, sym, ◌∙◌, ◌==◌, subst,
}
use mathlib.Core.List.{append_assoc, map-append}
use csd_mirror.Tailq.Memory.{Memory}
use csd_mirror.Tailq.Links.{Linked, last, starts, Linked-append, Linked-frame}
use csd_mirror.Tailq.Cycle.{
  Cycle, Gap, first, rest, first-rest, outside, before_in, after_in, Cycle-Gap,
}

module _ (e : ℕ → ℕ) where
  -- `m'` is `m` with the run from `f` to `l` linked in between `a` and `p`.
  pub record LinksIn (m m' : Memory) (a f l p : ℕ) : Type 0 where
    pub next_before : m'.next (e a) ≡ f
    pub next_last : m'.next (e l) ≡ p
    pub prev_first : m'.prev (e f) ≡ a
    pub prev_after : m'.prev (e p) ≡ l
    pub next_same : (x : ℕ) → (x == e a) ≡ false → (x == e l) ≡ false → m'.next x ≡ m.next x
    pub prev_same : (x : ℕ) → (x == e f) ≡ false → (x == e p) ≡ false → m'.prev x ≡ m.prev x

pub starts-last :
    (e : ℕ → ℕ) (a : ℕ) (bs : List ℕ) → starts e a bs ++ e (last e a bs) ∷ [] ≡ e a ∷ map e bs
starts-last e a [] = refl
starts-last e a (b ∷ bs) = ap (◌∷◌ (e a)) (starts-last e b bs)

pub run_end : (e : ℕ → ℕ) (f : ℕ) (ms : List ℕ) → has (e (last e f ms)) (map e (f ∷ ms)) ≡ true
run_end e f ms =
    subst (λ es. has (e (last e f ms)) es ≡ true) (starts-last e f ms)
      (has_middle (e (last e f ms)) (starts e f ms) [])

pub tail_words :
    (e : ℕ → ℕ) (d : ℕ) (ms post : List ℕ)
    → (ms ++ post) ++ d ∷ [] ≡ ms ++ first e d post ∷ rest e d post
tail_words e d ms post = append_assoc ms post (d ∷ []) ∙ ap (◌++◌ ms) (first-rest e d post)

pub map_parts :
    (e : ℕ → ℕ) (pre mid post : List ℕ)
    → map e (pre ++ (mid ++ post)) ≡ map e pre ++ (map e mid ++ map e post)
map_parts e pre mid post =
    map-append e pre (mid ++ post) ∙ ap (◌++◌ (map e pre)) (map-append e mid post)

module _ (e : ℕ → ℕ) (d : ℕ) {m m' : Memory} (pre : List ℕ) (f : ℕ) (ms post : List ℕ) where
  module _ (k : Cycle e d m (pre ++ post)) (run : Linked e m f ms)
      (distinct : Distinct (map e (f ∷ ms)))
      (apart : Disjoint (map e (f ∷ ms)) (e d ∷ map e (pre ++ post)))
      (w : LinksIn e m m' (last e d pre) f (last e f ms) (first e d post)) where
    gap : Gap e d m pre post
    gap = Cycle-Gap e d pre post k

    abbrev a : ℕ
    a = last e d pre

    abbrev l : ℕ
    l = last e f ms

    abbrev p : ℕ
    p = first e d post

    run_middle : has (e l) (starts e f ms) ≡ false
    run_middle =
        (Distinct-middle (starts e f ms) (e l) []
          (subst Distinct (sym (starts-last e f ms)) distinct)).0

    front_stays : Linked e m' d pre
    front_stays =
        let (l1, _, _, _, _, _) = outside e d pre post (e l) (apart (e l) (run_end e f ms)) in
        let (_, _, _, f1, _, _) = outside e d pre post (e f) (apart (e f) (ground arith)) in
        Linked-frame e m m' d pre
          (λ x h. w.next_same x (ground (arith, gap.before_front)) (ground arith))
          (λ x h. w.prev_same x (ground arith) (ground (arith, gap.after_front))) gap.front

    back_stays : Linked e m' p (rest e d post)
    back_stays =
        let (_, _, l1, _, _, _) = outside e d pre post (e l) (apart (e l) (run_end e f ms)) in
        let (_, _, _, _, _, f1) = outside e d pre post (e f) (apart (e f) (ground arith)) in
        Linked-frame e m m' p (rest e d post)
          (λ x h. w.next_same x (ground (arith, gap.before_back)) (ground arith))
          (λ x h. w.prev_same x (ground arith) (ground (arith, gap.after_back))) gap.back

    run_stays : Linked e m' f ms
    run_stays =
        Linked-frame e m m' f ms
          (λ x h.
            w.next_same x (ground (arith, apart x, before_in e d pre post, in_run x h))
              (ground (arith, run_middle)))
          (λ x h. w.prev_same x (ground arith) (ground (arith, apart x, after_in e d pre post))) run
      where
        in_run : (x : ℕ) → has x (starts e f ms) ≡ true → has x (map e (f ∷ ms)) ≡ true
        in_run x h =
            subst (λ es. has x es ≡ true) (starts-last e f ms)
              (has_front x (starts e f ms) (e l ∷ []) h)

    -- The run is linked, and none of its entries is in the cycle.
    pub Cycle-insert : Cycle e d m' (pre ++ ((f ∷ ms) ++ post))
    Cycle-insert = record {
      linked = subst (Linked e m' d) (sym words) (
          Linked-append e m' d pre f (ms ++ p ∷ rest e d post) front_stays
            (w.next_before, w.prev_first)
            (Linked-append e m' f ms p (rest e d post) run_stays (w.next_last, w.prev_after)
              back_stays));
      distinct =
          subst (λ es. Distinct (e d ∷ es)) (sym (map_parts e pre (f ∷ ms) post))
            (Distinct-insert (e d ∷ map e pre) (map e (f ∷ ms)) (map e post)
              (subst (λ es. Distinct (e d ∷ es)) (map-append e pre post) k.distinct) distinct
              (subst (λ es. Disjoint (map e (f ∷ ms)) (e d ∷ es)) (map-append e pre post) apart));
    }
      where
        words : (pre ++ ((f ∷ ms) ++ post)) ++ d ∷ [] ≡ pre ++ f ∷ (ms ++ p ∷ rest e d post)
        words =
            append_assoc pre ((f ∷ ms) ++ post) (d ∷ [])
            ∙ ap (λ ws. pre ++ f ∷ ws) (tail_words e d ms post)
