-- ===== src/Tailq/Cycle.antt =====
-- A tail queue's words form a cycle through the end entry, and what unlinking and linking in a
-- run of entries makes of it.
use csd_mirror.Prelude.{
  ℕ, ◌≡◌, refl, true, false, List, [], ◌∷◌, ◌++◌, map, arith, has, has-append, Distinct,
  not_has_middle, has_middle, Distinct-middle, Distinct-rotate, ap, sym, ◌∙◌, ◌==◌, subst,
}
use mathlib.Core.List.{append_assoc, map-append}
use csd_mirror.Tailq.Memory.{Memory}
use csd_mirror.Tailq.Links.{Edge, Linked, last, starts, Linked-split, starts-append}

-- The word of the end entry is `d`, those of the items in order are `ws`.
module _ (e : ℕ → ℕ) (d : ℕ) where
  pub record Cycle (m : Memory) (ws : List ℕ) : Type 0 where
    pub linked : Linked e m d (ws ++ d ∷ [])
    pub distinct : Distinct (e d ∷ map e ws)

  -- The word at the position in front of `ws`, and those behind it.
  abbrev pub first : List ℕ → ℕ
  first [] = d
  first (w ∷ ws) = w

  abbrev pub rest : List ℕ → List ℕ
  rest [] = []
  rest (w ∷ ws) = ws ++ d ∷ []

  pub first-rest : (ws : List ℕ) → ws ++ d ∷ [] ≡ first ws ∷ rest ws
  first-rest [] = refl
  first-rest (w ∷ ws) = refl

  pub starts-cycle : (a : ℕ) (ws : List ℕ) → starts e a (ws ++ d ∷ []) ≡ e a ∷ map e ws
  starts-cycle a [] = refl
  starts-cycle a (w ∷ ws) = ap (◌∷◌ (e a)) (starts-cycle w ws)

  -- The cycle opened between `pre` and `post`.
  pub record Gap (m : Memory) (pre post : List ℕ) : Type 0 where
    pub front : Linked e m d pre
    pub edge : Edge e m (last e d pre) (first post)
    pub back : Linked e m (first post) (rest post)
    pub before_front : has (e (last e d pre)) (starts e d pre) ≡ false
    pub before_back : has (e (last e d pre)) (starts e (first post) (rest post)) ≡ false
    pub after_front : has (e (first post)) (map e pre) ≡ false
    pub after_back : has (e (first post)) (map e (rest post)) ≡ false

  module _ (pre post : List ℕ) where
    cycle_words : (pre ++ post) ++ d ∷ [] ≡ pre ++ first post ∷ rest post
    cycle_words = append_assoc pre post (d ∷ []) ∙ ap (◌++◌ pre) (first-rest post)

    pub all_starts :
        e d ∷ map e (pre ++ post)
        ≡ starts e d pre ++ e (last e d pre) ∷ starts e (first post) (rest post)
    all_starts =
        sym (starts-cycle d (pre ++ post))
        ∙ ap (starts e d) cycle_words
        ∙ starts-append e d pre (first post) (rest post)

    pub all_ends : map e (pre ++ post) ++ e d ∷ [] ≡ map e pre ++ e (first post) ∷ map e (rest post)
    all_ends =
        sym (map-append e (pre ++ post) (d ∷ []))
        ∙ ap (map e) cycle_words
        ∙ map-append e pre (first post ∷ rest post)

    -- What an entry that is not in the cycle is not.
    pub outside :
        (x : ℕ)
        → has x (e d ∷ map e (pre ++ post)) ≡ false
        → (has x (starts e d pre) ≡ false)
          × ((x == e (last e d pre)) ≡ false)
          × (has x (starts e (first post) (rest post)) ≡ false)
          × (has x (map e pre) ≡ false)
          × ((x == e (first post)) ≡ false)
          × (has x (map e (rest post)) ≡ false)
    outside x h =
        let (s1, s2, s3) = not_has_middle x _ _ _ (subst (λ l. has x l ≡ false) all_starts h) in
        let h' : has x (map e (pre ++ post) ++ e d ∷ []) ≡ false =
          ground (arith, has-append x (map e (pre ++ post)) (e d ∷ [])) in
        let (t1, t2, t3) = not_has_middle x _ _ _ (subst (λ l. has x l ≡ false) all_ends h') in
        (s1, s2, s3, t1, t2, t3)

    pub before_in : has (e (last e d pre)) (e d ∷ map e (pre ++ post)) ≡ true
    before_in =
        subst (λ l. has (e (last e d pre)) l ≡ true) (sym all_starts)
          (has_middle (e (last e d pre)) (starts e d pre) (starts e (first post) (rest post)))

    pub after_in : has (e (first post)) (e d ∷ map e (pre ++ post)) ≡ true
    after_in =
        let h =
          subst (λ l. has (e (first post)) l ≡ true) (sym all_ends)
            (has_middle (e (first post)) (map e pre) (map e (rest post))) in
        ground (arith, h, has-append (e (first post)) (map e (pre ++ post)) (e d ∷ []))

    pub Cycle-Gap : {m : Memory} → Cycle m (pre ++ post) → Gap m pre post
    Cycle-Gap {m} k =
        let (front, edge, back) =
          Linked-split e m d pre (first post) (rest post)
            (subst (Linked e m d) cycle_words k.linked) in
        let before = Distinct-middle _ _ _ (subst Distinct all_starts k.distinct) in
        let after =
          Distinct-middle _ _ _ (subst Distinct all_ends (Distinct-rotate _ _ k.distinct)) in
        record {
          front = front;
          edge = edge;
          back = back;
          before_front = before.0;
          before_back = before.1;
          after_front = after.0;
          after_back = after.1;
        }
