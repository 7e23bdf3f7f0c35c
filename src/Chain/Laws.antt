-- ===== src/Chain/Laws.antt =====
-- Null-terminated chains of links, and one entry put in or taken out.
use csd_mirror.Prelude.{
  ◌==◌, eq→==, refl, subst, ℕ, ◌≡◌, true, false, List, [], ◌∷◌, ◌++◌, map, arith, has, Distinct,
}
use mathlib.Core.List.{append-nil}
use csd_mirror.Tailq.Memory.{update}
use csd_mirror.Tailq.Links.{last}
use csd_mirror.Tailq.Cycle.{first}
use csd_mirror.Chain.{Links}

module _ (e : ℕ → ℕ) where
  -- From `a` the links lead through the words of the list and end there.
  abbrev pub IsChain : Links → ℕ → List ℕ → Type 0
  IsChain next a [] = next (e a) ≡ 0
  IsChain next a (w ∷ ws) = (next (e a) ≡ w) × IsChain next w ws

  pub IsChain-frame :
      (next next' : Links) (a : ℕ) (ws : List ℕ)
      → ((x : ℕ) → has x (e a ∷ map e ws) ≡ true → next' x ≡ next x)
      → IsChain next a ws
      → IsChain next' a ws
  IsChain-frame next next' a [] same k = ground (arith, same (e a))
  IsChain-frame next next' a (w ∷ ws) same k =
      (ground (arith, same (e a)), IsChain-frame next next' w ws (λ x n. same x (ground arith)) k.1)

  pub last_in :
      (a : ℕ) (pre post : List ℕ) → has (e (last e a pre)) (e a ∷ map e (pre ++ post)) ≡ true
  last_in a [] post = ground arith
  last_in a (w ∷ pre) post = ground (arith, last_in w pre post)

  pub IsChain-end :
      (next : Links) (a : ℕ) (pre : List ℕ) → IsChain next a pre → next (e (last e a pre)) ≡ 0
  IsChain-end next a [] k = k
  IsChain-end next a (b ∷ pre) k = IsChain-end next b pre k.1

  -- The chain behind a position.
  pub IsChain-behind :
      (next : Links) (a : ℕ) (pre : List ℕ) (w : ℕ) (post : List ℕ)
      → IsChain next a (pre ++ w ∷ post)
      → (next (e (last e a pre)) ≡ w) × IsChain next w post
  IsChain-behind next a [] w post k = k
  IsChain-behind next a (b ∷ pre) w post k = IsChain-behind next b pre w post k.1

  pub IsChain-insert :
      (next : Links) (a : ℕ) (pre : List ℕ) (w : ℕ) (post : List ℕ)
      → IsChain next a (pre ++ post)
      → Distinct (e a ∷ map e (pre ++ post))
      → has (e w) (e a ∷ map e (pre ++ post)) ≡ false
      → IsChain
          (update (update next (e w) (next (e (last e a pre)))) (e (last e a pre)) w)
          a
          (pre ++ w ∷ post)
  IsChain-insert next a [] w [] k d fresh = (ground arith, ground arith)
  IsChain-insert next a [] w (p ∷ ps) k d fresh = (
    ground arith,
    (
      ground arith,
      IsChain-frame next (update (update next (e w) (next (e a))) (e a) w) p ps
          (λ x n. ground arith) k.1,
    ),
  )
  IsChain-insert next a (b ∷ pre) w post k d fresh =
      (ground (arith, last_in b pre post), IsChain-insert next b pre w post k.1 d.1 (ground arith))

  pub IsChain-erase :
      (next : Links) (a : ℕ) (pre : List ℕ) (w : ℕ) (post : List ℕ)
      → IsChain next a (pre ++ w ∷ post)
      → Distinct (e a ∷ map e (pre ++ w ∷ post))
      → IsChain (update next (e (last e a pre)) (next (e w))) a (pre ++ post)
  IsChain-erase next a [] w [] k d = ground arith
  IsChain-erase next a [] w (p ∷ ps) k d = (
    ground arith,
    IsChain-frame next (update next (e a) (next (e w))) p ps (λ x n. ground arith) k.1.1,
  )
  IsChain-erase next a (b ∷ pre) w post k d =
      (ground (arith, last_in b pre (w ∷ post)), IsChain-erase next b pre w post k.1 d.1)

  pub IsChain-split :
      (next : Links) (a : ℕ) (pre post : List ℕ)
      → IsChain next a (pre ++ post)
      → IsChain next (last e a pre) post
  IsChain-split next a [] post k = k
  IsChain-split next a (b ∷ pre) post k = IsChain-split next b pre post k.1

  -- From `a` the links lead through the words of the list.
  abbrev pub IsLinked : Links → ℕ → List ℕ → Type 0
  IsLinked next a [] = Unit
  IsLinked next a (w ∷ ws) = (next (e a) ≡ w) × IsLinked next w ws

  pub IsChain-IsLinked :
      (next : Links) (a : ℕ) (pre post : List ℕ)
      → IsChain next a (pre ++ post)
      → IsLinked next a pre
  IsChain-IsLinked next a [] post k = tt
  IsChain-IsLinked next a (b ∷ pre) post k = (k.0, IsChain-IsLinked next b pre post k.1)

  pub IsLinked-frame :
      (next next' : Links) (a : ℕ) (ws : List ℕ)
      → ((x : ℕ) → has x (e a ∷ map e ws) ≡ true → next' x ≡ next x)
      → IsLinked next a ws
      → IsLinked next' a ws
  IsLinked-frame next next' a [] same k = tt
  IsLinked-frame next next' a (w ∷ ws) same k = (
    ground (arith, same (e a)),
    IsLinked-frame next next' w ws (λ x n. same x (ground arith)) k.1,
  )

  -- A chain gets another end from a position on, when the links in front of it stay.
  pub IsChain-graft :
      (next next' : Links) (a : ℕ) (pre new : List ℕ)
      → Distinct (e a ∷ map e pre)
      → ((x : ℕ)
          → has x (e a ∷ map e pre) ≡ true
          → (x == e (last e a pre)) ≡ false
          → next' x ≡ next x)
      → IsLinked next a pre
      → IsChain next' (last e a pre) new
      → IsChain next' a (pre ++ new)
  IsChain-graft next next' a [] new d same k k' = k'
  IsChain-graft next next' a (b ∷ pre) new d same k k' =
      let inside =
        subst (λ l. has (e (last e b pre)) (e b ∷ map e l) ≡ true) (append-nil pre)
          (last_in b pre []) in
      (
        ground (arith, inside, same (e a), eq→== (e a) (e a) refl),
        IsChain-graft next next' b pre new d.1 (λ x n. same x (ground arith)) k.1 k',
      )

  -- A chain is put behind another word.
  pub IsChain-onto :
      (next next' : Links) (a b : ℕ) (ws : List ℕ)
      → next' (e b) ≡ first e 0 ws
      → ((x : ℕ) → has x (map e ws) ≡ true → next' x ≡ next x)
      → IsChain next a ws
      → IsChain next' b ws
  IsChain-onto next next' a b [] to same k = to
  IsChain-onto next next' a b (w ∷ ws) to same k = (to, IsChain-frame next next' w ws same k.1)
