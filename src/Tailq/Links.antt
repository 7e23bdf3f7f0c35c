-- ===== src/Tailq/Links.antt =====
-- Chains of links: which words follow one another, the entries whose links a chain uses, and what
-- a chain keeps when other links change.
use csd_mirror.Prelude.{ℕ, ◌≡◌, refl, true, List, [], ◌∷◌, ◌++◌, map, arith, has, ap}
use csd_mirror.Tailq.Memory.{Memory}

-- `e` is the entry that a word names.
module _ (e : ℕ → ℕ) where
  -- `next` leads from `a` to `b`, and `prev` back.
  abbrev pub Edge : Memory → ℕ → ℕ → Type 0
  Edge m a b = (m.next (e a) ≡ b) × (m.prev (e b) ≡ a)

  -- From `a` the links lead through the words of the list, and back.
  abbrev pub Linked : Memory → ℕ → List ℕ → Type 0
  Linked m a [] = Unit
  Linked m a (b ∷ bs) = Edge m a b × Linked m b bs

  abbrev pub last : ℕ → List ℕ → ℕ
  last a [] = a
  last a (b ∷ bs) = last b bs

  -- The entries whose `next` such a chain uses; those whose `prev` it uses are `map e bs`.
  abbrev pub starts : ℕ → List ℕ → List ℕ
  starts a [] = []
  starts a (b ∷ bs) = e a ∷ starts b bs

  pub Linked-append :
      (m : Memory) (a : ℕ) (bs : List ℕ) (x : ℕ) (cs : List ℕ)
      → Linked m a bs
      → Edge m (last a bs) x
      → Linked m x cs
      → Linked m a (bs ++ x ∷ cs)
  Linked-append m a [] x cs p q r = (q, r)
  Linked-append m a (b ∷ bs) x cs p q r = (p.0, Linked-append m b bs x cs p.1 q r)

  pub Linked-split :
      (m : Memory) (a : ℕ) (bs : List ℕ) (x : ℕ) (cs : List ℕ)
      → Linked m a (bs ++ x ∷ cs)
      → Linked m a bs × Edge m (last a bs) x × Linked m x cs
  Linked-split m a [] x cs p = (tt, p.0, p.1)
  Linked-split m a (b ∷ bs) x cs p =
      let (l, q, r) = Linked-split m b bs x cs p.1 in ((p.0, l), q, r)

  pub starts-append :
      (a : ℕ) (bs : List ℕ) (x : ℕ) (cs : List ℕ)
      → starts a (bs ++ x ∷ cs) ≡ starts a bs ++ e (last a bs) ∷ starts x cs
  starts-append a [] x cs = refl
  starts-append a (b ∷ bs) x cs = ap (◌∷◌ (e a)) (starts-append b bs x cs)

  -- A chain stays when the links that it uses stay.
  pub Linked-frame :
      (m m' : Memory) (a : ℕ) (bs : List ℕ)
      → ((x : ℕ) → has x (starts a bs) ≡ true → m'.next x ≡ m.next x)
      → ((x : ℕ) → has x (map e bs) ≡ true → m'.prev x ≡ m.prev x)
      → Linked m a bs
      → Linked m' a bs
  Linked-frame m m' a [] same_next same_prev p = tt
  Linked-frame m m' a (b ∷ bs) same_next same_prev p = (
    (ground (arith, same_next (e a)), ground (arith, same_prev (e b))),
    Linked-frame m m' b bs (λ x h. same_next x (ground arith)) (λ x h. same_prev x (ground arith))
        p.1,
  )
