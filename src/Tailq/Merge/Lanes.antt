-- ===== src/Tailq/Merge/Lanes.antt =====
-- What the loop of a merge asks of the two lists that it works on.
use csd_mirror.Prelude.{ℕ, ◌≡◌, refl, Bool, true, false, Option, List, [], ◌∷◌, ◌++◌, ◌==◌}
use csd_mirror.Intrusive.{EntryRefCodec}
use csd_mirror.Utility.{projection_is_ordered_before}
use csd_mirror.Tailq.Memory.{Memory}
use csd_mirror.Tailq.Iterator.{forward, deref}
use csd_mirror.Tailq.Attach.{run_last}
use csd_mirror.Tailq.Valid.{item}
use csd_mirror.Tailq.Range.{insert_range, remove_range}
use csd_mirror.Tailq.Merge.{stop_at, before_at}

-- The iterator to the first of the items, or `e` without any.
abbrev pub position : EntryRefCodec → (e : ℕ) → List ℕ → ℕ
position c e [] = e
position c e (x ∷ xs) = item c x

-- The order of the items.
abbrev pub ordered {ℓ} : {A : Type ℓ} → (A → A → Bool) → (ℕ → A) → ℕ → ℕ → Bool
ordered comp proj x y = comp (proj x) (proj y)

-- What the loop needs of the memory: `State m pre xs ys` says that the items `pre` are merged and
-- that `xs` and `ys` are not.
pub record Lanes (c : EntryRefCodec) (e1 : Option ℕ) (e2 : ℕ) : Type 1 where
  pub State : Memory → (pre xs ys : List ℕ) → Type 0
  pub front_ok :
      (m : Memory) (pre : List ℕ) (x : ℕ) (xs ys : List ℕ)
      → State m pre (x ∷ xs) ys
      → c.item_ok x ≡ true
  pub front_ne :
      (m : Memory) (pre : List ℕ) (x : ℕ) (xs ys : List ℕ)
      → State m pre (x ∷ xs) ys
      → (item c x == stop_at e1 (position c e2 ys)) ≡ false
  pub front_forward :
      (m : Memory) (pre : List ℕ) (x : ℕ) (xs ys : List ℕ)
      → State m pre (x ∷ xs) ys
      → forward c m (item c x) ≡ position c (stop_at e1 (position c e2 ys)) xs
  pub back_ok :
      (m : Memory) (pre xs mid : List ℕ) (y : ℕ) (ys : List ℕ)
      → State m pre xs (mid ++ y ∷ ys)
      → c.item_ok y ≡ true
  pub back_ne :
      (m : Memory) (pre xs mid : List ℕ) (y : ℕ) (ys : List ℕ)
      → State m pre xs (mid ++ y ∷ ys)
      → (item c y == e2) ≡ false
  pub back_forward :
      (m : Memory) (pre xs mid : List ℕ) (y : ℕ) (ys : List ℕ)
      → State m pre xs (mid ++ y ∷ ys)
      → forward c m (item c y) ≡ position c e2 ys
  pub keep :
      (m : Memory) (pre : List ℕ) (x : ℕ) (xs ys : List ℕ)
      → State m pre (x ∷ xs) ys
      → State m (pre ++ x ∷ []) xs ys
  pub move :
      (m : Memory) (pre : List ℕ) (x : ℕ) (xs : List ℕ) (y : ℕ) (taken rest : List ℕ)
      → State m pre (x ∷ xs) ((y ∷ taken) ++ rest)
      → State
          (insert_range c
            (remove_range c m (item c y) (run_last c y taken))
            (item c x)
            (item c y)
            (run_last c y taken))
          (pre ++ (y ∷ taken))
          (x ∷ xs)
          rest

module _ {ℓ} {A : Type ℓ} (c : EntryRefCodec) (comp : A → A → Bool) (proj : ℕ → A) where
  pub before_at-items :
      (x y : ℕ)
      → c.item_ok x ≡ true
      → c.item_ok y ≡ true
      → before_at c comp proj (item c x) (item c y) ≡ ordered comp proj x y
  unfolding before_at projection_is_ordered_before deref
  before_at-items x y ok ok' = rw (c.get_value-item x ok, c.get_value-item y ok') refl
