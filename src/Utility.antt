-- ===== src/Utility.antt =====
-- include/csg/core/utility.h: a pointer and the index of its type in one machine word, and the
-- two helpers that compare list items through a projection.
pub mod Bits
pub mod Tagged
use csd_mirror.Prelude.{
  ℕ, suc, ◌-◌, ◌^◌, Bool, not, ◌&&◌, Option, none, some, List, [], ◌∷◌, bit_and, bit_or, ◌==◌,
  if◌then◌else◌,
}

-- Types are named by numbers, and `none` stands for `type_not_found`.
abbrev pub type_index : ℕ → List ℕ → Option ℕ
type_index t [] = none
type_index t (u ∷ us) =
    if t == u then some 0 else elim (type_index t us) [ none ↦ none | some i ↦ some (suc i) ]

-- `Mask` of a union of `n` pointer types.
pub mask : ℕ → ℕ
mask n = 2 ^ (n - 1) - 1

-- `tagged_ptr_union(U *u)`, for the type of index `i` and the address `u`.
pub tagged_ptr : (i u : ℕ) → ℕ
tagged_ptr i u = bit_or u i

-- A union of `n` pointer types, given by its word.
module _ (n word : ℕ) where
  unfoldable pub has_type : ℕ → Bool
  unfolding mask
  has_type i = not (word == 0) && (bit_and word (mask n) == i)

  -- `word & ~Mask`: the bits of the mask are taken off.
  unfoldable pub address : ℕ
  unfolding mask
  address = word - bit_and word (mask n)

  -- `none` stands for `type_not_found`.
  pub index : Option ℕ
  unfolding mask
  index = if word == 0 then none else some (bit_and word (mask n))

  -- 0 is the null pointer.
  pub safe_cast : ℕ → ℕ
  unfolding address index
  safe_cast i = elim index [ none ↦ 0 | some j ↦ if j == i then address else 0 ]

-- `comp` and `proj` are those of the caller, and an item is named by its address.
module _ {ℓ} {A : Type ℓ} (proj : ℕ → A) where
  unfoldable pub projection_is_ordered_before : (A → A → Bool) → ℕ → ℕ → Bool
  projection_is_ordered_before comp lhs rhs = comp (proj lhs) (proj rhs)

  unfoldable pub projections_are_equivalent : (A → A → Bool) → ℕ → ℕ → Bool
  projections_are_equivalent eq lhs rhs = eq (proj lhs) (proj rhs)
