-- ===== src/Examples/Orders.antt =====
-- The properties of the merges and of the walks through a whole list, at the lists of `Examples`.
use csd_mirror.Prelude.{
  ℕ, ltb, ◌%◌, ◌/◌, ◌≡◌, ◌==◌, Bool, true, refl, some, List, [], ◌∷◌, ◌++◌, arith,
}
use mathlib.Core.List.{Perm}
use csd_mirror.Utility.{projections_are_equivalent}
use csd_mirror.Tailq.Memory.{Memory, Head}
use csd_mirror.Tailq.Valid.{IsTailq, entries, SameOutside}
use csd_mirror.Tailq.Scan
use csd_mirror.Tailq.Scan.{unique}
use csd_mirror.Tailq.Scan.Reverse.{reverse_lem}
use csd_mirror.Tailq.Scan.Unique.{unique_lem}
use csd_mirror.Tailq.Merge.{merge, sort}
use csd_mirror.Tailq.Merge.Reference.{IsStrictWeakOrder, Ascending, Merged}
use csd_mirror.Tailq.Merge.Lanes.{ordered}
use csd_mirror.Tailq.Merge.Lists.{merge-Merged}
use csd_mirror.Tailq.Merge.Laws.{merge-Ascending, sort-Perm, sort-Ascending}
use csd_mirror.Examples.{
  c8, memory, head_a, head_b, list_a, list_b, a_IsTailq, b_IsTailq, a_b-Separate,
}

-- Items are ordered by a key, and by their addresses downwards.
abbrev key : ℕ → ℕ
key x = x % 50

abbrev pub above : ℕ → ℕ → Bool
above x y = ltb y x

pub above-IsStrictWeakOrder : IsStrictWeakOrder above
above-IsStrictWeakOrder = record { asym = λ a b h. ground arith; trans = λ a b d h k. ground arith }

below-IsStrictWeakOrder : IsStrictWeakOrder ltb
below-IsStrictWeakOrder = record { asym = λ a b h. ground arith; trans = λ a b d h k. ground arith }

sort-Ascending_example :
    (m' : Memory) × (ys : List ℕ) × (sort c8 above (λ x. x) 5 memory head_a ≡ some m')
    × IsTailq c8 m' head_a ys
    × Perm list_a ys
    × Ascending (ordered above (λ x. x)) ys
sort-Ascending_example =
    sort-Ascending c8 above (λ x. x) 5 memory head_a list_a above-IsStrictWeakOrder a_IsTailq
      (omega arith) (omega arith)

sort-Perm_example :
    (m' : Memory) × (ys : List ℕ) × (sort c8 (λ x y. true) (λ x. x) 5 memory head_a ≡ some m')
    × IsTailq c8 m' head_a ys
    × Perm list_a ys
sort-Perm_example =
    sort-Perm c8 (λ x y. true) (λ x. x) 5 memory head_a list_a a_IsTailq (omega arith) (omega arith)

merge-Merged_example :
    (m' : Memory) × (this' : Head) × (other' : Head) × (zs : List ℕ) × (merge c8 ltb key 9 memory
        head_a head_b
      ≡ some (m', this', other'))
    × IsTailq c8 m' this' zs
    × IsTailq c8 m' other' []
    × Merged (ordered ltb key) list_a list_b zs
merge-Merged_example =
    merge-Merged c8 head_a head_b ltb key 9 memory list_a list_b a_IsTailq b_IsTailq a_b-Separate
      (omega arith) (omega arith)

merge-Ascending_example :
    (m' : Memory) × (this' : Head) × (other' : Head) × (zs : List ℕ) × (merge c8 ltb key 9 memory
        head_a head_b
      ≡ some (m', this', other'))
    × IsTailq c8 m' this' zs
    × IsTailq c8 m' other' []
    × Perm (list_a ++ list_b) zs
    × Ascending (ordered ltb key) zs
merge-Ascending_example =
    merge-Ascending c8 ltb key 9 memory head_a head_b list_a list_b below-IsStrictWeakOrder
      a_IsTailq b_IsTailq a_b-Separate (omega arith) (omega arith)
      ((refl, (refl, tt)), ((refl, tt), (tt, tt))) ((refl, tt), (tt, tt))

reverse_lem_example :
    (m' : Memory) × (Scan.reverse c8 5 memory head_a ≡ some m')
    × IsTailq c8 m' head_a (30 ∷ 20 ∷ 10 ∷ [])
    × SameOutside c8 (entries c8 100 list_a) memory m'
reverse_lem_example = reverse_lem c8 5 memory head_a list_a a_IsTailq (omega arith)

unique_lem_example :
    (m' : Memory) × (h' : Head) × (unique c8 (λ x y. x == y) (λ x. x / 25) 9 memory head_a
      ≡ some (m', h'))
    × IsTailq c8 m' h' (10 ∷ 30 ∷ [])
unfolding projections_are_equivalent
unique_lem_example =
    unique_lem c8 (λ x y. x == y) (λ x. x / 25) 9 memory head_a list_a a_IsTailq (omega arith)
