-- ===== src/Examples/Runs.antt =====
-- Runs of the definitions at the lists of `Examples`.
use csd_mirror.Prelude.{
  ℕ, zero, suc, if◌then◌else◌, ◌≡◌, refl, some, List, [], ◌∷◌, ◌%◌, ◌/◌, ◌-◌, ◌==◌, ltb, ◌>>=◌,
}
use csd_mirror.Intrusive.Offset.{
  create_direct_entry_ref, create_item_entry_ref, get_entry, get_value,
}
use csd_mirror.Tailq.Memory.{Memory, Head}
use csd_mirror.Tailq.Range.{erase_range, counted_distance, counted_size, insert_range, remove_range}
use csd_mirror.Tailq.Difference.{size_width, difference, convert}
use csd_mirror.Intrusive.Size.{integral, add_size, sub_size, set_size}
use csd_mirror.Tailq.Iterator.{distance, size, forward, begin, end}
use csd_mirror.Tailq.Scan.{scan_while, reverse, remove_if, unique}
use csd_mirror.Tailq.Merge.{merge, sort}
use csd_mirror.Examples.{c8, memory, head_a, head_b}

-- The distances 100 and 200 in a list with an 8-bit size member, added to a 64-bit one: the second
-- is taken for -56.
narrow_run : convert (integral 8) (integral 64) (difference (integral 8) 100) ≡ 100
unfolding convert difference size_width
narrow_run = refl

negative_run :
    convert (integral 8) (integral 64) (difference (integral 8) 200) ≡ 18446744073709551616 - 56
unfolding convert difference size_width
negative_run = refl

-- The entries on the way from `begin` to `end`.
abbrev walk : ℕ → Memory → ℕ → ℕ → List ℕ
walk zero m i e = []
walk (suc n) m i e = if i == e then [] else i ∷ walk n m (forward c8 m i) e

abbrev list_of : Memory → Head → List ℕ × ℕ
list_of m h = (walk 9 m (begin c8 m h) (end c8 h), h.m_sz)

reverse_run :
    (reverse c8 9 memory head_a >>= λ m. some (list_of m head_a)) ≡ some (38 ∷ 28 ∷ 18 ∷ [], 3)
unfolding reverse create_direct_entry_ref create_item_entry_ref get_entry get_value
reverse_run = refl

remove_if_run :
    (remove_if c8 (λ v. v == 20) (λ p. p) 9 memory head_a >>= λ r. some (list_of r.0 r.1))
    ≡ some (18 ∷ 38 ∷ [], 2)
unfolding remove_if scan_while erase_range counted_distance difference convert size_width distance
    remove_range sub_size create_direct_entry_ref create_item_entry_ref get_entry get_value
remove_if_run = refl

unique_run :
    (unique c8 (λ v w. v / 20 == w / 20) (λ p. p) 9 memory head_a >>= λ r. some (list_of r.0 r.1))
    ≡ some (18 ∷ 28 ∷ [], 2)
unfolding unique scan_while erase_range counted_distance difference convert size_width distance
    remove_range sub_size create_direct_entry_ref create_item_entry_ref get_entry get_value
unique_run = refl

-- The remainders modulo 30 of 10, 20, 30, 50 and 60 are 10, 20, 0, 20 and 0.
sort_run :
    (sort c8 ltb (λ p. p % 30) 9 memory head_a >>= λ m. some (list_of m head_a))
    ≡ some (38 ∷ 18 ∷ 28 ∷ [], 3)
unfolding sort size insert_range remove_range create_direct_entry_ref create_item_entry_ref
    get_entry get_value
sort_run = refl

merge_run :
    (merge c8 ltb (λ p. p % 50) 9 memory head_a head_b >>= λ r. some (list_of r.0 r.1))
    ≡ some (58 ∷ 18 ∷ 68 ∷ 28 ∷ 38 ∷ [], 5)
unfolding merge counted_size size insert_range remove_range add_size set_size
    create_direct_entry_ref create_item_entry_ref get_entry get_value
merge_run = refl
