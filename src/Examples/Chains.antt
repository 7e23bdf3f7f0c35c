-- ===== src/Examples/Chains.antt =====
-- The properties of the singly linked lists, at a list of the items 10, 20 and 30, whose head entry
-- is at 100, and one of 50 and 60, whose head entry is at 300.
use csd_mirror.Prelude.{ℕ, ◌+◌, ◌≡◌, refl, false, some, List, [], ◌∷◌, has, Disjoint, arith}
use mathlib.Core.List.{Perm}
use csd_mirror.Intrusive.Offset.{
  create_direct_entry_ref, create_item_entry_ref, get_entry, get_value,
}
use csd_mirror.Intrusive.Size.{integral, Counts}
use csd_mirror.Tailq.Valid.{entries}
use csd_mirror.Tailq.Merge.Reference.{Ascending}
use csd_mirror.Tailq.Merge.Lanes.{ordered}
use csd_mirror.Chain.{Links, forward}
use csd_mirror.Chain.Forward.{IsForward, at, behind}
use csd_mirror.Slist.Element.{Head, insert_after, erase_after}
use csd_mirror.Slist.Range.{
  swap, reverse, sort, erase_range_after, splice_after, splice_range_after,
}
use csd_mirror.Slist.Laws.{IsSlist}
use csd_mirror.Chain.Visit.{for_each_safe, LeavesRest, for_each_safe_lem}
use csd_mirror.Tailq.Memory.{update}
use csd_mirror.Slist.Head.{take_assign}
use csd_mirror.Slist.Head.Laws.{slist_swap_lem, slist_take_assign_lem}
use csd_mirror.Slist.Sort.{sort_after-Ascending}
use csd_mirror.Slist.Reverse.{slist_reverse_lem}
use csd_mirror.Slist.Transfer.{erase_range_after_lem, splice_range_after_lem}
use csd_mirror.Slist.Lost.{splice_after-items_lost}
use csd_mirror.Slist.Changes.{slist_insert_after_lem, slist_erase_after_lem}
use csd_mirror.Examples.{c8, look, list_a, list_b}
use csd_mirror.Examples.Orders.{above, above-IsStrictWeakOrder}

abbrev chains : Links
chains = look ((100, 18) ∷ (18, 28) ∷ (28, 38) ∷ (38, 0) ∷ (300, 58) ∷ (58, 68) ∷ (68, 0) ∷ [])

abbrev slist_a : Head
slist_a = record { head_entry = 100; size_member = integral 4; m_sz = 3 }

abbrev slist_b : Head
slist_b = record { head_entry = 300; size_member = integral 4; m_sz = 2 }

a_IsSlist : IsSlist c8 chains slist_a list_a
unfolding create_direct_entry_ref create_item_entry_ref get_entry get_value
a_IsSlist = record {
  forward = record {
    head_ok = refl;
    items_ok = (refl, (refl, (refl, tt)));
    chain = (refl, (refl, (refl, refl)));
    distinct = (refl, (refl, (refl, (refl, tt))));
  };
  count = refl;
}

b_IsSlist : IsSlist c8 chains slist_b list_b
unfolding create_direct_entry_ref create_item_entry_ref get_entry get_value
b_IsSlist = record {
  forward = record {
    head_ok = refl;
    items_ok = (refl, (refl, tt));
    chain = (refl, (refl, refl));
    distinct = (refl, (refl, (refl, tt)));
  };
  count = refl;
}

a_b-Disjoint : Disjoint (entries c8 100 list_a) (entries c8 300 list_b)
unfolding create_direct_entry_ref create_item_entry_ref get_entry get_value
a_b-Disjoint x h = ground arith

chain_fresh : has (c8.get_entry (c8.create_item_entry_ref 70)) (entries c8 100 list_a) ≡ false
unfolding create_direct_entry_ref create_item_entry_ref get_entry get_value
chain_fresh = refl

sort_after-Ascending_example :
    (next' : Links) × (ys : List ℕ) × (sort c8 (λ x. x) above 5 chains slist_a ≡ some next')
    × IsSlist c8 next' slist_a ys
    × Perm list_a ys
    × Ascending (ordered above (λ x. x)) ys
sort_after-Ascending_example =
    sort_after-Ascending c8 above (λ x. x) 5 chains slist_a list_a above-IsStrictWeakOrder a_IsSlist
      (omega arith) (omega arith)

slist_reverse_lem_example :
    (next' : Links) × (reverse c8 5 chains slist_a ≡ some next')
    × IsSlist c8 next' slist_a (30 ∷ 20 ∷ 10 ∷ [])
slist_reverse_lem_example = slist_reverse_lem c8 5 chains slist_a list_a a_IsSlist (omega arith)

slist_insert_after_lem_example :
    let (next', h', it) = insert_after c8 chains slist_a (behind c8 100 (10 ∷ [])) 70 in
    IsSlist c8 next' h' (10 ∷ 70 ∷ 20 ∷ 30 ∷ []) × (it ≡ behind c8 100 (10 ∷ 70 ∷ []))
slist_insert_after_lem_example =
    slist_insert_after_lem c8 chains slist_a (10 ∷ []) 70 (20 ∷ 30 ∷ []) a_IsSlist refl chain_fresh

slist_erase_after_lem_example :
    let (next', h', it) = erase_after c8 chains slist_a (behind c8 100 (10 ∷ [])) in
    IsSlist c8 next' h' (10 ∷ 30 ∷ []) × (it ≡ at c8 (30 ∷ []))
slist_erase_after_lem_example =
    slist_erase_after_lem c8 chains slist_a (10 ∷ []) 20 (30 ∷ []) a_IsSlist

erase_range_after_lem_example :
    (next' : Links) × (h' : Head) × (erase_range_after c8 5 chains slist_a
        (behind c8 100 (10 ∷ []))
        (at c8 [])
      ≡ some (next', h', at c8 []))
    × IsSlist c8 next' h' (10 ∷ [])
erase_range_after_lem_example =
    erase_range_after_lem c8 5 chains slist_a (10 ∷ []) (20 ∷ 30 ∷ []) [] a_IsSlist (omega arith)

splice_range_after_lem_example :
    (next' : Links) × (this' : Head) × (other' : Head) × (splice_range_after c8 5 chains slist_a
        slist_b
        (behind c8 100 (10 ∷ []))
        (behind c8 300 [])
        (at c8 (60 ∷ []))
      ≡ some (next', this', other'))
    × IsSlist c8 next' this' (10 ∷ 50 ∷ 20 ∷ 30 ∷ [])
    × IsSlist c8 next' other' (60 ∷ [])
splice_range_after_lem_example =
    splice_range_after_lem c8 5 chains slist_a slist_b (10 ∷ []) (20 ∷ 30 ∷ []) [] (50 ∷ [])
      (60 ∷ []) a_IsSlist b_IsSlist a_b-Disjoint (omega arith)

splice_after-items_lost_example :
    (next' : Links) × (this' : Head) × (other' : Head) × (splice_after c8 5 chains slist_a slist_b
        (behind c8 100 (10 ∷ []))
      ≡ some (next', this', other'))
    × IsForward c8 next' 100 (10 ∷ 50 ∷ 60 ∷ [])
    × Counts (integral 4) this'.m_sz (3 + 2)
    × IsSlist c8 next' other' []
splice_after-items_lost_example =
    splice_after-items_lost c8 5 chains slist_a slist_b (10 ∷ []) (20 ∷ 30 ∷ []) 50 (60 ∷ [])
      a_IsSlist b_IsSlist a_b-Disjoint (omega arith) (omega arith)

slist_swap_lem_example :
    (next' : Links) × (this' : Head) × (other' : Head) × (swap c8 5 chains slist_a slist_b
      ≡ some (next', this', other'))
    × IsSlist c8 next' this' list_b
    × IsSlist c8 next' other' list_a
    × (this'.head_entry ≡ 100)
    × (other'.head_entry ≡ 300)
slist_swap_lem_example =
    slist_swap_lem c8 5 chains slist_a slist_b list_a list_b a_IsSlist b_IsSlist a_b-Disjoint
      (omega arith) (omega arith) (omega arith) (omega arith)

abbrev slist_c : Head
slist_c = record { head_entry = 500; size_member = integral 4; m_sz = 9 }

head_fresh : has 500 (entries c8 300 list_b) ≡ false
unfolding create_direct_entry_ref create_item_entry_ref get_entry get_value
head_fresh = refl

slist_take_assign_lem_example :
    (next' : Links) × (this' : Head) × (other' : Head) × (take_assign c8 5 chains slist_c slist_b
      ≡ some (next', this', other'))
    × IsSlist c8 next' this' list_b
    × IsSlist c8 next' other' []
slist_take_assign_lem_example =
    slist_take_assign_lem c8 chains slist_c slist_b list_b refl b_IsSlist head_fresh 5 (omega arith)
      (omega arith)

-- A function that destroys the item that it is given, and adds up the items.
abbrev destroy : Links → ℕ → ℕ → Links × ℕ
destroy next total x = (update next (x + 8) 77, total + x)

destroy-LeavesRest : LeavesRest c8 (λ x. x) destroy chains 0 list_b
unfolding create_direct_entry_ref create_item_entry_ref get_entry get_value
destroy-LeavesRest = ((λ w n. ground arith), ((λ w n. ground arith), tt))

for_each_safe_lem_example :
    for_each_safe c8
      (λ x. x)
      destroy
      5
      chains
      0
      (forward c8 chains (c8.create_direct_entry_ref 300))
      0
    ≡ some (update (update chains 58 77) 68 77, 110)
for_each_safe_lem_example =
    for_each_safe_lem c8 (λ x. x) destroy 5 chains 0 300 list_b b_IsSlist.forward destroy-LeavesRest
      (omega arith)
