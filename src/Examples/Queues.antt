-- ===== src/Examples/Queues.antt =====
-- The properties of `Stailq` at a queue of the items 10, 20 and 30, whose head entry is at 100.
use csd_mirror.Prelude.{ℕ, List, ltb, ◌≡◌, refl, false, Disjoint, some, [], ◌∷◌, has, arith}
use mathlib.Core.List.{Perm}
use csd_mirror.Intrusive.Offset.{
  create_direct_entry_ref, create_item_entry_ref, get_entry, get_value,
}
use csd_mirror.Intrusive.Size.{integral}
use csd_mirror.Tailq.Valid.{items, entries}
use csd_mirror.Tailq.Cycle.{first}
use csd_mirror.Chain.{Links}
use csd_mirror.Stailq.Element.{Head, insert_after, erase_after}
use csd_mirror.Stailq.Range.{swap, reverse, sort}
use csd_mirror.Stailq.Range.Empty.{reverse-tail_wrong, sort-tail_wrong}
use csd_mirror.Stailq.Laws.{IsStailq, after}
use csd_mirror.Stailq.Insert.{insert_after_lem}
use csd_mirror.Stailq.Erase.{erase_after_lem}
use csd_mirror.Stailq.Head.{take_assign, move_assign, make}
use csd_mirror.Stailq.Head.Laws.{stailq_swap_lem, stailq_take_assign_lem, stailq_move_assign_lem}
use csd_mirror.Stailq.Values.{stailq_make_lem}
use csd_mirror.Tailq.Valid.{IsFree}
use csd_mirror.Stailq.Sort.{queue_sort-Ascending}
use csd_mirror.Stailq.Reverse.{stailq_reverse_lem}
use csd_mirror.Tailq.Merge.Reference.{Ascending}
use csd_mirror.Tailq.Merge.Lanes.{ordered}
use csd_mirror.Examples.{c8, look, list_a}
use csd_mirror.Examples.Orders.{above, above-IsStrictWeakOrder}

abbrev links : Links
links = look ((100, 18) ∷ (18, 28) ∷ (28, 38) ∷ (38, 0) ∷ [])

abbrev queue : Head
queue = record { head_entry = 100; encoded_tail = 38; size_member = integral 4; m_sz = 3 }

abbrev no_items : Head
no_items = record { head_entry = 200; encoded_tail = 200; size_member = integral 4; m_sz = 0 }

queue-IsStailq : IsStailq c8 links queue list_a
unfolding create_direct_entry_ref create_item_entry_ref get_entry get_value
queue-IsStailq = record {
  head_ok = refl;
  items_ok = (refl, (refl, (refl, tt)));
  chain = (refl, (refl, (refl, refl)));
  distinct = (refl, (refl, (refl, (refl, tt))));
  tail = refl;
  count = refl;
}

no_items-IsStailq : IsStailq c8 links no_items []
unfolding create_direct_entry_ref create_item_entry_ref get_entry get_value
no_items-IsStailq = record {
  head_ok = refl;
  items_ok = tt;
  chain = refl;
  distinct = (refl, tt);
  tail = refl;
  count = refl;
}

new_70 : has (c8.get_entry (c8.create_item_entry_ref 70)) (entries c8 100 list_a) ≡ false
unfolding create_direct_entry_ref create_item_entry_ref get_entry get_value
new_70 = refl

insert_after_lem_example :
    let (next', h', it) = insert_after c8 links queue (after c8 queue (10 ∷ [])) 70 in
    IsStailq c8 next' h' (10 ∷ 70 ∷ 20 ∷ 30 ∷ []) × (it ≡ after c8 queue (10 ∷ 70 ∷ []))
insert_after_lem_example =
    insert_after_lem c8 links queue (10 ∷ []) (20 ∷ 30 ∷ []) 70 queue-IsStailq refl new_70

erase_after_lem_example :
    let (next', h', it) = erase_after c8 links queue (after c8 queue (10 ∷ 20 ∷ [])) in
    IsStailq c8 next' h' (10 ∷ 20 ∷ []) × (it ≡ first c8.get_entry 0 (items c8 []))
erase_after_lem_example = erase_after_lem c8 links queue (10 ∷ 20 ∷ []) 30 [] queue-IsStailq

reverse-tail_wrong_example :
    (next' : Links) × (h' : Head) × (reverse c8 1 links no_items ≡ some (next', h'))
    × (h'.encoded_tail ≡ 0)
    × (next' 200 ≡ 0)
reverse-tail_wrong_example = reverse-tail_wrong c8 0 links no_items no_items-IsStailq

sort-tail_wrong_example :
    sort c8 (λ x. x) ltb 1 links no_items ≡ some (links, record no_items { encoded_tail = 0 })
sort-tail_wrong_example =
    sort-tail_wrong c8 (λ x. x) ltb 1 links no_items no_items-IsStailq (omega arith) (omega arith)

queue_sort-Ascending_example :
    (next' : Links) × (h' : Head) × (ys : List ℕ) × (sort c8 (λ x. x) above 5 links queue
      ≡ some (next', h'))
    × IsStailq c8 next' h' ys
    × Perm list_a ys
    × Ascending (ordered above (λ x. x)) ys
queue_sort-Ascending_example =
    queue_sort-Ascending c8 above (λ x. x) 5 links queue 10 (20 ∷ 30 ∷ []) above-IsStrictWeakOrder
      queue-IsStailq (omega arith) (omega arith)

stailq_reverse_lem_example :
    (next' : Links) × (h' : Head) × (reverse c8 5 links queue ≡ some (next', h'))
    × IsStailq c8 next' h' (30 ∷ 20 ∷ 10 ∷ [])
stailq_reverse_lem_example =
    stailq_reverse_lem c8 5 links queue 10 (20 ∷ 30 ∷ []) queue-IsStailq (omega arith)

queue_apart : Disjoint (entries c8 100 list_a) (entries c8 200 [])
unfolding create_direct_entry_ref create_item_entry_ref get_entry get_value
queue_apart x n = ground arith

head_free : has 200 (entries c8 100 list_a) ≡ false
unfolding create_direct_entry_ref create_item_entry_ref get_entry get_value
head_free = refl

stailq_swap_lem_example :
    (next' : Links) × (this' : Head) × (other' : Head) × (swap c8 5 links queue no_items
      ≡ some (next', this', other'))
    × IsStailq c8 next' this' []
    × IsStailq c8 next' other' list_a
    × (this'.head_entry ≡ 100)
    × (other'.head_entry ≡ 200)
stailq_swap_lem_example =
    stailq_swap_lem c8 5 links queue no_items list_a [] queue-IsStailq no_items-IsStailq queue_apart
      (omega arith) (omega arith) (omega arith) (omega arith)

stailq_take_assign_lem_example :
    (next' : Links) × (this' : Head) × (other' : Head) × (take_assign c8 5 links no_items queue
      ≡ some (next', this', other'))
    × IsStailq c8 next' this' list_a
    × IsStailq c8 next' other' []
stailq_take_assign_lem_example =
    stailq_take_assign_lem c8 links no_items queue list_a refl queue-IsStailq head_free 5
      (omega arith) (omega arith)

stailq_move_assign_lem_example :
    let (next', this', other') = move_assign links no_items queue in
    IsStailq c8 next' this' list_a × IsStailq c8 next' other' []
stailq_move_assign_lem_example =
    stailq_move_assign_lem c8 links no_items queue list_a refl queue-IsStailq head_free

new_items-IsFree : IsFree c8 200 (70 ∷ 80 ∷ []) []
unfolding create_direct_entry_ref create_item_entry_ref get_entry get_value
new_items-IsFree = record {
  distinct = (refl, (refl, tt));
  apart = λ x n. ground arith;
  items_ok = (refl, (refl, tt));
}

stailq_make_lem_example :
    let (next', h) = make c8 links 200 (integral 4) (70 ∷ 80 ∷ []) in
    IsStailq c8 next' h (70 ∷ 80 ∷ [])
stailq_make_lem_example =
    stailq_make_lem c8 links 200 (integral 4) (70 ∷ 80 ∷ []) refl new_items-IsFree
