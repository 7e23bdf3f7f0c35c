-- ===== src/Examples/Lists.antt =====
-- The properties of `Tailq` at the lists of `Examples`.
use csd_mirror.Prelude.{List, ℕ, ltb, ◌%◌, ◌^◌, ◌≡◌, refl, some, [], ◌∷◌, arith}
use csd_mirror.Intrusive.Size.{integral}
use csd_mirror.Tailq.Memory.{Memory, Head}
use csd_mirror.Tailq.Valid.{IsRing, IsTailq, entries, at, SameOutside}
use csd_mirror.Tailq.Attach.{IsRun}
use csd_mirror.Tailq.Element.{insert, insert_values, erase}
use csd_mirror.Tailq.Element.Insert.{insert_lem}
use csd_mirror.Tailq.Element.Values.{insert_values_lem}
use csd_mirror.Tailq.Element.Erase.{erase_lem}
use csd_mirror.Tailq.Range.{erase_range, splice, splice_range, swap_lists}
use csd_mirror.Tailq.Range.Erase.{erase_range_lem}
use csd_mirror.Tailq.Range.Transfer.{splice_range_lem, splice_lem, splice-sizes_wrong}
use csd_mirror.Tailq.Range.Swap.{swap_lists_lem}
use csd_mirror.Tailq.Difference.{size_width}
use csd_mirror.Tailq.Scan.{remove_if}
use csd_mirror.Tailq.Scan.Remove.{remove_if_lem}
use csd_mirror.Tailq.Head.{move_assign}
use csd_mirror.Tailq.Head.Laws.{move_assign_lem}
use csd_mirror.Tailq.Client.{
  Call, call_push_back, call_pop_front, call_reverse, Step, Run, perform_all, perform_all-Run,
}
use csd_mirror.Examples.{
  c8, memory, head_a, head_b, head_u, list_a, list_b, list_new, a_IsTailq, b_IsTailq, u_IsTailq,
  a_b-Separate, a_u-Separate, IsFree-new, fresh_70,
}

-- An item is appended, the first is taken off, and the rest is reversed.
abbrev calls : List Call
calls = call_push_back 70 ∷ call_pop_front ∷ call_reverse ∷ []

calls-Run : Run c8 5 100 list_a calls (70 ∷ 30 ∷ 20 ∷ [])
calls-Run =
    Run.call (call_push_back 70) (call_pop_front ∷ call_reverse ∷ []) list_a
      (10 ∷ 20 ∷ 30 ∷ 70 ∷ []) (70 ∷ 30 ∷ 20 ∷ []) (Step.pushed_back 70 (refl, fresh_70))
      (Run.call call_pop_front (call_reverse ∷ []) (10 ∷ 20 ∷ 30 ∷ 70 ∷ []) (20 ∷ 30 ∷ 70 ∷ [])
        (70 ∷ 30 ∷ 20 ∷ []) (Step.popped_front 10 (20 ∷ 30 ∷ 70 ∷ []) refl)
        (Run.call call_reverse [] (20 ∷ 30 ∷ 70 ∷ []) (70 ∷ 30 ∷ 20 ∷ []) (70 ∷ 30 ∷ 20 ∷ [])
          (Step.reversed (omega arith)) (Run.done (70 ∷ 30 ∷ 20 ∷ []))))

perform_all-Run_example :
    (m' : Memory) × (h' : Head) × (perform_all c8 5 memory head_a calls ≡ some (m', h'))
    × IsTailq c8 m' h' (70 ∷ 30 ∷ 20 ∷ [])
    × (h'.end_entry ≡ 100)
perform_all-Run_example =
    perform_all-Run c8 5 memory head_a calls list_a (70 ∷ 30 ∷ 20 ∷ []) a_IsTailq calls-Run

insert_lem_example :
    let (m', h', it) = insert c8 memory head_a (at c8 head_a (20 ∷ 30 ∷ [])) 70 in
    IsTailq c8 m' h' (10 ∷ 70 ∷ 20 ∷ 30 ∷ [])
    × (it ≡ at c8 head_a (70 ∷ 20 ∷ 30 ∷ []))
    × SameOutside c8 (entries c8 100 (10 ∷ 70 ∷ 20 ∷ 30 ∷ [])) memory m'
insert_lem_example = insert_lem c8 memory head_a (10 ∷ []) (20 ∷ 30 ∷ []) 70 a_IsTailq refl fresh_70

insert_values_lem_example :
    let (m', h', it) = insert_values c8 memory head_a (at c8 head_a (30 ∷ [])) list_new in
    IsTailq c8 m' h' (10 ∷ 20 ∷ 70 ∷ 80 ∷ 30 ∷ [])
    × (it ≡ at c8 head_a (70 ∷ 80 ∷ 30 ∷ []))
    × SameOutside c8 (entries c8 100 (10 ∷ 20 ∷ 70 ∷ 80 ∷ 30 ∷ [])) memory m'
insert_values_lem_example =
    insert_values_lem c8 memory head_a (10 ∷ 20 ∷ []) list_new (30 ∷ []) a_IsTailq IsFree-new

erase_lem_example :
    let (m', h', it) = erase c8 memory head_a (at c8 head_a (20 ∷ 30 ∷ [])) in
    IsTailq c8 m' h' (10 ∷ 30 ∷ [])
    × (it ≡ at c8 head_a (30 ∷ []))
    × IsRun c8 m' h'.end_entry 20 [] (10 ∷ 30 ∷ [])
    × SameOutside c8 (entries c8 100 (10 ∷ 30 ∷ [])) memory m'
erase_lem_example = erase_lem c8 memory head_a (10 ∷ []) 20 (30 ∷ []) a_IsTailq

erase_range_lem_example :
    (m' : Memory) × (h' : Head) × (erase_range c8 5 memory head_a
        (at c8 head_a list_a)
        (at c8 head_a (30 ∷ []))
      ≡ some (m', h', at c8 head_a (30 ∷ [])))
    × IsTailq c8 m' h' (30 ∷ [])
    × (h'.end_entry ≡ 100)
    × (h'.size_member ≡ integral 4)
    × SameOutside c8 (entries c8 100 (30 ∷ [])) memory m'
erase_range_lem_example =
    erase_range_lem c8 5 memory head_a [] (10 ∷ 20 ∷ []) (30 ∷ []) a_IsTailq (omega arith)

splice_range_lem_example :
    (m' : Memory) × (this' : Head) × (other' : Head) × (splice_range c8 5 memory head_a head_b
        (at c8 head_a (30 ∷ []))
        (at c8 head_b list_b)
        (at c8 head_b (60 ∷ []))
      ≡ some (m', this', other'))
    × IsTailq c8 m' this' (10 ∷ 20 ∷ 50 ∷ 30 ∷ [])
    × IsTailq c8 m' other' (60 ∷ [])
unfolding size_width
splice_range_lem_example =
    splice_range_lem c8 5 memory head_a head_b (10 ∷ 20 ∷ []) (30 ∷ []) [] (50 ∷ []) (60 ∷ [])
      a_IsTailq b_IsTailq a_b-Separate (omega arith) (omega arith)

splice_lem_example :
    (m' : Memory) × (this' : Head) × (other' : Head) × (splice c8 5 memory head_a head_u
        (at c8 head_a (30 ∷ []))
      ≡ some (m', this', other'))
    × IsTailq c8 m' this' (10 ∷ 20 ∷ 50 ∷ 60 ∷ 30 ∷ [])
    × IsTailq c8 m' other' []
splice_lem_example =
    splice_lem c8 5 memory head_a head_u (10 ∷ 20 ∷ []) (30 ∷ []) list_b a_IsTailq u_IsTailq
      a_u-Separate (omega arith) refl

splice-sizes_wrong_example :
    (m' : Memory) × (this' : Head) × (splice c8 5 memory head_a head_b (at c8 head_a (30 ∷ []))
      ≡ some (m', this', head_b))
    × IsRing c8 m' 100 (10 ∷ 20 ∷ 50 ∷ 60 ∷ 30 ∷ [])
    × IsRing c8 m' 200 []
    × (this'.m_sz ≡ 0)
    × (head_b.m_sz ≡ 2)
splice-sizes_wrong_example =
    splice-sizes_wrong c8 5 memory head_a head_b (10 ∷ 20 ∷ []) (30 ∷ []) 50 (60 ∷ []) 4 4 a_IsTailq
      b_IsTailq a_b-Separate refl refl (omega arith)

swap_lists_lem_example :
    (m' : Memory) × (this' : Head) × (other' : Head) × (swap_lists c8 5 memory head_a head_b
      ≡ some (m', this', other'))
    × IsTailq c8 m' this' list_b
    × IsTailq c8 m' other' list_a
    × (this'.end_entry ≡ 100)
    × (other'.end_entry ≡ 200)
swap_lists_lem_example =
    swap_lists_lem c8 5 memory head_a head_b list_a list_b a_IsTailq b_IsTailq a_b-Separate
      (omega arith) (omega arith) (omega arith) (omega arith)

move_assign_lem_example :
    (m' : Memory) × (this' : Head) × (other' : Head) × (move_assign c8 5 memory head_a head_b
      ≡ some (m', this', other'))
    × IsTailq c8 m' this' list_b
    × IsTailq c8 m' other' []
    × (this'.end_entry ≡ 100)
    × (other'.end_entry ≡ 200)
move_assign_lem_example =
    move_assign_lem c8 5 memory head_a head_b list_a list_b a_IsTailq b_IsTailq a_b-Separate
      (omega arith) (omega arith)

remove_if_lem_example :
    (m' : Memory) × (h' : Head) × (n : ℕ) × (remove_if c8 (λ v. ltb v 25) (λ p. p) 9 memory head_a
      ≡ some (m', h', n))
    × IsTailq c8 m' h' (30 ∷ [])
    × (n ≡ 2 % 2 ^ size_width (integral 4))
remove_if_lem_example =
    remove_if_lem c8 (λ v. ltb v 25) (λ p. p) 9 memory head_a list_a a_IsTailq (omega arith)
