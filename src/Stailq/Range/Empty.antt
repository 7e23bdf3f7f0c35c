-- ===== src/Stailq/Range/Empty.antt =====
-- `reverse` and `sort` of an empty `stailq`.
use csd_mirror.Prelude.{ℕ, suc, ◌<◌, ◌≡◌, refl, Bool, some, [], arith, ap}
use csd_mirror.Intrusive.{EntryRefCodec}
use csd_mirror.Intrusive.Size.{Fits}
use csd_mirror.Tailq.Memory.{update}
use csd_mirror.Chain.{Links, forward_list_merge_sort}
use csd_mirror.Stailq.Element.{Head}
use csd_mirror.Stailq.Range.{reverse, sort}
use csd_mirror.Stailq.Laws.{IsStailq, queue_size}

module _ (c : EntryRefCodec) where
  -- `reverse` of an empty queue gives a result: it stays without items, and its tail becomes the
  -- null link.
  pub reverse-tail_wrong :
      (fuel : ℕ) (next : Links) (h : Head)
      → IsStailq c next h []
      → (next' : Links) × (h' : Head) × (reverse c (suc fuel) next h ≡ some (next', h'))
        × (h'.encoded_tail ≡ 0)
        × (next' h.head_entry ≡ 0)
  unfolding reverse
  reverse-tail_wrong fuel next h v = (
    update next h.head_entry 0,
    record h { encoded_tail = 0 },
    rw v.chain refl,
    refl,
    ground arith,
  )

-- `sort` of an empty queue whose size is read as 0 gives a result: no link changes, and its tail
-- becomes the null link.
pub sort-tail_wrong {ℓ} :
    {A : Type ℓ} (c : EntryRefCodec) (proj : ℕ → A) (comp : A → A → Bool) (fuel : ℕ) (next : Links)
    (h : Head)
    → IsStailq c next h []
    → 0 < fuel
    → Fits h.size_member 0
    → sort c proj comp fuel next h ≡ some (next, record h { encoded_tail = 0 })
unfolding sort forward_list_merge_sort
sort-tail_wrong c proj comp fuel next h v lt fits =
    rw (queue_size c fuel next h [] v lt fits)
      (ap (λ t. some (next, record h { encoded_tail = t })) v.chain)
