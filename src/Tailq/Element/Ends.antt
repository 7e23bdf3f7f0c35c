-- ===== src/Tailq/Element/Ends.antt =====
-- `push_back`, `push_front`, `pop_back` and `pop_front`.
use csd_mirror.Prelude.{ℕ, ◌≡◌, true, false, List, [], ◌∷◌, ◌++◌, has, subst, sym}
use mathlib.Core.List.{append-nil}
use csd_mirror.Intrusive.{EntryRefCodec}
use csd_mirror.Tailq.Memory.{Memory, Head}
use csd_mirror.Tailq.Walk.{begin-at, backward-item}
use csd_mirror.Tailq.Valid.{IsTailq, item, entries}
use csd_mirror.Tailq.Element.{insert, erase, push_back, pop_back, push_front, pop_front}
use csd_mirror.Tailq.Element.Insert.{insert_lem}
use csd_mirror.Tailq.Element.Erase.{erase_lem}

module _ (c : EntryRefCodec) (m : Memory) (h : Head) (xs : List ℕ) (x : ℕ) where
  -- `push_back` of an item at an address that the codec accepts, whose entry is not in the list,
  -- appends it.
  pub push_back_lem :
      IsTailq c m h xs
      → c.item_ok x ≡ true
      → has (c.get_entry (c.create_item_entry_ref x)) (entries c h.end_entry xs) ≡ false
      → let (m', h') = push_back c m h x in IsTailq c m' h' (xs ++ x ∷ [])
  unfolding push_back
  push_back_lem v ok fresh =
      let same = sym (append-nil xs) in
      (insert_lem c m h xs [] x (subst (IsTailq c m h) same v) ok
        (subst (λ l. has (c.get_entry (item c x)) (entries c h.end_entry l) ≡ false) same fresh)).0

  -- `push_front` of an item at an address that the codec accepts, whose entry is not in the list,
  -- puts it in front of all items.
  pub push_front_lem :
      IsTailq c m h xs
      → c.item_ok x ≡ true
      → has (c.get_entry (c.create_item_entry_ref x)) (entries c h.end_entry xs) ≡ false
      → let (m', h') = push_front c m h x in IsTailq c m' h' (x ∷ xs)
  unfolding push_front
  push_front_lem v ok fresh =
      subst (λ pos. IsTailq c (insert c m h pos x).0 (insert c m h pos x).1 (x ∷ xs))
        (sym (begin-at c h xs v.ring)) (insert_lem c m h [] xs x v ok fresh).0

  -- `pop_back` takes the last item off a list that has one.
  pub pop_back_lem :
      IsTailq c m h (xs ++ x ∷ []) → let (m', h') = pop_back c m h in IsTailq c m' h' xs
  unfolding pop_back
  pop_back_lem v =
      subst (λ pos. IsTailq c (erase c m h pos).0 (erase c m h pos).1 xs)
        (sym (backward-item c h xs x [] v.ring))
        (subst (IsTailq c _ _) (append-nil xs) (erase_lem c m h xs x [] v).0)

  -- `pop_front` takes the first item off a list that has one.
  pub pop_front_lem : IsTailq c m h (x ∷ xs) → let (m', h') = pop_front c m h in IsTailq c m' h' xs
  unfolding pop_front
  pop_front_lem v =
      subst (λ pos. IsTailq c (erase c m h pos).0 (erase c m h pos).1 xs)
        (sym (begin-at c h (x ∷ xs) v.ring)) (erase_lem c m h [] x xs v).0
