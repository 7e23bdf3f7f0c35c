-- ===== src/Tailq/Element/Access.antt =====
-- The empty list, and what is read at a list's ends.
use csd_mirror.Prelude.{
  ℕ, ◌<◌, ◌≡◌, refl, true, false, some, List, [], ◌∷◌, ◌++◌, length, arith, subst, sym, ap, ◌∙◌,
  Bool, Option,
}
use mathlib.Core.List.{append-nil}
use native.Mathlib.Nat.{mod-eq_of_lt}
use csd_mirror.Intrusive.{EntryRefCodec}
use csd_mirror.Intrusive.Size.{SizeMember, no_size, integral, Counts, Fits, set_size-Counts}
use csd_mirror.Tailq.Memory.{Memory, Head}
use csd_mirror.Tailq.Iterator.{end, front, back, empty, size, distance}
use csd_mirror.Tailq.Walk.{begin-at, backward-item, distance_lem}
use csd_mirror.Tailq.Valid.{
  IsRing, IsTailq, IsFree, entries, at, SameOutside, ItemsOk-split, end_entry_eq,
}
use csd_mirror.Tailq.Element.{clear, assign, insert_values}
use csd_mirror.Tailq.Element.Values.{insert_values_lem}

abbrev pub is_nil : List ℕ → Bool
is_nil [] = true
is_nil (x ∷ xs) = false

-- Counted where there is no member, and read from it where there is.
counted :
    (s : SizeMember) (sz n : ℕ) (walk : Option ℕ)
    → Counts s sz n
    → Fits s n
    → walk ≡ some n
    → (elim s [ no_size ↦ walk | integral width ↦ some sz ]) ≡ some n
counted no_size sz n walk counts fits e = e
counted (integral w) sz n walk counts fits e = ap some (counts ∙ mod-eq_of_lt fits)

module _ (c : EntryRefCodec) where
  -- Where the codec accepts the address of the end entry, `clear` leaves an empty list, whatever
  -- the entries linked before, and changes the links of the end entry only.
  pub clear_lem :
      (m : Memory) (h : Head)
      → c.entry_ok h.end_entry ≡ true
      → let (m', h') = clear c m h in
        IsTailq c m' h' [] × SameOutside c (entries c h.end_entry []) m m'
  unfolding clear
  clear_lem m h ok =
      let e = c.get_entry-direct h.end_entry ok in
      (
        record {
          ring = record {
            end_ok = ok;
            items_ok = tt;
            cycle = record { linked = ((ground arith, ground arith), tt); distinct = (refl, tt) };
          };
          count = set_size-Counts h.size_member h.m_sz 0;
        },
        λ x n. (ground arith, ground arith),
      )

  -- `assign` of items whose entries are distinct and not the end entry, all at addresses that the
  -- codec accepts, leaves a list of these items in their order, whatever was linked before.
  pub assign_lem :
      (m : Memory) (h : Head) (values : List ℕ)
      → c.entry_ok h.end_entry ≡ true
      → IsFree c h.end_entry values []
      → let (m', h') = assign c m h values in IsTailq c m' h' values
  unfolding assign clear
  assign_lem m h values ok free =
      let (v, _) = clear_lem m h ok in
      let (m', h') = clear c m h in
      let at_end = insert_values_lem c m' h' [] values [] v free in
      let from_begin =
        subst
          (λ pos.
            IsTailq c (insert_values c m' h' pos values).0 (insert_values c m' h' pos values).1
              (values ++ []))
          (sym (begin-at c h' [] v.ring)) at_end.0 in
      rw append-nil at from_begin

  -- `front` is the first item of a list that has one.
  pub front_lem :
      (m : Memory) (h : Head) (x : ℕ) (xs : List ℕ) → IsTailq c m h (x ∷ xs) → front c m h ≡ x
  unfolding front
  front_lem m h x xs v = rw (begin-at c h (x ∷ xs) v.ring) (c.get_value-item x v.ring.items_ok.0)

  -- `back` is the last item of a list that has one.
  pub back_lem :
      (m : Memory) (h : Head) (xs : List ℕ) (x : ℕ) → IsTailq c m h (xs ++ x ∷ []) → back c m h ≡ x
  unfolding back
  back_lem m h xs x v =
      rw (backward-item c h xs x [] v.ring)
        (c.get_value-item x (ItemsOk-split c xs (x ∷ []) v.ring.items_ok).1.0)

  -- `empty` is true of a list without items and false of one with items.
  pub empty_lem : (m : Memory) (h : Head) (xs : List ℕ) → IsTailq c m h xs → empty c m h ≡ is_nil xs
  unfolding empty
  empty_lem m h [] v = ground (arith, begin-at c h [] v.ring, end_entry_eq c h v.ring)
  empty_lem m h (x ∷ xs) v = ground (arith, begin-at c h (x ∷ xs) v.ring, end_entry_eq c h v.ring)

  -- With more fuel than there are items, `size` is the number of the items, counted or read from a
  -- size member that can hold it.
  pub size_lem :
      (fuel : ℕ) (m : Memory) (h : Head) (xs : List ℕ)
      → IsTailq c m h xs
      → length xs < fuel
      → Fits h.size_member (length xs)
      → size c fuel m h ≡ some (length xs)
  unfolding size
  size_lem fuel m h xs v lt fits =
      let walk =
        distance_lem c h fuel [] xs [] lt
          (subst (IsRing c m h.end_entry) (sym (append-nil xs)) v.ring) in
      let start = begin-at c h xs v.ring ∙ ap (at c h) (sym (append-nil xs)) in
      counted h.size_member h.m_sz (length xs) _ v.count fits
        (subst (λ w. distance c fuel m w (end c h) ≡ some (length xs)) (sym start) walk)
