-- ===== src/Chain/Walk.antt =====
-- The distance between two positions, and the size that it gives.
use csd_mirror.Prelude.{
  ℕ, zero, suc, ◌+◌, ◌<◌, ◌≡◌, refl, Option, some, List, [], ◌∷◌, ◌++◌, length, arith, eq→==, subst,
  sym, ap, ◌∙◌,
}
use mathlib.Core.List.{append-nil}
use native.Mathlib.Nat.{mod-eq_of_lt}
use csd_mirror.Intrusive.{EntryRefCodec}
use csd_mirror.Intrusive.Size.{
  SizeMember, no_size, integral, Counts, Fits, add_size, add_size-Counts, sub_size, sub_size-Counts,
}
use csd_mirror.Chain.{Links, forward, distance, counted}
use csd_mirror.Chain.Forward.{IsForward, at, forward-item, forward-behind, IsForward-concat}
use csd_mirror.Chain.Apart.{item_ne_at}

module _ (c : EntryRefCodec) (e : ℕ) where
  pub distance_lem :
      (fuel : ℕ) (next : Links) (pre mid post : List ℕ)
      → length mid < fuel
      → IsForward c next e (pre ++ (mid ++ post))
      → distance c fuel next (at c (mid ++ post)) (at c post) ≡ some (length mid)
  unfolding distance
  distance_lem zero next pre mid post lt v = absurd (omega arith)
  distance_lem (suc fuel) next pre [] post lt v = rw (eq→== (at c post) (at c post) refl, distance)
  distance_lem (suc fuel) next pre (x ∷ mid) post lt v =
      rw (item_ne_at c e pre x mid post v, distance)
        (rw (forward-item c e pre x (mid ++ post) v) (
          rw (
            distance_lem fuel next (pre ++ x ∷ []) mid post (omega arith)
              (IsForward-concat c e pre x (mid ++ post) v))))

  -- The number of the items, counted or read from a size member that can hold it.
  pub size_of :
      (fuel : ℕ) (next : Links) (xs : List ℕ) (s : SizeMember) (sz : ℕ)
      → IsForward c next e xs
      → Counts s sz (length xs)
      → length xs < fuel
      → Fits s (length xs)
      → (elim s [
        | no_size ↦ distance c fuel next (forward c next (c.create_direct_entry_ref e)) 0
        | integral width ↦ some sz
      ])
        ≡ some (length xs)
  size_of fuel next xs no_size sz v counts lt fits =
      let v' = subst (IsForward c next e) (sym (append-nil xs)) v in
      ap (λ i. distance c fuel next i 0)
        (forward-behind c e [] xs v ∙ ap (at c) (sym (append-nil xs)))
      ∙ distance_lem fuel next [] xs [] lt v'
  size_of fuel next xs (integral w) sz v counts lt fits = ap some (counts ∙ mod-eq_of_lt fits)

-- What a size member is changed by, where the number is known.
pub counted-Counts :
    (s : SizeMember) (walk : Option ℕ) (n : ℕ)
    → walk ≡ some n
    → (k : ℕ) × (counted s walk ≡ some k)
      × ((sz j : ℕ) → Counts s sz (j + n) → Counts s (sub_size s sz k) j)
      × ((sz j : ℕ) → Counts s sz j → Counts s (add_size s sz k) (j + n))
unfolding sub_size add_size
counted-Counts no_size walk n e = (0, refl, λ sz j h. tt, λ sz j h. tt)
counted-Counts (integral w) walk n e = (
  n,
  e,
  λ sz j h. sub_size-Counts (integral w) sz j n h,
  λ sz j h. add_size-Counts (integral w) sz j n h,
)
