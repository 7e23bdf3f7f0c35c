-- ===== src/Chain/Exchange.antt =====
-- Two neighbours of a singly linked list change places.
use csd_mirror.Prelude.{
  member_ne, ℕ, ◌≡◌, false, List, [], ◌∷◌, ◌++◌, map, arith, has-append, Distinct, Distinct-back,
  Distinct-Disjoint, ◌==◌,
}
use csd_mirror.Intrusive.{EntryRefCodec}
use csd_mirror.Tailq.Memory.{update}
use csd_mirror.Tailq.Valid.{item, items, entries, ItemsOk-split}
use csd_mirror.Chain.{Links}
use csd_mirror.Chain.Laws.{IsChain-onto}
use csd_mirror.Chain.Forward.{
  IsForward, at, behind, behind_not_in, behind-IsChain, IsForward-graft, parts-Distinct,
  join-Distinct,
}

-- Two neighbours change places.
Distinct-swap :
    (es : List ℕ) (a b : ℕ) (rs : List ℕ)
    → Distinct (es ++ a ∷ b ∷ rs)
    → Distinct (es ++ b ∷ a ∷ rs)
Distinct-swap [] a b rs d = (ground arith, (ground arith, d.1.1))
Distinct-swap (x ∷ es) a b rs d = (
  ground (arith, has-append x es (a ∷ b ∷ rs), has-append x es (b ∷ a ∷ rs)),
  Distinct-swap es a b rs d.1,
)

module _ (c : EntryRefCodec) (e : ℕ) where
  -- The second of two items gets in front of the first.
  abbrev pub exchanged : Links → (pre : List ℕ) → (x y : ℕ) → (post : List ℕ) → Links
  exchanged next pre x y post =
      let next1 = update next (c.get_entry (behind c e pre)) (item c y) in
      let next2 = update next1 (c.get_entry (item c y)) (item c x) in
      update next2 (c.get_entry (item c x)) (at c post)

  pub swapped :
      (next : Links) (pre : List ℕ) (x y : ℕ) (post : List ℕ)
      → IsForward c next e (pre ++ (x ∷ y ∷ post))
      → IsForward c (exchanged next pre x y post) e (pre ++ (y ∷ x ∷ post))
  swapped next pre x y post v =
      let p = c.get_entry (behind c e pre) in
      let next1 = update next p (item c y) in
      let next2 = update next1 (c.get_entry (item c y)) (item c x) in
      let next' = update next2 (c.get_entry (item c x)) (at c post) in
      let es = map c.get_entry (items c (x ∷ y ∷ post)) in
      let d = parts-Distinct c e pre (x ∷ y ∷ post) v.distinct in
      let free = behind_not_in c e pre (x ∷ y ∷ post) v.distinct in
      let (n1, (n2, _)) = Distinct-back (entries c e pre) es d in
      let tail =
        IsChain-onto c.get_entry next next' (item c y) (item c x) (items c post) (ground arith)
          (λ w n.
            let not_x : (w == c.get_entry (item c x)) ≡ false =
              member_ne (c.get_entry (item c x)) w
                (c.get_entry (item c y) ∷ map c.get_entry (items c post)) n1 (ground arith) in
            let not_y : (w == c.get_entry (item c y)) ≡ false =
              member_ne (c.get_entry (item c y)) w (map c.get_entry (items c post)) n2 n in
            ground (arith, free))
          (behind-IsChain c e pre (x ∷ y ∷ post) v).1.1 in
      let ok = (ItemsOk-split c pre (x ∷ y ∷ post) v.items_ok).1 in
      IsForward-graft c e next' pre (x ∷ y ∷ post) (y ∷ x ∷ post) v
        (λ w n ne. ground (arith, Distinct-Disjoint (entries c e pre) es d w))
        (ground arith, (ground arith, tail)) (ok.1.0, (ok.0, ok.1.1))
        (join-Distinct c e pre (y ∷ x ∷ post) (
          Distinct-swap (entries c e pre) (c.get_entry (item c x)) (c.get_entry (item c y))
            (map c.get_entry (items c post)) d))
