-- ===== src/Chain/Apart.antt =====
-- The links of a singly linked list that differ.
use csd_mirror.Prelude.{
  ℕ, ◌≡◌, false, List, [], ◌∷◌, ◌++◌, map, arith, has, Distinct, not_has_middle, ◌==◌, subst, sym,
}
use mathlib.Core.List.{append_assoc}
use csd_mirror.Intrusive.{EntryRefCodec}
use csd_mirror.Tailq.Valid.{item, items, entries, entries-append, ItemsOk-split}
use csd_mirror.Chain.{Links}
use csd_mirror.Chain.Forward.{IsForward, at, behind-append, behind_not_in, item_not_null}

module _ (c : EntryRefCodec) (e : ℕ) where
  -- An item is none of the positions behind it.
  pub item_ne_at :
      {next : Links} (pre : List ℕ) (x : ℕ) (mid post : List ℕ)
      → IsForward c next e (pre ++ x ∷ (mid ++ post))
      → (item c x == at c post) ≡ false
  item_ne_at pre x mid [] v =
      item_not_null c x (ItemsOk-split c pre (x ∷ (mid ++ [])) v.items_ok).1.0
  item_ne_at {next} pre x mid (q ∷ post) v =
      let free = behind_not_in c e (pre ++ x ∷ []) (mid ++ q ∷ post) (
        subst (λ l. Distinct (entries c e l)) (sym (append_assoc pre (x ∷ []) (mid ++ q ∷ post)))
          v.distinct) in
      let free' =
        subst (λ w. has (c.get_entry w) (map c.get_entry (items c (mid ++ q ∷ post))) ≡ false)
          (behind-append c e pre x []) free in
      let (_, ne, _) =
        not_has_middle (c.get_entry (item c x)) (map c.get_entry (items c mid))
          (c.get_entry (item c q)) (map c.get_entry (items c post))
          (subst (λ l. has (c.get_entry (item c x)) l ≡ false) (entries-append c mid (q ∷ post))
            free') in
      ground (arith, ne)
