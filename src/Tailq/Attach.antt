-- ===== src/Tailq/Attach.antt =====
-- A run of items is linked into a list, and one is taken out of it.
use csd_mirror.Prelude.{
  ℕ, ◌≡◌, true, false, List, ◌∷◌, ◌++◌, map, arith, has, Distinct, Disjoint, ◌==◌, subst, sym,
}
use csd_mirror.Intrusive.{EntryRefCodec}
use csd_mirror.Tailq.Memory.{Memory, Head}
use csd_mirror.Tailq.Iterator.{end}
use csd_mirror.Tailq.Links.{last, Linked}
use csd_mirror.Tailq.Cycle.{Cycle, Cycle-Gap, Gap, before_in, after_in, outside}
use csd_mirror.Tailq.Relink.{LinksIn, Cycle-insert, run_end, map_parts}
use csd_mirror.Tailq.Unlink.{Bridges, Parts, Cycle-remove}
use csd_mirror.Tailq.Valid.{
  IsRing, ItemsOk, item, items, entries, at, SameOutside, ItemsOk-append, ItemsOk-split,
  not_has_parts, items-append,
}

module _ (c : EntryRefCodec) where
  -- The words around the place between `pre` and `post`, and the last word of a run.
  abbrev pub before : Head → List ℕ → ℕ
  before h pre = last c.get_entry (end c h) (items c pre)

  abbrev pub run_last : ℕ → List ℕ → ℕ
  run_last f ms = last c.get_entry (item c f) (items c ms)

module _ (c : EntryRefCodec) (m : Memory) where
  -- A run of items that are linked to one another and to nothing of the list.
  pub record IsRun (e : ℕ) (f : ℕ) (ms : List ℕ) (others : List ℕ) : Type 0 where
    pub linked : Linked c.get_entry m (item c f) (items c ms)
    pub distinct : Distinct (map c.get_entry (items c (f ∷ ms)))
    pub apart : Disjoint (map c.get_entry (items c (f ∷ ms))) (entries c e others)
    pub items_ok : ItemsOk c (f ∷ ms)

module _ (c : EntryRefCodec) (h : Head) where
  abbrev e : ℕ → ℕ
  e = c.get_entry

  abbrev d : ℕ
  d = end c h

  pub Gap-at :
      {m : Memory} (pre post : List ℕ)
      → IsRing c m h.end_entry (pre ++ post)
      → Gap e d m (items c pre) (items c post)
  Gap-at {m} pre post v =
      Cycle-Gap e d (items c pre) (items c post)
        (subst (Cycle e d m) (items-append c pre post) v.cycle)

  -- An entry outside the list is not next to any place in it.
  pub outside_at :
      (pre post : List ℕ) (x : ℕ)
      → has x (entries c h.end_entry (pre ++ post)) ≡ false
      → ((x == e (before c h pre)) ≡ false) × ((x == e (at c h post)) ≡ false)
  outside_at pre post x n =
      let (_, o1, _, _, o2, _) =
        outside e d (items c pre) (items c post) x
          (subst (λ ws. has x (e d ∷ map e ws) ≡ false) (items-append c pre post) n) in
      (o1, o2)

  -- The entries next to a place in the list are the list's.
  pub before_entry :
      (pre post : List ℕ) → has (e (before c h pre)) (entries c h.end_entry (pre ++ post)) ≡ true
  before_entry pre post =
      subst (λ ws. has (e (before c h pre)) (e d ∷ map e ws) ≡ true) (sym (items-append c pre post))
        (before_in e d (items c pre) (items c post))

  pub after_entry :
      (pre post : List ℕ) → has (e (at c h post)) (entries c h.end_entry (pre ++ post)) ≡ true
  after_entry pre post =
      subst (λ ws. has (e (at c h post)) (e d ∷ map e ws) ≡ true) (sym (items-append c pre post))
        (after_in e d (items c pre) (items c post))

  module _ {m m' : Memory} (pre : List ℕ) (f : ℕ) (ms post : List ℕ) where
    module _ (v : IsRing c m h.end_entry (pre ++ post))
        (run : IsRun c m h.end_entry f ms (pre ++ post))
        (w : LinksIn c.get_entry m m'
          (before c h pre)
          (item c f)
          (run_last c f ms)
          (at c h post)) where
      attach-Cycle : Cycle e d m' (items c (pre ++ ((f ∷ ms) ++ post)))
      attach-Cycle = subst (Cycle e d m') (sym (map_parts (item c) pre (f ∷ ms) post)) (
          Cycle-insert e d (items c pre) (item c f) (items c ms) (items c post)
            (subst (Cycle e d m) (items-append c pre post) v.cycle) run.linked run.distinct
            (subst (λ ws. Disjoint (map e (items c (f ∷ ms))) (e d ∷ map e ws))
              (items-append c pre post) run.apart)
            w)

      attach_same : SameOutside c (entries c h.end_entry (pre ++ ((f ∷ ms) ++ post))) m m'
      attach_same x n =
          let (n1, n2) = not_has_parts c h.end_entry pre (f ∷ ms) post x n in
          let (o1, o2) = outside_at pre post x n1 in
          (
            w.next_same x o1 (ground (arith, run_end e (item c f) (items c ms))),
            w.prev_same x (ground arith) o2,
          )

      pub attach :
          IsRing c m' h.end_entry (pre ++ ((f ∷ ms) ++ post))
          × SameOutside c (entries c h.end_entry (pre ++ ((f ∷ ms) ++ post))) m m'
      attach =
          let (ok_pre, ok_post) = ItemsOk-split c pre post v.items_ok in
          (
            record {
              end_ok = v.end_ok;
              items_ok =
                  ItemsOk-append c pre ((f ∷ ms) ++ post) ok_pre
                    (ItemsOk-append c (f ∷ ms) post run.items_ok ok_post);
              cycle = attach-Cycle;
            },
            attach_same,
          )

    module _ (v : IsRing c m h.end_entry (pre ++ ((f ∷ ms) ++ post)))
        (w : Bridges c.get_entry m m' (before c h pre) (at c h post)) where
      detach-Parts : Parts e d (items c pre) (item c f) (items c ms) (items c post) m'
      detach-Parts =
          Cycle-remove e d (items c pre) (item c f) (items c ms) (items c post)
            (subst (Cycle e d m) (map_parts (item c) pre (f ∷ ms) post) v.cycle) w

      detach_same : SameOutside c (entries c h.end_entry (pre ++ post)) m m'
      detach_same x n =
          let (o1, o2) = outside_at pre post x n in (w.next_same x o1, w.prev_same x o2)

      pub detach :
          IsRing c m' h.end_entry (pre ++ post)
          × IsRun c m' h.end_entry f ms (pre ++ post)
          × SameOutside c (entries c h.end_entry (pre ++ post)) m m'
      detach =
          let (ok_pre, ok_run_post) = ItemsOk-split c pre ((f ∷ ms) ++ post) v.items_ok in
          let (ok_run, ok_post) = ItemsOk-split c (f ∷ ms) post ok_run_post in
          (
            record {
              end_ok = v.end_ok;
              items_ok = ItemsOk-append c pre post ok_pre ok_post;
              cycle = subst (Cycle e d m') (sym (items-append c pre post)) detach-Parts.rest_cycle;
            },
            record {
              linked = detach-Parts.run;
              distinct = detach-Parts.run_distinct;
              apart =
                  subst (λ ws. Disjoint (map e (items c (f ∷ ms))) (e d ∷ map e ws))
                    (sym (items-append c pre post)) detach-Parts.apart;
              items_ok = ok_run;
            },
            detach_same,
          )
