-- ===== src/Tailq/Client.antt =====
-- What a client sees of a tail queue that it changes by any sequence of operations: the list of its
-- items, on which each operation has a plain meaning.
use csd_mirror.Prelude.{
  ℕ, ◌<◌, ◌≡◌, refl, true, false, Option, some, ◌>>=◌, List, [], ◌∷◌, ◌++◌, length, has, subst, sym,
  ap, ◌∙◌,
}
use mathlib.Core.List.{reverse}
use csd_mirror.Intrusive.{EntryRefCodec}
use csd_mirror.Tailq.Memory.{Memory, Head}
use csd_mirror.Tailq.Iterator.{begin}
use csd_mirror.Tailq.Valid.{IsTailq, entries, at}
use csd_mirror.Tailq.Walk.{begin-at}
use csd_mirror.Tailq.Element.{insert, erase, push_back, pop_back, push_front, pop_front, clear}
use csd_mirror.Tailq.Element.Insert.{insert_lem}
use csd_mirror.Tailq.Element.Erase.{erase_lem}
use csd_mirror.Tailq.Element.Ends.{push_back_lem, push_front_lem, pop_back_lem, pop_front_lem}
use csd_mirror.Tailq.Element.Access.{clear_lem}
use csd_mirror.Tailq.Scan
use csd_mirror.Tailq.Scan.Reverse.{reverse_lem}
use csd_mirror.Tailq.Merge.{advance}
use csd_mirror.Tailq.Merge.Parts.{advance_lem}

-- A call of a client; `insert_at` and `erase_at` go to the position by its distance from `begin`.
pub data Call : Type 0 where
  call_push_front : (value : ℕ) → Call
  call_push_back : (value : ℕ) → Call
  call_pop_front : Call
  call_pop_back : Call
  call_insert_at : (k value : ℕ) → Call
  call_erase_at : (k : ℕ) → Call
  call_clear : Call
  call_reverse : Call

module _ (c : EntryRefCodec) (limit e : ℕ) where
  -- The item may be put into the list of end entry `e` that holds `xs`.
  abbrev pub Fresh : (value : ℕ) → List ℕ → Type 0
  Fresh value xs =
      (c.item_ok value ≡ true)
      × (has (c.get_entry (c.create_item_entry_ref value)) (entries c e xs) ≡ false)

  -- The call is allowed where the list holds `xs`, and makes it hold `ys`.
  pub data Step (xs : List ℕ) : Call → List ℕ → Type 0 where
    pushed_front : (value : ℕ) → Fresh value xs → Step xs (call_push_front value) (value ∷ xs)
    pushed_back : (value : ℕ) → Fresh value xs → Step xs (call_push_back value) (xs ++ value ∷ [])
    popped_front : (x : ℕ) (ys : List ℕ) → xs ≡ x ∷ ys → Step xs call_pop_front ys
    popped_back : (x : ℕ) (ys : List ℕ) → xs ≡ ys ++ x ∷ [] → Step xs call_pop_back ys
    inserted :
        (pre post : List ℕ) (value k : ℕ)
        → xs ≡ pre ++ post
        → length pre ≡ k
        → Fresh value xs
        → Step xs (call_insert_at k value) (pre ++ value ∷ post)
    erased :
        (pre : List ℕ) (x : ℕ) (post : List ℕ) (k : ℕ)
        → xs ≡ pre ++ x ∷ post
        → length pre ≡ k
        → Step xs (call_erase_at k) (pre ++ post)
    cleared : Step xs call_clear []
    reversed : length xs < limit → Step xs call_reverse (reverse xs)

  -- A sequence of calls.
  pub data Run : List ℕ → List Call → List ℕ → Type 0 where
    done : (xs : List ℕ) → Run xs [] xs
    call :
        (a : Call) (calls : List Call) (xs ys zs : List ℕ)
        → Step xs a ys
        → Run ys calls zs
        → Run xs (a ∷ calls) zs

module _ (c : EntryRefCodec) (fuel : ℕ) where
  -- The calls on the list itself, by the operations of the source.
  unfoldable pub perform : Memory → Head → Call → Option (Memory × Head)
  perform m h (call_push_front value) = some (push_front c m h value)
  perform m h (call_push_back value) = some (push_back c m h value)
  perform m h call_pop_front = some (pop_front c m h)
  perform m h call_pop_back = some (pop_back c m h)
  perform m h (call_insert_at k value) =
      let (m', h', _) = insert c m h (advance c m (begin c m h) k) value in some (m', h')
  perform m h (call_erase_at k) =
      let (m', h', _) = erase c m h (advance c m (begin c m h) k) in some (m', h')
  perform m h call_clear = some (clear c m h)
  perform m h call_reverse = Scan.reverse c fuel m h >>= λ m'. some (m', h)

  unfoldable pub perform_all : Memory → Head → List Call → Option (Memory × Head)
  unfolding perform
  perform_all m h [] = some (m, h)
  perform_all m h (a ∷ calls) =
      perform m h a >>= λ performed. perform_all performed.0 performed.1 calls

  abbrev Performed : Memory → Head → Call → List ℕ → Type 0
  Performed m h a ys =
      (m' : Memory) × (h' : Head) × (perform m h a ≡ some (m', h'))
      × IsTailq c m' h' ys
      × (h'.end_entry ≡ h.end_entry)

  advance-begin :
      (m : Memory) (h : Head) (pre post : List ℕ)
      → IsTailq c m h (pre ++ post)
      → advance c m (begin c m h) (length pre) ≡ at c h post
  advance-begin m h pre post v =
      ap (λ i. advance c m i (length pre)) (begin-at c h (pre ++ post) v.ring)
      ∙ advance_lem c h m [] pre post v.ring

  Step-Performed :
      (m : Memory) (h : Head) {xs ys : List ℕ} {a : Call}
      → IsTailq c m h xs
      → Step c fuel h.end_entry xs a ys
      → Performed m h a ys
  unfolding perform push_front push_back pop_front pop_back insert erase clear
  Step-Performed m h {xs} v (pushed_front value (ok, fresh)) =
      (_, _, refl, push_front_lem c m h xs value v ok fresh, refl)
  Step-Performed m h {xs} v (pushed_back value (ok, fresh)) =
      (_, _, refl, push_back_lem c m h xs value v ok fresh, refl)
  Step-Performed m h v (popped_front x ys eq) =
      (_, _, refl, pop_front_lem c m h ys x (subst (IsTailq c m h) eq v), refl)
  Step-Performed m h v (popped_back x ys eq) =
      (_, _, refl, pop_back_lem c m h ys x (subst (IsTailq c m h) eq v), refl)
  Step-Performed m h v (inserted pre post value k eq len (ok, fresh)) =
      let v' = subst (IsTailq c m h) eq v in
      let pos = ap (advance c m (begin c m h)) (sym len) ∙ advance-begin m h pre post v' in
      let fresh' =
        subst
          (λ l. has (c.get_entry (c.create_item_entry_ref value)) (entries c h.end_entry l) ≡ false)
          eq fresh in
      (_, _, rw pos refl, (insert_lem c m h pre post value v' ok fresh').0, refl)
  Step-Performed m h v (erased pre x post k eq len) =
      let v' = subst (IsTailq c m h) eq v in
      let pos = ap (advance c m (begin c m h)) (sym len) ∙ advance-begin m h pre (x ∷ post) v' in
      (_, _, rw pos refl, (erase_lem c m h pre x post v').0, refl)
  Step-Performed m h v cleared = (_, _, refl, (clear_lem c m h v.ring.end_ok).0, refl)
  Step-Performed m h {xs} v (reversed lt) =
      let (m', eq, w, _) = reverse_lem c fuel m h xs v lt in (m', h, rw eq refl, w, refl)

  -- A sequence of calls that the step relation on lists of items allows, from the items of a list
  -- on, gives a result when it is performed with the operations of the source: the list then holds
  -- the items that the relation leads to, and its size member counts them.
  pub perform_all-Run :
      (m : Memory) (h : Head) (calls : List Call) (xs ys : List ℕ)
      → IsTailq c m h xs
      → Run c fuel h.end_entry xs calls ys
      → (m' : Memory) × (h' : Head) × (perform_all m h calls ≡ some (m', h'))
        × IsTailq c m' h' ys
        × (h'.end_entry ≡ h.end_entry)
  unfolding perform_all
  perform_all-Run m h [] xs ys v (done _) = (m, h, refl, v, refl)
  perform_all-Run m h (a ∷ rest) xs ys v (call _ _ _ zs _ step run) =
      let (m', h', eq, w, same) = Step-Performed m h v step in
      let (m1, h1, eq1, w1, same1) =
        perform_all-Run m' h' rest zs ys w (subst (λ e. Run c fuel e zs rest ys) (sym same) run) in
      (m1, h1, rw eq eq1, w1, same1 ∙ same)
