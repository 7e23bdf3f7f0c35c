-- ===== src/Tailq/Scan/Turn.antt =====
-- The loop of `reverse`, and lists in the opposite order.
use csd_mirror.Prelude.{
  ℕ, zero, suc, ◌<◌, ◌≡◌, refl, true, false, some, List, [], ◌∷◌, ◌++◌, map, length, length-append,
  arith, has, has-append, Distinct, Distinct-rotate, ◌==◌, eq→==, subst, sym, ap, ◌∙◌,
}
use mathlib.Core.List.{reverse, reverse-cons, map-append}
use csd_mirror.Intrusive.{EntryRefCodec}
use csd_mirror.Tailq.Memory.{Memory, set_next, set_prev}
use csd_mirror.Tailq.Scan.{reverse_from}

pub map-reverse : (f : ℕ → ℕ) (xs : List ℕ) → map f (reverse xs) ≡ reverse (map f xs)
map-reverse f [] = refl
map-reverse f (x ∷ xs) =
    ap (map f) (reverse-cons x xs)
    ∙ map-append f (reverse xs) (x ∷ [])
    ∙ ap (λ l. l ++ f x ∷ []) (map-reverse f xs)
    ∙ sym (reverse-cons (f x) (map f xs))

pub length-reverse : (xs : List ℕ) → length (reverse xs) ≡ length xs
length-reverse [] = refl
length-reverse (x ∷ xs) =
    ap length (reverse-cons x xs)
    ∙ omega (arith, length-append {0} (reverse xs) (x ∷ []), length-reverse xs)

pub has-reverse : (a : ℕ) (xs : List ℕ) → has a (reverse xs) ≡ has a xs
has-reverse a [] = refl
has-reverse a (x ∷ xs) =
    ap (has a) (reverse-cons x xs)
    ∙ ground (arith, has-append a (reverse xs) (x ∷ []), has-reverse a xs)

pub Distinct-reverse : (xs : List ℕ) → Distinct xs → Distinct (reverse xs)
Distinct-reverse [] d = tt
Distinct-reverse (x ∷ xs) d =
    subst Distinct (sym (reverse-cons x xs))
      (Distinct-rotate x (reverse xs) (has-reverse x xs ∙ d.0, Distinct-reverse xs d.1))

-- The entries that are visited from `a` on, until the loop comes to `stop`.
abbrev pub Visits : (ℕ → ℕ) → Memory → (a : ℕ) → List ℕ → (stop : ℕ) → Type 0
Visits e m a [] stop = e (m.prev a) ≡ stop
Visits e m a (b ∷ bs) stop = (e (m.prev a) ≡ b) × Visits e m b bs stop

-- Both links of the listed entries have changed places, and no others have changed.
pub record Swapped (es : List ℕ) (m m' : Memory) : Type 0 where
  pub inside : (x : ℕ) → has x es ≡ true → (m'.next x ≡ m.prev x) × (m'.prev x ≡ m.next x)
  pub outside : (x : ℕ) → has x es ≡ false → (m'.next x ≡ m.next x) × (m'.prev x ≡ m.prev x)

module _ (c : EntryRefCodec) where
  abbrev turn : Memory → ℕ → Memory
  turn m a = set_prev a (m.next a) (set_next a (m.prev a) m)

  Visits-turn :
      (m : Memory) (a b : ℕ) (bs : List ℕ) (stop : ℕ)
      → has a (b ∷ bs) ≡ false
      → Visits c.get_entry m b bs stop
      → Visits c.get_entry (turn m a) b bs stop
  Visits-turn m a b [] stop free v =
      let same : (turn m a).prev b ≡ m.prev b = ground arith in ap c.get_entry same ∙ v
  Visits-turn m a b (d ∷ bs) stop free v =
      let same : (turn m a).prev b ≡ m.prev b = ground arith in
      (ap c.get_entry same ∙ v.0, Visits-turn m a d bs stop (ground arith) v.1)

  pub turned : (m : Memory) (a : ℕ) → (turn m a).next a ≡ m.prev a
  turned m a = ground arith

  round_end :
      (fuel : ℕ) (m : Memory) (a stop : ℕ)
      → c.get_entry (m.prev a) ≡ stop
      → reverse_from c (suc fuel) m stop a ≡ some (turn m a)
  unfolding reverse_from
  round_end fuel m a stop eq = rw (turned m a) (rw (eq→== _ stop eq) refl)

  round_next :
      (fuel : ℕ) (m : Memory) (a b stop : ℕ)
      → c.get_entry (m.prev a) ≡ b
      → (b == stop) ≡ false
      → reverse_from c (suc fuel) m stop a ≡ reverse_from c fuel (turn m a) stop b
  unfolding reverse_from
  round_next fuel m a b stop eq ne = rw (turned m a) (rw (eq, ne) refl)

  turn-Swapped : (m : Memory) (a : ℕ) → Swapped (a ∷ []) m (turn m a)
  turn-Swapped m a = record { inside = λ x n. ground arith; outside = λ x n. ground arith }

  Swapped-next :
      (m m' : Memory) (a b : ℕ) (bs : List ℕ)
      → has a (b ∷ bs) ≡ false
      → Swapped (b ∷ bs) (turn m a) m'
      → Swapped (a ∷ b ∷ bs) m m'
  Swapped-next m m' a b bs free s = record {
    inside = λ x n. ground (arith, s.inside x, s.outside x);
    outside = λ x n. ground (arith, s.outside x);
  }

  pub reverse_from_lem :
      (fuel : ℕ) (m : Memory) (a : ℕ) (bs : List ℕ) (stop : ℕ)
      → length bs < fuel
      → Distinct (a ∷ bs)
      → has stop bs ≡ false
      → Visits c.get_entry m a bs stop
      → (m' : Memory) × (reverse_from c fuel m stop a ≡ some m') × Swapped (a ∷ bs) m m'
  reverse_from_lem zero m a bs stop lt d free v = absurd (omega arith)
  reverse_from_lem (suc fuel) m a [] stop lt d free v =
      (turn m a, round_end fuel m a stop v, turn-Swapped m a)
  reverse_from_lem (suc fuel) m a (b ∷ bs) stop lt d free v =
      let ne : (b == stop) ≡ false = ground arith in
      let (m', eq, s) =
        reverse_from_lem fuel (turn m a) b bs stop (omega arith) d.1 (ground arith)
          (Visits-turn m a b bs stop d.0 v.1) in
      (m', round_next fuel m a b stop v.0 ne ∙ eq, Swapped-next m m' a b bs d.0 s)
