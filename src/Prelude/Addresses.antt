-- ===== src/Prelude/Addresses.antt =====
-- Lists of addresses that name none twice, taken apart and put together.
use Prim.Native.Nat.{ℕ}
use mathlib.Core.Path.{◌≡◌, refl, subst, sym}
use mathlib.Core.Bool.{true, false}
use mathlib.Core.List.{List, [], ◌∷◌, ◌++◌}
use native.Mathlib.Omega.{arith}
use csd_mirror.Prelude.Tests.{◌==◌}
use csd_mirror.Prelude.Lists.{has, has-append, Distinct}

abbrev pub Disjoint : List ℕ → List ℕ → Type 0
Disjoint xs ys = (x : ℕ) → has x xs ≡ true → has x ys ≡ false

pub not_has_middle :
    (x : ℕ) (xs : List ℕ) (y : ℕ) (ys : List ℕ)
    → has x (xs ++ y ∷ ys) ≡ false
    → (has x xs ≡ false) × ((x == y) ≡ false) × (has x ys ≡ false)
not_has_middle x xs y ys h = ground (arith, has-append x xs (y ∷ ys))

pub has_middle : (y : ℕ) (xs ys : List ℕ) → has y (xs ++ y ∷ ys) ≡ true
has_middle y xs ys = ground (arith, has-append y xs (y ∷ ys))

pub has_front : (x : ℕ) (xs ys : List ℕ) → has x xs ≡ true → has x (xs ++ ys) ≡ true
has_front x xs ys h = ground (arith, has-append x xs ys)

pub has_back : (x : ℕ) (xs ys : List ℕ) → has x ys ≡ true → has x (xs ++ ys) ≡ true
has_back x xs ys h = ground (arith, has-append x xs ys)

-- An element in the middle stands nowhere else.
pub Distinct-middle :
    (xs : List ℕ) (y : ℕ) (ys : List ℕ)
    → Distinct (xs ++ y ∷ ys)
    → (has y xs ≡ false) × (has y ys ≡ false)
Distinct-middle [] y ys d = (refl, d.0)
Distinct-middle (x ∷ xs) y ys d =
    ground (arith, not_has_middle x xs y ys d.0, Distinct-middle xs y ys d.1)

pub Distinct-front : (xs ys : List ℕ) → Distinct (xs ++ ys) → Distinct xs
Distinct-front [] ys d = tt
Distinct-front (x ∷ xs) ys d = (ground (arith, has-append x xs ys), Distinct-front xs ys d.1)

pub Distinct-back : (xs ys : List ℕ) → Distinct (xs ++ ys) → Distinct ys
Distinct-back [] ys d = d
Distinct-back (x ∷ xs) ys d = Distinct-back xs ys d.1

pub Distinct-Disjoint : (xs ys : List ℕ) → Distinct (xs ++ ys) → Disjoint xs ys
Distinct-Disjoint [] ys d x h = cc
Distinct-Disjoint (y ∷ xs) ys d x h =
    ground (arith, has-append y xs ys, Distinct-Disjoint xs ys d.1 x)

pub Distinct-append :
    (xs ys : List ℕ) → Distinct xs → Distinct ys → Disjoint xs ys → Distinct (xs ++ ys)
Distinct-append [] ys dx dy apart = dy
Distinct-append (x ∷ xs) ys dx dy apart = (
  ground (arith, has-append x xs ys, apart x),
  Distinct-append xs ys dx.1 dy (λ a h. apart a (ground arith)),
)

-- A list taken out of the middle, and put in.
pub Distinct-remove : (xs zs ys : List ℕ) → Distinct (xs ++ (zs ++ ys)) → Distinct (xs ++ ys)
Distinct-remove xs zs ys d =
    Distinct-append xs ys (Distinct-front xs (zs ++ ys) d)
      (Distinct-back zs ys (Distinct-back xs (zs ++ ys) d))
      (λ x h. ground (arith, Distinct-Disjoint xs (zs ++ ys) d x, has-append x zs ys))

pub Distinct-insert :
    (xs zs ys : List ℕ)
    → Distinct (xs ++ ys)
    → Distinct zs
    → Disjoint zs (xs ++ ys)
    → Distinct (xs ++ (zs ++ ys))
Distinct-insert xs zs ys d dz apart =
    Distinct-append xs (zs ++ ys) (Distinct-front xs ys d)
      (Distinct-append zs ys dz (Distinct-back xs ys d)
        (λ x h. ground (arith, apart x, has-append x xs ys)))
      (λ x h.
        ground
          (arith, has-append x zs ys, apart x, has-append x xs ys, Distinct-Disjoint xs ys d x))

pub Distinct-rotate : (x : ℕ) (xs : List ℕ) → Distinct (x ∷ xs) → Distinct (xs ++ x ∷ [])
Distinct-rotate x xs d = Distinct-append xs (x ∷ []) d.1 (refl, tt) (λ a h. ground (arith))

pub Distinct-apart : (xs zs ys : List ℕ) → Distinct (xs ++ (zs ++ ys)) → Disjoint zs (xs ++ ys)
Distinct-apart xs zs ys d x h = ground (
  arith,
  has-append x xs ys,
  has-append x zs ys,
  Distinct-Disjoint zs ys (Distinct-back xs (zs ++ ys) d) x,
  Distinct-Disjoint xs (zs ++ ys) d x,
)

-- A member of a list is none of the others.
pub member_ne : (a w : ℕ) (xs : List ℕ) → has a xs ≡ false → has w xs ≡ true → (w == a) ≡ false
member_ne a w [] free n = absurd cc
member_ne a w (x ∷ xs) free n = ground (arith, member_ne a w xs)

pub one_apart : (a : ℕ) (xs : List ℕ) → has a xs ≡ false → Disjoint (a ∷ []) xs
one_apart a xs free w n =
    let same : w ≡ a = ground arith in subst (λ y. has y xs ≡ false) (sym same) free

pub Disjoint-sym : (xs ys : List ℕ) → Disjoint xs ys → Disjoint ys xs
Disjoint-sym xs ys apart x n = ground (arith, apart x)
