-- ===== src/Utility/Tagged.antt =====
-- What a tagged word gives back, and for which unions it does not.
use csd_mirror.Prelude.{
  ℕ, zero, suc, ◌+◌, ◌-◌, ◌*◌, ◌^◌, ◌≤◌, ◌<◌, ◌≡◌, ◌≢◌, false, some, arith, bit_and, bit_or, ◌==◌,
}
use native.Mathlib.Nat.{pow-suc, one-le-pow}
use csd_mirror.Utility.{mask, tagged_ptr, has_type, address, index, safe_cast}
use csd_mirror.Utility.Bits.{bit_or_low, bit_and_low}

lt-pow_two : (i k : ℕ) → i ≤ k → i < 2 ^ k
lt-pow_two i zero h = omega arith
lt-pow_two zero (suc k) h = omega (arith, one-le-pow (suc k) 2)
lt-pow_two (suc i) (suc k) h = omega (arith, pow-suc 2 k, lt-pow_two i k (omega arith))

module _ (n i q : ℕ) (valid : i < n) where
  pub tagged_ptr-sum : tagged_ptr i (q * 2 ^ (n - 1)) ≡ q * 2 ^ (n - 1) + i
  unfolding tagged_ptr
  tagged_ptr-sum = bit_or_low (n - 1) q i (lt-pow_two i (n - 1) (omega arith))

  mask-tagged_ptr : bit_and (tagged_ptr i (q * 2 ^ (n - 1))) (mask n) ≡ i
  unfolding mask
  mask-tagged_ptr = rw tagged_ptr-sum (bit_and_low (n - 1) q i (lt-pow_two i (n - 1) (omega arith)))

-- The word `w` stands for the non-null address `u` of a `T_i`, in a union of `n` types.
pub record Holds (n w i u : ℕ) : Type 0 where
  pub address_eq : address n w ≡ u
  pub index_eq : index n w ≡ some i
  pub cast_eq : safe_cast n w i ≡ u
  pub has_type_eq : (j : ℕ) → has_type n w j ≡ (i == j)
  pub cast_null : (j : ℕ) → j ≢ i → safe_cast n w j ≡ 0

Holds-of_low : (n w i u : ℕ) → w ≡ u + i → bit_and w (mask n) ≡ i → u ≢ 0 → Holds n w i u
unfolding address index has_type safe_cast
Holds-of_low n w i u sum low nz = record {
  address_eq = ground arith;
  index_eq = ground arith;
  cast_eq = ground arith;
  has_type_eq = λ j. ground arith;
  cast_null = λ j ne. ground arith;
}

-- In a union of `n` pointer types, a non-null address that is a multiple of 2 ^ (n - 1), tagged
-- with a type index below `n`, comes back whole with that index: `address`, `index` and `safe_cast`
-- give it back, and `has_type` and `safe_cast` accept that type and no other.
pub tagged_ptr-Holds :
    (n i q : ℕ) → i < n → q ≢ 0 → Holds n (tagged_ptr i (q * 2 ^ (n - 1))) i (q * 2 ^ (n - 1))
tagged_ptr-Holds n i q valid nz =
    Holds-of_low n _ i _ (tagged_ptr-sum n i q valid) (mask-tagged_ptr n i q valid)
      (grind (arith, one-le-pow (n - 1) 2))

-- In a union of four pointer types, an address that is a multiple of 4 and not of 8 comes back as
-- the multiple of 8 below it, and is not of the type that it was tagged with.
pub tagged_ptr-four_types :
    (q i : ℕ)
    → i < 4
    → (address 4 (tagged_ptr i (q * 8 + 4)) ≡ q * 8)
      × (has_type 4 (tagged_ptr i (q * 8 + 4)) i ≡ false)
unfolding mask address has_type tagged_ptr
tagged_ptr-four_types q i h = ground (arith, or_four q i h, bit_and_low 3 q (i + 4) (omega arith))
  where
    or_four : (q i : ℕ) → i < 4 → bit_or (q * 8 + 4) i ≡ q * 8 + (i + 4)
    or_four q i h = ground (arith, bit_or_low 2 (q * 2 + 1) i (omega arith))
