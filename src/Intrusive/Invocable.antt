-- ===== src/Intrusive/Invocable.antt =====
-- include/csg/core/intrusive.h: `invocable_tagged_ref` and its `entry_ref_codec`. The word is a
-- union of two pointers, the entry's before the item's; the entry of an item is found by
-- invoking the extractor.
use csd_mirror.Prelude.{
  ℕ, ◌*◌, ◌-◌, ◌/◌, ◌%◌, ◌^◌, ◌<◌, ◌≡◌, ◌≢◌, true, Bool, ◌&&◌, arith, ◌!=◌, ◌==◌, if◌then◌else◌,
  subst,
}
use csd_mirror.Utility.{tagged_ptr, has_type, address}
use csd_mirror.Utility.Tagged.{tagged_ptr-sum, Holds, tagged_ptr-Holds}
use csd_mirror.Intrusive.{EntryRefCodec}

pub create_direct_entry_ref : ℕ → ℕ
create_direct_entry_ref e = tagged_ptr 0 e

pub create_item_entry_ref : ℕ → ℕ
create_item_entry_ref u = tagged_ptr 1 u

abbrev pub is_entry : ℕ → Bool
is_entry word = has_type 2 word 0

pub is_value : ℕ → Bool
is_value word = has_type 2 word 1

pub get_value : ℕ → ℕ
get_value word = address 2 word

-- `extract` is the extractor, from the address of an item to the address of its entry.
pub get_entry : (ℕ → ℕ) → ℕ → ℕ
unfolding is_value get_value
get_entry extract word = if is_value word then extract (get_value word) else address 2 word

-- A non-null address of something that is aligned to two bytes.
abbrev pub aligned : ℕ → Bool
aligned a = a != 0 && a % 2 == 0

aligned-Holds : (i a : ℕ) → i < 2 → aligned a ≡ true → Holds 2 (tagged_ptr i a) i a
aligned-Holds i a h ok =
    let e : a / 2 * 2 ^ (2 - 1) ≡ a = ground arith in
    subst (λ t. Holds 2 (tagged_ptr i t) i t) e (tagged_ptr-Holds 2 i (a / 2) h (ground arith))

module _ (extract : ℕ → ℕ) where
  pub direct_lem : (e : ℕ) → aligned e ≡ true → get_entry extract (create_direct_entry_ref e) ≡ e
  unfolding get_entry create_direct_entry_ref
  direct_lem e ok =
      let holds = aligned-Holds 0 e (omega arith) ok in
      ground (arith, holds.has_type_eq 1, holds.address_eq)

  pub raw_lem : (e : ℕ) → aligned e ≡ true → create_direct_entry_ref e ≡ e
  unfolding create_direct_entry_ref
  raw_lem e ok =
      let halves : e / 2 * 2 ^ (2 - 1) ≡ e = ground arith in
      subst (λ t. tagged_ptr 0 t ≡ t) halves
        (omega (arith, tagged_ptr-sum 2 0 (e / 2) (omega arith)))

  pub value_lem : (p : ℕ) → aligned p ≡ true → get_value (create_item_entry_ref p) ≡ p
  unfolding get_value create_item_entry_ref
  value_lem p ok = (aligned-Holds 1 p (omega arith) ok).address_eq

  pub null_lem : (p : ℕ) → aligned p ≡ true → create_item_entry_ref p ≢ 0
  unfolding create_item_entry_ref has_type
  null_lem p ok = ground (arith, (aligned-Holds 1 p (omega arith) ok).has_type_eq 1)

  pub head_lem : (e : ℕ) → aligned e ≡ true → e ≢ 0
  head_lem e ok = ground arith

  -- The entry of a link to an item at a non-null even address is what the extractor gives for the
  -- item.
  pub entry_lem :
      (p : ℕ) → aligned p ≡ true → get_entry extract (create_item_entry_ref p) ≡ extract p
  unfolding get_entry create_item_entry_ref
  entry_lem p ok =
      let holds = aligned-Holds 1 p (omega arith) ok in
      ground (arith, holds.has_type_eq 1, holds.address_eq)

  abbrev pub codec : EntryRefCodec
  codec = record {
    create_direct_entry_ref = create_direct_entry_ref;
    create_item_entry_ref = create_item_entry_ref;
    get_entry = get_entry extract;
    get_value = get_value;
    entry_ok = aligned;
    item_ok = aligned;
    get_entry-direct = direct_lem;
    direct-raw = raw_lem;
    get_value-item = value_lem;
    item-ne-null = null_lem;
    entry-ne-null = head_lem;
  }
