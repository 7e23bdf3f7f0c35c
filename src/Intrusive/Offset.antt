-- ===== src/Intrusive/Offset.antt =====
-- include/csg/core/intrusive.h: `offset_entry_ref` and its `entry_ref_codec`. The word is the
-- address of the entry, `offset` bytes into its item.
use csd_mirror.Prelude.{ℕ, ◌+◌, ◌-◌, ◌≡◌, ◌≢◌, true, arith, ◌!=◌}
use csd_mirror.Intrusive.{EntryRefCodec}

unfoldable pub create_direct_entry_ref : ℕ → ℕ
create_direct_entry_ref e = e

unfoldable pub create_item_entry_ref : ℕ → ℕ → ℕ
unfolding create_direct_entry_ref
create_item_entry_ref offset u = create_direct_entry_ref (u + offset)

unfoldable pub get_entry : ℕ → ℕ
get_entry word = word

unfoldable pub get_value : ℕ → ℕ → ℕ
unfolding get_entry
get_value offset word = get_entry word - offset

module _ (offset : ℕ) where
  pub direct_lem : (e : ℕ) → (e != 0) ≡ true → get_entry (create_direct_entry_ref e) ≡ e
  unfolding get_entry create_direct_entry_ref
  direct_lem e ok = omega arith

  pub raw_lem : (e : ℕ) → (e != 0) ≡ true → create_direct_entry_ref e ≡ e
  unfolding create_direct_entry_ref
  raw_lem e ok = omega arith

  pub value_lem : (p : ℕ) → (p != 0) ≡ true → get_value offset (create_item_entry_ref offset p) ≡ p
  unfolding get_value create_item_entry_ref
  value_lem p ok = omega arith

  pub null_lem : (p : ℕ) → (p != 0) ≡ true → create_item_entry_ref offset p ≢ 0
  unfolding create_item_entry_ref
  null_lem p ok = ground arith

  pub head_lem : (e : ℕ) → (e != 0) ≡ true → e ≢ 0
  head_lem e ok = ground arith

  pub entry_lem : (p : ℕ) → get_entry (create_item_entry_ref offset p) ≡ p + offset
  unfolding get_entry create_item_entry_ref
  entry_lem p = omega arith

  abbrev pub codec : EntryRefCodec
  codec = record {
    create_direct_entry_ref = create_direct_entry_ref;
    create_item_entry_ref = create_item_entry_ref offset;
    get_entry = get_entry;
    get_value = get_value offset;
    entry_ok = λ e. e != 0;
    item_ok = λ p. p != 0;
    get_entry-direct = direct_lem;
    direct-raw = raw_lem;
    get_value-item = value_lem;
    item-ne-null = null_lem;
    entry-ne-null = head_lem;
  }
