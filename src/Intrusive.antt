-- ===== src/Intrusive.antt =====
-- include/csg/core/intrusive.h: how a list link names the entry that it leads to. A link is one
-- machine word, made and read by an `entry_ref_codec`; there is one for extractors that are
-- invoked and one for extractors that add a fixed offset.
pub mod Invocable
pub mod Offset
pub mod Size
use csd_mirror.Prelude.{ℕ, ◌≡◌, ◌≢◌, Bool, true}

-- What the lists use of a codec: its four functions over addresses and words (0 is the null
-- reference), the addresses it serves, and the laws that hold at those.
pub record EntryRefCodec : Type 0 where
  pub create_direct_entry_ref : ℕ → ℕ
  pub create_item_entry_ref : ℕ → ℕ
  pub get_entry : ℕ → ℕ
  pub get_value : ℕ → ℕ
  pub entry_ok : ℕ → Bool
  pub item_ok : ℕ → Bool
  pub get_entry-direct : (e : ℕ) → entry_ok e ≡ true → get_entry (create_direct_entry_ref e) ≡ e
  pub direct-raw : (e : ℕ) → entry_ok e ≡ true → create_direct_entry_ref e ≡ e
  pub get_value-item : (p : ℕ) → item_ok p ≡ true → get_value (create_item_entry_ref p) ≡ p
  pub item-ne-null : (p : ℕ) → item_ok p ≡ true → create_item_entry_ref p ≢ 0
  pub entry-ne-null : (e : ℕ) → entry_ok e ≡ true → e ≢ 0
