-- ===== src/Examples/Words.antt =====
-- The properties of the words and of the size members at concrete values.
use csd_mirror.Prelude.{◌+◌, ◌≡◌, refl, false, arith}
use csd_mirror.Utility.{tagged_ptr, address, has_type}
use csd_mirror.Utility.Tagged.{Holds, tagged_ptr-Holds, tagged_ptr-four_types}
use csd_mirror.Intrusive.Invocable.{get_entry, create_item_entry_ref, entry_lem}

tagged_ptr-Holds_example : Holds 2 (tagged_ptr 1 6) 1 6
tagged_ptr-Holds_example = tagged_ptr-Holds 2 1 3 (omega arith) (omega arith)

tagged_ptr-four_types_example :
    (address 4 (tagged_ptr 2 12) ≡ 8) × (has_type 4 (tagged_ptr 2 12) 2 ≡ false)
tagged_ptr-four_types_example = tagged_ptr-four_types 1 2 (omega arith)

entry_lem_example : get_entry (λ p. p + 2) (create_item_entry_ref 8) ≡ 10
entry_lem_example = entry_lem (λ p. p + 2) 8 refl
