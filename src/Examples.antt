-- ===== src/Examples.antt =====
-- Test data: two heads at the addresses 100
-- and 200, items whose entries lie 8 bytes into them.
pub mod Lists
pub mod Orders
pub mod Words
pub mod Runs
pub mod Queues
pub mod Chains
use csd_mirror.Prelude.{
  ℕ, zero, suc, ◌+◌, ◌%◌, ◌^◌, ◌<◌, ◌≡◌, ◌≢◌, refl, Bool, true, false, Option, none, some, List, [],
  ◌∷◌, ◌++◌, map, length, arith, has, ◌==◌, Disjoint, Distinct, if◌then◌else◌,
}
use csd_mirror.Intrusive.{EntryRefCodec}
use csd_mirror.Intrusive.Offset.{
  codec, create_direct_entry_ref, create_item_entry_ref, get_entry, get_value,
}
use csd_mirror.Intrusive.Size.{SizeMember, no_size, integral, Counts, Fits}
use csd_mirror.Tailq.Memory.{Memory, Head}
use csd_mirror.Tailq.Valid.{IsRing, IsTailq, IsFree, item, items, entries, at, SameOutside}
use csd_mirror.Tailq.Range.Splice.{Separate}
use csd_mirror.Tailq.Element.{assign}
use csd_mirror.Tailq.Element.Access.{assign_lem}

abbrev pub c8 : EntryRefCodec
c8 = codec 8

abbrev pub look : List (ℕ × ℕ) → ℕ → ℕ
look [] x = 0
look (row ∷ rows) x = if x == row.0 then row.1 else look rows x

-- The items 10, 20 and 30 in the first list, 50 and 60 in the second.
abbrev pub memory : Memory
memory = record {
  next = look ((100, 18) ∷ (18, 28) ∷ (28, 38) ∷ (38, 100) ∷ (200, 58) ∷ (58, 68) ∷ (68, 200) ∷ []);
  prev = look ((100, 38) ∷ (38, 28) ∷ (28, 18) ∷ (18, 100) ∷ (200, 68) ∷ (68, 58) ∷ (58, 200) ∷ []);
}

abbrev pub head_a : Head
head_a = record { end_entry = 100; size_member = integral 4; m_sz = 3 }

-- The second list, with a size member and without one.
abbrev pub head_b : Head
head_b = record { end_entry = 200; size_member = integral 4; m_sz = 2 }

abbrev pub head_u : Head
head_u = record { end_entry = 200; size_member = no_size; m_sz = 0 }

abbrev pub list_a : List ℕ
list_a = 10 ∷ 20 ∷ 30 ∷ []

abbrev pub list_b : List ℕ
list_b = 50 ∷ 60 ∷ []

pub a_IsTailq : IsTailq c8 memory head_a list_a
unfolding create_direct_entry_ref create_item_entry_ref get_entry get_value
a_IsTailq = record {
  ring = record {
    end_ok = refl;
    items_ok = (refl, (refl, (refl, tt)));
    cycle = record {
      linked = ((refl, refl), ((refl, refl), ((refl, refl), ((refl, refl), tt))));
      distinct = (refl, (refl, (refl, (refl, tt))));
    };
  };
  count = refl;
}

b-IsRing : IsRing c8 memory 200 list_b
unfolding create_direct_entry_ref create_item_entry_ref get_entry get_value
b-IsRing = record {
  end_ok = refl;
  items_ok = (refl, (refl, tt));
  cycle = record {
    linked = ((refl, refl), ((refl, refl), ((refl, refl), tt)));
    distinct = (refl, (refl, (refl, tt)));
  };
}

pub b_IsTailq : IsTailq c8 memory head_b list_b
b_IsTailq = record { ring = b-IsRing; count = refl }

pub u_IsTailq : IsTailq c8 memory head_u list_b
u_IsTailq = record { ring = b-IsRing; count = tt }

pub a_b-Separate : Separate c8 head_a head_b list_a list_b
unfolding create_direct_entry_ref create_item_entry_ref get_entry get_value
a_b-Separate x h = ground arith

pub a_u-Separate : Separate c8 head_a head_u list_a list_b
unfolding create_direct_entry_ref create_item_entry_ref get_entry get_value
a_u-Separate x h = ground arith

-- Two items that are in no list.
abbrev pub list_new : List ℕ
list_new = 70 ∷ 80 ∷ []

pub IsFree-new : IsFree c8 100 list_new list_a
unfolding create_direct_entry_ref create_item_entry_ref get_entry get_value
IsFree-new = record {
  distinct = (refl, (refl, tt));
  apart = λ x h. ground arith;
  items_ok = (refl, (refl, tt));
}

pub IsFree-alone : IsFree c8 100 list_new []
unfolding create_direct_entry_ref create_item_entry_ref get_entry get_value
IsFree-alone = record {
  distinct = (refl, (refl, tt));
  apart = λ x h. ground arith;
  items_ok = (refl, (refl, tt));
}

pub fresh_70 : has (c8.get_entry (c8.create_item_entry_ref 70)) (entries c8 100 list_a) ≡ false
unfolding create_direct_entry_ref create_item_entry_ref get_entry get_value
fresh_70 = refl

pub apart_300 : Disjoint (entries c8 300 []) (entries c8 100 list_a)
unfolding create_direct_entry_ref create_item_entry_ref get_entry get_value
apart_300 x h = ground arith
