-- ===== src/Tailq/Memory.antt =====
-- include/csg/core/tailq.h: the links of the entries in memory, `tailq_entry` by its address, and
-- the data of a head, `tailq_fwd_head`.
use csd_mirror.Prelude.{ℕ, ◌==◌, if◌then◌else◌}
use csd_mirror.Intrusive.Size.{SizeMember}

-- The members `next` and `prev` of the entry at each address.
pub record Memory : Type 0 where
  pub next : ℕ → ℕ
  pub prev : ℕ → ℕ

abbrev pub update : (ℕ → ℕ) → ℕ → ℕ → ℕ → ℕ
update f a v x = if x == a then v else f x

-- `entry->next = word` and `entry->prev = word`.
abbrev pub set_next : ℕ → ℕ → Memory → Memory
set_next entry word m = record m { next = update m.next entry word }

abbrev pub set_prev : ℕ → ℕ → Memory → Memory
set_prev entry word m = record m { prev = update m.prev entry word }

-- The address of `m_endEntry`, the type of `m_sz` and its value.
pub record Head : Type 0 where
  pub end_entry : ℕ
  pub size_member : SizeMember
  pub m_sz : ℕ
