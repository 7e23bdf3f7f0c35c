-- ===== src/Intrusive/Size.antt =====
-- include/csg/core/intrusive.h: `no_size` and `optional_size`, the choice of an inline count of the
-- items. The count is an unsigned integer of the chosen width and wraps around.
use csd_mirror.Prelude.{ℕ, ◌+◌, ◌-◌, ◌%◌, ◌^◌, ◌<◌, ◌≡◌, refl, sym, ◌∙◌, arith}
use native.Mathlib.Nat.{mod-add-mod, add-mod, mod-lt, mod-eq_of_lt, one-le-pow}
use native.Mathlib.Decide.{dec_lt}

pub data SizeMember : Type 0 where
  no_size : SizeMember
  integral : (width : ℕ) → SizeMember

-- `m_sz += n`, where the member is there.
unfoldable pub add_size : SizeMember → ℕ → ℕ → ℕ
add_size no_size sz n = sz
add_size (integral width) sz n = (sz + n) % 2 ^ width

-- `m_sz -= n`, where the member is there.
unfoldable pub sub_size : SizeMember → ℕ → ℕ → ℕ
sub_size no_size sz n = sz
sub_size (integral width) sz n = (sz + 2 ^ width - n % 2 ^ width) % 2 ^ width

-- `m_sz = n`, where the member is there.
unfoldable pub set_size : SizeMember → ℕ → ℕ → ℕ
set_size no_size sz n = sz
set_size (integral width) sz n = n % 2 ^ width

-- The member counts `n` items, up to the wrap-around.
abbrev pub Counts : SizeMember → ℕ → ℕ → Type 0
Counts no_size sz n = Unit
Counts (integral width) sz n = sz ≡ n % 2 ^ width

-- A size member that counts `n` items modulo its range counts `n + k` of them after `k` has been
-- added.
pub add_size-Counts :
    (s : SizeMember) (sz n k : ℕ) → Counts s sz n → Counts s (add_size s sz k) (n + k)
unfolding add_size
add_size-Counts no_size sz n k c = tt
add_size-Counts (integral w) sz n k c = rw c (mod-add-mod n (2 ^ w) k)

take_back : (a b m : ℕ) → a < m → b < m → ((a + b) % m + m - b) % m ≡ a
take_back a b m ha hb = elim (dec_lt (a + b) m) [
  | yes small ↦ rw (mod-eq_of_lt small) (grind arith)
  | no big ↦ grind arith
]

-- A size member that counts `n + k` items modulo its range counts `n` of them after `k` has been
-- subtracted.
pub sub_size-Counts :
    (s : SizeMember) (sz n k : ℕ) → Counts s sz (n + k) → Counts s (sub_size s sz k) n
unfolding sub_size
sub_size-Counts no_size sz n k c = tt
sub_size-Counts (integral w) sz n k c =
    let pos : 0 < 2 ^ w = one-le-pow w 2 (omega arith) in
    let sum = c ∙ add-mod n k (2 ^ w) in
    rw sum (take_back (n % 2 ^ w) (k % 2 ^ w) (2 ^ w) (mod-lt n pos) (mod-lt k pos))

-- The member is wide enough for a count of `n`.
abbrev pub Fits : SizeMember → ℕ → Type 0
Fits no_size n = Unit
Fits (integral width) n = n < 2 ^ width

pub set_size-Counts : (s : SizeMember) (sz n : ℕ) → Counts s (set_size s sz n) n
unfolding set_size
set_size-Counts no_size sz n = tt
set_size-Counts (integral w) sz n = refl

pub none-Counts : (s : SizeMember) → Counts s 0 0
none-Counts no_size = tt
none-Counts (integral w) = sym (mod-eq_of_lt (one-le-pow w 2 (omega arith)))
