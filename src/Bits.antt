-- ===== src/Bits.antt =====
-- The bit operations of core/discovery/view.go on a `uint32`, and `bits.OnesCount32`.
mod Digits
pub mod Laws
pub mod Count
use Prim.Native.Nat.{bit_and, bit_or}
use ifrit.Prelude.{ℕ, zero, suc, ◌+◌, ◌-◌, ◌/◌, ◌%◌, ◌^◌, Bool, ltb, if◌then◌else◌}

-- `1 << pos` on a `uint32`: 0 from position 32 on.
unfoldable pub one_shl : ℕ → ℕ
one_shl pos = if ltb pos 32 then 2 ^ pos else 0

unfoldable pub set_bit : ℕ → ℕ → ℕ
unfolding one_shl
set_bit n pos = bit_or n (one_shl pos)

-- `^(1 << pos)` flips all 32 bits.
unfoldable pub clear_bit : ℕ → ℕ → ℕ
unfolding one_shl
clear_bit n pos = bit_and n (2 ^ 32 - 1 - one_shl pos)

unfoldable pub has_bit : ℕ → ℕ → Bool
unfolding one_shl
has_bit n pos = ltb 0 (bit_and n (one_shl pos))

-- The ones among the lowest `w` bits.
unfoldable pub ones_below : ℕ → ℕ → ℕ
ones_below zero n = 0
ones_below (suc w) n = n % 2 + ones_below w (n / 2)

unfoldable pub ones_count32 : ℕ → ℕ
unfolding ones_below
ones_count32 n = ones_below 32 n
