-- ===== src/Bits.antt =====
-- The bit tricks of the Fenwick index (program/src/inventory.rs): `node & node.wrapping_neg()` is the
-- lowest set bit of `node`, and `blocks & (blocks - 1)` clears it.
pub mod Lowest
pub mod Cover
use Prim.Native.Nat.{bit_and}
use solana_gacha.Prelude.{ℕ, ◌-◌, ◌%◌, ◌^◌}

-- `usize::wrapping_neg`
abbrev pub wrapping_neg : ℕ → ℕ
wrapping_neg n = (2 ^ 64 - n) % 2 ^ 64

-- `node & node.wrapping_neg()`
abbrev pub low_bit : ℕ → ℕ
low_bit n = bit_and n (wrapping_neg n)

-- `n & (n - 1)`, at `n` above 0
abbrev pub clear_low_bit : ℕ → ℕ
clear_low_bit n = bit_and n (n - 1)
