-- ===== src/Sdk/Wire/Numbers.antt =====
-- Numbers written by `to_le_bytes` among other bytes, and read back by the program's parsers.
use solana_gacha.Prelude.{ℕ, ◌+◌, ◌<◌, ◌≡◌, List, ◌++◌, arith, length}
use solana_gacha.Bytes.{u32_at, le_bytes, byte_limit}
use solana_gacha.Bytes.Values.{get_or-append_right}
use solana_gacha.Core.Draw.{u64_at}

pub u32_at-le_bytes : (v : ℕ) (ys : List ℕ) → v < byte_limit 4 → u32_at (le_bytes 4 v ++ ys) 0 ≡ v
unfolding u32_at
u32_at-le_bytes v ys h = omega arith

pub u64_at-le_bytes : (v : ℕ) (ys : List ℕ) → v < byte_limit 8 → u64_at (le_bytes 8 v ++ ys) 0 ≡ v
unfolding u64_at
u64_at-le_bytes v ys h = omega arith

pub u32_at-append :
    (xs ys : List ℕ) (n i : ℕ) → n ≡ length xs + i → u32_at (xs ++ ys) n ≡ u32_at ys i
unfolding u32_at
u32_at-append xs ys n i h = omega (
  arith,
  get_or-append_right xs ys n i 0 h,
  get_or-append_right xs ys (n + 1) (i + 1) 0 (omega arith),
  get_or-append_right xs ys (n + 2) (i + 2) 0 (omega arith),
  get_or-append_right xs ys (n + 3) (i + 3) 0 (omega arith),
)
