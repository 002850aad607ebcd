-- ===== src/Core/Quote.antt =====
-- packages/gacha-core/src/lib.rs: the message of a buyback quote.
pub mod Laws
mod Tests
use solana_gacha.Prelude.{ℕ, List, [], ◌∷◌, ◌++◌}
use solana_gacha.Bytes.{le_bytes}

-- The program's address, `ID`.
abbrev pub program_id_bytes : List ℕ
program_id_bytes =
    0x34 ∷ 0x4b ∷ 0x69 ∷ 0xf5 ∷ 0x0e ∷ 0xcb ∷ 0x2c ∷ 0x1c ∷ 0x62 ∷ 0x67 ∷ 0x39 ∷ 0x5f ∷ 0xb3 ∷ 0x3c
    ∷ 0x90 ∷ 0x83 ∷ 0x0f ∷ 0xfe ∷ 0x58 ∷ 0x4b ∷ 0x95 ∷ 0x08 ∷ 0xf2 ∷ 0x75 ∷ 0xbf ∷ 0x2c ∷ 0x17
    ∷ 0x8b ∷ 0x7c ∷ 0x68 ∷ 0xa5 ∷ 0xff ∷ []

-- b"gacha:buyback:v1"
abbrev pub quote_tag : List ℕ
quote_tag =
    b'g' ∷ b'a' ∷ b'c' ∷ b'h' ∷ b'a' ∷ b':' ∷ b'b' ∷ b'u' ∷ b'y' ∷ b'b' ∷ b'a' ∷ b'c' ∷ b'k' ∷ b':'
    ∷ b'v' ∷ b'1' ∷ []

-- The seven parts, in the order of their offsets: 0, 16, 48, 80, 112, 120 and 128.
pub buyback_message : List ℕ → List ℕ → ℕ → ℕ → ℕ → List ℕ
buyback_message pool asset price expires_at tier =
    quote_tag
    ++ (program_id_bytes
        ++ (pool ++ (asset ++ (le_bytes 8 price ++ (le_bytes 8 expires_at ++ (tier ∷ []))))))
