-- ===== src/Core/Draw.antt =====
-- `Pool::draw` and `Pool::draw_tier`: a tier by weight among those with eligible items, then a rank.
use solana_gacha.Prelude.{
  ℕ, zero, suc, ◌+◌, ◌-◌, ◌*◌, ◌/◌, ◌%◌, ◌^◌, ◌≤◌, ◌<◌, ◌≡◌, List, [], ◌∷◌, ◌==◌, ltb, get_or,
  length, drop, Result, ok, err, gacha, sold_out, ◌>>=◌, ◌>>◌, reject_if, if◌then◌else◌, arith,
  Bool, true, false,
}
pub mod Laws
mod Tests
use solana_gacha.Core.State.{Tier, Pool, tiers}

-- `u64::from_le_bytes` of the eight bytes from `i` on.
unfoldable pub u64_at : List ℕ → ℕ → ℕ
u64_at d i =
    byte 0
    + 2 ^ 8 * byte 1
    + 2 ^ 16 * byte 2
    + 2 ^ 24 * byte 3
    + 2 ^ 32 * byte 4
    + 2 ^ 40 * byte 5
    + 2 ^ 48 * byte 6
    + 2 ^ 56 * byte 7
  where
    byte : ℕ → ℕ
    byte k = get_or d (i + k) 0

-- The weights of the tiers with items left, summed. Eight 32-bit numbers fit 64 bits.
unfoldable pub eligible_weight : List Tier → List ℕ → ℕ
eligible_weight [] counts = 0
eligible_weight (t ∷ ts) [] = 0
eligible_weight (t ∷ ts) (c ∷ cs) =
    let rest = eligible_weight ts cs in if ltb 0 c then t.weight + rest else rest

-- The loop over the tiers, from tier `i` on.
unfoldable pub pick_tier : List Tier → List ℕ → ℕ → ℕ → Result ℕ
pick_tier [] counts i roll = err (gacha sold_out)
pick_tier (t ∷ ts) counts i roll =
    let skip = pick_tier ts counts (i + 1) roll in
    let later = pick_tier ts counts (i + 1) (roll - t.weight) in
    if get_or counts i 0 == 0 then skip else if ltb roll t.weight then ok i else later

unfoldable pub draw_tier : Pool → List ℕ → List ℕ → Result ℕ
draw_tier p hash counts = do
  let total = eligible_weight (tiers p) counts
  reject_if (total == 0) (gacha sold_out)
  pick_tier (tiers p) counts 0 (u64_at hash 0 % total)

unfoldable pub draw : Pool → List ℕ → List ℕ → Result (ℕ × ℕ)
draw p hash counts = do
  tier ← draw_tier p hash counts
  let rank = u64_at hash 8 % get_or counts tier 0
  ok (tier, rank % 2 ^ 32)

-- The eligible weight of the tiers before tier `n`.
pub weight_before : List Tier → List ℕ → ℕ → ℕ
weight_before ts counts zero = 0
weight_before [] counts (suc n) = 0
weight_before (t ∷ ts) [] (suc n) = 0
weight_before (t ∷ ts) (c ∷ cs) (suc n) =
    let rest = weight_before ts cs n in if ltb 0 c then t.weight + rest else rest
