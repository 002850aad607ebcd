-- ===== src/Core/Draw/Tests.antt =====
-- A draw of packages/gacha-core on concrete tiers and counts.
use solana_gacha.Prelude.{
  ℕ, zero, suc, ◌%◌, ◌^◌, ◌<◌, ◌≤◌, ◌≡◌, refl, List, [], ◌∷◌, ◌++◌, get_or-replicate, ok, arith,
  replicate, get_or, length,
}
use solana_gacha.Core.State.{Pool, tiers, new_pool}
use solana_gacha.Core.Draw.{u64_at, eligible_weight, pick_tier, draw_tier, draw}
use solana_gacha.Core.Draw.Laws.{Owns, draw-ok}

-- A pool with the weights 70, 25 and 5.
abbrev pool : Pool
pool = new_pool 0 1 2 3 4 0 100 50 10 (70 ∷ 25 ∷ 5 ∷ [])

abbrev eligible : List ℕ
eligible = 4 ∷ 0 ∷ 2 ∷ 0 ∷ 0 ∷ 0 ∷ 0 ∷ 0 ∷ []

abbrev hash : List ℕ
hash = 73 ∷ replicate 7 0 ++ (5 ∷ replicate 7 0)

-- The roll 73 falls to tier 2, since tier 1 is out of stock.
draw_run : draw pool hash eligible ≡ ok (2, 1)
unfolding draw draw_tier pick_tier eligible_weight u64_at new_pool
draw_run = refl

eligible_word : (t : ℕ) → get_or eligible t 0 < 2 ^ 32
eligible_word zero = omega arith
eligible_word (suc zero) = omega arith
eligible_word (suc (suc zero)) = omega arith
eligible_word (suc (suc (suc t))) = let z : ℕ = 0 in omega (arith, get_or-replicate 5 t z)

in_use : length (tiers pool) ≤ length eligible
unfolding new_pool
in_use = omega arith

some_weight : 0 < eligible_weight (tiers pool) eligible
unfolding new_pool eligible_weight
some_weight = omega arith

draw-ok_example :
    (k : ℕ) × (rank : ℕ) × (draw pool hash eligible ≡ ok (k, rank))
    × Owns (tiers pool) eligible k (u64_at hash 0 % eligible_weight (tiers pool) eligible)
    × (rank ≡ u64_at hash 8 % get_or eligible k 0)
    × (rank < get_or eligible k 0)
draw-ok_example = draw-ok pool hash eligible in_use some_weight eligible_word
