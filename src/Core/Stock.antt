-- ===== src/Core/Stock.antt =====
-- packages/gacha-core/src/state.rs, `Pool::tiers_mut` as the program uses it: one item more or less in
-- a tier. An index past the tiers in use panics.
use solana_gacha.Prelude.{
  ℕ, ltb, length, get_or, set, Result, ok, ◌>>=◌, ◌>>◌, panic, require, add_word, sub_word,
}
use solana_gacha.Core.State.{Tier, Pool, empty_tier, tiers}
pub mod Laws

-- `let selected = &mut pool.tiers_mut()[tier]; selected.set_remaining(selected.remaining() - 1);`
unfoldable pub take_remaining : Pool → ℕ → Result Pool
take_remaining p tier = do
  require (ltb tier (length (tiers p))) panic
  let selected = get_or p.all_tiers tier empty_tier
  left ← sub_word selected.remaining 1
  ok (record p { all_tiers = set p.all_tiers tier (record selected { remaining = left }) })

-- `let tier = &mut pool.tiers_mut()[tier]; tier.set_remaining(tier.remaining() + 1);`
unfoldable pub add_remaining : Pool → ℕ → Result Pool
add_remaining p tier = do
  require (ltb tier (length (tiers p))) panic
  let selected = get_or p.all_tiers tier empty_tier
  more ← add_word 32 selected.remaining 1
  ok (record p { all_tiers = set p.all_tiers tier (record selected { remaining = more }) })
