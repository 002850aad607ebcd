-- ===== src/Program/Loads/Tests.antt =====
-- Runs of the loads of program/src/state.rs on bytes.
use solana_gacha.Prelude.{
  ℕ, ◌≡◌, refl, List, ◌∷◌, ok, err, gacha, invalid_account_length, map_ok, replicate, drop, ◌^◌,
}
use solana_gacha.Bytes.{le_bytes}
use solana_gacha.Core.Constants.{pool_len}
use solana_gacha.Core.Layout.{over_pool, over_item, pool_view}
use solana_gacha.Program.Account.{AccountInfo, load_pool}
use solana_gacha.Program.Scene.{env, operator_account}
use solana_gacha.Program.Loads.{
  load_raw_pool, load_new_pool, load_new_item, load_raw_item, check_new, decode_pool,
}
use solana_gacha.Program.Loads.Laws.{load_pool-decode_pool}

-- A pool of version 1 with one block of index.
abbrev pool_bytes : List ℕ
pool_bytes = 1 ∷ 254 ∷ 3 ∷ 1 ∷ 1 ∷ 0 ∷ 0 ∷ 0 ∷ le_bytes 344 (7 ^ 900)

abbrev pull_bytes : List ℕ
pull_bytes = 1 ∷ 254 ∷ 0 ∷ 2 ∷ le_bytes 446 (7 ^ 1200)

abbrev owned : AccountInfo
owned = record operator_account { owner = env.program_id }

zeroed_is_new : load_new_pool env 1 (replicate pool_len 0) ≡ ok (over_pool (replicate pool_len 0))
unfolding load_new_pool check_new over_pool
zeroed_is_new = refl

load_pool-decode_pool_example :
    load_pool env (record owned { body = decode_pool pool_bytes })
    ≡ map_ok (λ r. (pool_view r, drop pool_len pool_bytes)) (load_raw_pool env 1 pool_bytes)
load_pool-decode_pool_example = load_pool-decode_pool env owned pool_bytes

pool_loads : load_raw_pool env 1 pool_bytes ≡ ok (over_pool pool_bytes)
unfolding load_raw_pool over_pool
pool_loads = refl

new_item_loads : load_new_item env 1 (replicate 72 0) ≡ ok (over_item (replicate 72 0))
unfolding load_new_item check_new over_item
new_item_loads = refl

item_too_long : load_raw_item env 1 (1 ∷ replicate 72 0) ≡ err (gacha invalid_account_length)
unfolding load_raw_item over_item
item_too_long = refl
