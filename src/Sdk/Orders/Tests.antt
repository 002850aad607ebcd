-- ===== src/Sdk/Orders/Tests.antt =====
-- The instructions of a client, read by the program.
use solana_gacha.Prelude.{ℕ, ◌≡◌, refl, List, [], ◌∷◌, ok, ◌>>=◌, replicate, drop}
use solana_gacha.Bytes.{u32_at}
use solana_gacha.Core.Draw.{u64_at}
use solana_gacha.Core.Constants.{pool_retired}
use solana_gacha.Core.State.{new_item, new_pull, refund_total}
use solana_gacha.Program.Create.{contains_zero, check_params, create_pool_instruction}
use solana_gacha.Program.Buy.{buy_instruction}
use solana_gacha.Program.Lifecycle.{status_instruction}
use solana_gacha.Program.Deposit.{deposit_item_instruction}
use solana_gacha.Program.Buyback.{buyback_instruction}
use solana_gacha.Program.Scene.{env, pool_of}
use solana_gacha.Sdk.{PoolSnapshot, Instruction}
use solana_gacha.Sdk.Orders.{
  buy_order, deposit_order, buyback_order, reclaim_order, status_order, check_pending, refund_order,
  create_data, create_order,
}
use solana_gacha.Sdk.Scene.{host, snapshot, owed_snapshot, pending_pull, held_asset, own_asset}

-- The program's reading of an instruction's data, past the discriminator.
abbrev second : List Instruction → List ℕ
second (i ∷ j ∷ rest) = drop 1 j.bytes
second _ = []

buy_read :
    (buy_order host snapshot (record { buyer = 50; count = 1; client_seed = replicate 32 5 })
      >>= λ o. buy_instruction (drop 1 o.sent.bytes))
    ≡ ok (record { count = 1; client_seed = replicate 32 5; inventory_version = 1; bump = 7 })
unfolding buy_order buy_instruction u32_at
buy_read = refl

deposit_read :
    (deposit_order host snapshot 2 own_asset >>= λ i. deposit_item_instruction (drop 1 i.bytes))
    ≡ ok (2, 7)
unfolding deposit_order
deposit_read = refl

status_read : (status_order host snapshot 2 >>= λ i. status_instruction (drop 1 i.bytes)) ≡ ok 2
unfolding status_order status_instruction
status_read = refl

buyback_read :
    (buyback_order host snapshot
        (record { pool = 10; asset = 99; price = 50; expires_at = 2000; tier = 2 })
        (replicate 64 0)
        own_asset
        50
      >>= λ is. buyback_instruction env (second is))
    ≡ ok (record { tier = 2; price = 50; expires_at = 2000; signature = replicate 64 0; bump = 7 })
unfolding buyback_order buyback_instruction u64_at
buyback_read = refl

create_read :
    (create_order host
        (record {
          id = 9;
          price = 100;
          deadline_slots = 50;
          bond_per_draw = 10;
          bond = 5;
          weights = 1 ∷ 300 ∷ 7 ∷ [];
        })
        5
        30
        6
      >>= λ is. create_pool_instruction (second is))
    ≡ ok (record {
      id = 9;
      price = 100;
      deadline_slots = 50;
      bond_per_draw = 10;
      tier_count = 3;
      weights = 1 ∷ 300 ∷ 7 ∷ replicate 5 0;
      bump = 7;
    })
unfolding create_order create_data create_pool_instruction check_params contains_zero refund_total
    u64_at u32_at
create_read = refl

refund_read : (refund_order host owed_snapshot pending_pull 50 >>= λ is. ok (second is)) ≡ ok []
unfolding refund_order check_pending new_pull
refund_read = refl

abbrev retired_snapshot : PoolSnapshot
retired_snapshot = record snapshot { header = record (pool_of 0) { status = pool_retired } }

reclaim_read :
    (reclaim_order host retired_snapshot
        (record { address = 60; header = new_item 0 2 0 10 99 })
        held_asset
      >>= λ i. ok i.bytes)
    ≡ ok (4 ∷ [])
unfolding reclaim_order new_item
reclaim_read = refl
