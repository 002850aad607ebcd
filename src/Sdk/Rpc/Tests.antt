-- ===== src/Sdk/Rpc/Tests.antt =====
-- A settlement prepared from the answers of an RPC server.
use solana_gacha.Prelude.{
  ℕ, ◌+◌, ◌≤◌, ◌≡◌, refl, List, [], ◌∷◌, ◌++◌, true, Option, none, some, ◌==◌, if◌then◌else◌, ok,
  err, sdk, missing_account, value_or, ◌>>=◌, length, replicate,
}
use solana_gacha.Prelude.SdkErrors.{invalid_account, invalid_asset, not_settled}
use solana_gacha.Core.State.{Pubkey, new_pool, new_pull, new_item}
use solana_gacha.Core.Draw.{u64_at, eligible_weight, pick_tier, draw_tier, draw}
use solana_gacha.Core.Asset.{core_id, core_asset, collection_part}
use solana_gacha.Core.Layout.{pool_bytes, item_bytes, pull_bytes, over_pool, over_item, over_pull}
use solana_gacha.Core.Layout.Laws.{raw_pool, raw_item, raw_pull}
use solana_gacha.Inventory.View.{tag}
use solana_gacha.Inventory.Positions.{remove_at}
use solana_gacha.Inventory.Tests.{one}
use solana_gacha.Market.Scene.{sold_one, pull}
use solana_gacha.Sdk.{Host, Instruction, PoolSnapshot, PullSnapshot, ItemSnapshot, Asset}
use solana_gacha.Sdk.Scene.{host}
use solana_gacha.Sdk.Assets.{asset_from_account}
use solana_gacha.Sdk.Batches.{batches, pack, retain, transaction_size}
use solana_gacha.Sdk.Batches.Laws.{flatten, IsWithin, IsFilled}
use solana_gacha.Sdk.Orders.{check_pending, buy_order, buyback_order, refund_order}
use solana_gacha.Sdk.Pools.{pool_from_account, any_weightless, tally, any_other}
use solana_gacha.Sdk.Plan.{Settlement, scan, plan, settle_order, settlement_instruction}
use solana_gacha.Sdk.Pulls.{
  outcomes, check_pull, pull_from_account, item_from_account, any_bad, deliver_order, deliveries,
  any_misplaced, placed, settlement_batches,
}
use solana_gacha.Sdk.Rpc.{
  UiAccount, Rpc, unpack, read, discover, fetch_pool, fetch_pull, fetch_item, fetch_asset,
  client_buy, client_buyback, client_refund, client_deliver, owed_assets, fetch_snapshot,
  read_items, read_assets, fetch_assets, item_keys, asset_keys, client_settle,
}
use solana_gacha.Sdk.Rpc.Laws.{settled_delivery, client_settle-ok}
use solana_gacha.Sdk.Pulls.Delivery.{DeliversDraws}

abbrev core_host : Host
core_host = record host { key_bytes = λ k. if k == 3 then core_id else k ∷ [] }

abbrev pool_data : List ℕ
unfolding pool_bytes new_pool
pool_data = pool_bytes (raw_pool (record sold_one { bump = 7; vault = 112 })) ++ one

abbrev pull_data : List ℕ
unfolding pull_bytes new_pull
pull_data = pull_bytes (raw_pull (record pull { bump = 7 }))

abbrev item_data : List ℕ
unfolding item_bytes new_item
item_data = item_bytes (raw_item (new_item 7 2 0 111 99))

abbrev asset_data : List ℕ
asset_data = 1 ∷ 111 ∷ replicate 32 0

-- The accounts that the server knows.
abbrev known : Pubkey → Option UiAccount
known key =
    if key == 111
    then some (record { owner = some 1; decoded = some pool_data })
    else if key == 117
    then some (record { owner = some 1; decoded = some pull_data })
    else if key == 116
    then some (record { owner = some 1; decoded = some item_data })
    else if key == 99
    then some (record { owner = some 3; decoded = some asset_data })
    else none

abbrev all_known : List Pubkey → List (Option UiAccount)
all_known [] = []
all_known (k ∷ keys) = known k ∷ all_known keys

abbrev server : Rpc
server call keys minimum slice = ok (record { slot = 500 + call; value = all_known keys })

missing : read server 0 (117 ∷ 55 ∷ []) none none ≡ err (missing_account 55)
unfolding read unpack
missing = refl

behind : read server 0 (117 ∷ []) (some 501) none ≡ err (sdk invalid_account)
unfolding read unpack
behind = refl

pull_read : read server 1 (117 ∷ []) (some 500) none ≡ ok (501, (1, pull_data) ∷ [])
unfolding read unpack
pull_read = refl

abbrev groups : List (List Instruction)
unfolding client_settle
groups = value_or (client_settle core_host server 117 (replicate 80 0) 50) []

settled : client_settle core_host server 117 (replicate 80 0) 50 ≡ ok groups
unfolding client_settle groups fetch_snapshot discover read unpack pool_data pull_data item_data
    pool_from_account any_weightless tally any_other tag check_pull pull_from_account any_bad
    over_pool over_pull over_item pool_bytes pull_bytes item_bytes new_pool new_pull new_item
    settle_order check_pending scan plan draw draw_tier pick_tier eligible_weight u64_at remove_at
    read_items item_from_account fetch_assets read_assets asset_from_account core_asset
    collection_part settlement_batches any_misplaced placed deliveries deliver_order batches pack
    retain transaction_size
settled = refl

client_settle-ok_example :
    (pool : PoolSnapshot) × (l : PullSnapshot) × (slot : ℕ) × (plan : Settlement) × (later : ℕ)
    × (accounts : List (Pubkey × List ℕ)) × (items : List ItemSnapshot) × (assets : List Asset)
    × (sent : List Instruction) × (fetch_snapshot core_host server 117 true ≡ ok (pool, l, slot))
    × (l.address ≡ 117)
    × (settle_order core_host pool l (replicate 80 0) ≡ ok plan)
    × (read server 2 (item_keys plan.draws) (some slot) none ≡ ok (later, accounts))
    × (slot ≤ later)
    × (read_items core_host (item_keys plan.draws) accounts ≡ ok items)
    × (fetch_assets core_host server 3 (asset_keys items) (some later) ≡ ok assets)
    × (flatten groups ≡ settlement_instruction core_host plan ∷ sent)
    × DeliversDraws core_host (settled_delivery plan 50) 0 plan.draws items assets sent
    × IsWithin core_host 50 groups
    × IsFilled groups
client_settle-ok_example = client_settle-ok core_host server 117 (replicate 80 0) 50 settled

-- The other reads, and what the client prepares from them.
pool_fetched : (fetch_pool core_host server 111 >>= λ s. ok (length s.index)) ≡ ok 96
unfolding fetch_pool read unpack pool_data pool_from_account any_weightless tally any_other tag
    over_pool pool_bytes new_pool
pool_fetched = refl

pull_fetched : (fetch_pull core_host server 117 >>= λ l. ok l.header.buyer) ≡ ok 50
unfolding fetch_pull read unpack pull_data pull_from_account check_pull over_pull pull_bytes
    new_pull
pull_fetched = refl

item_fetched : (fetch_item core_host server 116 >>= λ i. ok i.header.asset) ≡ ok 99
unfolding fetch_item read unpack item_data item_from_account over_item item_bytes new_item
item_fetched = refl

asset_fetched :
    fetch_asset core_host server 99 ≡ ok (record { address = 99; owner = 111; collection = none })
unfolding fetch_asset fetch_assets read unpack read_assets asset_from_account core_asset
    collection_part
asset_fetched = refl

bought :
    (client_buy core_host server 111
        (record { buyer = 50; count = 1; client_seed = replicate 32 5 })
      >>= λ p. ok p.pull)
    ≡ ok 117
unfolding client_buy read unpack pool_data pool_from_account any_weightless tally any_other tag
    over_pool pool_bytes new_pool buy_order
bought = refl

-- The asset is the pool's already.
not_returned :
    client_buyback core_host server
      (record { pool = 111; asset = 99; price = 50; expires_at = 2000; tier = 2 })
      (replicate 64 0)
      50
    ≡ err (sdk invalid_asset)
unfolding client_buyback read unpack pool_data pool_from_account any_weightless tally any_other tag
    over_pool pool_bytes new_pool asset_from_account core_asset collection_part buyback_order
not_returned = refl

refunding : (client_refund core_host server 117 50 >>= λ sent. ok (length sent)) ≡ ok 2
unfolding client_refund fetch_snapshot discover read unpack pool_data pull_data pool_from_account
    any_weightless tally any_other tag check_pull pull_from_account over_pool over_pull pool_bytes
    pull_bytes new_pool new_pull refund_order check_pending
refunding = refl

-- A pending pull has nothing to deliver.
nothing_owed : client_deliver core_host server 117 50 ≡ err (sdk not_settled)
unfolding client_deliver discover read unpack pull_data check_pull pull_from_account over_pull
    pull_bytes new_pull outcomes owed_assets
nothing_owed = refl
