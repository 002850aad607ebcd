-- ===== src/Program/Lifecycle/Reclaim.antt =====
-- program/src/admin/lifecycle.rs, `Reclaim`.
use solana_gacha.Prelude.{
  ℕ, List, [], ◌∷◌, ◌&&◌, ◌||◌, ◌==◌, leb, get_or, Result, ok, err, gacha, ◌>>=◌, ◌>>◌, require,
  reject_if, not_enough_account_keys, not_signer, not_mutable, invalid_authority,
  invalid_pool_status, pending_purchases, invalid_item,
}
use solana_gacha.Core.Constants.{pool_retired}
use solana_gacha.Core.State.{Pool, tiers, empty_tier}
use solana_gacha.Core.Stock.{take_remaining}
use solana_gacha.Inventory.{remove}
use solana_gacha.Program.Events.{event_bytes, reclaim_fields}
use solana_gacha.Program.Account.{
  AccountInfo, Env, Call, asset_transfer, emit, load_pool, load_item, close,
}

pub record ReclaimAccounts : Type 0 where
  pub authority : AccountInfo
  pub pool : AccountInfo
  pub item : AccountInfo
  pub asset : AccountInfo
  pub collection : AccountInfo

unfoldable pub reclaim_accounts : Env → List AccountInfo → Result ReclaimAccounts
reclaim_accounts env (authority ∷ pool ∷ item ∷ asset ∷ collection ∷ _ ∷ _ ∷ _ ∷ _ ∷ []) = do
  require authority.is_signer (gacha not_signer)
  require (authority.is_writable && pool.is_writable && item.is_writable) (gacha not_mutable)
  (p, _) ← load_pool env pool
  require (p.authority == authority.key) (gacha invalid_authority)
  require (p.status == pool_retired) (gacha invalid_pool_status)
  require (p.pending_draws == 0) (gacha pending_purchases)
  i ← load_item env item
  require (i.pool == pool.key && i.asset == asset.key) (gacha invalid_item)
  reject_if (leb p.tier_count i.tier || leb p.inventory_version i.position) (gacha invalid_item)
  reject_if ((get_or (tiers p) i.tier empty_tier).remaining == 0) (gacha invalid_item)
  ok (record {
    authority = authority;
    pool = pool;
    item = item;
    asset = asset;
    collection = collection;
  })
reclaim_accounts env _ = err not_enough_account_keys

-- What a reclaim leaves: the pool, the index, the authority's lamports, and the calls.
pub record Reclaimed : Type 0 where
  pub pool : Pool
  pub index : List ℕ
  pub lamports : ℕ
  pub calls : List Call

abbrev pub reclaim_event : Env → ReclaimAccounts → ℕ → Call
reclaim_event env a position =
    emit (event_bytes env.key_bytes (reclaim_fields a.pool.key a.asset.key position))

unfoldable pub reclaim : Env → ReclaimAccounts → Result Reclaimed
reclaim env a = do
  i ← load_item env a.item
  (p, d) ← load_pool env a.pool
  index ← remove d i.position i.tier
  pool ← take_remaining p i.tier
  let transfer =
      asset_transfer a.authority.key a.pool.key a.authority.key a.asset.key a.collection.key
  env.invoke transfer
  lamports ← close a.item a.authority.lamports
  env.invoke (reclaim_event env a i.position)
  ok (record {
    pool = pool;
    index = index;
    lamports = lamports;
    calls = transfer ∷ reclaim_event env a i.position ∷ [];
  })
