-- ===== src/Program/Deposit.antt =====
-- program/src/admin/deposit_item.rs.
use solana_gacha.Prelude.{
  ℕ, List, [], ◌∷◌, ◌++◌, ◌==◌, ◌&&◌, length, get_or, Result, ok, err, gacha, ◌>>=◌, ◌>>◌, require,
  reject_if, not_enough_account_keys, invalid_instruction_data, not_signer, not_mutable,
  invalid_authority, invalid_pool_status,
}
use solana_gacha.Core.Constants.{pool_retired}
use solana_gacha.Program.Events.{event_bytes, deposit_item_fields}
use solana_gacha.Program.Account.{AccountInfo, Env, Call, asset_transfer, emit, load_pool}
use solana_gacha.Bytes.{le_bytes}
use solana_gacha.Program.Restock.{Restocked, check_restock, restock}
mod Tests

pub record DepositItemAccounts : Type 0 where
  pub authority : AccountInfo
  pub pool : AccountInfo
  pub item : AccountInfo
  pub asset : AccountInfo
  pub collection : AccountInfo

pub deposit_item_accounts : Env → List AccountInfo → Result DepositItemAccounts
deposit_item_accounts env (authority ∷ pool ∷ item ∷ asset ∷ collection ∷ _ ∷ _ ∷ _ ∷ _ ∷ []) = do
  require authority.is_signer (gacha not_signer)
  require (pool.is_writable && item.is_writable) (gacha not_mutable)
  (p, _) ← load_pool env pool
  require (p.authority == authority.key) (gacha invalid_authority)
  reject_if (p.status == pool_retired) (gacha invalid_pool_status)
  ok (record {
    authority = authority;
    pool = pool;
    item = item;
    asset = asset;
    collection = collection;
  })
deposit_item_accounts env _ = err not_enough_account_keys

-- The tier and the bump.
abbrev pub deposit_item_instruction : List ℕ → Result (ℕ × ℕ)
deposit_item_instruction bytes =
    require (length bytes == 2) invalid_instruction_data >> ok (get_or bytes 0 0, get_or bytes 1 0)

abbrev pub deposit_item_event : Env → DepositItemAccounts → ℕ → ℕ → Call
deposit_item_event env a tier position =
    emit (event_bytes env.key_bytes (deposit_item_fields a.pool.key a.asset.key tier position))

unfoldable pub deposit_item : Env → DepositItemAccounts → ℕ → ℕ → Result Restocked
deposit_item env a tier bump = do
  (p, _) ← load_pool env a.pool
  position ← check_restock env p a.pool.key a.item tier bump
  r ← restock env a.authority a.pool a.item a.asset.key tier bump
  let transfer =
      asset_transfer a.authority.key a.authority.key a.pool.key a.asset.key a.collection.key
  env.invoke transfer
  env.invoke (deposit_item_event env a tier position)
  ok (record r { calls = r.calls ++ (transfer ∷ deposit_item_event env a tier position ∷ []) })
