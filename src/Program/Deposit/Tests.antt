-- ===== src/Program/Deposit/Tests.antt =====
-- A restock of program/src/inventory.rs on a concrete pool.
use solana_gacha.Prelude.{◌+◌, ◌≡◌, refl, [], ◌∷◌, ◌++◌, ok, arith, set}
use solana_gacha.Bytes.{u32_at, put_u32}
use solana_gacha.Core.Constants.{item_len, pool_len}
use solana_gacha.Core.State.{new_item}
use solana_gacha.Core.Stock.{add_remaining}
use solana_gacha.Inventory.{
  count, set_count, add_counts, prefix_loop, prefix_counts, append, open_block, set_counts,
  raise_nodes,
}
use solana_gacha.Inventory.Tests.{one, one-IsStocked}
use solana_gacha.Program.Account.{raw, check_account, load_pool, invoke_all, create_pda}
use solana_gacha.Program.Restock.{Restocked, extend, restock, space_calls}
use solana_gacha.Program.Restock.Laws.{IsRestocked, restock-ok}
use solana_gacha.Program.Deposit.{deposit_item_accounts}
use solana_gacha.Program.Scene.{env, account, pool_of, pool_account, other, one_tier}

deposit_item_accounts_run :
    deposit_item_accounts env (
      account 5 0 (raw 0)
      ∷ pool_account 0
      ∷ account 20 0 (raw 0)
      ∷ account 99 0 (raw 0)
      ∷ account 98 0 (raw 0)
      ∷ other
      ∷ other
      ∷ other
      ∷ other
      ∷ [])
    ≡ ok (record {
      authority = account 5 0 (raw 0);
      pool = pool_account 0;
      item = account 20 0 (raw 0);
      asset = account 99 0 (raw 0);
      collection = account 98 0 (raw 0);
    })
unfolding deposit_item_accounts load_pool check_account
deposit_item_accounts_run = refl

abbrev restocked : Restocked
restocked = record {
  pool = record (pool_of 0) { inventory_version = 2; all_tiers = one_tier 2 };
  index = set (set one 8 2) 33 3;
  item = new_item 3 2 1 10 99;
  calls =
      space_calls env other (pool_account 0) (pool_len + 96)
      ++ create_pda env other (account 20 0 (raw 0)) item_len;
}

restock_run : restock env other (pool_account 0) (account 20 0 (raw 0)) 99 2 3 ≡ ok restocked
unfolding restock extend load_pool check_account invoke_all create_pda append open_block
    prefix_counts prefix_loop add_counts count set_count set_counts raise_nodes u32_at put_u32
    add_remaining new_item
restock_run = refl

pool_loads : load_pool env (pool_account 0) ≡ ok (pool_of 0, one)
unfolding load_pool check_account
pool_loads = refl

restock-ok_example :
    IsRestocked (pool_of 0) one restocked.pool restocked.index 2
    × (restocked.item ≡ new_item 3 2 1 10 99)
restock-ok_example =
    restock-ok env other (pool_account 0) (account 20 0 (raw 0)) 99 2 3 pool_loads refl
      one-IsStocked (omega arith) (omega arith) restock_run
