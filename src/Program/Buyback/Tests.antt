-- ===== src/Program/Buyback/Tests.antt =====
-- The buyback of program/src/player/buyback.rs on a concrete pool.
use solana_gacha.Prelude.{ℕ, ◌+◌, ◌≡◌, refl, List, [], ◌∷◌, ◌++◌, ok, arith, replicate, set}
use solana_gacha.Bytes.{u32_at, put_u32}
use solana_gacha.Core.Constants.{item_len, pool_len}
use solana_gacha.Core.Draw.{u64_at}
use solana_gacha.Core.State.{Pool, new_item, refund_amount, refund_total}
use solana_gacha.Core.Stock.{add_remaining}
use solana_gacha.Inventory.{
  count, set_count, add_counts, prefix_loop, prefix_counts, append, open_block, set_counts,
  raise_nodes,
}
use solana_gacha.Inventory.Tests.{one}
use solana_gacha.Program.Account.{
  TokenAccount, raw, check_account, load_pool, load_token, invoke_all, create_pda, asset_transfer,
  token_transfer,
}
use solana_gacha.Program.Restock.{Restocked, check_restock, extend, restock, space_calls}
use solana_gacha.Program.Buyback.{
  BuybackAccounts, BuybackInstruction, buyback_accounts, buyback_instruction, buyback,
  buyback_event,
}
use solana_gacha.Program.Buyback.Laws.{IsQuoted, buyback-ok}
use solana_gacha.Program.Scene.{
  env, account, pool_of, pool_account, vault_account, ata_account, other, one_tier,
}

abbrev returning : BuybackAccounts
returning = record {
  payer = other;
  seller = other;
  pool = pool_account 0;
  item = account 20 0 (raw 0);
  asset = account 99 0 (raw 0);
  collection = account 98 0 (raw 0);
  vault = vault_account;
  destination = ata_account;
}

abbrev offer : List ℕ
offer = 2 ∷ 50 ∷ replicate 7 0 ++ (208 ∷ 7 ∷ replicate 6 0 ++ (replicate 64 0 ++ (3 ∷ [])))

abbrev quote : BuybackInstruction
quote = record { tier = 2; price = 50; expires_at = 2000; signature = replicate 64 0; bump = 3 }

buyback_accounts_run :
    buyback_accounts env (
      other
      ∷ other
      ∷ pool_account 0
      ∷ account 20 0 (raw 0)
      ∷ account 99 0 (raw 0)
      ∷ account 98 0 (raw 0)
      ∷ vault_account
      ∷ ata_account
      ∷ other
      ∷ other
      ∷ other
      ∷ other
      ∷ other
      ∷ [])
    ≡ ok returning
unfolding buyback_accounts load_pool load_token check_account
buyback_accounts_run = refl

offer_run : buyback_instruction env offer ≡ ok quote
unfolding buyback_instruction u64_at
offer_run = refl

abbrev returned : Restocked
returned = record {
  pool = record (pool_of 0) { inventory_version = 2; all_tiers = one_tier 2 };
  index = set (set one 8 2) 33 3;
  item = new_item 3 2 1 10 99;
  calls =
      asset_transfer 50 50 10 99 98
      ∷ (space_calls env other (pool_account 0) (pool_len + 96)
          ++ create_pda env other (account 20 0 (raw 0)) item_len
          ++ (token_transfer 40 41 10 50 ∷ buyback_event env returning 50 1 ∷ []));
}

buyback_run : buyback env returning quote ≡ ok returned
unfolding buyback check_restock restock extend load_pool load_token check_account invoke_all
    create_pda append open_block prefix_counts prefix_loop add_counts count set_count set_counts
    raise_nodes u32_at put_u32 add_remaining new_item refund_amount refund_total
buyback_run = refl

buyback-ok_example :
    (p : Pool) × (d : List ℕ) × (token : TokenAccount) × (load_pool env (pool_account 0)
      ≡ ok (p, d))
    × (load_token env vault_account ≡ ok token)
    × IsQuoted env returning quote p token
buyback-ok_example =
    buyback-ok env returning offer offer_run (omega arith) (omega arith) buyback_run
