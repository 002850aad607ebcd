-- ===== src/Program/Restock.antt =====
-- program/src/inventory.rs, `check_restock` and `restock`: a new item at the pool's next position.
use solana_gacha.Prelude.{
  ℕ, ◌+◌, ◌-◌, List, [], ◌∷◌, ◌++◌, ◌==◌, ltb, leb, if◌then◌else◌, length, Result, ok, err, gacha,
  ◌>>=◌, ◌>>◌, require, reject_if, ok_or, add_word, invalid_tier, invalid_seeds,
  invalid_account_length,
}
use solana_gacha.Core.Constants.{pool_len, item_len, inventory_space}
use solana_gacha.Core.State.{Pubkey, Pool, Item, new_item}
use solana_gacha.Core.Stock.{add_remaining}
use solana_gacha.Inventory.{append}
use solana_gacha.Core.Seeds.{item_seeds}
use solana_gacha.Program.Account.{
  AccountInfo, Env, Call, fund, data_len, load_pool, check_uninitialized, create_pda, invoke_all,
}
use solana_gacha.Bytes.{le_bytes}
pub mod Laws

-- The pool's next position, with the checks that its Item account is still to be created.
unfoldable pub check_restock : Env → Pool → Pubkey → AccountInfo → ℕ → ℕ → Result ℕ
check_restock env p pool_key item tier bump = do
  reject_if (leb p.tier_count tier) (gacha invalid_tier)
  let position = p.inventory_version
  key ←
      ok_or (env.create_program_address (item_seeds env.key_bytes pool_key tier position bump))
        (gacha invalid_seeds)
  require (key == item.key) (gacha invalid_seeds)
  check_uninitialized env item
  ok position

-- What a restock leaves: the pool, the index, the new item, and the calls.
pub record Restocked : Type 0 where
  pub pool : Pool
  pub index : List ℕ
  pub item : Item
  pub calls : List Call

-- The calls that fund the account's new space.
abbrev pub space_calls : Env → AccountInfo → AccountInfo → ℕ → List Call
space_calls env payer pool_account space =
    let missing = env.minimum_balance space - pool_account.lamports in
    if space == data_len pool_account.body
    then []
    else (if ltb 0 missing then fund payer.key pool_account.key missing ∷ [] else [])

-- `pool_account.realloc(space, false)`, where the space differs.
unfoldable pub extend : Env → AccountInfo → List ℕ → ℕ → Result (List ℕ)
extend env pool_account d space =
    if pool_len + space == data_len pool_account.body then ok d else env.realloc d space

unfoldable pub restock :
    Env → AccountInfo → AccountInfo → AccountInfo → Pubkey → ℕ → ℕ → Result Restocked
restock env payer pool_account item_account asset tier bump = do
  (p, d) ← load_pool env pool_account
  let position = p.inventory_version
  version ← add_word 32 position 1
  let space = inventory_space version
  invoke_all env (space_calls env payer pool_account (pool_len + space))
  grown ← extend env pool_account d space
  invoke_all env (create_pda env payer item_account item_len)
  require (length grown == space) (gacha invalid_account_length)
  index ← append grown position tier
  pool ← add_remaining (record p { inventory_version = version }) tier
  ok (record {
    pool = pool;
    index = index;
    item = new_item bump tier position pool_account.key asset;
    calls =
        space_calls env payer pool_account (pool_len + space)
        ++ create_pda env payer item_account item_len;
  })
