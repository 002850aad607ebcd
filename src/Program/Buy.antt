-- ===== src/Program/Buy.antt =====
-- program/src/player/buy.rs.
pub mod Laws
mod Tests
use solana_gacha.Prelude.{
  ℕ, suc, ◌+◌, ◌-◌, ◌*◌, ◌^◌, List, [], ◌∷◌, ◌++◌, Bool, true, false, Option, none, some, ◌==◌, ltb,
  leb, length, get_or, take, drop, Result, ok, err, gacha, ◌>>=◌, ◌>>◌, require, reject_if, ok_or,
  add_word, not, ◌&&◌, ◌||◌, if◌then◌else◌, not_enough_account_keys, invalid_instruction_data,
  not_signer, not_mutable, invalid_pool_status, invalid_token_address, invalid_count, invalid_seeds,
  inventory_changed, sold_out, insufficient_balance,
}
use solana_gacha.Core.Constants.{pool_active, max_count, pull_len}
use solana_gacha.Core.State.{Pubkey, Pool, Pull, new_pull, payment, refund_amount, remaining}
use solana_gacha.Core.Seeds.{pull_seeds}
use solana_gacha.Bytes.{u32_at}
use solana_gacha.Program.Events.{event_bytes, buy_fields}
use solana_gacha.Program.Account.{
  AccountInfo, Env, Call, token_transfer, emit, TokenAccount, load_pool, load_token,
  check_uninitialized, create_pda, invoke_all,
}
use solana_gacha.Bytes.{le_bytes}

pub record BuyAccounts : Type 0 where
  pub buyer : AccountInfo
  pub pool : AccountInfo
  pub pull : AccountInfo
  pub buyer_ata : AccountInfo
  pub vault : AccountInfo

pub buy_accounts : Env → List AccountInfo → Result BuyAccounts
buy_accounts env (buyer ∷ pool ∷ pull ∷ buyer_ata ∷ vault ∷ _ ∷ _ ∷ _ ∷ _ ∷ []) = do
  require buyer.is_signer (gacha not_signer)
  require (pool.is_writable && pull.is_writable) (gacha not_mutable)
  check_uninitialized env pull
  (data', _) ← load_pool env pool
  require (data'.status == pool_active) (gacha invalid_pool_status)
  require (data'.vault == vault.key) (gacha invalid_token_address)
  ok (record { buyer = buyer; pool = pool; pull = pull; buyer_ata = buyer_ata; vault = vault })
buy_accounts env _ = err not_enough_account_keys

pub record BuyInstruction : Type 0 where
  pub count : ℕ
  pub client_seed : List ℕ
  pub inventory_version : ℕ
  pub bump : ℕ

unfoldable pub buy_instruction : List ℕ → Result BuyInstruction
buy_instruction bytes = do
  require (length bytes == 38) invalid_instruction_data
  let count = get_or bytes 0 0
  reject_if (count == 0 || ltb max_count count) (gacha invalid_count)
  ok (record {
    count = count;
    client_seed = take 32 (drop 1 bytes);
    inventory_version = u32_at bytes 33;
    bump = get_or bytes 37 0;
  })

-- What a purchase leaves: the pool, the new pull, and the calls made.
pub record Bought : Type 0 where
  pub pool : Pool
  pub pull : Pull
  pub calls : List Call

-- The checks of `process` between the PDA and the creation of the pull: the amount to pay, and the
-- pool's pending draws with this purchase. `vault` is what `TokenAccount::load` returns.
unfoldable pub reserve : Pool → Result TokenAccount → ℕ → ℕ → Result (ℕ × ℕ)
reserve p vault count inventory_version = do
  require (inventory_version == p.inventory_version) (gacha inventory_changed)
  pending ← add_word 64 p.pending_draws count
  reject_if (ltb (remaining p) pending) (gacha sold_out)
  amount ← payment p count
  token ← vault
  landed ← add_word 64 token.amount amount
  reserved ← refund_amount p pending
  reject_if (ltb landed reserved) (gacha insufficient_balance)
  ok (amount, pending)

abbrev pub buy_event : Env → BuyAccounts → ℕ → ℕ → Call
buy_event env a index count =
    emit (event_bytes env.key_bytes (buy_fields a.pool.key a.pull.key a.buyer.key index count))

unfoldable pub buy : Env → BuyAccounts → BuyInstruction → Result Bought
buy env a i = do
  key ←
      ok_or (env.create_program_address (pull_seeds env.key_bytes a.pool.key i.client_seed i.bump))
        (gacha invalid_seeds)
  require (key == a.pull.key) (gacha invalid_seeds)
  (p, _) ← load_pool env a.pool
  (amount, pending) ← reserve p (load_token env a.vault) i.count i.inventory_version
  invoke_all env (create_pda env a.buyer a.pull pull_len)
  deadline ← add_word 64 env.slot p.deadline_slots
  index ← add_word 64 p.next_index 1
  let transfer = token_transfer a.buyer_ata.key a.vault.key a.buyer.key amount
  env.invoke transfer
  env.invoke (buy_event env a p.next_index i.count)
  ok (record {
    pool = record p { pending_draws = pending; next_index = index };
    pull =
        new_pull i.bump i.count p.inventory_version p.next_index deadline a.pool.key a.buyer.key
          i.client_seed;
    calls =
        create_pda env a.buyer a.pull pull_len
        ++ (transfer ∷ buy_event env a p.next_index i.count ∷ []);
  })
