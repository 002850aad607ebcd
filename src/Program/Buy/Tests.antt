-- ===== src/Program/Buy/Tests.antt =====
-- The purchase of program/src/player/buy.rs on a concrete pool.
use solana_gacha.Prelude.{
  ℕ, ◌+◌, ◌*◌, ◌^◌, ◌<◌, ◌≤◌, ◌≡◌, refl, List, [], ◌∷◌, ◌++◌, ok, arith, replicate,
}
use solana_gacha.Core.Constants.{pull_len}
use solana_gacha.Core.State.{
  Pool, new_pull, payment, refund_amount, refund_total, remaining, sum_remaining,
}
use solana_gacha.Program.Account.{
  TokenAccount, raw, check_account, load_pool, load_token, invoke_all, create_pda, token_transfer,
}
use solana_gacha.Program.Solvency.{IsSolvent, IsReserved}
use solana_gacha.Bytes.{u32_at}
use solana_gacha.Program.Buy.{
  buy_accounts, buy_instruction, BuyAccounts, BuyInstruction, Bought, reserve, buy, buy_event,
}
use solana_gacha.Program.Buy.Laws.{IsLanded, buy-ok, reserve_accepts}
use solana_gacha.Program.Scene.{
  env, account, pool_of, pool_account, vault_account, ata_account, other,
}

abbrev vault : TokenAccount
vault = record { mint = 6; owner = 10; amount = 500 }

one_left : 0 + 1 ≤ remaining (pool_of 0)
unfolding remaining sum_remaining
one_left = omega arith

small_stock : remaining (pool_of 0) < 2 ^ 64
unfolding remaining sum_remaining
small_stock = omega arith

reserve_accepts_example : reserve (pool_of 0) (ok vault) 1 1 ≡ ok (100 * 1, 0 + 1)
reserve_accepts_example =
    reserve_accepts (pool_of 0) vault 1 (omega arith) one_left small_stock (omega arith)
      (omega arith)

abbrev buying : BuyAccounts
buying = record {
  buyer = other;
  pool = pool_account 0;
  pull = account 20 0 (raw 0);
  buyer_ata = ata_account;
  vault = vault_account;
}

abbrev order : BuyInstruction
order = record { count = 1; client_seed = replicate 32 0; inventory_version = 1; bump = 3 }

abbrev bought : Bought
bought = record {
  pool = record (pool_of 0) { pending_draws = 1; next_index = 2 };
  pull = new_pull 3 1 1 1 150 10 50 (replicate 32 0);
  calls =
      create_pda env other (account 20 0 (raw 0)) pull_len
      ++ (token_transfer 41 40 50 100 ∷ buy_event env buying 1 1 ∷ []);
}

buy_run : buy env buying order ≡ ok bought
unfolding buy reserve payment refund_amount refund_total remaining sum_remaining load_pool
    load_token check_account create_pda invoke_all
buy_run = refl

buy-ok_example :
    (p : Pool) × (d : List ℕ) × (token : TokenAccount) × (load_pool env (pool_account 0)
      ≡ ok (p, d))
    × (load_token env vault_account ≡ ok token)
    × IsLanded p token 1 1 (p.price * 1) 1
    × IsReserved bought.pool
    × IsSolvent bought.pool (token.amount + p.price * 1)
    × (bought.pool ≡ record p { pending_draws = 1; next_index = p.next_index + 1 })
    × (bought.pull
        ≡ new_pull 3 1 p.inventory_version p.next_index
            (100 + p.deadline_slots)
            10
            50
            (replicate 32 0))
buy-ok_example = buy-ok env buying order buy_run

buy_accounts_run :
    buy_accounts env (
      other
      ∷ pool_account 0
      ∷ account 20 0 (raw 0)
      ∷ ata_account
      ∷ vault_account
      ∷ other
      ∷ other
      ∷ other
      ∷ other
      ∷ [])
    ≡ ok buying
unfolding buy_accounts load_pool check_account
buy_accounts_run = refl

buy_instruction_run : buy_instruction (1 ∷ replicate 32 0 ++ (1 ∷ 0 ∷ 0 ∷ 0 ∷ 3 ∷ [])) ≡ ok order
unfolding buy_instruction u32_at
buy_instruction_run = refl
