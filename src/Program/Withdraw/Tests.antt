-- ===== src/Program/Withdraw/Tests.antt =====
-- The withdrawal of program/src/admin/withdraw.rs on a concrete pool.
use solana_gacha.Prelude.{ℕ, ◌-◌, ◌≤◌, ◌≡◌, refl, List, [], ◌∷◌, ok}
use solana_gacha.Core.State.{Pool, refund_amount, refund_total}
use solana_gacha.Program.Account.{
  TokenAccount, Call, raw, token_transfer, load_pool, load_token, check_account,
}
use solana_gacha.Program.Solvency.{IsSolvent}
use solana_gacha.Program.Scene.{env, account, pool_account, vault_account, ata_account, other}
use solana_gacha.Program.Withdraw.{
  WithdrawAccounts, withdraw_accounts, withdraw, withdraw_event, withdraw-ok,
}

abbrev withdrawing : WithdrawAccounts
withdrawing = record {
  authority = account 5 0 (raw 0);
  pool = pool_account 1;
  vault = vault_account;
  destination = ata_account;
}

withdraw_accounts_run :
    withdraw_accounts env (
      account 5 0 (raw 0)
      ∷ pool_account 1
      ∷ vault_account
      ∷ ata_account
      ∷ other
      ∷ other
      ∷ other
      ∷ [])
    ≡ ok withdrawing
unfolding withdraw_accounts load_pool check_account
withdraw_accounts_run = refl

abbrev paid : List Call
paid = token_transfer 40 41 10 390 ∷ withdraw_event env withdrawing 390 ∷ []

withdraw_run : withdraw env withdrawing 390 ≡ ok paid
unfolding withdraw load_pool load_token check_account refund_amount refund_total
withdraw_run = refl

withdraw-ok_example :
    (p : Pool) × (d : List ℕ) × (token : TokenAccount) × (load_pool env (pool_account 1)
      ≡ ok (p, d))
    × (load_token env vault_account ≡ ok token)
    × (390 ≤ token.amount)
    × IsSolvent p (token.amount - 390)
withdraw-ok_example = withdraw-ok env withdrawing 390 withdraw_run
