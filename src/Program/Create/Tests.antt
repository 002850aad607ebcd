-- ===== src/Program/Create/Tests.antt =====
-- The accounts of program/src/admin/create_pool.rs.
use solana_gacha.Prelude.{◌≡◌, refl, [], ◌∷◌, ok}
use solana_gacha.Program.Account.{raw}
use solana_gacha.Program.Create.{create_pool_accounts}
use solana_gacha.Program.Scene.{env, account, operator_account, vault_account, other}

create_pool_accounts_run :
    create_pool_accounts env (
      account 5 0 (raw 0)
      ∷ account 20 0 (raw 0)
      ∷ operator_account
      ∷ account 6 0 (raw 0)
      ∷ vault_account
      ∷ other
      ∷ other
      ∷ other
      ∷ [])
    ≡ ok (record {
      authority = account 5 0 (raw 0);
      pool = account 20 0 (raw 0);
      operator = operator_account;
      payment_mint = account 6 0 (raw 0);
      vault = vault_account;
    })
unfolding create_pool_accounts
create_pool_accounts_run = refl
