-- ===== src/Market/Scene.antt =====
-- The life of one pool with one item: made, stocked, opened, sold from and settled.
use solana_gacha.Prelude.{ℕ, List, [], ◌∷◌, ◌++◌, some, get_or, replicate}
use solana_gacha.Core.Constants.{pool_active, status_settled}
use solana_gacha.Core.State.{
  Tier, Pool, Pull, new_pool, new_pull, new_item, set_outcome, empty_tier,
}
use solana_gacha.Inventory.Tests.{one}
use solana_gacha.Program.Account.{AccountInfo, Env, raw, pool_data, pull_data, item_data}
use solana_gacha.Program.Scene.{account, vault_account, ata_account, other, operator_account}
use solana_gacha.Program.Create.{CreatePoolAccounts, CreatePoolInstruction}
use solana_gacha.Program.Deposit.{DepositItemAccounts}
use solana_gacha.Program.Lifecycle.{StatusAccounts}
use solana_gacha.Program.Buy.{BuyAccounts, BuyInstruction}
use solana_gacha.Program.Settle.{SettleAccounts}

-- Addresses by the second byte of their first seed: 111 for a pool, 116 for an item, 117 for a pull.
abbrev pub env : Env
env = record solana_gacha.Program.Scene.env {
  create_program_address = λ seeds. some (get_or (get_or seeds 0 []) 1 0);
}

abbrev pub params : List ℕ
params =
    replicate 8 0
    ++ (100 ∷ replicate 7 0)
    ++ (50 ∷ replicate 7 0)
    ++ (10 ∷ replicate 7 0)
    ++ (3 ∷ 1 ∷ 0 ∷ 0 ∷ 0 ∷ 1 ∷ 0 ∷ 0 ∷ 0 ∷ 1 ∷ 0 ∷ 0 ∷ 0 ∷ replicate 20 0)
    ++ (3 ∷ [])

abbrev pub creating : CreatePoolAccounts
creating = record {
  authority = account 5 0 (raw 0);
  pool = account 111 0 (raw 0);
  operator = operator_account;
  payment_mint = account 6 0 (raw 0);
  vault = vault_account;
}

abbrev pub creation : CreatePoolInstruction
creation = record {
  id = 0;
  price = 100;
  deadline_slots = 50;
  bond_per_draw = 10;
  tier_count = 3;
  weights = 1 ∷ 1 ∷ 1 ∷ replicate 5 0;
  bump = 3;
}

abbrev pub new_one : Pool
new_one = new_pool 3 5 30 6 40 0 100 50 10 (1 ∷ 1 ∷ 1 ∷ [])

abbrev pub three_tiers : ℕ → List Tier
three_tiers n =
    record { weight = 1; remaining = 0 }
    ∷ record { weight = 1; remaining = 0 }
    ∷ record { weight = 1; remaining = n }
    ∷ replicate 5 empty_tier

abbrev pub stocked_one : Pool
stocked_one = record new_one { inventory_version = 1; all_tiers = three_tiers 1 }

abbrev pub open_one : Pool
open_one = record stocked_one { status = pool_active }

abbrev pub sold_one : Pool
sold_one = record open_one { pending_draws = 1; next_index = 1 }

abbrev pub settled_one : Pool
settled_one = record sold_one { pending_draws = 0; next_settle = 1; all_tiers = three_tiers 0 }

abbrev pub pull : Pull
pull = new_pull 3 1 1 0 150 111 50 (replicate 32 0)

abbrev pub settled_pull : Pull
settled_pull = record (set_outcome pull 0 2 99) { status = status_settled }

abbrev pub at_pool : Pool → List ℕ → AccountInfo
at_pool p d = account 111 1 (pool_data p d)

abbrev pub depositing : DepositItemAccounts
depositing = record {
  authority = account 5 0 (raw 0);
  pool = at_pool new_one [];
  item = account 116 0 (raw 0);
  asset = account 99 0 (raw 0);
  collection = account 98 0 (raw 0);
}

abbrev pub opening : StatusAccounts
opening = record { authority = account 5 0 (raw 0); pool = at_pool stocked_one one }

abbrev pub buying : BuyAccounts
buying = record {
  buyer = other;
  pool = at_pool open_one one;
  pull = account 117 0 (raw 0);
  buyer_ata = ata_account;
  vault = vault_account;
}

abbrev pub order_bytes : List ℕ
order_bytes = 1 ∷ replicate 32 0 ++ (1 ∷ 0 ∷ 0 ∷ 0 ∷ 3 ∷ [])

abbrev pub order : BuyInstruction
order = record { count = 1; client_seed = replicate 32 0; inventory_version = 1; bump = 3 }

abbrev pub settling : SettleAccounts
settling = record {
  operator = operator_account;
  pool = at_pool sold_one one;
  pull = account 117 1 (pull_data pull);
  items = account 116 1 (item_data (new_item 4 2 0 111 99)) ∷ [];
}
