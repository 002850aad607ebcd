-- ===== src/Program/Scene.antt =====
-- Accounts of one pool with one item, for the runs of the instructions of program/src.
use solana_gacha.Prelude.{ℕ, ◌-◌, length, ◌++◌, List, [], ◌∷◌, true, some, ok, replicate}
use solana_gacha.Core.Constants.{pool_version, pool_active}
use solana_gacha.Core.State.{Tier, Pool, Pull, new_pull, new_item, empty_tier}
use solana_gacha.Inventory.Tests.{one}
use solana_gacha.Program.Refund.{RefundAccounts}
use solana_gacha.Program.Account.{
  AccountInfo, Contents, raw, pool_data, item_data, pull_data, token_data, Env,
}

abbrev pub env : Env
env = record {
  program_id = 1;
  system_program = 0;
  token_program = 2;
  slot = 100;
  unix_timestamp = 1000;
  minimum_balance = λ n. n;
  key_bytes = λ k. k ∷ [];
  create_program_address = λ seeds. some 20;
  sha256 = λ parts. replicate 32 7;
  verify = λ proof key alpha. some (replicate 64 9);
  verify_strict = λ key signature message. true;
  ata = λ owner mint. 40;
  realloc = λ d n. ok (d ++ replicate (n - length d) 0);
  invoke = λ c. ok tt;
}

abbrev pub account : ℕ → ℕ → Contents → AccountInfo
account key owner body = record {
  key = key;
  is_signer = true;
  is_writable = true;
  owner = owner;
  lamports = 7;
  body = body;
}

abbrev pub one_tier : ℕ → List Tier
one_tier n = empty_tier ∷ empty_tier ∷ record { weight = 1; remaining = n } ∷ replicate 5 empty_tier

-- A pool with one item of tier 2 and so many pending draws.
abbrev pub pool_of : ℕ → Pool
pool_of pending = record {
  version = pool_version;
  bump = 0;
  tier_count = 3;
  status = pool_active;
  inventory_version = 1;
  authority = 5;
  operator = 30;
  payment_mint = 6;
  vault = 40;
  id = 0;
  price = 100;
  deadline_slots = 50;
  bond_per_draw = 10;
  pending_draws = pending;
  next_index = 1;
  next_settle = 0;
  all_tiers = one_tier 1;
}

abbrev pub pull_until : ℕ → Pull
pull_until deadline = new_pull 0 1 1 0 deadline 10 50 (replicate 32 0)

abbrev pub pool_account : ℕ → AccountInfo
pool_account pending = account 10 1 (pool_data (pool_of pending) one)

abbrev pub operator_account : AccountInfo
operator_account = account 30 0 (raw 0)

abbrev pub pull_account : AccountInfo
pull_account = account 20 1 (pull_data (pull_until 150))

abbrev pub late_account : AccountInfo
late_account = account 21 1 (pull_data (pull_until 50))

abbrev pub item_account : AccountInfo
item_account = account 60 1 (item_data (new_item 0 2 0 10 99))

abbrev pub vault_account : AccountInfo
vault_account = account 40 2 (token_data (record { mint = 6; owner = 10; amount = 500 }))

abbrev pub ata_account : AccountInfo
ata_account = account 41 2 (token_data (record { mint = 6; owner = 50; amount = 1000 }))

abbrev pub other : AccountInfo
other = account 50 0 (raw 0)

abbrev pub refunding : RefundAccounts
refunding = record {
  pool = pool_account 1;
  pull = late_account;
  buyer = other;
  vault = vault_account;
  buyer_ata = ata_account;
}
