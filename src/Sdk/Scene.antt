-- ===== src/Sdk/Scene.antt =====
-- A client, with snapshots of the pool of Program/Scene.antt.
use solana_gacha.Prelude.{
  ℕ, ◌+◌, ◌*◌, List, [], ◌∷◌, ◌++◌, length, none, some, true, get_or, replicate,
}
use solana_gacha.Inventory.Tests.{one}
use solana_gacha.Program.Scene.{pool_of, pull_until}
use solana_gacha.Sdk.{Host, PoolSnapshot, PullSnapshot, Asset, Instruction}

-- A message of one byte for each byte of an instruction's data and each of its accounts.
abbrev message : List Instruction → List ℕ
message [] = []
message (i ∷ rest) = replicate (length i.bytes + 32 * length i.accounts) 0 ++ message rest

abbrev pub host : Host
host = record {
  program = 1;
  token = 2;
  system = 0;
  core = 3;
  event_authority = 4;
  key_bytes = λ k. k ∷ [];
  key_of = λ bytes. get_or bytes 0 0;
  find_program_address = λ seeds. (get_or (get_or seeds 0 []) 1 0, 7);
  ata = λ owner mint. owner + 1;
  create_ata = λ payer owner mint. record { program_id = 8; accounts = []; bytes = [] };
  is_valid = λ k. true;
  verify = λ proof key alpha. some (replicate 64 9);
  sha256 = λ parts. replicate 32 7;
  num_required_signatures = λ group payer. 1;
  serialize = λ group payer. message group;
}

abbrev pub snapshot : PoolSnapshot
snapshot = record { address = 10; header = pool_of 0; index = one }

abbrev pub owed_snapshot : PoolSnapshot
owed_snapshot = record { address = 10; header = pool_of 1; index = one }

abbrev pub pending_pull : PullSnapshot
pending_pull = record { address = 20; header = pull_until 150 }

abbrev pub held_asset : Asset
held_asset = record { address = 99; owner = 10; collection = some 98 }

abbrev pub own_asset : Asset
own_asset = record { address = 99; owner = 5; collection = none }
