-- ===== src/Program/Lifecycle/Tests.antt =====
-- A change of status of program/src/admin/lifecycle.rs on a concrete pool.
use solana_gacha.Prelude.{◌≡◌, refl, [], ◌∷◌, ok, arith, replicate}
use solana_gacha.Bytes.{u32_at, put_u32}
use solana_gacha.Core.Stock.{take_remaining}
use solana_gacha.Core.State.{new_item}
use solana_gacha.Inventory.{remove, lower_nodes, count, set_count}
use solana_gacha.Program.Lifecycle.Reclaim.{
  ReclaimAccounts, Reclaimed, reclaim_accounts, reclaim, reclaim_event,
}
use solana_gacha.Program.Lifecycle.Laws.{IsReclaimed, reclaim-ok}
use solana_gacha.Core.Constants.{pool_retired}
use solana_gacha.Core.State.{Pool}
use solana_gacha.Inventory.Tests.{one, one-IsStocked}
use solana_gacha.Program.Account.{
  raw, pool_data, load_pool, load_item, check_account, close, asset_transfer,
}
use solana_gacha.Program.Scene.{env, account, pool_of, other, item_account, one_tier}
use solana_gacha.Program.Lifecycle.{
  StatusAccounts, Changed, status_accounts, status_instruction, status_event, set_status,
}

abbrev retired : Pool
retired = record (pool_of 1) { status = pool_retired }

abbrev changing : StatusAccounts
changing = record { authority = account 5 0 (raw 0); pool = account 10 1 (pool_data retired one) }

status_accounts_run :
    status_accounts env
      (account 5 0 (raw 0) ∷ account 10 1 (pool_data retired one) ∷ other ∷ other ∷ [])
    ≡ ok changing
unfolding status_accounts load_pool check_account
status_accounts_run = refl

loads : load_pool env (account 10 1 (pool_data retired one)) ≡ ok (retired, one)
unfolding load_pool check_account
loads = refl

parsed : status_instruction (2 ∷ []) ≡ ok 2
unfolding status_instruction
parsed = refl

abbrev changed : Changed
changed = record { pool = retired; calls = status_event env changing 2 ∷ [] }

set_status_run : set_status env changing 2 ≡ ok changed
unfolding set_status load_pool check_account
set_status_run = refl

abbrev idle : Pool
idle = record (pool_of 0) { status = pool_retired }

abbrev reclaiming : ReclaimAccounts
reclaiming = record {
  authority = account 5 0 (raw 0);
  pool = account 10 1 (pool_data idle one);
  item = item_account;
  asset = account 99 0 (raw 0);
  collection = account 98 0 (raw 0);
}

reclaim_accounts_run :
    reclaim_accounts env (
      account 5 0 (raw 0)
      ∷ account 10 1 (pool_data idle one)
      ∷ item_account
      ∷ account 99 0 (raw 0)
      ∷ account 98 0 (raw 0)
      ∷ other
      ∷ other
      ∷ other
      ∷ other
      ∷ [])
    ≡ ok reclaiming
unfolding reclaim_accounts load_pool load_item check_account new_item
reclaim_accounts_run = refl

abbrev reclaimed : Reclaimed
reclaimed = record {
  pool = record idle { all_tiers = one_tier 0 };
  index = replicate 96 0;
  lamports = 14;
  calls = asset_transfer 5 10 5 99 98 ∷ reclaim_event env reclaiming 0 ∷ [];
}

reclaim_run : reclaim env reclaiming ≡ ok reclaimed
unfolding reclaim load_pool load_item check_account new_item remove lower_nodes count set_count
    u32_at put_u32 take_remaining close
reclaim_run = refl

idle_loads : load_pool env (account 10 1 (pool_data idle one)) ≡ ok (idle, one)
unfolding load_pool check_account
idle_loads = refl

reclaim-ok_example : IsReclaimed env reclaiming idle one reclaimed
reclaim-ok_example = reclaim-ok env reclaiming idle_loads one-IsStocked (omega arith) reclaim_run
