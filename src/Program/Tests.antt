-- ===== src/Program/Tests.antt =====
-- The instructions of program/src on one pool with one item, and the theorems at it.
use solana_gacha.Prelude.{ℕ, ◌-◌, ◌+◌, ◌≤◌, ◌≡◌, ◌≢◌, refl, [], ◌∷◌, ok, arith, replicate}
use solana_gacha.Core.Constants.{status_settled}
use solana_gacha.Core.State.{Pull, new_pull, new_item, set_outcome, remaining}
use solana_gacha.Core.Draw.{u64_at, eligible_weight, pick_tier, draw_tier, draw}
use solana_gacha.Bytes.{u32_at, put_u32}
use solana_gacha.Inventory.{
  count, set_count, add_counts, prefix_loop, prefix_counts, tally_tags, descend_step, descend,
  find_rank, next_power_of_two, power_from, counts, take_item,
}
use solana_gacha.Inventory.View.{IsStocked}
use solana_gacha.Inventory.Tests.{one, one-IsStocked}
use solana_gacha.Program.Account.{check_account, load_pool, load_item, load_pull, load_token, close}
use solana_gacha.Program.Solvency.{refund_each}
use solana_gacha.Program.Refund.{refund_accounts}
use solana_gacha.Core.Stock.{take_remaining}
use solana_gacha.Program.Settle.{
  SettleAccounts, Settled, Drawing, split_items, check_items, settle_accounts, settle, settle_event,
  draw_one, draw_loop, draw_all, advance,
}
use solana_gacha.Program.Settle.Queue.{IsDrawing, drawing_start, settle-ok}
use solana_gacha.Program.Deadline.{settle_accounts-refund_accounts_exclusive}
use solana_gacha.Program.Scene.{
  refunding, env, pool_of, pull_until, pool_account, operator_account, pull_account, late_account,
  item_account, vault_account, ata_account, other, one_tier,
}

abbrev settling : SettleAccounts
settling = record {
  operator = operator_account;
  pool = pool_account 1;
  pull = pull_account;
  items = item_account ∷ [];
}

settle_accounts_run :
    settle_accounts env
      (operator_account ∷ pool_account 1 ∷ pull_account ∷ item_account ∷ other ∷ other ∷ [])
    ≡ ok settling
unfolding settle_accounts split_items check_items load_pool load_pull load_item check_account
    new_pull new_item
settle_accounts_run = refl

refund_accounts_run :
    refund_accounts env (
      pool_account 1
      ∷ late_account
      ∷ other
      ∷ vault_account
      ∷ ata_account
      ∷ other
      ∷ other
      ∷ other
      ∷ [])
    ≡ ok refunding
unfolding refund_accounts load_pool load_pull load_token check_account new_pull
refund_accounts_run = refl

settle_accounts-refund_accounts_exclusive_example : pull_account ≢ late_account
settle_accounts-refund_accounts_exclusive_example =
    settle_accounts-refund_accounts_exclusive env
      (operator_account ∷ pool_account 1 ∷ pull_account ∷ item_account ∷ other ∷ other ∷ [])
      (pool_account 1
        ∷ late_account
        ∷ other
        ∷ vault_account
        ∷ ata_account
        ∷ other
        ∷ other
        ∷ other
        ∷ [])
      settle_accounts_run refund_accounts_run

-- What the settlement leaves.
abbrev settled_pull : Pull
settled_pull = record (set_outcome (pull_until 150) 0 2 99) { status = status_settled }

abbrev settled : Settled
settled = record {
  pool = record (pool_of 1) { pending_draws = 0; next_settle = 1; all_tiers = one_tier 0 };
  index = replicate 96 0;
  pull = settled_pull;
  lamports = 14;
  calls =
      settle_event env settling (replicate 32 7) (replicate 80 0) (replicate 64 9) settled_pull 1
      ∷ [];
}

settle_run : settle env settling (replicate 80 0) ≡ ok settled
unfolding settle load_pool load_pull load_item check_account new_pull new_item draw_all draw_loop
    draw_one draw draw_tier pick_tier eligible_weight u64_at close take_remaining advance
    prefix_counts prefix_loop add_counts count set_count counts tally_tags u32_at put_u32 take_item
    descend descend_step find_rank next_power_of_two power_from
settle_run = refl

pool_loads : (n : ℕ) → load_pool env (pool_account n) ≡ ok (pool_of n, one)
unfolding load_pool check_account
pool_loads n = refl

pull_loads : load_pull env pull_account ≡ ok (pull_until 150)
unfolding load_pull check_account new_pull
pull_loads = refl

past : (pull_until 150).inventory_version ≤ 1
unfolding new_pull
past = omega arith

settle-ok_example :
    (s' : Drawing) × IsDrawing env 10 1
      (pull_until 150).inventory_version
      0
      (item_account ∷ [])
      (drawing_start (pool_of 1) one (pull_until 150) 7)
      s'
    × (settled.pool ≡ record s'.pool {
      pending_draws = s'.pool.pending_draws - 1;
      next_settle = s'.pull.index + 1;
    })
    × (settled_pull ≡ record s'.pull { status = status_settled })
    × (replicate 96 0 ≡ s'.index)
    × IsStocked (replicate 96 0) 1
    × (0 + 1 ≡ 1)
    × (remaining settled.pool + 1 ≡ remaining (pool_of 1))
    × (1 ≡ (pull_until 150).index + 1)
    × (refund_each settled.pool ≡ refund_each (pool_of 1))
settle-ok_example =
    settle-ok env settling (replicate 80 0) (pool_loads 1) pull_loads one-IsStocked past
      (omega arith) settle_run
