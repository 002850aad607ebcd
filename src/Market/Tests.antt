-- ===== src/Market/Tests.antt =====
-- The theorems on markets at the life of one pool.
use solana_gacha.Prelude.{ℕ, ◌+◌, ◌^◌, ◌<◌, ◌≡◌, refl, List, [], ◌∷◌, ◌++◌, ok, arith, replicate}
use solana_gacha.Core.Constants.{pool_len, item_len, pull_len, pool_active}
use solana_gacha.Core.State.{
  Pool, Pull, new_pool, new_pull, new_item, payment, refund_amount, refund_total, remaining,
  sum_remaining,
}
use solana_gacha.Core.Stock.{add_remaining, take_remaining}
use solana_gacha.Core.Draw.{u64_at, eligible_weight, pick_tier, draw_tier, draw}
use solana_gacha.Bytes.{u32_at, put_u32}
use solana_gacha.Inventory.{
  count, set_count, add_counts, prefix_loop, prefix_counts, tally_tags, descend_step, descend,
  find_rank, next_power_of_two, power_from, counts, take_item, append, open_block, set_counts,
  raise_nodes,
}
use solana_gacha.Inventory.Tests.{one}
use solana_gacha.Program.Account.{
  Env, check_account, load_pool, load_item, load_pull, load_token, close, invoke_all, create_pda,
  asset_transfer, token_transfer, raw, item_data,
}
use solana_gacha.Program.Create.{
  contains_zero, check_params, create_pool_instruction, Created, create_pool, create_pool_event,
}
use solana_gacha.Program.Create.Laws.{IsCreated, create_pool-ok}
use solana_gacha.Program.Restock.{Restocked, check_restock, extend, restock, space_calls}
use solana_gacha.Program.Deposit.{deposit_item, deposit_item_event}
use solana_gacha.Program.Lifecycle.{Changed, set_status, status_event}
use solana_gacha.Program.Buy.{Bought, buy_instruction, reserve, buy, buy_event}
use solana_gacha.Program.Settle.{
  Settled, split_items, check_items, settle_accounts, settle, settle_event, draw_one, draw_loop,
  draw_all, advance,
}
use solana_gacha.Program.Solvency.{IsSolvent, IsReserved}
use solana_gacha.Program.Scene.{operator_account, other, vault_account, ata_account, account}
use solana_gacha.Market.{
  Market, deposited, changed, bought, settled, Reach, here, next, IsSound, IsQueue, draws,
}
use solana_gacha.Market.Refunds.{IsRefundable, account_list, refund_calls, reached_refunds}
use solana_gacha.Program.Refund.{RefundAccounts, Refunded}
use solana_gacha.Program.Dispatch.{pull_refunded, run_refund}
use solana_gacha.Market.Sound.{Step-IsSound, Reach-IsSound}
use solana_gacha.Market.Launch.{launch, launch-IsSound, launched-IsCovered}
use solana_gacha.Market.Scene.{
  env, params, creating, creation, new_one, stocked_one, open_one, sold_one, settled_one, pull,
  settled_pull, at_pool, depositing, opening, buying, order_bytes, order, settling,
}

pub parsed : create_pool_instruction params ≡ ok creation
unfolding create_pool_instruction check_params u64_at u32_at contains_zero refund_total
parsed = refl

abbrev created : Created
created = record {
  pool = new_one;
  index = [];
  calls =
      create_pda env (account 5 0 (raw 0)) (account 111 0 (raw 0)) pool_len
      ++ (create_pool_event env creating ∷ []);
}

pub create_run : create_pool env creating creation ≡ ok created
unfolding create_pool invoke_all create_pda
create_run = refl

create_pool-ok_example : IsCreated creation created
create_pool-ok_example = create_pool-ok env creating params parsed create_run

new_loads : load_pool env (at_pool new_one []) ≡ ok (new_one, [])
unfolding load_pool check_account new_pool
new_loads = refl

abbrev restocked : Restocked
restocked = record {
  pool = stocked_one;
  index = one;
  item = new_item 4 2 0 111 99;
  calls =
      space_calls env (account 5 0 (raw 0)) (at_pool new_one []) (pool_len + 96)
      ++ create_pda env (account 5 0 (raw 0)) (account 116 0 (raw 0)) item_len
      ++ (asset_transfer 5 5 111 99 98 ∷ deposit_item_event env depositing 2 0 ∷ []);
}

deposit_run : deposit_item env depositing 2 4 ≡ ok restocked
unfolding deposit_item check_restock restock extend load_pool check_account invoke_all create_pda
    append open_block prefix_counts prefix_loop add_counts count set_count set_counts raise_nodes
    u32_at put_u32 add_remaining new_pool new_item
deposit_run = refl

abbrev opened : Changed
opened = record { pool = open_one; calls = status_event env opening pool_active ∷ [] }

stocked_loads : load_pool env (at_pool stocked_one one) ≡ ok (stocked_one, one)
unfolding load_pool check_account new_pool
stocked_loads = refl

open_run : set_status env opening 1 ≡ ok opened
unfolding set_status load_pool check_account new_pool
open_run = refl

open_loads : load_pool env (at_pool open_one one) ≡ ok (open_one, one)
unfolding load_pool check_account new_pool
open_loads = refl

abbrev sold : Bought
sold = record {
  pool = sold_one;
  pull = pull;
  calls =
      create_pda env other (account 117 0 (raw 0)) pull_len
      ++ (token_transfer 41 40 50 100 ∷ buy_event env buying 0 1 ∷ []);
}

order_run : buy_instruction order_bytes ≡ ok order
unfolding buy_instruction u32_at
order_run = refl

buy_run : buy env buying order ≡ ok sold
unfolding buy reserve payment refund_amount refund_total remaining sum_remaining load_pool
    load_token check_account create_pda invoke_all new_pool new_pull
buy_run = refl

vault_loads : load_token env vault_account ≡ ok (record { mint = 6; owner = 10; amount = 500 })
unfolding load_token
vault_loads = refl

abbrev market : Pool → List ℕ → ℕ → List Pull → Market
market p d balance queue = record { pool = p; index = d; balance = balance; queue = queue }

pub sold_market : Reach (launch created 500) (market sold_one one 600 (pull ∷ []))
unfolding new_pool
sold_market =
    next
      (next
        (next here (
          deposited env depositing 2 4 new_loads (record { zeros = refl; small = omega arith })
            deposit_run))
        (changed env opening 1 stocked_loads open_run))
      (bought env buying order_bytes open_loads
        (record {
          token = record { mint = 6; owner = 10; amount = 500 };
          loads = vault_loads;
          held = refl;
        })
        order_run buy_run)

launched-IsCovered_example :
    IsSolvent sold_one 600
    × IsReserved sold_one
    × (sold_one.pending_draws ≡ draws (pull ∷ []))
    × IsQueue sold_one.next_settle sold_one.next_index (pull ∷ [])
launched-IsCovered_example =
    launched-IsCovered env creating params 500 parsed create_run sold_market

pub sold-IsSound : IsSound (market sold_one one 600 (pull ∷ []))
sold-IsSound = Reach-IsSound (launch-IsSound env creating params 500 parsed create_run) sold_market

abbrev settled_now : Settled
settled_now = record {
  pool = settled_one;
  index = replicate 96 0;
  pull = settled_pull;
  lamports = 14;
  calls =
      settle_event env settling (replicate 32 7) (replicate 80 0) (replicate 64 9) settled_pull 1
      ∷ [];
}

settle_run : settle env settling (replicate 80 0) ≡ ok settled_now
unfolding settle load_pool load_pull load_item check_account new_pull new_item new_pool draw_all
    draw_loop draw_one draw draw_tier pick_tier eligible_weight u64_at close take_remaining advance
    prefix_counts prefix_loop add_counts count set_count counts tally_tags u32_at put_u32 take_item
    descend descend_step find_rank next_power_of_two power_from
settle_run = refl

settle_accounts_run :
    settle_accounts env (
      operator_account
      ∷ settling.pool
      ∷ settling.pull
      ∷ account 116 1 (item_data (new_item 4 2 0 111 99))
      ∷ other
      ∷ other
      ∷ [])
    ≡ ok settling
unfolding settle_accounts split_items check_items load_pool load_pull load_item check_account
    new_pull new_item new_pool
settle_accounts_run = refl

pub sold_loads : load_pool env (at_pool sold_one one) ≡ ok (sold_one, one)
unfolding load_pool check_account new_pool
sold_loads = refl

pub pull_loads : load_pull env settling.pull ≡ ok pull
unfolding load_pull check_account new_pull
pull_loads = refl

Step-IsSound_example : IsSound (market settled_one (replicate 96 0) 600 [])
Step-IsSound_example = Step-IsSound sold-IsSound (
    settled env
      (operator_account
        ∷ settling.pool
        ∷ settling.pull
        ∷ account 116 1 (item_data (new_item 4 2 0 111 99))
        ∷ other
        ∷ other
        ∷ [])
      (replicate 80 0) [] [] refl sold_loads pull_loads settle_accounts_run settle_run)

-- A refund of the pull that was sold, after its deadline.
abbrev later : Env
later = record env { slot = 200 }

abbrev sold_queue : Market
sold_queue = market sold_one one 600 (pull ∷ [])

abbrev giving_back : RefundAccounts
giving_back = record {
  pool = settling.pool;
  pull = settling.pull;
  buyer = other;
  vault = vault_account;
  buyer_ata = ata_account;
}

refundable : IsRefundable later sold_queue pull giving_back
unfolding load_pool load_pull load_token check_account new_pool new_pull
refundable = record {
  writable = refl;
  pool_loads = refl;
  pull_loads = refl;
  of_pool = refl;
  pending = refl;
  late = omega arith;
  to_buyer = refl;
  from_vault = refl;
  token = record { mint = 6; owner = 50; amount = 1000 };
  token_loads = refl;
  of_buyer = refl;
  rent = omega arith;
  pays = λ amount covered. refl;
  tells = λ amount. refl;
}

next_index : pull.index + 1 < 2 ^ 64
unfolding new_pull
next_index = omega arith

reached_refunds_example :
    (r : Refunded) × (run_refund later (account_list giving_back other other other)
      ≡ ok (pull_refunded r))
    × (r.calls ≡ refund_calls later giving_back 110)
unfolding new_pool new_pull
reached_refunds_example =
    reached_refunds env later creating params 500 pull [] giving_back other other other parsed
      create_run sold_market refl (omega arith) next_index refundable
