-- ===== src/Sdk/Plan/Tests.antt =====
-- The plan of a settlement of one draw.
use solana_gacha.Prelude.{◌+◌, ◌^◌, ◌≤◌, ◌<◌, ◌≡◌, refl, [], ◌∷◌, ok, arith, length, replicate}
use solana_gacha.Core.State.{new_pull, new_pool, new_item, tiers}
use solana_gacha.Core.Draw.{u64_at, eligible_weight, pick_tier, draw_tier, draw}
use solana_gacha.Inventory.View.{tag}
use solana_gacha.Inventory.Stock.{stock}
use solana_gacha.Inventory.Positions.{remove_at}
use solana_gacha.Inventory.Tests.{one}
use solana_gacha.Program.Account.{load_item, check_account}
use solana_gacha.Program.Settle.{Settled, settle}
use solana_gacha.Market.Scene.{env, creating, params, sold_one, pull, settling}
use solana_gacha.Market.Tests.{
  sold-IsSound, sold_loads, pull_loads, parsed, create_run, sold_market,
}
use solana_gacha.Sdk.{PoolSnapshot, PullSnapshot}
use solana_gacha.Sdk.Orders.{check_pending}
use solana_gacha.Sdk.Plan.{scan, plan, Settlement, settle_order}
use solana_gacha.Sdk.Plan.Accepts.{IsMatching, total_lamports}
use solana_gacha.Sdk.Plan.Chain.{IsShared, settle_order_accepts}
use solana_gacha.Sdk.Plan.Reached.{reached_settles}
use solana_gacha.Sdk.Scene.{host, owed_snapshot, pending_pull}

abbrev planned : Settlement
planned = record {
  pool = 10;
  pull = 20;
  buyer = 50;
  operator = 30;
  proof = replicate 80 0;
  draws = record { tier = 2; position = 0; item = 116 } ∷ [];
}

settle_planned : settle_order host owed_snapshot pending_pull (replicate 80 0) ≡ ok planned
unfolding settle_order check_pending new_pull scan tag plan draw draw_tier pick_tier eligible_weight
    u64_at remove_at
settle_planned = refl

-- The market of Market/Tests.antt with one pending pull, seen by the client.
abbrev sold_snapshot : PoolSnapshot
sold_snapshot = record { address = 111; header = sold_one; index = one }

abbrev sold_pull : PullSnapshot
sold_pull = record { address = 117; header = pull }

abbrev sold_order : Settlement
sold_order = record {
  pool = 111;
  pull = 117;
  buyer = 50;
  operator = 30;
  proof = replicate 80 0;
  draws = record { tier = 2; position = 0; item = 116 } ∷ [];
}

all_tiers_used : sold_one.tier_count ≡ length (tiers sold_one)
unfolding new_pool
all_tiers_used = refl

past : pull.inventory_version ≤ sold_one.inventory_version
unfolding new_pull
past = omega arith

enough : pull.count ≤ stock one pull.inventory_version
unfolding new_pull stock tag
enough = omega arith

pending : check_pending sold_snapshot sold_pull ≡ ok tt
unfolding check_pending new_pull new_pool
pending = refl

settle_order_accepts_example :
    (o : Settlement) × (settle_order host sold_snapshot sold_pull (replicate 80 0) ≡ ok o)
    × (length o.draws ≡ pull.count)
settle_order_accepts_example =
    settle_order_accepts host sold_snapshot sold_pull (replicate 80 0) sold-IsSound.in_step
      all_tiers_used past enough {beta = replicate 64 9} pending refl

sold_planned : settle_order host sold_snapshot sold_pull (replicate 80 0) ≡ ok sold_order
unfolding settle_order check_pending new_pull new_pool scan tag plan draw draw_tier pick_tier
    eligible_weight u64_at remove_at
sold_planned = refl

shared : IsShared host env sold_snapshot sold_pull settling
unfolding new_pull
shared = record {
  pool_loads = sold_loads;
  pull_loads = pull_loads;
  pull_key = refl;
  items = refl;
  hashes = refl;
  keys = refl;
  proofs = refl;
  emits = λ c. refl;
}

held : IsMatching env 111 settling.items sold_order.draws
unfolding IsMatching load_item check_account new_item
held = (
  record {
    item = new_item 4 2 0 111 99;
    loads = refl;
    of_pool = refl;
    of_tier = refl;
    of_position = refl;
  },
  tt,
)

owed : pull.count ≤ sold_one.pending_draws
unfolding new_pull
owed = omega arith

next_fits : pull.index + 1 < 2 ^ 64
unfolding new_pull
next_fits = omega arith

lamports_fit : 7 + total_lamports settling.items < 2 ^ 64
unfolding total_lamports
lamports_fit = omega arith

reached_settles_example : (b : Settled) × (settle env settling (replicate 80 0) ≡ ok b)
reached_settles_example =
    reached_settles env creating params 500 host 111 sold_pull (replicate 80 0) env settling parsed
      create_run sold_market refl all_tiers_used next_fits lamports_fit shared sold_planned held
