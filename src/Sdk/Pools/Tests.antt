-- ===== src/Sdk/Pools/Tests.antt =====
-- What the client offers of a concrete pool.
use solana_gacha.Prelude.{◌+◌, ◌*◌, ◌^◌, ◌<◌, ◌≤◌, ◌≡◌, ◌↔◌, refl, ok, arith}
use solana_gacha.Core.State.{Pool, new_pool, refund_total, remaining, sum_remaining}
use solana_gacha.Inventory.View.{tag}
use solana_gacha.Inventory.Tests.{one}
use solana_gacha.Program.Account.{TokenAccount, pool_data}
use solana_gacha.Program.Buy.{reserve}
use solana_gacha.Program.Scene.{pool_of}
use solana_gacha.Market.Scene.{stocked_one}
use solana_gacha.Sdk.Pools.{
  any_weightless, tally, any_other, pool_from_account, spendable_balance, available_draws,
}
use solana_gacha.Sdk.Pools.Laws.{available_draws-reserve_iff}
use solana_gacha.Sdk.Scene.{host, snapshot}

abbrev vault : TokenAccount
vault = record { mint = 6; owner = 10; amount = 500 }

offered : available_draws snapshot 500 ≡ ok 1
unfolding available_draws spendable_balance refund_total remaining sum_remaining
offered = refl

small_stock : remaining (pool_of 0) < 2 ^ 64
unfolding remaining sum_remaining
small_stock = omega arith

available_draws-reserve_iff_example :
    (1 ≤ 1) ↔ (reserve (pool_of 0) (ok vault) 1 1 ≡ ok (100 * 1, 0 + 1))
available_draws-reserve_iff_example =
    available_draws-reserve_iff snapshot vault 1 refl (omega arith) (omega arith) (omega arith)
      small_stock (omega arith) offered

-- The pool of Market/Scene.antt, at its address and with the client's own vault.
abbrev decodable : Pool
decodable = record stocked_one { bump = 7; vault = 112 }

decoded :
    pool_from_account host 111 1 (pool_data decodable one)
    ≡ ok (record { address = 111; header = decodable; index = one })
unfolding pool_from_account tally tag any_other any_weightless refund_total new_pool
decoded = refl
