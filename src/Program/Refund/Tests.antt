-- ===== src/Program/Refund/Tests.antt =====
-- The refund of program/src/player/refund.rs on a concrete pool.
use solana_gacha.Prelude.{[], ◌∷◌, ℕ, ◌+◌, ◌-◌, ◌^◌, ◌<◌, ◌≤◌, ◌≡◌, refl, ok, arith}
use solana_gacha.Core.State.{Pool, new_pull, refund_amount, refund_total}
use solana_gacha.Program.Solvency.{IsSolvent}
use solana_gacha.Program.Refund.{refund, refund_event, release}
use solana_gacha.Program.Refund.Laws.{IsReleased, release-ok, release_accepts}
use solana_gacha.Program.Account.{token_transfer, load_pool, load_pull, check_account, close}
use solana_gacha.Program.Scene.{env, refunding, pool_of, pull_until}

abbrev released : Pool
released = record (pool_of 1) { pending_draws = 0; next_settle = 1 }

release_run : release (pool_of 1) (pull_until 50) ≡ ok (110, released)
unfolding release refund_amount refund_total new_pull
release_run = refl

release-ok_example : IsReleased (pool_of 1) released (pull_until 50) 110
release-ok_example = release-ok (pool_of 1) (pull_until 50) release_run

some_draws : 0 < (pull_until 50).count
unfolding new_pull
some_draws = omega arith

queued_draws : (pull_until 50).count ≤ 1
unfolding new_pull
queued_draws = omega arith

next_fits : (pull_until 50).index + 1 < 2 ^ 64
unfolding new_pull
next_fits = omega arith

release_accepts_example :
    (amount : ℕ) × (p' : Pool) × (release (pool_of 1) (pull_until 50) ≡ ok (amount, p'))
    × (amount ≤ 500)
    × IsSolvent p' (500 - amount)
release_accepts_example =
    release_accepts (pool_of 1) (pull_until 50) 500 (omega arith) (omega arith) some_draws
      queued_draws next_fits

refund_run :
    refund env refunding
    ≡ ok (record {
      pool = released;
      buyer_lamports = 14;
      calls = token_transfer 40 41 10 110 ∷ refund_event env refunding 110 ∷ [];
    })
unfolding refund release refund_amount refund_total load_pool load_pull check_account close new_pull
refund_run = refl
