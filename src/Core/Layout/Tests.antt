-- ===== src/Core/Layout/Tests.antt =====
-- Runs of the layouts of packages/gacha-core/src/state.rs on concrete bytes.
use solana_gacha.Prelude.{
  ℕ, ◌^◌, ◌≡◌, refl, List, [], ◌∷◌, ok, err, panic, map_ok, arith, replicate, length,
}
use solana_gacha.Bytes.{le_bytes, length-le_bytes}
use solana_gacha.Bytes.Values.{le_bytes-AreBytes}
use solana_gacha.Core.Constants.{pool_len, pull_len}
use solana_gacha.Core.State.{new_pool, set_outcome, mark_delivered, all_delivered}
use solana_gacha.Core.Layout.{
  RawPull, over_pool, pool_bytes, pool_view, over_pull, pull_bytes, pull_view,
}
use solana_gacha.Core.Layout.Laws.{raw_pool, raw_pull}
use solana_gacha.Core.Layout.Overlay.{pool_bytes-pool_view, pull_bytes-pull_view}
use solana_gacha.Core.Layout.Writes.{
  outcome_bytes, set_pool, put_outcome, put_delivered, outcomes_delivered,
}
use solana_gacha.Core.Layout.Writes.Laws.{set_pool_zeroed, outcome_writes-pull_view}

abbrev pool_sample : List ℕ
pool_sample = le_bytes pool_len (7 ^ 700)

abbrev pull_sample : List ℕ
pull_sample = le_bytes pull_len (7 ^ 1200)

abbrev pull : RawPull
unfolding over_pull
pull = over_pull (0 ∷ 0 ∷ 0 ∷ 2 ∷ le_bytes 446 (7 ^ 1200))

pool_bytes-pool_view_example :
    pool_bytes (raw_pool (pool_view (over_pool pool_sample))) ≡ pool_sample
pool_bytes-pool_view_example =
    pool_bytes-pool_view pool_sample (length-le_bytes pool_len (7 ^ 700))
      (le_bytes-AreBytes pool_len (7 ^ 700))

pull_bytes-pull_view_example :
    pull_bytes (raw_pull (pull_view (over_pull pull_sample))) ≡ pull_sample
pull_bytes-pull_view_example =
    pull_bytes-pull_view pull_sample (length-le_bytes pull_len (7 ^ 1200))
      (le_bytes-AreBytes pull_len (7 ^ 1200))

set_pool_zeroed_example :
    map_ok pool_view
      (set_pool (over_pool (replicate pool_len 0)) 254 11 12 13 14 1 1000 300 50 (5 ∷ 70000 ∷ []))
    ≡ ok (new_pool 254 11 12 13 14 1 1000 300 50 (5 ∷ 70000 ∷ []))
set_pool_zeroed_example =
    set_pool_zeroed 254 11 12 13 14 1 1000 300 50 (5 ∷ 70000 ∷ []) (omega arith)
      (omega arith, omega arith, omega arith, omega arith)
      (omega arith, omega arith, omega arith, omega arith) (omega arith, (omega arith, tt))

outcome_writes-pull_view_example :
    (map_ok pull_view (put_outcome pull 3 2 99) ≡ ok (set_outcome (pull_view pull) 3 2 99))
    × (map_ok pull_view (put_delivered pull 3) ≡ ok (mark_delivered (pull_view pull) 3))
    × (outcomes_delivered pull ≡ ok (all_delivered (pull_view pull)))
unfolding pull
outcome_writes-pull_view_example =
    outcome_writes-pull_view pull 3 2 99 (omega arith) refl (omega arith) (omega arith)

-- The packed awards of an event.
two_awards : map_ok length (outcome_bytes pull 2) ≡ ok 66
unfolding outcome_bytes pull
two_awards = refl

too_many_awards : outcome_bytes pull 11 ≡ err panic
unfolding outcome_bytes pull
too_many_awards = refl
