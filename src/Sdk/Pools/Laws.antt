-- ===== src/Sdk/Pools/Laws.antt =====
-- What the client offers for sale against what the program accepts.
use solana_gacha.Prelude.{ℕ, ◌+◌, ◌-◌, ◌*◌, ◌/◌, ◌^◌, ◌≤◌, ◌<◌, ◌≡◌, ◌↔◌, min, ok, arith}
use native.Mathlib.Nat.{le-div_iff_mul-le}
use solana_gacha.Core.Constants.{pool_active, max_count}
use solana_gacha.Core.State.{Pool, refund_total, remaining}
use solana_gacha.Program.Account.{TokenAccount}
use solana_gacha.Program.Buy.{reserve}
use solana_gacha.Program.Buy.Laws.{reserve-ok, reserve_accepts}
use solana_gacha.Program.Solvency.{refund_each, le-mul}
use solana_gacha.Sdk.{PoolSnapshot}
use solana_gacha.Sdk.Pools.{spendable_balance, available_draws}

-- The number is the least of the stock not yet pending, the penalties that are free, and ten.
available_draws-eq :
    (s : PoolSnapshot) (balance : ℕ) {n : ℕ}
    → s.header.status ≡ pool_active
    → available_draws s balance ≡ ok n
    → (s.header.pending_draws ≤ remaining s.header)
      × (n
          ≡ min
              (min (remaining s.header - s.header.pending_draws) (
                (balance - refund_each s.header * s.header.pending_draws) / s.header.bond_per_draw))
              max_count)
unfolding available_draws spendable_balance refund_total
available_draws-eq s balance active h = (ground (arith, active), ground (arith, active))

-- On a snapshot of an active pool with a positive penalty, with the stock and the balance with the
-- payment within 64 bits, where the client's `available_draws` for the vault's balance is `n`: a
-- purchase of between one and ten draws is of at most `n` exactly when it passes the checks of the
-- program's `reserve` at the pool's inventory version, with the price of the draws as the amount
-- and the draws added to the pending ones.
pub available_draws-reserve_iff :
    (s : PoolSnapshot) (token : TokenAccount) (count : ℕ) {n : ℕ}
    → s.header.status ≡ pool_active
    → 0 < s.header.bond_per_draw
    → 0 < count
    → count ≤ max_count
    → remaining s.header < 2 ^ 64
    → token.amount + s.header.price * count < 2 ^ 64
    → available_draws s token.amount ≡ ok n
    → (count ≤ n) ↔ (
        reserve s.header (ok token) count s.header.inventory_version
        ≡ ok (s.header.price * count, s.header.pending_draws + count))
available_draws-reserve_iff s token count {n} active bonded some few stock fits h =
    let p : Pool = s.header in
    let (queued, least) = available_draws-eq s token.amount active h in
    let free : ℕ = token.amount - refund_each p * p.pending_draws in
    let funded : (count ≤ free / p.bond_per_draw) ↔ (count * p.bond_per_draw ≤ free) =
      le-div_iff_mul-le bonded in
    let shared : refund_each p * (p.pending_draws + count)
        ≡ refund_each p * p.pending_draws + p.price * count + count * p.bond_per_draw =
      grind arith in
    (
      (λ le.
          let paid : count * p.bond_per_draw ≤ free = funded.0 (omega (arith, le, least)) in
          let positive : count ≤ count * p.bond_per_draw = le-mul count p.bond_per_draw bonded in
          reserve_accepts p token count some (omega (arith, le, least, queued)) stock fits
            (omega (arith, paid, shared, positive))),
      (λ run.
          let landed = reserve-ok p token count p.inventory_version run in
          let paid : count ≤ free / p.bond_per_draw =
            funded.1 (omega (arith, landed.covered, shared)) in
          omega (arith, least, paid, few, landed.in_stock)),
    )
