-- ===== src/Program/Buy/Laws.antt =====
-- What a purchase guarantees.
use solana_gacha.Prelude.{
  ℕ, ◌+◌, ◌*◌, ◌^◌, ◌≤◌, ◌<◌, ◌≡◌, refl, List, Result, ok, err, arith, Result-cases, inl, inr,
  gacha, sold_out,
}
use solana_gacha.Core.State.{Pool, new_pull, payment, refund_amount, refund_total, remaining}
use solana_gacha.Program.Account.{TokenAccount, Env, load_pool, load_token}
use solana_gacha.Program.Buy.{BuyAccounts, BuyInstruction, Bought, buy_instruction, reserve, buy}
use solana_gacha.Program.Solvency.{IsSolvent, IsReserved, refund_each, le-mul}

pub record IsLanded (p : Pool) (token : TokenAccount) (count version amount pending : ℕ)
    : Type 0 where
  pub pinned : version ≡ p.inventory_version
  pub queued : pending ≡ p.pending_draws + count
  pub in_stock : pending ≤ remaining p
  pub priced : amount ≡ p.price * count
  pub covered : refund_each p * pending ≤ token.amount + amount

-- What the checks of a purchase ensure.
pub reserve-ok :
    (p : Pool) (token : TokenAccount) (count version : ℕ) {amount pending : ℕ}
    → reserve p (ok token) count version ≡ ok (amount, pending)
    → IsLanded p token count version amount pending
unfolding reserve payment refund_amount refund_total
reserve-ok p token count version {amount} {pending} h = record {
  pinned = ground arith;
  queued = ground arith;
  in_stock = ground arith;
  priced = ground arith;
  covered = ground arith;
}

-- A positive number of draws within the stock that is not yet pending, with the stock and the
-- balance with the payment within 64 bits and that balance covering every refund then pending,
-- passes the checks of `reserve` at the pool's inventory version, with the price of the draws as
-- the amount and the draws added to the pending ones.
pub reserve_accepts :
    (p : Pool) (token : TokenAccount) (count : ℕ)
    → 0 < count
    → p.pending_draws + count ≤ remaining p
    → remaining p < 2 ^ 64
    → token.amount + p.price * count < 2 ^ 64
    → refund_each p * (p.pending_draws + count) ≤ token.amount + p.price * count
    → reserve p (ok token) count p.inventory_version ≡ ok (p.price * count, p.pending_draws + count)
unfolding reserve payment refund_amount refund_total
reserve_accepts p token count some stock word fits covered =
    let each : refund_each p ≤ refund_each p * (p.pending_draws + count) =
      le-mul (refund_each p) (p.pending_draws + count) (omega arith) in
    ground arith

reserve_sold_out :
    (p : Pool) (vault : Result TokenAccount) (count : ℕ)
    → p.pending_draws + count < 2 ^ 64
    → remaining p < p.pending_draws + count
    → reserve p vault count p.inventory_version ≡ err (gacha sold_out)
unfolding reserve
reserve_sold_out p vault count fits short = ground arith

-- A purchase that succeeds has loaded the pool and the vault's token account, passed every check
-- of `reserve`, and leaves a pool whose pending draws do not exceed its stock and whose refunds
-- are all covered by the vault's balance with the payment; the pool changes in nothing but its
-- pending draws and its next index, which rises by one, and the new pull is pending at the old
-- index with the pool's inventory version and the deadline.
pub buy-ok :
    (env : Env) (a : BuyAccounts) (i : BuyInstruction) {b : Bought}
    → buy env a i ≡ ok b
    → (p : Pool) × (d : List ℕ) × (token : TokenAccount) × (load_pool env a.pool ≡ ok (p, d))
      × (load_token env a.vault ≡ ok token)
      × IsLanded p token i.count i.inventory_version (p.price * i.count) b.pool.pending_draws
      × IsReserved b.pool
      × IsSolvent b.pool (token.amount + p.price * i.count)
      × (b.pool ≡ record p { pending_draws = b.pool.pending_draws; next_index = p.next_index + 1 })
      × (b.pull
          ≡ new_pull i.bump i.count p.inventory_version p.next_index
              (env.slot + p.deadline_slots)
              a.pool.key
              a.buyer.key
              i.client_seed)
unfolding buy
buy-ok env a i {b} h = elim (Result-cases (load_pool env a.pool)) [
  | inr (e, bad) ↦ absurd (ground (arith, bad))
  | inl ((p, d), pool) ↦ elim (Result-cases (load_token env a.vault)) [
    | inr (e, bad) ↦ absurd (unfold reserve in (ground (arith, bad)))
    | inl (token, vault) ↦ elim (Result-cases (reserve p (ok token) i.count i.inventory_version)) [
      | inr (e, bad) ↦ absurd (ground (arith, bad))
      | inl ((amount, pending), run) ↦
          let landed : IsLanded p token i.count i.inventory_version amount pending =
            reserve-ok p token i.count i.inventory_version run in
          let paid : amount ≡ p.price * i.count = landed.priced in
          let left : b.pool ≡ record p { pending_draws = pending; next_index = p.next_index + 1 } =
            ground arith in
          let made : b.pull
              ≡ new_pull i.bump i.count p.inventory_version p.next_index
                  (env.slot + p.deadline_slots) a.pool.key a.buyer.key i.client_seed =
            ground arith in
          (
            p,
            d,
            token,
            pool,
            vault,
            rw left (rw paid at landed),
            unfold remaining in (rw left landed.in_stock),
            rw left (rw paid at landed.covered),
            rw left refl,
            made,
          )
    ]
  ]
]

pub buy_instruction-some :
    (bytes : List ℕ) {i : BuyInstruction} → buy_instruction bytes ≡ ok i → 0 < i.count
unfolding buy_instruction
buy_instruction-some bytes h = ground arith
