-- ===== src/Program/Buyback/Laws.antt =====
-- What a buyback of program/src/player/buyback.rs was allowed by.
use solana_gacha.Prelude.{
  ℕ, ◌-◌, ◌^◌, ◌≤◌, ◌<◌, ◌≡◌, List, true, false, ok, arith, Result-cases, inl, inr,
}
use solana_gacha.Core.Quote.{buyback_message}
use solana_gacha.Core.Draw.{u64_at}
use solana_gacha.Core.State.{Pool, refund_amount, refund_total}
use solana_gacha.Program.Account.{Env, TokenAccount, load_pool, load_token}
use solana_gacha.Program.Restock.{Restocked}
use solana_gacha.Program.Buyback.{
  BuybackAccounts, BuybackInstruction, signed_le, buyback_instruction, buyback,
}
use solana_gacha.Program.Solvency.{IsSolvent}

-- The quote is the pool authority's, for these accounts, and not expired; the vault can pay it.
pub record IsQuoted (env : Env) (a : BuybackAccounts) (i : BuybackInstruction) (p : Pool)
    (token : TokenAccount) : Type 0 where
  pub signed :
      env.verify_strict p.authority i.signature (
        buyback_message
          (env.key_bytes a.pool.key)
          (env.key_bytes a.asset.key)
          i.price
          i.expires_at
          i.tier)
      ≡ true
  pub in_time : env.unix_timestamp < i.expires_at
  pub in_use : i.tier < p.tier_count
  pub affordable : i.price ≤ token.amount
  pub covered : IsSolvent p (token.amount - i.price)

buyback_instruction-ok :
    (env : Env) (bytes : List ℕ) {i : BuybackInstruction}
    → buyback_instruction env bytes ≡ ok i
    → i.expires_at < 2 ^ 63
    → env.unix_timestamp < 2 ^ 63
    → env.unix_timestamp < i.expires_at
unfolding buyback_instruction
buyback_instruction-ok env bytes {i} parsed later now =
    let e : i.expires_at ≡ u64_at bytes 9 = ground arith in
    rw e (signed_lt env.unix_timestamp (u64_at bytes 9) now (rw (← e) later) (ground arith))
  where
    signed_lt : (a b : ℕ) → a < 2 ^ 63 → b < 2 ^ 63 → signed_le b a ≡ false → a < b
    signed_lt a b ha hb h = ground arith

-- What the checks of `process` ensure.
quoted :
    (env : Env) (a : BuybackAccounts) (i : BuybackInstruction) {r : Restocked} {p : Pool}
    {d : List ℕ} {token : TokenAccount}
    → load_pool env a.pool ≡ ok (p, d)
    → load_token env a.vault ≡ ok token
    → buyback env a i ≡ ok r
    → (env.verify_strict p.authority i.signature (
          buyback_message
            (env.key_bytes a.pool.key)
            (env.key_bytes a.asset.key)
            i.price
            i.expires_at
            i.tier)
        ≡ true)
      × (i.tier < p.tier_count)
      × (i.price ≤ token.amount)
      × IsSolvent p (token.amount - i.price)
unfolding buyback refund_amount refund_total
quoted env a i pool vault run = (
  ground (arith, pool, vault),
  ground (arith, pool, vault),
  ground (arith, pool, vault),
  ground (arith, pool, vault),
)

-- With an expiry and a clock that are not negative, a buyback that succeeds on parsed instruction
-- data has loaded the pool and the vault; the signature is the pool authority's for the message of
-- this pool, asset, price, expiry and tier, the clock is before the expiry, the tier is in use,
-- the vault holds the price, and what it keeps covers every pending refund.
pub buyback-ok :
    (env : Env) (a : BuybackAccounts) (bytes : List ℕ) {i : BuybackInstruction} {r : Restocked}
    → buyback_instruction env bytes ≡ ok i
    → i.expires_at < 2 ^ 63
    → env.unix_timestamp < 2 ^ 63
    → buyback env a i ≡ ok r
    → (p : Pool) × (d : List ℕ) × (token : TokenAccount) × (load_pool env a.pool ≡ ok (p, d))
      × (load_token env a.vault ≡ ok token)
      × IsQuoted env a i p token
buyback-ok env a bytes {i} parsed later now run = elim (Result-cases (load_pool env a.pool)) [
  | inr (e, bad) ↦ absurd (unfold buyback in (ground (arith, bad)))
  | inl ((p, d), pool) ↦ elim (Result-cases (load_token env a.vault)) [
    | inr (e, bad) ↦ absurd (unfold buyback in (ground (arith, pool, bad)))
    | inl (token, vault) ↦
        let (signed, in_use, affordable, covered) = quoted env a i pool vault run in
        (
          p,
          d,
          token,
          pool,
          vault,
          record {
            signed = signed;
            in_time = buyback_instruction-ok env bytes parsed later now;
            in_use = in_use;
            affordable = affordable;
            covered = covered;
          },
        )
  ]
]
