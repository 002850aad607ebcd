-- ===== src/Sdk/Plan/Reached.antt =====
-- The pull at the head of a market that instructions reach can always be settled by the client's plan.
use solana_gacha.Prelude.{ℕ, ◌+◌, ◌^◌, ◌≤◌, ◌<◌, ◌≡◌, ◌∙◌, ap, List, ◌∷◌, ok, arith, length}
use solana_gacha.Core.State.{Pubkey, Pull, tiers}
use solana_gacha.Inventory.Stock.{stock}
use solana_gacha.Program.Account.{Env}
use solana_gacha.Program.Settle.{SettleAccounts, Settled, settle}
use solana_gacha.Program.Create.{
  CreatePoolAccounts, CreatePoolInstruction, create_pool_instruction, Created, create_pool,
}
use solana_gacha.Market.{Market, Reach, IsSound, IsServed, draws}
use solana_gacha.Market.Sound.{Reach-IsSound}
use solana_gacha.Market.Launch.{launch, launch-IsSound}
use solana_gacha.Sdk.{Host, PoolSnapshot, PullSnapshot}
use solana_gacha.Sdk.Plan.{Settlement, settle_order}
use solana_gacha.Sdk.Plan.Accepts.{IsMatching, total_lamports}
use solana_gacha.Sdk.Plan.Chain.{IsShared, settle_accepts}

-- What soundness says of the pull at the head.
head-IsServed :
    {m : Market} {l : Pull} {rest : List Pull}
    → IsSound m
    → m.queue ≡ l ∷ rest
    → (l.inventory_version ≤ m.pool.inventory_version)
      × (l.count ≤ stock m.index l.inventory_version)
      × (l.count ≤ m.pool.pending_draws)
unfolding IsServed draws
head-IsServed {m} {l} {rest} s q =
    let served : IsServed m.index m.pool.inventory_version 0 (l ∷ rest) = rw q at s.served in
    let owed : m.pool.pending_draws ≡ draws (l ∷ rest) = s.pending ∙ ap draws q in
    (served.1, omega (arith, served.2), omega (arith, owed))

abbrev pub snapshot_of : Pubkey → Market → PoolSnapshot
snapshot_of address m = record { address = address; header = m.pool; index = m.index }

-- Of a pool that `create_pool` made of parsed instruction data, in any market that steps reach,
-- the pull at the head of the queue is settled: when the client's `settle_order` on a snapshot of
-- that market and pull comes out, and each item account of the settlement loads as the item that
-- the order names, for that pool, tier and position, then `settle` succeeds. It is assumed that
-- the tier count is the number of stored tiers in use, that the queue index and the operator's
-- lamports with the rents stay within 64 bits, that client and program see the same pool and pull,
-- hash, key bytes and proof verification, with one item account for each draw, and that the calls
-- of other programs succeed.
pub reached_settles :
    (made : Env) (creating : CreatePoolAccounts) (params : List ℕ) (balance : ℕ)
    {i : CreatePoolInstruction} {c : Created} {m : Market} {rest : List Pull} (h : Host)
    (address : Pubkey) (l : PullSnapshot) (proof : List ℕ) (env : Env) (a : SettleAccounts)
    {o : Settlement}
    → create_pool_instruction params ≡ ok i
    → create_pool made creating i ≡ ok c
    → Reach (launch c balance) m
    → m.queue ≡ l.header ∷ rest
    → m.pool.tier_count ≡ length (tiers m.pool)
    → l.header.index + 1 < 2 ^ 64
    → a.operator.lamports + total_lamports a.items < 2 ^ 64
    → IsShared h env (snapshot_of address m) l a
    → settle_order h (snapshot_of address m) l proof ≡ ok o
    → IsMatching env a.pool.key a.items o.draws
    → (b : Settled) × (settle env a proof ≡ ok b)
reached_settles made creating params balance {m = m} h address l proof env a parsed run path q all
      index fits shared planned matching =
    let s = Reach-IsSound (launch-IsSound made creating params balance parsed run) path in
    let (past, enough, owed) = head-IsServed s q in
    settle_accepts h (snapshot_of address m) l proof s.in_step all past enough env a shared owed
      index fits planned matching
