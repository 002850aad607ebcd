-- ===== src/Market.antt =====
-- A pool with its index, its vault's balance and its queue of pending pulls, and the instructions of
-- program/src as steps on them.
use solana_gacha.Prelude.{
  ℕ, zero, suc, ◌+◌, ◌-◌, ◌*◌, ◌^◌, ◌≤◌, ◌<◌, ◌≡◌, List, [], ◌∷◌, ◌++◌, ok, length,
}
use solana_gacha.Core.Constants.{inventory_space}
use solana_gacha.Core.State.{Pool, Pull}
use solana_gacha.Inventory.{blocks}
use solana_gacha.Inventory.Stock.{stock}
use solana_gacha.Inventory.Append.Open.{grow}
use solana_gacha.Program.Account.{AccountInfo, TokenAccount, Env, load_pool, load_pull, load_token}
use solana_gacha.Program.Restock.{Restocked}
use solana_gacha.Program.Deposit.{DepositItemAccounts, deposit_item}
use solana_gacha.Program.Buyback.{BuybackAccounts, BuybackInstruction, buyback}
use solana_gacha.Program.Buy.{BuyAccounts, BuyInstruction, Bought, buy_instruction, buy}
use solana_gacha.Program.Settle.{SettleAccounts, Settled, settle_accounts, settle}
use solana_gacha.Program.Refund.{RefundAccounts, Refunded, refund_accounts, refund}
use solana_gacha.Program.Withdraw.{WithdrawAccounts, withdraw}
use solana_gacha.Program.Lifecycle.{StatusAccounts, Changed, set_status}
use solana_gacha.Program.Lifecycle.Reclaim.{ReclaimAccounts, Reclaimed, reclaim_accounts, reclaim}
use solana_gacha.Program.Solvency.{IsSolvent, refund_each}
use solana_gacha.Program.Step.{IsInStep}
pub mod Draws
pub mod Restocks
pub mod Queue
pub mod Buys
pub mod Leaves
pub mod Sound
pub mod Launch
pub mod Refunds
pub mod Scene
pub mod Tests

pub record Market : Type 0 where
  pub pool : Pool
  pub index : List ℕ
  pub balance : ℕ
  pub queue : List Pull

-- The runtime extends the pool's account by zeros, within its size limit.
pub record Extends (env : Env) (m : Market) : Type 0 where
  pub zeros :
      env.realloc m.index (inventory_space (m.pool.inventory_version + 1))
      ≡ ok (grow m.index m.pool.inventory_version)
  pub small : blocks (grow m.index m.pool.inventory_version) < 2 ^ 26

-- The account of the pool's vault holds the balance.
pub record Holds (env : Env) (vault : AccountInfo) (m : Market) : Type 0 where
  pub token : TokenAccount
  pub loads : load_token env vault ≡ ok token
  pub held : token.amount ≡ m.balance

-- One instruction that succeeds on the pool, or tokens that anyone sends to the vault. A settlement or
-- a refund is of any pull that is pending: its place in the queue is for the code to check.
pub data Step (m : Market) : Market → Type 0 where
  funded : (n : ℕ) → Step m (record m { balance = m.balance + n })
  deposited :
      (env : Env) (a : DepositItemAccounts) (tier bump : ℕ) {r : Restocked}
      → load_pool env a.pool ≡ ok (m.pool, m.index)
      → Extends env m
      → deposit_item env a tier bump ≡ ok r
      → Step m (record m { pool = r.pool; index = r.index })
  bought_back :
      (env : Env) (a : BuybackAccounts) (i : BuybackInstruction) {r : Restocked}
      → load_pool env a.pool ≡ ok (m.pool, m.index)
      → Holds env a.vault m
      → Extends env m
      → buyback env a i ≡ ok r
      → Step m (record m { pool = r.pool; index = r.index; balance = m.balance - i.price })
  bought :
      (env : Env) (a : BuyAccounts) (bytes : List ℕ) {i : BuyInstruction} {b : Bought}
      → load_pool env a.pool ≡ ok (m.pool, m.index)
      → Holds env a.vault m
      → buy_instruction bytes ≡ ok i
      → buy env a i ≡ ok b
      → Step m (record m {
        pool = b.pool;
        balance = m.balance + m.pool.price * i.count;
        queue = m.queue ++ (b.pull ∷ []);
      })
  settled :
      (env : Env) (accounts : List AccountInfo) (proof : List ℕ) (before after : List Pull)
      {a : SettleAccounts} {l : Pull} {s : Settled}
      → m.queue ≡ before ++ (l ∷ after)
      → load_pool env a.pool ≡ ok (m.pool, m.index)
      → load_pull env a.pull ≡ ok l
      → settle_accounts env accounts ≡ ok a
      → settle env a proof ≡ ok s
      → Step m (record m { pool = s.pool; index = s.index; queue = before ++ after })
  refunded :
      (env : Env) (accounts : List AccountInfo) (before after : List Pull) {a : RefundAccounts}
      {l : Pull} {r : Refunded}
      → m.queue ≡ before ++ (l ∷ after)
      → load_pool env a.pool ≡ ok (m.pool, m.index)
      → load_pull env a.pull ≡ ok l
      → refund_accounts env accounts ≡ ok a
      → refund env a ≡ ok r
      → Step m (record m {
        pool = r.pool;
        balance = m.balance - refund_each m.pool * l.count;
        queue = before ++ after;
      })
  withdrawn :
      (env : Env) (a : WithdrawAccounts) (amount : ℕ) {calls : List _}
      → load_pool env a.pool ≡ ok (m.pool, m.index)
      → Holds env a.vault m
      → withdraw env a amount ≡ ok calls
      → Step m (record m { balance = m.balance - amount })
  changed :
      (env : Env) (a : StatusAccounts) (status : ℕ) {c : Changed}
      → load_pool env a.pool ≡ ok (m.pool, m.index)
      → set_status env a status ≡ ok c
      → Step m (record m { pool = c.pool })
  reclaimed :
      (env : Env) (accounts : List AccountInfo) {a : ReclaimAccounts} {r : Reclaimed}
      → load_pool env a.pool ≡ ok (m.pool, m.index)
      → reclaim_accounts env accounts ≡ ok a
      → reclaim env a ≡ ok r
      → Step m (record m { pool = r.pool; index = r.index })

pub data Reach (m : Market) : Market → Type 0 where
  here : Reach m m
  next : {t u : Market} → Reach m t → Step t u → Reach m u

-- The draws of all pending pulls.
unfoldable pub draws : List Pull → ℕ
draws [] = 0
draws (l ∷ ls) = l.count + draws ls

-- The pulls have the indexes from `first` on, up to the next one to give.
pub IsQueue : ℕ → ℕ → List Pull → Type 0
IsQueue first end [] = first ≡ end
IsQueue first end (l ∷ ls) = (l.index ≡ first) × IsQueue (first + 1) end ls

-- Every pull has draws, is pinned to a version that the pool has reached, and finds enough items among
-- those deposited before that version, also after `taken` of them have gone to the pulls ahead of it.
unfoldable pub IsServed : List ℕ → ℕ → ℕ → List Pull → Type 0
IsServed d version taken [] = Unit
IsServed d version taken (l ∷ ls) =
    (0 < l.count)
    × (l.inventory_version ≤ version)
    × (taken + l.count ≤ stock d l.inventory_version)
    × IsServed d version (taken + l.count) ls

pub record IsSound (m : Market) : Type 0 where
  pub in_step : IsInStep m.pool m.index
  pub solvent : IsSolvent m.pool m.balance
  pub pending : m.pool.pending_draws ≡ draws m.queue
  pub in_order : IsQueue m.pool.next_settle m.pool.next_index m.queue
  pub served : IsServed m.index m.pool.inventory_version 0 m.queue
