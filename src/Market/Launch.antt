-- ===== src/Market/Launch.antt =====
-- The markets that instructions reach from a new pool of program/src/admin/create_pool.rs.
use solana_gacha.Prelude.{ℕ, ◌≡◌, List, [], ok, arith}
use solana_gacha.Inventory.Stock.{stock_mono}
use solana_gacha.Program.Account.{Env}
use solana_gacha.Program.Create.{
  CreatePoolAccounts, CreatePoolInstruction, create_pool_instruction, Created, create_pool,
}
use solana_gacha.Program.Create.Laws.{create_pool-ok}
use solana_gacha.Program.Solvency.{IsSolvent, IsReserved}
use solana_gacha.Program.Step.{remaining-eq-stock}
use solana_gacha.Market.{Market, Reach, IsSound, IsQueue, IsServed, draws}
use solana_gacha.Market.Queue.{IsServed-draws}
use solana_gacha.Market.Sound.{Reach-IsSound}

-- The market of a new pool: the vault may hold tokens already.
abbrev pub launch : Created → ℕ → Market
launch c balance = record { pool = c.pool; index = c.index; balance = balance; queue = [] }

pub launch-IsSound :
    (env : Env) (a : CreatePoolAccounts) (bytes : List ℕ) {i : CreatePoolInstruction} {c : Created}
    (balance : ℕ)
    → create_pool_instruction bytes ≡ ok i
    → create_pool env a i ≡ ok c
    → IsSound (launch c balance)
unfolding IsQueue IsServed draws
launch-IsSound env a bytes {i} {c} balance parsed run =
    let made = create_pool-ok env a bytes parsed run in
    record {
      in_step = made.in_step;
      solvent = rw made.no_pending (omega arith);
      pending = made.no_pending;
      in_order = made.no_queue;
      served = tt;
    }

IsSound-IsReserved : {m : Market} → IsSound m → IsReserved m.pool
IsSound-IsReserved {m} s = omega (
  arith,
  s.pending,
  remaining-eq-stock s.in_step,
  IsServed-draws m.index m.pool.inventory_version 0 m.queue
      (λ n h. stock_mono m.index n m.pool.inventory_version h) (omega arith) s.served,
)

-- From a pool that `create_pool` made of parsed instruction data, after any sequence of funding,
-- deposits, buybacks, purchases, settlements, refunds, withdrawals, changes of status and reclaims
-- that succeed, where the runtime extends an account by zeros within its size limit: the vault
-- covers the refund of every pending draw, every pending draw has an item left, the pending draws
-- are those of the queued pulls, and their indexes run from the next to settle up to the next to
-- give.
pub launched-IsCovered :
    (env : Env) (a : CreatePoolAccounts) (bytes : List ℕ) (balance : ℕ) {i : CreatePoolInstruction}
    {c : Created} {m : Market}
    → create_pool_instruction bytes ≡ ok i
    → create_pool env a i ≡ ok c
    → Reach (launch c balance) m
    → IsSolvent m.pool m.balance
      × IsReserved m.pool
      × (m.pool.pending_draws ≡ draws m.queue)
      × IsQueue m.pool.next_settle m.pool.next_index m.queue
launched-IsCovered env a bytes balance parsed run path =
    let s = Reach-IsSound (launch-IsSound env a bytes balance parsed run) path in
    (s.solvent, IsSound-IsReserved s, s.pending, s.in_order)
