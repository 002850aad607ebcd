-- ===== src/Market/Leaves.antt =====
-- Settlements and refunds on a sound market: the head of the queue leaves.
use solana_gacha.Prelude.{
  ℕ, ◌+◌, ◌-◌, ◌*◌, ◌≤◌, ◌≡◌, ap, sym, refl, ◌∙◌, List, [], ◌∷◌, ◌++◌, ok, ok-injective, length,
  arith,
}
use solana_gacha.Core.State.{Pubkey, Pool, Pull}
use solana_gacha.Inventory.Stock.{stock}
use solana_gacha.Program.Account.{Env, AccountInfo, load_pool, load_pull}
use solana_gacha.Program.Refund.{RefundAccounts, Refunded, refund_accounts, refund}
use solana_gacha.Program.Refund.Laws.{refund-ok}
use solana_gacha.Program.Deadline.{settle_accounts-ok, refund_accounts-ok}
use solana_gacha.Program.Settle.{Drawing, SettleAccounts, Settled, settle_accounts, settle}
use solana_gacha.Program.Settle.Queue.{
  IsDrawing, IsSpent, IsDrawing-IsSpent, drawing_start, settle-ok,
}
use solana_gacha.Program.Solvency.{IsSolvent, refund_each, mul-split, mul_mono}
use solana_gacha.Program.Step.{IsInStep, kept-IsInStep}
use solana_gacha.Market.{Market, IsSound, IsQueue, IsServed, draws}
use solana_gacha.Market.Buys.{load_pool-pool}
use solana_gacha.Market.Queue.{IsQueue-head, IsServed-change}
use solana_gacha.Market.Draws.{IsDrawing-IsInStep, IsDrawing-stock}

-- The head of the queue leaves: what is left for the others.
left-IsSound :
    {m : Market} (s : IsSound m) (l : Pull) (rest : List Pull) (p' : Pool) (d' : List ℕ)
    (balance : ℕ)
    → m.queue ≡ l ∷ rest
    → IsInStep p' d'
    → p'.inventory_version ≡ m.pool.inventory_version
    → ((n : ℕ) → stock m.index n ≤ stock d' n + l.count)
    → p'.pending_draws + l.count ≡ m.pool.pending_draws
    → p'.next_settle ≡ l.index + 1
    → p'.next_index ≡ m.pool.next_index
    → IsSolvent p' balance
    → IsSound (record { pool = p'; index = d'; balance = balance; queue = rest })
unfolding IsQueue IsServed draws
left-IsSound {m} s l rest p' d' balance q step version taken owed head end solvent =
    let order = rw q at s.in_order in
    let served = rw q at s.served in
    record {
      in_step = step;
      solvent = solvent;
      pending = omega (arith, s.pending, ap draws q);
      in_order = rw (head, end, order.0) order.1;
      served =
          IsServed-change m.index d' m.pool.inventory_version p'.inventory_version (0 + l.count) 0
            rest (omega (arith, version)) (λ n b. omega (arith, taken n)) served.3;
    }

-- A sequence of draws for the pull at the head, and the queue moved on.
drawn_left :
    {m : Market} (s : IsSound m) (l : Pull) (rest : List Pull) (env : Env) (key : Pubkey)
    (items : List AccountInfo) (lamports : ℕ) {e : Drawing} {p' : Pool} {d' : List ℕ}
    → m.queue ≡ l ∷ rest
    → length items ≡ l.count
    → IsDrawing env key m.pool.inventory_version l.inventory_version 0 items
        (drawing_start m.pool m.index l lamports)
        e
    → p' ≡ record e.pool {
      pending_draws = e.pool.pending_draws - length items;
      next_settle = e.pull.index + 1;
    }
    → d' ≡ e.index
    → p'.pending_draws + length items ≡ m.pool.pending_draws
    → p'.next_settle ≡ l.index + 1
    → refund_each p' ≡ refund_each m.pool
    → IsSound (record { pool = p'; index = d'; balance = m.balance; queue = rest })
drawn_left {m} s l rest env key items lamports {e} {p'} {d'} ahead count rounds pooled indexed owed
      advanced each =
    let spent : IsSpent items (drawing_start m.pool m.index l lamports) e =
      IsDrawing-IsSpent rounds in
    let kept : p' ≡ record m.pool {
      all_tiers = p'.all_tiers;
      pending_draws = p'.pending_draws;
      next_settle = p'.next_settle;
    } =
      rw pooled (
        ap
          (λ (x : Pool). record x {
            pending_draws = e.pool.pending_draws - length items;
            next_settle = e.pull.index + 1;
          })
          spent.kept) in
    let stepped : IsInStep e.pool e.index = IsDrawing-IsInStep rounds refl s.in_step in
    left-IsSound s l rest p' d' m.balance ahead
      (rw indexed (kept-IsInStep stepped (rw pooled refl)))
      (ap (λ (x : Pool). x.inventory_version) kept)
      (λ i. rw indexed (omega (arith, IsDrawing-stock rounds i, count)))
      (omega (arith, owed, count)) advanced (ap (λ (x : Pool). x.next_index) kept)
      (rw each (
        omega (
          arith,
          s.solvent,
          mul_mono (refund_each m.pool) p'.pending_draws m.pool.pending_draws (omega (arith, owed)),
        )))

module _ {m : Market} (s : IsSound m) (env : Env) (before after : List Pull) (l : Pull)
    (q : m.queue ≡ before ++ (l ∷ after)) where
  at_head : l.index ≡ m.pool.next_settle → before ≡ []
  at_head e =
      IsQueue-head m.pool.next_settle m.pool.next_index before after l (rw q at s.in_order) e

  pub refunded-IsSound :
      (accounts : List AccountInfo) {a : RefundAccounts} {r : Refunded}
      → load_pool env a.pool ≡ ok (m.pool, m.index)
      → load_pull env a.pull ≡ ok l
      → refund_accounts env accounts ≡ ok a
      → refund env a ≡ ok r
      → IsSound (record m {
        pool = r.pool;
        balance = m.balance - refund_each m.pool * l.count;
        queue = before ++ after;
      })
  refunded-IsSound accounts {a} {r} loads pulls checked run =
      let (p, d, l', n, late, _, _) = refund_accounts-ok env accounts checked in
      let ep : p ≡ m.pool = load_pool-pool env a.pool n.pool_loads loads in
      let el : l' ≡ l = ok-injective (sym n.pull_loads ∙ pulls) in
      let first : l.index ≡ m.pool.next_settle =
        ap (λ (x : Pull). x.index) (sym el) ∙ n.head ∙ ap (λ (x : Pool). x.next_settle) ep in
      let nobody : before ≡ [] = at_head first in
      let (amount, released) = refund-ok env a loads pulls run in
      let split : refund_each m.pool * m.pool.pending_draws
          ≡ refund_each m.pool * l.count + refund_each m.pool * (m.pool.pending_draws - l.count) =
        mul-split (refund_each m.pool) l.count m.pool.pending_draws
          (omega (arith, released.unqueued)) in
      let left : r.pool.pending_draws ≡ m.pool.pending_draws - l.count =
        omega (arith, released.unqueued) in
      let each : refund_each r.pool ≡ refund_each m.pool =
        ap (λ (x : Pool). refund_each x) released.same in
      rw nobody (
        left-IsSound s l after r.pool m.index (m.balance - refund_each m.pool * l.count)
          (q ∙ ap (λ (x : List Pull). x ++ (l ∷ after)) nobody)
          (kept-IsInStep s.in_step (rw released.same refl))
          (ap (λ (x : Pool). x.inventory_version) released.same) (λ i. omega arith)
          released.unqueued released.advanced (ap (λ (x : Pool). x.next_index) released.same)
          (rw (each, left) (omega (arith, split, s.solvent))))

  pub settled-IsSound :
      (accounts : List AccountInfo) (proof : List ℕ) {a : SettleAccounts} {r : Settled}
      → load_pool env a.pool ≡ ok (m.pool, m.index)
      → load_pull env a.pull ≡ ok l
      → settle_accounts env accounts ≡ ok a
      → settle env a proof ≡ ok r
      → IsSound (record m { pool = r.pool; index = r.index; queue = before ++ after })
  unfolding IsServed
  settled-IsSound accounts proof {a} {r} loads pulls checked run =
      let (p, d, l', n, soon, _, items) = settle_accounts-ok env accounts checked in
      let ep : p ≡ m.pool = load_pool-pool env a.pool n.pool_loads loads in
      let el : l' ≡ l = ok-injective (sym n.pull_loads ∙ pulls) in
      let first : l.index ≡ m.pool.next_settle =
        ap (λ (x : Pull). x.index) (sym el) ∙ n.head ∙ ap (λ (x : Pool). x.next_settle) ep in
      let count : length a.items ≡ l.count = items ∙ ap (λ (x : Pull). x.count) el in
      let nobody : before ≡ [] = at_head first in
      let ahead : m.queue ≡ l ∷ after = q ∙ ap (λ (x : List Pull). x ++ (l ∷ after)) nobody in
      let served : IsServed m.index m.pool.inventory_version 0 (l ∷ after) = rw ahead at s.served in
      let (e, rounds, pooled, pulled, indexed, stocked, owed, sold, advanced, each) =
        settle-ok env a proof loads pulls s.in_step.stocked served.1 s.in_step.room run in
      rw nobody (
        drawn_left s l after env a.pool.key a.items a.operator.lamports ahead count rounds pooled
          indexed owed advanced each)
