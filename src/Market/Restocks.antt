-- ===== src/Market/Restocks.antt =====
-- The pool that a deposit or a buyback leaves, and the sound market with it.
use solana_gacha.Prelude.{ℕ, ◌+◌, ◌-◌, ◌≤◌, ◌≡◌, ap, ◌∙◌, List, ok, arith, Result-cases, inl, inr}
use solana_gacha.Core.State.{Pool, refund_amount, refund_total}
use solana_gacha.Inventory.View.{tag}
use solana_gacha.Inventory.Stock.{stock-Stocked}
use solana_gacha.Program.Account.{Env, load_pool}
use solana_gacha.Program.Restock.{Restocked, restock}
use solana_gacha.Program.Restock.Laws.{IsRestocked, restock-ok}
use solana_gacha.Program.Deposit.{DepositItemAccounts, deposit_item}
use solana_gacha.Program.Buyback.{BuybackAccounts, BuybackInstruction, buyback}
use solana_gacha.Program.Solvency.{IsSolvent, refund_each}
use solana_gacha.Program.Step.Laws.{restocked-IsInStep}
use solana_gacha.Market.{Market, Extends, Holds, IsSound}
use solana_gacha.Market.Queue.{IsServed-change}

module _ {m : Market} (s : IsSound m) where
  pub deposit_item-IsRestocked :
      (env : Env) (a : DepositItemAccounts) (tier bump : ℕ) {r : Restocked}
      → load_pool env a.pool ≡ ok (m.pool, m.index)
      → Extends env m
      → deposit_item env a tier bump ≡ ok r
      → IsRestocked m.pool m.index r.pool r.index tier
  unfolding deposit_item
  deposit_item-IsRestocked env a tier bump {r} loads x h =
      elim (Result-cases (restock env a.authority a.pool a.item a.asset.key tier bump)) [
        | inr (e, bad) ↦ absurd (ground (arith, loads, bad))
        | inl (r', run) ↦
            let (restocked, _) =
              restock-ok env a.authority a.pool a.item a.asset.key tier bump loads x.zeros
                s.in_step.stocked s.in_step.room x.small run in
            let ep : r.pool ≡ r'.pool = ground (arith, loads, run) in
            let ed : r.index ≡ r'.index = ground (arith, loads, run) in rw (ep, ed) restocked
      ]

  -- A buyback also leaves the refunds covered, since it pays from what is not reserved.
  pub buyback-IsRestocked :
      (env : Env) (a : BuybackAccounts) (i : BuybackInstruction) {r : Restocked}
      → load_pool env a.pool ≡ ok (m.pool, m.index)
      → Holds env a.vault m
      → Extends env m
      → buyback env a i ≡ ok r
      → IsRestocked m.pool m.index r.pool r.index i.tier
        × (i.price ≤ m.balance)
        × IsSolvent m.pool (m.balance - i.price)
  unfolding buyback refund_amount refund_total
  buyback-IsRestocked env a i {r} loads v x h =
      elim (Result-cases (restock env a.payer a.pool a.item a.asset.key i.tier i.bump)) [
        | inr (e, bad) ↦ absurd (ground (arith, loads, bad, v.loads))
        | inl (r', run) ↦
            let (restocked, _) =
              restock-ok env a.payer a.pool a.item a.asset.key i.tier i.bump loads x.zeros
                s.in_step.stocked s.in_step.room x.small run in
            let ep : r.pool ≡ r'.pool = ground (arith, loads, run, v.loads) in
            let ed : r.index ≡ r'.index = ground (arith, loads, run, v.loads) in
            (
              rw (ep, ed) restocked,
              ground (arith, loads, v.loads, v.held),
              ground (arith, loads, v.loads, v.held),
            )
      ]

  pub restocked-IsSound :
      {p' : Pool} {d' : List ℕ} {tier : ℕ} (balance : ℕ)
      → IsRestocked m.pool m.index p' d' tier
      → IsSolvent m.pool balance
      → IsSound (record m { pool = p'; index = d'; balance = balance })
  restocked-IsSound {p'} {d'} {tier} balance r solvent =
      let version : p'.inventory_version ≡ m.pool.inventory_version + 1 =
        ap (λ (q : Pool). q.inventory_version) r.kept in
      let each : refund_each p' ≡ refund_each m.pool = ap (λ (q : Pool). refund_each q) r.kept in
      let owed : p'.pending_draws ≡ m.pool.pending_draws =
        ap (λ (q : Pool). q.pending_draws) r.kept in
      let empty : tag m.index m.pool.inventory_version ≡ 0 =
        s.in_step.stocked.unused m.pool.inventory_version (omega arith) in
      record {
        in_step = restocked-IsInStep s.in_step r;
        solvent = rw (each, owed) solvent;
        pending = owed ∙ s.pending;
        in_order =
            rw (ap (λ (q : Pool). q.next_settle) r.kept, ap (λ (q : Pool). q.next_index) r.kept)
              s.in_order;
        served =
            IsServed-change m.index d' m.pool.inventory_version p'.inventory_version 0 0 m.queue
              (omega (arith, version))
              (λ n b.
                ground
                  (arith, stock-Stocked m.index d' m.pool.inventory_version tier r.stocked empty n))
              s.served;
      }
