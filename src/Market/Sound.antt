-- ===== src/Market/Sound.antt =====
-- Every instruction keeps a market sound.
use solana_gacha.Prelude.{ℕ, ◌-◌, ◌≡◌, ap, sym, refl, ◌∙◌, List, [], ok, arith}
use solana_gacha.Core.State.{Pool}
use solana_gacha.Core.Stock.Laws.{take_remaining-ok}
use solana_gacha.Program.Account.{Env, AccountInfo, Call, load_pool}
use solana_gacha.Program.Lifecycle.Reclaim.{ReclaimAccounts, Reclaimed, reclaim_accounts, reclaim}
use solana_gacha.Program.Withdraw.{WithdrawAccounts, withdraw, withdraw-ok}
use solana_gacha.Program.Solvency.{refund_each}
use solana_gacha.Program.Step.{kept-IsInStep}
use solana_gacha.Program.Step.Laws.{taken-IsInStep}
use solana_gacha.Market.{
  Market, Holds, Step, funded, deposited, bought_back, bought, settled, refunded, withdrawn,
  changed, reclaimed, Reach, here, next, IsSound, IsServed, draws,
}
use solana_gacha.Market.Queue.{IsServed-none}
use solana_gacha.Market.Restocks.{deposit_item-IsRestocked, buyback-IsRestocked, restocked-IsSound}
use solana_gacha.Market.Buys.{load_pool-pool, load_token-amount, bought-IsSound}
use solana_gacha.Market.Leaves.{refunded-IsSound, settled-IsSound}
use solana_gacha.Program.Lifecycle.Laws.{reclaim-ok, reclaim_accounts-ok, set_status-kept}

withdrawn-IsSound :
    {m : Market} (s : IsSound m) (env : Env) (a : WithdrawAccounts) (amount : ℕ) {calls : List Call}
    → load_pool env a.pool ≡ ok (m.pool, m.index)
    → Holds env a.vault m
    → withdraw env a amount ≡ ok calls
    → IsSound (record m { balance = m.balance - amount })
withdrawn-IsSound {m} s env a amount loads v run =
    let (p, d, token, pool, vault, _, solvent) = withdraw-ok env a amount run in
    let ep : p ≡ m.pool = load_pool-pool env a.pool pool loads in
    let held : token.amount ≡ m.balance = load_token-amount env a.vault vault v.loads ∙ v.held in
    record {
      in_step = s.in_step;
      solvent = rw (← held, ← ep) solvent;
      pending = s.pending;
      in_order = s.in_order;
      served = s.served;
    }

changed-IsSound :
    {m : Market} (s : IsSound m) (p' : Pool) (status : ℕ)
    → p' ≡ record m.pool { status = status }
    → IsSound (record m { pool = p' })
changed-IsSound s p' status e = rw e (record {
  in_step = kept-IsInStep s.in_step refl;
  solvent = s.solvent;
  pending = s.pending;
  in_order = s.in_order;
  served = s.served;
})

-- An item leaves while nothing is pending.
reclaimed-IsSound :
    {m : Market} (s : IsSound m) (env : Env) (accounts : List AccountInfo) {a : ReclaimAccounts}
    {r : Reclaimed}
    → load_pool env a.pool ≡ ok (m.pool, m.index)
    → reclaim_accounts env accounts ≡ ok a
    → reclaim env a ≡ ok r
    → IsSound (record m { pool = r.pool; index = r.index })
unfolding IsServed draws
reclaimed-IsSound {m} s env accounts {a} {r} loads checked run =
    let (p, d, pool, idle) = reclaim_accounts-ok env accounts checked in
    let none : m.pool.pending_draws ≡ 0 =
      ap (λ (q : Pool). q.pending_draws) (load_pool-pool env a.pool loads pool) ∙ idle in
    let x = reclaim-ok env a loads s.in_step.stocked s.in_step.room run in
    let (_, _, _, kept, _, _) = take_remaining-ok m.pool x.item.tier x.lowered in
    let empty : m.queue ≡ [] =
      IsServed-none m.index m.pool.inventory_version 0 m.queue s.served (sym s.pending ∙ none) in
    record {
      in_step = taken-IsInStep s.in_step x.item.position x.cleared x.tagged x.stocked x.lowered;
      solvent =
          rw (ap (λ (q : Pool). refund_each q) kept, ap (λ (q : Pool). q.pending_draws) kept)
            s.solvent;
      pending = ap (λ (q : Pool). q.pending_draws) kept ∙ s.pending;
      in_order =
          rw (ap (λ (q : Pool). q.next_settle) kept, ap (λ (q : Pool). q.next_index) kept)
            s.in_order;
      served = rw empty tt;
    }

-- Any instruction that succeeds on a sound market, or a transfer to its vault, leaves a sound
-- market: the header's counts are those of the index and every tier in use has a weight, the vault
-- covers the pending refunds, the pending draws are those of the queue, the queue's indexes are
-- consecutive, and every queued pull finds enough items among those deposited before its version,
-- after the pulls ahead of it have taken theirs.
pub Step-IsSound : {m t : Market} → IsSound m → Step m t → IsSound t
Step-IsSound s (funded n) = record {
  in_step = s.in_step;
  solvent = omega (arith, s.solvent);
  pending = s.pending;
  in_order = s.in_order;
  served = s.served;
}
Step-IsSound {m} s (deposited env a tier bump loads x run) =
    restocked-IsSound s m.balance (deposit_item-IsRestocked s env a tier bump loads x run) s.solvent
Step-IsSound {m} s (bought_back env a i loads v x run) =
    let (restocked, _, solvent) = buyback-IsRestocked s env a i loads v x run in
    restocked-IsSound s (m.balance - i.price) restocked solvent
Step-IsSound s (bought env a bytes loads v parsed run) =
    bought-IsSound s env a bytes loads v parsed run
Step-IsSound s (settled env accounts proof before after {l = l} q loads pulls checked run) =
    settled-IsSound s env before after l q accounts proof loads pulls checked run
Step-IsSound s (refunded env accounts before after {l = l} q loads pulls checked run) =
    refunded-IsSound s env before after l q accounts loads pulls checked run
Step-IsSound s (withdrawn env a amount loads v run) = withdrawn-IsSound s env a amount loads v run
Step-IsSound s (changed env a status {c = c} loads run) =
    changed-IsSound s c.pool status (set_status-kept env a status loads run)
Step-IsSound s (reclaimed env accounts loads checked run) =
    reclaimed-IsSound s env accounts loads checked run

-- Every market that steps reach from a sound one is sound.
pub Reach-IsSound : {m t : Market} → IsSound m → Reach m t → IsSound t
Reach-IsSound s here = s
Reach-IsSound s (next r x) = Step-IsSound (Reach-IsSound s r) x
