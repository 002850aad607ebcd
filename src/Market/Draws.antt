-- ===== src/Market/Draws.antt =====
-- What the draws of a settlement take from the stock.
use solana_gacha.Prelude.{ℕ, ◌+◌, ◌≤◌, ◌≡◌, ◌≢◌, ap, ◌∙◌, List, length, arith}
use solana_gacha.Core.State.{Pubkey, Pool}
use solana_gacha.Inventory.View.{tag}
use solana_gacha.Inventory.Stock.{stock, stock-Cleared}
use solana_gacha.Program.Account.{AccountInfo, Env}
use solana_gacha.Program.Settle.{Drawing}
use solana_gacha.Program.Settle.Queue.{IsDrawing, finished, drawn}
use solana_gacha.Program.Step.{IsInStep}
use solana_gacha.Program.Step.Laws.{taken-IsInStep}

module _ {env : Env} {key : Pubkey} {version cutoff : ℕ} where
  pub IsDrawing-IsInStep :
      {i : ℕ} {accounts : List AccountInfo} {s s' : Drawing}
      → IsDrawing env key version cutoff i accounts s s'
      → s.pool.inventory_version ≡ version
      → IsInStep s.pool s.index
      → IsInStep s'.pool s'.index
  IsDrawing-IsInStep finished e h = h
  IsDrawing-IsInStep (drawn {s = s} {s' = m} r rest) e h =
      IsDrawing-IsInStep rest (ap (λ (q : Pool). q.inventory_version) r.kept ∙ e)
        (taken-IsInStep h r.item.position r.cleared r.tagged (rw e r.stocked) r.lowered)

  -- Every prefix of the positions loses at most one item for each draw.
  pub IsDrawing-stock :
      {i : ℕ} {accounts : List AccountInfo} {s s' : Drawing}
      → IsDrawing env key version cutoff i accounts s s'
      → (n : ℕ) → stock s.index n ≤ stock s'.index n + length accounts
  IsDrawing-stock finished n = omega arith
  IsDrawing-stock (drawn {s = s} {s' = m} r rest) n =
      let some : tag s.index r.item.position ≢ 0 = ground (arith, r.tagged) in
      ground (
        arith,
        stock-Cleared s.index m.index r.item.position r.cleared some n,
        IsDrawing-stock rest n,
      )
