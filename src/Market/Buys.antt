-- ===== src/Market/Buys.antt =====
-- Purchases and withdrawals on a sound market.
use solana_gacha.Prelude.{
  ℕ, ◌+◌, ◌*◌, ◌≤◌, ◌≡◌, ap, sym, refl, ◌∙◌, List, [], ◌∷◌, ◌++◌, ok, ok-injective, arith,
}
use solana_gacha.Core.State.{Pool, Pull, new_pull, remaining}
use solana_gacha.Program.Account.{Env, AccountInfo, TokenAccount, load_pool, load_token}
use solana_gacha.Program.Buy.{BuyAccounts, BuyInstruction, Bought, buy_instruction, buy}
use solana_gacha.Program.Buy.Laws.{buy-ok, buy_instruction-some}
use solana_gacha.Program.Step.{kept-IsInStep, remaining-eq-stock}
use solana_gacha.Market.{Market, Holds, IsSound}
use solana_gacha.Market.Queue.{IsQueue-append, draws-append, IsServed-append}

-- An account loads as one pool and one index.
pub load_pool-pool :
    (env : Env) (a : AccountInfo) {p q : Pool} {d e : List ℕ}
    → load_pool env a ≡ ok (p, d)
    → load_pool env a ≡ ok (q, e)
    → p ≡ q
load_pool-pool env a f g = ap (λ (x : Pool × List ℕ). x.0) (ok-injective (sym f ∙ g))

pub load_token-amount :
    (env : Env) (a : AccountInfo) {t u : TokenAccount}
    → load_token env a ≡ ok t
    → load_token env a ≡ ok u
    → t.amount ≡ u.amount
load_token-amount env a f g = ap (λ (x : TokenAccount). x.amount) (ok-injective (sym f ∙ g))

pub bought-IsSound :
    {m : Market} (s : IsSound m) (env : Env) (a : BuyAccounts) (bytes : List ℕ) {i : BuyInstruction}
    {b : Bought}
    → load_pool env a.pool ≡ ok (m.pool, m.index)
    → Holds env a.vault m
    → buy_instruction bytes ≡ ok i
    → buy env a i ≡ ok b
    → IsSound (record m {
      pool = b.pool;
      balance = m.balance + m.pool.price * i.count;
      queue = m.queue ++ (b.pull ∷ []);
    })
unfolding new_pull
bought-IsSound {m} s env a bytes {i} {b} loads v parsed run =
    let (p, d, token, pool, vault, landed, reserved, solvent, left, made) = buy-ok env a i run in
    let ep : p ≡ m.pool = load_pool-pool env a.pool pool loads in
    let held : token.amount ≡ m.balance = load_token-amount env a.vault vault v.loads ∙ v.held in
    let shape : b.pool ≡ record m.pool {
      pending_draws = b.pool.pending_draws;
      next_index = m.pool.next_index + 1;
    } =
      rw (← ep) left in
    let version : b.pool.inventory_version ≡ m.pool.inventory_version =
      ap (λ (q : Pool). q.inventory_version) shape in
    let count : b.pull.count ≡ i.count = ap (λ (l : Pull). l.count) made in
    let pinned : b.pull.inventory_version ≡ b.pool.inventory_version =
      ap (λ (l : Pull). l.inventory_version) made
      ∙ ap (λ (q : Pool). q.inventory_version) (ep)
      ∙ sym version in
    let index : b.pull.index ≡ m.pool.next_index =
      ap (λ (l : Pull). l.index) made ∙ ap (λ (q : Pool). q.next_index) ep in
    let pending : b.pool.pending_draws ≡ m.pool.pending_draws + i.count =
      landed.queued ∙ ap (λ (q : Pool). q.pending_draws + i.count) ep in
    let in_stock : b.pool.pending_draws ≤ remaining m.pool = rw (← ep) landed.in_stock in
    record {
      in_step = kept-IsInStep s.in_step (rw shape refl);
      solvent = rw (← held, ← ep) solvent;
      pending = omega (arith, pending, s.pending, draws-append m.queue b.pull, count);
      in_order =
          rw (ap (λ (q : Pool). q.next_settle) shape, ap (λ (q : Pool). q.next_index) shape)
            (IsQueue-append m.pool.next_settle m.pool.next_index m.queue b.pull s.in_order index);
      served =
          IsServed-append m.index b.pool.inventory_version 0 m.queue b.pull (rw version s.served)
            pinned (omega (arith, count, buy_instruction-some bytes parsed))
            (rw version
              (omega (arith, in_stock, remaining-eq-stock s.in_step, pending, s.pending, count)));
    }
