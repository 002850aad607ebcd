-- ===== src/Market/Refunds.antt =====
-- The pull at the head of a market that instructions reach can be refunded after its deadline.
use solana_gacha.Prelude.{
  ℕ, ◌+◌, ◌*◌, ◌^◌, ◌≤◌, ◌<◌, ◌≡◌, ap, refl, ◌∙◌, true, ◌&&◌, List, [], ◌∷◌, ok, arith, ltb, eq→==,
  lt→not-leb, lt→ltb,
}
use solana_gacha.Core.Constants.{status_pending}
use solana_gacha.Core.State.{Pull, Pool}
use solana_gacha.Program.Account.{
  AccountInfo, Env, Call, TokenAccount, load_pool, load_pull, load_token, close, token_transfer,
}
use solana_gacha.Program.Create.{
  CreatePoolAccounts, CreatePoolInstruction, create_pool_instruction, Created, create_pool,
}
use solana_gacha.Program.Refund.{
  RefundAccounts, Refunded, refund_accounts, refund, refund_event, release,
}
use solana_gacha.Program.Refund.Laws.{release-ok, release_accepts}
use solana_gacha.Program.Solvency.{refund_each}
use solana_gacha.Program.Dispatch.{pull_refunded, run_refund}
use solana_gacha.Market.{Market, Reach, IsQueue, IsServed, draws}
use solana_gacha.Market.Sound.{Reach-IsSound}
use solana_gacha.Market.Launch.{launch, launch-IsSound}

-- The accounts of a refund of the pull, after its deadline, with a token program that pays
-- what the vault holds.
pub record IsRefundable (env : Env) (m : Market) (l : Pull) (a : RefundAccounts) : Type 0 where
  pub writable : (a.pool.is_writable && a.pull.is_writable && a.buyer.is_writable) ≡ true
  pub pool_loads : load_pool env a.pool ≡ ok (m.pool, m.index)
  pub pull_loads : load_pull env a.pull ≡ ok l
  pub of_pool : l.pool ≡ a.pool.key
  pub pending : l.status ≡ status_pending
  pub late : l.deadline_slot < env.slot
  pub to_buyer : l.buyer ≡ a.buyer.key
  pub from_vault : m.pool.vault ≡ a.vault.key
  pub token : TokenAccount
  pub token_loads : load_token env a.buyer_ata ≡ ok token
  pub of_buyer : token.owner ≡ l.buyer
  pub rent : a.buyer.lamports + a.pull.lamports < 2 ^ 64
  pub pays :
      (amount : ℕ)
      → amount ≤ m.balance
      → env.invoke (token_transfer a.vault.key a.buyer_ata.key a.pool.key amount) ≡ ok tt
  pub tells : (amount : ℕ) → env.invoke (refund_event env a amount) ≡ ok tt

-- The calls of a refund of an amount.
abbrev pub refund_calls : Env → RefundAccounts → ℕ → List Call
refund_calls env a amount =
    token_transfer a.vault.key a.buyer_ata.key a.pool.key amount ∷ refund_event env a amount ∷ []

-- The eight accounts in their order, of which the last three are the token program, the event
-- authority and this program.
abbrev pub account_list :
    RefundAccounts → AccountInfo → AccountInfo → AccountInfo → List AccountInfo
account_list a x y z = a.pool ∷ a.pull ∷ a.buyer ∷ a.vault ∷ a.buyer_ata ∷ x ∷ y ∷ z ∷ []

refund_accounts-account_list :
    (env : Env) (m : Market) (l : Pull) (a : RefundAccounts) (x y z : AccountInfo)
    → l.index ≡ m.pool.next_settle
    → IsRefundable env m l a
    → refund_accounts env (account_list a x y z) ≡ ok a
unfolding refund_accounts
refund_accounts-account_list env m l a x y z first r =
    rw
      (
        r.writable,
        r.pool_loads,
        r.pull_loads,
        eq→== l.pool a.pool.key r.of_pool,
        eq→== l.status status_pending r.pending,
        eq→== l.index m.pool.next_settle first,
        lt→not-leb env.slot l.deadline_slot r.late,
        eq→== l.buyer a.buyer.key r.to_buyer,
        eq→== m.pool.vault a.vault.key r.from_vault,
        r.token_loads,
        eq→== r.token.owner l.buyer r.of_buyer,
      )
      refl

refund_run :
    (env : Env) (m : Market) (l : Pull) (a : RefundAccounts) {amount : ℕ} {p : Pool}
    → release m.pool l ≡ ok (amount, p)
    → amount ≤ m.balance
    → IsRefundable env m l a
    → (r : Refunded) × (refund env a ≡ ok r) × (r.calls ≡ refund_calls env a amount)
unfolding refund close
refund_run env m l a {amount} {p} released covered r =
    let sum : ltb (a.buyer.lamports + a.pull.lamports) (2 ^ 64) ≡ true =
      lt→ltb (a.buyer.lamports + a.pull.lamports) (2 ^ 64) r.rent in
    (
      record {
        pool = p;
        buyer_lamports = a.buyer.lamports + a.pull.lamports;
        calls = refund_calls env a amount;
      },
      rw (r.pool_loads, r.pull_loads, released, r.pays amount covered, sum, r.tells amount) refl,
      refl,
    )

-- On a market that instructions reach from a new pool, with a balance and a next index within 64
-- bits, the pending pull at the queue's head can be refunded once its deadline has passed: on its
-- pool's account, its buyer's account, the pool's vault and a token account of the buyer, where
-- the token program pays what the vault holds and the event is taken, the refund instruction
-- succeeds and transfers the price and the bond of each draw of the pull.
pub reached_refunds :
    (env now : Env) (made : CreatePoolAccounts) (bytes : List ℕ) (balance : ℕ)
    {i : CreatePoolInstruction} {c : Created} {m : Market} (l : Pull) (rest : List Pull)
    (a : RefundAccounts) (x y z : AccountInfo)
    → create_pool_instruction bytes ≡ ok i
    → create_pool env made i ≡ ok c
    → Reach (launch c balance) m
    → m.queue ≡ l ∷ rest
    → m.balance < 2 ^ 64
    → l.index + 1 < 2 ^ 64
    → IsRefundable now m l a
    → (r : Refunded) × (run_refund now (account_list a x y z) ≡ ok (pull_refunded r))
      × (r.calls ≡ refund_calls now a (refund_each m.pool * l.count))
unfolding IsServed IsQueue draws
reached_refunds env now made bytes balance {m = m} l rest a x y z parsed created path q word index
      r =
    let s = Reach-IsSound (launch-IsSound env made bytes balance parsed created) path in
    let order : IsQueue m.pool.next_settle m.pool.next_index (l ∷ rest) = rw q at s.in_order in
    let served : IsServed m.index m.pool.inventory_version 0 (l ∷ rest) = rw q at s.served in
    let queued : m.pool.pending_draws ≡ l.count + draws rest =
      s.pending ∙ ap (λ (ls : List Pull). draws ls) q in
    let (amount, p, released, covered, _) =
      release_accepts m.pool l m.balance s.solvent word served.0 (omega (arith, queued)) index in
    let (done, run, calls) = refund_run now m l a released covered r in
    (
      done,
      rw (refund_accounts-account_list now m l a x y z order.0 r, run) refl,
      rw (release-ok m.pool l released).paid at calls,
    )
