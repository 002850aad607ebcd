-- ===== src/Program/Deadline.antt =====
-- The two ends of a pull: program/src/operator/settle.rs before its deadline, player/refund.rs after.
use solana_gacha.Prelude.{
  ℕ, ◌≤◌, ◌<◌, ◌≡◌, ◌≢◌, ap, sym, ◌∙◌, length, List, [], ◌∷◌, ok, arith, Result-cases, inl, inr,
}
use solana_gacha.Core.Constants.{status_pending}
use solana_gacha.Core.State.{Pool, Pull}
use solana_gacha.Program.Account.{AccountInfo, Env, load_pool, load_pull}
use solana_gacha.Program.Refund.{RefundAccounts, refund_accounts}
use solana_gacha.Program.Settle.{split_items, SettleAccounts, settle_accounts}

-- The pull is pending and at the head of its pool's queue.
pub record IsNext (env : Env) (pool pull : AccountInfo) (p : Pool) (d : List ℕ) (l : Pull)
    : Type 0 where
  pub pool_loads : load_pool env pool ≡ ok (p, d)
  pub pull_loads : load_pull env pull ≡ ok l
  pub of_pool : l.pool ≡ pool.key
  pub pending : l.status ≡ status_pending
  pub head : l.index ≡ p.next_settle

pub refund_accounts-ok :
    (env : Env) (accounts : List AccountInfo) {a : RefundAccounts}
    → refund_accounts env accounts ≡ ok a
    → (p : Pool) × (d : List ℕ) × (l : Pull) × IsNext env a.pool a.pull p d l
      × (l.deadline_slot < env.slot)
      × (l.buyer ≡ a.buyer.key)
      × (p.vault ≡ a.vault.key)
unfolding refund_accounts
refund_accounts-ok env (pool ∷ pull ∷ buyer ∷ vault ∷ buyer_ata ∷ x ∷ y ∷ z ∷ []) {a} h =
    elim (Result-cases (load_pool env pool)) [
      | inr (e, bad) ↦ absurd (ground (arith, bad))
      | inl ((p, d), e) ↦ elim (Result-cases (load_pull env pull)) [
        | inr (e, bad) ↦ absurd (ground (arith, bad))
        | inl (l, f) ↦
            let shape : a ≡ record {
              pool = pool;
              pull = pull;
              buyer = buyer;
              vault = vault;
              buyer_ata = buyer_ata;
            } =
              ground arith in
            rw shape (
              p,
              d,
              l,
              record {
                pool_loads = e;
                pull_loads = f;
                of_pool = ground arith;
                pending = ground arith;
                head = ground arith;
              },
              ground arith,
              ground arith,
              ground arith,
            )
      ]
    ]
refund_accounts-ok env _ {a} h = absurd (ground arith)

pub settle_accounts-ok :
    (env : Env) (accounts : List AccountInfo) {a : SettleAccounts}
    → settle_accounts env accounts ≡ ok a
    → (p : Pool) × (d : List ℕ) × (l : Pull) × IsNext env a.pool a.pull p d l
      × (env.slot ≤ l.deadline_slot)
      × (p.operator ≡ a.operator.key)
      × (length a.items ≡ l.count)
unfolding settle_accounts
settle_accounts-ok env (operator ∷ pool ∷ pull ∷ rest) {a} h =
    elim (Result-cases (split_items rest)) [
      | inr (e, bad) ↦ absurd (ground (arith, bad))
      | inl (items, g) ↦ elim (Result-cases (load_pool env pool)) [
        | inr (e, bad) ↦ absurd (ground (arith, bad))
        | inl ((p, d), e) ↦ elim (Result-cases (load_pull env pull)) [
          | inr (e, bad) ↦ absurd (ground (arith, bad))
          | inl (l, f) ↦
              let shape : a
                  ≡ record { operator = operator; pool = pool; pull = pull; items = items } =
                ground arith in
              rw shape (
                p,
                d,
                l,
                record {
                  pool_loads = e;
                  pull_loads = f;
                  of_pool = ground arith;
                  pending = ground arith;
                  head = ground arith;
                },
                ground arith,
                ground arith,
                ground arith,
              )
        ]
      ]
    ]
settle_accounts-ok env _ {a} h = absurd (ground arith)

-- When the account checks of a settlement and those of a refund both pass in one environment, with
-- the same slot, they are about different pull accounts.
pub settle_accounts-refund_accounts_exclusive :
    (env : Env) (settling refunding : List AccountInfo) {s : SettleAccounts} {r : RefundAccounts}
    → settle_accounts env settling ≡ ok s
    → refund_accounts env refunding ≡ ok r
    → s.pull ≢ r.pull
settle_accounts-refund_accounts_exclusive env settling refunding {s} {r} hs hr same =
    let (p, d, l, n, before, _, _) = settle_accounts-ok env settling hs in
    let (p', d', l', n', after, _, _) = refund_accounts-ok env refunding hr in
    let e : ok l ≡ ok l' = sym n.pull_loads ∙ ap (load_pull env) same ∙ n'.pull_loads in
    ground (arith, before, after, e)
