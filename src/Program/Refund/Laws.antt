-- ===== src/Program/Refund/Laws.antt =====
-- What a refund pays and leaves.
use solana_gacha.Prelude.{
  ℕ, ◌+◌, ◌-◌, ◌*◌, ◌^◌, ◌≤◌, ◌<◌, ◌≡◌, ap, refl, List, ok, arith, Result-cases, inl, inr,
}
use solana_gacha.Core.State.{Pool, Pull, refund_amount, refund_total, remaining}
use solana_gacha.Program.Refund.{RefundAccounts, Refunded, release, refund}
use solana_gacha.Program.Account.{Env, load_pool, load_pull}
use solana_gacha.Program.Solvency.{IsSolvent, refund_each, le-mul, mul-split}

-- What a release pays and leaves.
pub record IsReleased (p p' : Pool) (l : Pull) (amount : ℕ) : Type 0 where
  pub paid : amount ≡ refund_each p * l.count
  pub unqueued : p'.pending_draws + l.count ≡ p.pending_draws
  pub advanced : p'.next_settle ≡ l.index + 1
  pub kept : remaining p' ≡ remaining p
  pub same : p' ≡ record p { pending_draws = p'.pending_draws; next_settle = p'.next_settle }

released :
    (p : Pool) (l : Pull) {amount : ℕ} {p' : Pool}
    → release p l ≡ ok (amount, p')
    → p' ≡ record p { pending_draws = p.pending_draws - l.count; next_settle = l.index + 1 }
unfolding release refund_amount
released p l h = ground arith

-- A release that succeeds pays the price and the bond of each draw of the pull, takes those draws
-- from the pending ones, moves the queue's head behind the pull, and changes nothing else of the
-- pool.
pub release-ok :
    (p : Pool) (l : Pull) {amount : ℕ} {p' : Pool}
    → release p l ≡ ok (amount, p')
    → IsReleased p p' l amount
unfolding release refund_amount refund_total
release-ok p l {amount} {p'} h = record {
  paid = ground arith;
  unqueued = ground arith;
  advanced = ground arith;
  kept = unfold remaining in ap (λ (q : Pool). remaining q) (released p l h);
  same = rw (released p l h) refl;
}

-- With a vault that covers every pending refund, a positive number of draws that are among the
-- pending ones, and a balance and next index within 64 bits, `release` succeeds, its amount is
-- within the balance, and what is left covers every refund still pending.
pub release_accepts :
    (p : Pool) (l : Pull) (balance : ℕ)
    → IsSolvent p balance
    → balance < 2 ^ 64
    → 0 < l.count
    → l.count ≤ p.pending_draws
    → l.index + 1 < 2 ^ 64
    → (amount : ℕ) × (p' : Pool) × (release p l ≡ ok (amount, p'))
      × (amount ≤ balance)
      × IsSolvent p' (balance - amount)
unfolding release refund_amount refund_total
release_accepts p l balance solvent word some queued index =
    let each : refund_each p ≤ refund_each p * l.count =
      le-mul (refund_each p) l.count (omega arith) in
    let split : refund_each p * p.pending_draws
        ≡ refund_each p * l.count + refund_each p * (p.pending_draws - l.count) =
      mul-split (refund_each p) l.count p.pending_draws queued in
    (
      refund_each p * l.count,
      record p { pending_draws = p.pending_draws - l.count; next_settle = l.index + 1 },
      ground arith,
      omega arith,
      omega arith,
    )

pub refund-ok :
    (env : Env) (a : RefundAccounts) {p : Pool} {d : List ℕ} {l : Pull} {r : Refunded}
    → load_pool env a.pool ≡ ok (p, d)
    → load_pull env a.pull ≡ ok l
    → refund env a ≡ ok r
    → (amount : ℕ) × IsReleased p r.pool l amount
unfolding refund
refund-ok env a {p} {d} {l} {r} pool pull h = elim (Result-cases (release p l)) [
  | inr (e, bad) ↦ absurd (ground (arith, pool, pull, bad))
  | inl ((amount, p'), run) ↦
      let e : r.pool ≡ p' = ground (arith, pool, pull, run) in (amount, rw e (release-ok p l run))
]
