-- ===== src/Program/Settle/Queue.antt =====
-- A whole settlement: the loop of `draw` of program/src/inventory.rs, and the queue behind it.
use solana_gacha.Prelude.{
  ℕ, ◌+◌, ◌-◌, ◌≤◌, ◌≡◌, ap, ◌∙◌, refl, List, [], ◌∷◌, ok, arith, Option-cases, Result-cases, inl,
  inr, length, tabulate, get_or-tabulate,
}
use solana_gacha.Core.Constants.{max_tiers, status_settled}
use solana_gacha.Core.State.{Pubkey, Pool, Pull, tiers, remaining}
use solana_gacha.Inventory.{counts}
use solana_gacha.Inventory.View.{available, IsStocked}
use solana_gacha.Inventory.Counts.{counts-ok}
use solana_gacha.Program.Account.{AccountInfo, Env, load_pool, load_pull}
use solana_gacha.Program.Settle.{
  SettleAccounts, Settled, Drawing, draw_one, draw_loop, draw_all, advance, settle,
}
use solana_gacha.Program.Settle.Round.{IsPinned, IsDrawn, draw_one-ok}
use solana_gacha.Program.Solvency.{refund_each}

-- The rounds of the loop, one for each item account.
pub data IsDrawing (env : Env) (key : Pubkey) (version cutoff : ℕ)
    : ℕ → List AccountInfo → Drawing → Drawing → Type 0 where
  finished : {i : ℕ} {s : Drawing} → IsDrawing env key version cutoff i [] s s
  drawn :
      {i : ℕ} {account : AccountInfo} {rest : List AccountInfo} {s s' s'' : Drawing}
      → IsDrawn env key version cutoff i account s s'
      → IsDrawing env key version cutoff (i + 1) rest s' s''
      → IsDrawing env key version cutoff i (account ∷ rest) s s''

pub draw_loop-ok :
    (env : Env) (key : Pubkey) (beta : List ℕ) (i : ℕ) (accounts : List AccountInfo)
    {s s' : Drawing} {version cutoff : ℕ}
    → IsPinned s version cutoff
    → draw_loop env key beta i accounts s ≡ ok s'
    → IsDrawing env key version cutoff i accounts s s' × IsPinned s' version cutoff
unfolding draw_loop
draw_loop-ok env key beta i [] {s} {s'} {version} {cutoff} pin h =
    let e : s ≡ s' = ground arith in rw (← e) (finished, pin)
draw_loop-ok env key beta i (account ∷ rest) {s} {s'} {version} {cutoff} pin h =
    elim (Result-cases (draw_one env key beta i account s)) [
      | inr (e, bad) ↦ absurd (ground (arith, bad))
      | inl (next, run) ↦
          let (round, pin') = draw_one-ok env key beta i account pin run in
          let (more, last) = draw_loop-ok env key beta (i + 1) rest pin' (rw run at h) in
          (drawn round more, last)
    ]

-- What a run of the loop keeps, by induction on its rounds.
pub record IsSpent (accounts : List AccountInfo) (s s' : Drawing) : Type 0 where
  pub counted : remaining s'.pool + length accounts ≡ remaining s.pool
  pub kept : s'.pool ≡ record s.pool { all_tiers = s'.pool.all_tiers }
  pub indexed : s'.pull.index ≡ s.pull.index

pub IsDrawing-IsSpent :
    {env : Env} {key : Pubkey} {version cutoff i : ℕ} {accounts : List AccountInfo} {s s' : Drawing}
    → IsDrawing env key version cutoff i accounts s s'
    → IsSpent accounts s s'
IsDrawing-IsSpent finished = record { counted = omega arith; kept = refl; indexed = refl }
IsDrawing-IsSpent (drawn {s' = m} {s'' = e} round rest) =
    let more = IsDrawing-IsSpent rest in
    record {
      counted = omega (arith, round.counted, more.counted);
      kept = more.kept ∙ ap (λ (q : Pool). record q { all_tiers = e.pool.all_tiers }) round.kept;
      indexed = more.indexed ∙ ap (λ (q : Pull). q.index) round.recorded;
    }

-- What the loop starts from.
abbrev pub drawing_start : Pool → List ℕ → Pull → ℕ → Drawing
drawing_start p d l lamports = record {
  pool = p;
  index = d;
  pull = l;
  lamports = lamports;
  eligible = tabulate (λ t. available d t l.inventory_version) 0 max_tiers;
}

pub start-IsPinned :
    (p : Pool) (d : List ℕ) (l : Pull) (lamports version : ℕ)
    → IsStocked d version
    → l.inventory_version ≤ version
    → length (tiers p) ≤ max_tiers
    → IsPinned (drawing_start p d l lamports) version l.inventory_version
start-IsPinned p d l lamports version s past room =
    let cutoff : ℕ = l.inventory_version in
    record {
      stocked = s;
      past = past;
      tiers_ok = room;
      sized = refl;
      eligible_ok = λ u h.
          get_or-tabulate (λ t. available d t cutoff) 0 max_tiers u 0 h
          ∙ ap (λ i. available d i cutoff) (omega arith);
    }

same_stock :
    (p : Pool) (pending next : ℕ)
    → remaining (record p { pending_draws = pending; next_settle = next }) ≡ remaining p
unfolding remaining
same_stock p pending next = refl

-- A settlement that succeeds, on a pool with a well-formed index, a pull that is pinned to no
-- later version and at most eight tiers, is a sequence of draws, one for each item account: each
-- takes an available item deposited before the pull's version, from the loaded Item account of
-- that pool, tier and position, and records its asset in the next award. The index stays well
-- formed, the pull becomes settled, the pending draws and the stock both fall by the number of
-- draws, the queue's head moves behind the pull, and the rest of the pool is what the draws leave.
pub settle-ok :
    (env : Env) (a : SettleAccounts) (proof : List ℕ) {p : Pool} {d : List ℕ} {l : Pull}
    {b : Settled}
    → load_pool env a.pool ≡ ok (p, d)
    → load_pull env a.pull ≡ ok l
    → IsStocked d p.inventory_version
    → l.inventory_version ≤ p.inventory_version
    → length (tiers p) ≤ max_tiers
    → settle env a proof ≡ ok b
    → (s' : Drawing) × IsDrawing env a.pool.key p.inventory_version l.inventory_version 0 a.items
        (drawing_start p d l a.operator.lamports)
        s'
      × (b.pool ≡ record s'.pool {
        pending_draws = s'.pool.pending_draws - length a.items;
        next_settle = s'.pull.index + 1;
      })
      × (b.pull ≡ record s'.pull { status = status_settled })
      × (b.index ≡ s'.index)
      × IsStocked b.index p.inventory_version
      × (b.pool.pending_draws + length a.items ≡ p.pending_draws)
      × (remaining b.pool + length a.items ≡ remaining p)
      × (b.pool.next_settle ≡ l.index + 1)
      × (refund_each b.pool ≡ refund_each p)
unfolding settle draw_all advance
settle-ok env a proof {p} {d} {l} {b} pool pull stocked past room h =
    let alpha : List ℕ = env.sha256 (env.key_bytes a.pull.key ∷ l.client_seed ∷ []) in
    let eligible : List ℕ = tabulate (λ t. available d t l.inventory_version) 0 max_tiers in
    let s : Drawing = drawing_start p d l a.operator.lamports in
    let counted : counts d l.inventory_version ≡ ok eligible =
      counts-ok stocked.indexed l.inventory_version (omega (arith, stocked.sized)) in
    elim (Option-cases (env.verify proof p.operator alpha)) [
      | inl bad ↦ absurd (ground (arith, bad, pool, pull))
      | inr (beta, verified) ↦ elim (Result-cases (draw_loop env a.pool.key beta 0 a.items s)) [
        | inr (e, bad) ↦ absurd (ground (arith, bad, counted, verified, pool, pull))
        | inl (s', run) ↦
            let (rounds, pin) =
              draw_loop-ok env a.pool.key beta 0 a.items
                (start-IsPinned p d l a.operator.lamports p.inventory_version stocked past room)
                run in
            let spent : IsSpent a.items s s' = IsDrawing-IsSpent rounds in
            let pooled : b.pool ≡ record s'.pool {
              pending_draws = s'.pool.pending_draws - length a.items;
              next_settle = s'.pull.index + 1;
            } =
              ground (arith, run, counted, verified, pool, pull) in
            let pulled : b.pull ≡ record s'.pull { status = status_settled } =
              ground (arith, run, counted, verified, pool, pull) in
            let indexed : b.index ≡ s'.index = ground (arith, run, counted, verified, pool, pull) in
            let queued : length a.items ≤ s'.pool.pending_draws =
              ground (arith, run, counted, verified, pool, pull) in
            (
              s',
              rounds,
              pooled,
              pulled,
              indexed,
              rw indexed pin.stocked,
              omega (
                arith,
                queued,
                ap (λ (q : Pool). q.pending_draws) pooled,
                ap (λ (q : Pool). q.pending_draws) spent.kept,
              ),
              omega (
                arith,
                spent.counted,
                ap (λ (q : Pool). remaining q) pooled,
                same_stock s'.pool (s'.pool.pending_draws - length a.items) (s'.pull.index + 1),
              ),
              ap (λ (q : Pool). q.next_settle) pooled ∙ ap (λ (i : ℕ). i + 1) spent.indexed,
              ap (λ (q : Pool). refund_each q) pooled ∙ ap (λ (q : Pool). refund_each q) spent.kept,
            )
      ]
    ]
