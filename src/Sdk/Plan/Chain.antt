-- ===== src/Sdk/Plan/Chain.antt =====
-- The client's plan from a snapshot, carried out by the program's settlement.
use solana_gacha.Prelude.{
  ℕ, zero, suc, ◌+◌, ◌-◌, ◌^◌, ◌≤◌, ◌<◌, ◌≡◌, ◌≢◌, ap, sym, refl, ◌∙◌, List, [], ◌∷◌, ◌++◌, some,
  true, false, ok, ok-injective, arith, length, get_or, set, replicate, length-replicate,
  get_or-replicate, get_or-set_self, get_or-set_ne, length-set, Bool-cases, ==→eq, not-==→ne, ◌==◌,
  eq→==, Result-cases, Option-cases, inl, inr, ltb, lt→ltb,
}
use solana_gacha.Core.Constants.{inventory_space, status_settled}
use solana_gacha.Core.State.{Pool, tiers}
use solana_gacha.Inventory.{counts}
use solana_gacha.Inventory.Counts.{counts-ok}
use solana_gacha.Inventory.View.{tag}
use solana_gacha.Inventory.Stock.{stock}
use solana_gacha.Inventory.Positions.{positions, append_nil}
use solana_gacha.Program.Account.{Env, Call, load_pool, load_pull}
use solana_gacha.Program.Settle.{
  SettleAccounts, Settled, Drawing, draw_loop, draw_all, advance, settle, settle_event,
}
use solana_gacha.Program.Step.{IsInStep}
use solana_gacha.Program.Settle.Queue.{
  drawing_start, start-IsPinned, draw_loop-ok, IsDrawing-IsSpent,
}
use solana_gacha.Sdk.{Host, PoolSnapshot, PullSnapshot}
use solana_gacha.Sdk.Orders.{check_pending}
use solana_gacha.Sdk.Plan.{scan, plan, Settlement, settle_order}
use solana_gacha.Sdk.Plan.Accepts.{
  IsAgreed, IsMatching, total_lamports, plan_accepts, draw_loop_accepts,
}

scan-ok :
    (d : List ℕ) (k n : ℕ)
    → ((q : ℕ) → tag d q ≤ k)
    → (candidates : List (List ℕ)) × (scan d k n ≡ ok candidates)
      × (length candidates ≡ k)
      × ((t : ℕ) → t < k → get_or candidates t [] ≡ positions d t n)
unfolding scan positions
scan-ok d k zero h = (replicate k [], refl, length-replicate k [], λ t b. get_or-replicate k t [])
scan-ok d k (suc n) h =
    let (cs, run, size, listed) = scan-ok d k n h in
    elim (Bool-cases (tag d n == 0)) [
      | inl e ↦
          let gone : tag d n ≡ 0 = ==→eq (tag d n) 0 e in
          (
            cs,
            rw (run, gone) refl,
            size,
            λ t b.
                let other : (tag d n == t + 1) ≡ false = ground (arith, gone) in
                rw other (listed t b ∙ sym (append_nil (positions d t n))),
          )
      | inr e ↦
          let some_tag : tag d n ≢ 0 = not-==→ne (tag d n) 0 e in
          let u : ℕ = tag d n - 1 in
          let inside : u < length cs = omega (arith, size, h n) in
          let pushed : List (List ℕ) = set cs u (get_or cs u [] ++ (n ∷ [])) in
          let hit : ltb 0 (tag d n) ≡ true = lt→ltb 0 (tag d n) (omega arith) in
          (
            pushed,
            rw (run, hit, lt→ltb u (length cs) inside) refl,
            length-set cs u (get_or cs u [] ++ (n ∷ [])) ∙ size,
            λ t b. elim (Bool-cases (t == u)) [
              | inl same ↦
                  let at : t ≡ u = ==→eq t u same in
                  let here : (tag d n == t + 1) ≡ true = ground (arith, at) in
                  rw here (
                    ap (λ (i : ℕ). get_or pushed i []) at
                    ∙ get_or-set_self cs u (get_or cs u [] ++ (n ∷ [])) [] inside
                    ∙ ap (λ (i : ℕ). get_or cs i [] ++ (n ∷ [])) (sym at)
                    ∙ ap (λ (l : List ℕ). l ++ (n ∷ [])) (listed t b))
              | inr off ↦
                  let ne : t ≢ u = not-==→ne t u off in
                  let other : (tag d n == t + 1) ≡ false = ground (arith, ne) in
                  rw other (
                    get_or-set_ne cs u t (get_or cs u [] ++ (n ∷ [])) [] (λ c. ne (sym c))
                    ∙ listed t b
                    ∙ sym (append_nil (positions d t n)))
            ],
          )
    ]

-- The client's snapshot and the accounts of a settlement show one pool and one pull, and the libraries agree.
pub record IsShared (h : Host) (env : Env) (s : PoolSnapshot) (l : PullSnapshot)
    (a : SettleAccounts) : Type 0 where
  pub pool_loads : load_pool env a.pool ≡ ok (s.header, s.index)
  pub pull_loads : load_pull env a.pull ≡ ok l.header
  pub pull_key : a.pull.key ≡ l.address
  pub items : length a.items ≡ l.header.count
  pub hashes : env.sha256 ≡ h.sha256
  pub keys : env.key_bytes ≡ h.key_bytes
  pub proofs : env.verify ≡ h.verify
  pub emits : (c : Call) → env.invoke c ≡ ok tt

module _ (h : Host) (s : PoolSnapshot) (l : PullSnapshot) (proof : List ℕ)
    (step : IsInStep s.header s.index) (all : s.header.tier_count ≡ length (tiers s.header))
    (past : l.header.inventory_version ≤ s.header.inventory_version)
    (enough : l.header.count ≤ stock s.index l.header.inventory_version) where
  agreed :
      (lamports : ℕ) {candidates : List (List ℕ)}
      → scan s.index s.header.tier_count l.header.inventory_version ≡ ok candidates
      → IsAgreed s.header
          (drawing_start s.header s.index l.header lamports)
          l.header.inventory_version
          candidates
  agreed lamports scanned =
      let (cs, run, size, listed) =
        scan-ok s.index s.header.tier_count l.header.inventory_version
          (λ q. rw all (step.tagged q)) in
      let same = ok-injective (sym run ∙ scanned) in
      rw (← same) (record {
        pin =
            start-IsPinned s.header s.index l.header lamports s.header.inventory_version
              step.stocked past step.room;
        step = step;
        scanned = record { sized = size ∙ all; listed = λ t b. listed t (omega (arith, size, b)) };
        weighed = refl;
      })

  -- On a snapshot of a pool whose header is in step with its index and whose tier count is the
  -- number of its tiers in use, with a pull that is pinned to no later version and finds enough
  -- items before it, passes `check_pending` and has a proof that verifies, the client's
  -- `settle_order` comes out, with one planned item for each draw.
  pub settle_order_accepts :
      {beta : List ℕ}
      → check_pending s l ≡ ok tt
      → h.verify proof s.header.operator
          (h.sha256 (h.key_bytes l.address ∷ l.header.client_seed ∷ []))
        ≡ some beta
      → (o : Settlement) × (settle_order h s l proof ≡ ok o) × (length o.draws ≡ l.header.count)
  unfolding settle_order
  settle_order_accepts {beta} pending verified =
      let (cs, run, _, _) =
        scan-ok s.index s.header.tier_count l.header.inventory_version
          (λ q. rw all (step.tagged q)) in
      let (draws, planned, size) =
        plan_accepts h s.address s.header beta l.header.count 0 (agreed 0 run) enough in
      let full : (length s.index == inventory_space s.header.inventory_version) ≡ true =
        eq→== (length s.index) (inventory_space s.header.inventory_version) step.stocked.sized in
      (
        record {
          pool = s.address;
          pull = l.address;
          buyer = l.header.buyer;
          operator = s.header.operator;
          proof = proof;
          draws = draws;
        },
        rw (pending, full, verified, run, planned) refl,
        size,
      )

  -- What an order that came out has found.
  ordered :
      {o : Settlement}
      → settle_order h s l proof ≡ ok o
      → (beta : List ℕ) × (candidates : List (List ℕ)) × (h.verify proof s.header.operator
            (h.sha256 (h.key_bytes l.address ∷ l.header.client_seed ∷ []))
          ≡ some beta)
        × (scan s.index s.header.tier_count l.header.inventory_version ≡ ok candidates)
        × (plan h s.address s.header beta 0 l.header.count candidates ≡ ok o.draws)
  unfolding settle_order
  ordered {o} made =
      let alpha : List ℕ = h.sha256 (h.key_bytes l.address ∷ l.header.client_seed ∷ []) in
      let (cs, run, _, _) =
        scan-ok s.index s.header.tier_count l.header.inventory_version
          (λ q. rw all (step.tagged q)) in
      elim (Option-cases (h.verify proof s.header.operator alpha)) [
        | inl bad ↦ absurd (ground (arith, bad))
        | inr (beta, verified) ↦
            elim (Result-cases (plan h s.address s.header beta 0 l.header.count cs)) [
              | inr (e, bad) ↦ absurd (ground (arith, bad, verified, run))
              | inl (draws, planned) ↦
                  let same : o.draws ≡ draws = ground (arith, planned, verified, run) in
                  (beta, cs, verified, run, rw same planned)
            ]
      ]

  settles :
      (env : Env) (a : SettleAccounts) {beta eligible : List ℕ} {e : Drawing}
      → length a.items ≤ e.pool.pending_draws
      → e.pull.index + 1 < 2 ^ 64
      → IsShared h env s l a
      → counts s.index l.header.inventory_version ≡ ok eligible
      → env.verify proof s.header.operator
          (env.sha256 (env.key_bytes a.pull.key ∷ l.header.client_seed ∷ []))
        ≡ some beta
      → draw_loop env a.pool.key beta 0 a.items (record {
        pool = s.header;
        index = s.index;
        pull = l.header;
        lamports = a.operator.lamports;
        eligible = eligible;
      })
        ≡ ok e
      → (b : Settled) × (settle env a proof ≡ ok b)
  unfolding settle draw_all advance
  settles env a {beta} {eligible} {e} owed index x counted proven looped =
      let alpha : List ℕ = env.sha256 (env.key_bytes a.pull.key ∷ l.header.client_seed ∷ []) in
      let told : env.invoke (
            settle_event env a alpha proof beta (record e.pull { status = status_settled })
              (length a.items))
          ≡ ok tt =
        x.emits _ in
      elim (Result-cases (settle env a proof)) [
        | inl (b, run) ↦ (b, run)
        | inr (f, bad) ↦
            absurd (ground (arith, x.pool_loads, x.pull_loads, counted, proven, looped, told))
      ]

  -- The settlement of that order succeeds, with the accounts that it names.
  pub settle_accepts :
      (env : Env) (a : SettleAccounts) {o : Settlement}
      → IsShared h env s l a
      → l.header.count ≤ s.header.pending_draws
      → l.header.index + 1 < 2 ^ 64
      → a.operator.lamports + total_lamports a.items < 2 ^ 64
      → settle_order h s l proof ≡ ok o
      → IsMatching env a.pool.key a.items o.draws
      → (b : Settled) × (settle env a proof ≡ ok b)
  settle_accepts env a {o} x owed index fits planned matching =
      let (beta, cs, verified, run, drawn) = ordered planned in
      let start : Drawing = drawing_start s.header s.index l.header a.operator.lamports in
      let (e, looped) =
        draw_loop_accepts h s.address s.header beta env a.pool.key a.items 0 {s = start} x.hashes
          (agreed a.operator.lamports run) (omega (arith, x.items, enough)) fits (rw x.items drawn)
          matching in
      let (rounds, _) =
        draw_loop-ok env a.pool.key beta 0 a.items
          (start-IsPinned s.header s.index l.header a.operator.lamports s.header.inventory_version
            step.stocked past step.room)
          looped in
      let spent = IsDrawing-IsSpent rounds in
      let pending : e.pool.pending_draws ≡ s.header.pending_draws =
        ap (λ (q : Pool). q.pending_draws) spent.kept in
      let at : e.pull.index ≡ l.header.index = spent.indexed in
      let counted : counts s.index l.header.inventory_version ≡ ok start.eligible =
        counts-ok step.stocked.indexed l.header.inventory_version
          (omega (arith, step.stocked.sized, past)) in
      let proven : env.verify proof s.header.operator
            (env.sha256 (env.key_bytes a.pull.key ∷ l.header.client_seed ∷ []))
          ≡ some beta =
        rw (x.proofs, x.hashes, x.keys, x.pull_key) verified in
      settles env a (rw (x.items, pending) owed) (rw at index) x counted proven looped
