-- ===== src/Sdk/Plan/Accepts.antt =====
-- From a pool in step with its index, the client's plan comes out for as many draws as there are items, and
-- the program's draw succeeds on the accounts that it names.
use solana_gacha.Prelude.{
  ℕ, zero, suc, ◌+◌, ◌^◌, ◌≤◌, ◌<◌, ◌≡◌, ap, sym, refl, ◌∙◌, List, [], ◌∷◌, ok, ok-injective, arith,
  length, get_or, take, true, ltb, leb, ◌==◌, eq→==, lt→ltb, ◌>>=◌,
}
use solana_gacha.Core.State.{Pubkey, Pool, Pull, Item, Tier, tiers, set_outcome}
use solana_gacha.Core.Stock.Laws.{take_remaining-ok}
use solana_gacha.Core.Draw.{draw}
use solana_gacha.Inventory.Stock.{stock}
use solana_gacha.Program.Account.{AccountInfo, Env, load_item, close}
use solana_gacha.Program.Settle.{Drawing, draw_one, draw_loop}
use solana_gacha.Program.Settle.Round.{IsPinned}
use solana_gacha.Program.Settle.Accepts.{
  IsRound, next-IsRound, next_drawing, next-IsPinned, next-IsInStep, next-stock,
}
use solana_gacha.Program.Step.{IsInStep}
use solana_gacha.Sdk.{Host}
use solana_gacha.Sdk.Pools.{item_address}
use solana_gacha.Sdk.Plan.{Planned, plan}
use solana_gacha.Sdk.Plan.Laws.{
  weights, weights-set, IsScanned, next_candidates, next-IsScanned, plan-next,
}

-- The account holds the item that the client planned.
pub record HasItem (env : Env) (key : Pubkey) (a : AccountInfo) (d : Planned) : Type 0 where
  pub item : Item
  pub loads : load_item env a ≡ ok item
  pub of_pool : item.pool ≡ key
  pub of_tier : item.tier ≡ d.tier
  pub of_position : item.position ≡ d.position

unfoldable pub IsMatching : Env → Pubkey → List AccountInfo → List Planned → Type 0
IsMatching env key [] [] = Unit
IsMatching env key (a ∷ rest) (d ∷ ds) = HasItem env key a d × IsMatching env key rest ds
IsMatching env key [] (d ∷ ds) = length (d ∷ ds) ≡ 0
IsMatching env key (a ∷ rest) [] = length (a ∷ rest) ≡ 0

unfoldable pub total_lamports : List AccountInfo → ℕ
total_lamports [] = 0
total_lamports (a ∷ rest) = a.lamports + total_lamports rest

-- What the client and the program agree on before draw `i`.
pub record IsAgreed (p : Pool) (s : Drawing) (cutoff : ℕ) (candidates : List (List ℕ))
    : Type 0 where
  pub pin : IsPinned s s.pool.inventory_version cutoff
  pub step : IsInStep s.pool s.index
  pub scanned : IsScanned s cutoff candidates
  pub weighed : weights (tiers p) ≡ weights (tiers s.pool)

module _ (h : Host) (address : Pubkey) (p : Pool) (beta : List ℕ) {cutoff : ℕ} where
  next-weights :
      {s : Drawing} {hash : List ℕ} (r : IsRound s cutoff hash)
      → weights (tiers r.pool) ≡ weights (tiers s.pool)
  next-weights {s} r =
      let (_, _, _, kept, tier_set, _) = take_remaining-ok s.pool r.tier r.lowered in
      ap (λ (q : Pool). weights (take q.tier_count r.pool.all_tiers)) kept
      ∙ ap (λ (ts : List Tier). weights (take s.pool.tier_count ts)) tier_set
      ∙ weights-set s.pool.all_tiers r.tier s.pool.tier_count _

  next-IsAgreed :
      (i : ℕ) {s : Drawing} {candidates : List (List ℕ)} (g : IsAgreed p s cutoff candidates)
      (r : IsRound s cutoff (h.sha256 (beta ∷ (i ∷ []) ∷ []))) (pull : Pull) (lamports : ℕ)
      → IsAgreed p
          (next_drawing r pull lamports)
          cutoff
          (next_candidates h address p beta i g.pin g.step g.scanned g.weighed r)
  next-IsAgreed i g r pull lamports = record {
    pin = next-IsPinned g.pin g.step r pull lamports;
    step = next-IsInStep g.pin g.step r;
    scanned = next-IsScanned h address p beta i g.pin g.step g.scanned g.weighed r pull lamports;
    weighed = g.weighed ∙ sym (next-weights r);
  }

  -- The client's draw of a round.
  abbrev first :
      {i : ℕ} {s : Drawing} → IsRound s cutoff (h.sha256 (beta ∷ (i ∷ []) ∷ [])) → Planned
  first r = record {
    tier = r.tier;
    position = r.position;
    item = (item_address h address r.tier r.position).0;
  }

  drawn_one :
      (env : Env) (key : Pubkey) (i : ℕ) {s : Drawing} {a : AccountInfo}
      → env.sha256 ≡ h.sha256
      → (r : IsRound s cutoff (h.sha256 (beta ∷ (i ∷ []) ∷ [])))
      → (held : HasItem env key a (first r)) → s.lamports + a.lamports < 2 ^ 64
      → draw_one env key beta i a s
        ≡ ok
            (next_drawing r (set_outcome s.pull i r.tier held.item.asset) (s.lamports + a.lamports))
  unfolding draw_one close
  drawn_one env key i {s} {a} same r held fits =
      let drawn : draw s.pool (env.sha256 (beta ∷ (i ∷ []) ∷ [])) s.eligible ≡ ok (r.tier, r.rank) =
        ap (λ (f : List (List ℕ) → List ℕ). draw s.pool (f (beta ∷ (i ∷ []) ∷ [])) s.eligible) same
        ∙ r.drawn in
      let left : leb 1 (get_or s.eligible r.tier 0) ≡ true = ground (arith, r.below) in
      let mine : (held.item.pool == key) ≡ true = eq→== held.item.pool key held.of_pool in
      let tier : (held.item.tier == r.tier) ≡ true = eq→== held.item.tier r.tier held.of_tier in
      let place : (held.item.position == r.position) ≡ true =
        eq→== held.item.position r.position held.of_position in
      let word : ltb (s.lamports + a.lamports) (2 ^ 64) ≡ true =
        lt→ltb (s.lamports + a.lamports) (2 ^ 64) fits in
      rw (drawn, r.taken, left, held.loads, mine, tier, place, word, r.lowered) refl

  pub plan_accepts :
      (n i : ℕ) {s : Drawing} {candidates : List (List ℕ)}
      → IsAgreed p s cutoff candidates
      → n ≤ stock s.index cutoff
      → (draws : List Planned) × (plan h address p beta i n candidates ≡ ok draws)
        × (length draws ≡ n)
  unfolding plan
  plan_accepts zero i g some = ([], refl, refl)
  plan_accepts (suc n) i {s} {candidates} g some =
      let r = next-IsRound g.pin g.step (h.sha256 (beta ∷ (i ∷ []) ∷ [])) (omega arith) in
      let (draws, run, size) =
        plan_accepts n (i + 1) {s = next_drawing r s.pull s.lamports}
          (next-IsAgreed i g r s.pull s.lamports) (omega (arith, next-stock g.pin g.step r)) in
      (
        first r ∷ draws,
        plan-next h address p beta i g.pin g.step g.scanned g.weighed r n
            ∙ ap (λ x. x >>= λ ds. ok (first r ∷ ds)) run,
        ap suc size,
      )

  -- The program's loop succeeds on the accounts of the client's plan.
  pub draw_loop_accepts :
      (env : Env) (key : Pubkey) (accounts : List AccountInfo) (i : ℕ) {s : Drawing}
      {candidates : List (List ℕ)} {draws : List Planned}
      → env.sha256 ≡ h.sha256
      → IsAgreed p s cutoff candidates
      → length accounts ≤ stock s.index cutoff
      → s.lamports + total_lamports accounts < 2 ^ 64
      → plan h address p beta i (length accounts) candidates ≡ ok draws
      → IsMatching env key accounts draws
      → (e : Drawing) × (draw_loop env key beta i accounts s ≡ ok e)
  unfolding draw_loop IsMatching total_lamports
  draw_loop_accepts env key [] i {s} same g some fits planned matching = (s, refl)
  draw_loop_accepts env key (a ∷ rest) i {s} {candidates} {draws} same g some fits planned
        matching =
      let r = next-IsRound g.pin g.step (h.sha256 (beta ∷ (i ∷ []) ∷ [])) (omega arith) in
      let (later, run, _) =
        plan_accepts (length rest) (i + 1) {s = next_drawing r s.pull s.lamports}
          (next-IsAgreed i g r s.pull s.lamports) (omega (arith, next-stock g.pin g.step r)) in
      let split : first r ∷ later ≡ draws = ok-injective (
        sym (
          plan-next h address p beta i g.pin g.step g.scanned g.weighed r (length rest)
          ∙ ap (λ x. x >>= λ ds. ok (first r ∷ ds)) run)
        ∙ planned) in
      let (held, others) = rw (← split) at matching in
      let s1 : Drawing =
        next_drawing r (set_outcome s.pull i r.tier held.item.asset) (s.lamports + a.lamports) in
      let one : draw_one env key beta i a s ≡ ok s1 =
        drawn_one env key i same r held (omega arith) in
      let (e, more) =
        draw_loop_accepts env key rest (i + 1) {s = s1} same
          (next-IsAgreed i g r (set_outcome s.pull i r.tier held.item.asset)
            (s.lamports + a.lamports))
          (omega (arith, next-stock g.pin g.step r)) (omega arith) run others in
      (e, rw one more)
