-- ===== src/Program/Settle/Accepts.antt =====
-- A settlement with the right accounts succeeds: the rounds of `draw` of program/src/inventory.rs.
use solana_gacha.Prelude.{
  ℕ, zero, suc, ◌+◌, ◌-◌, ◌*◌, ◌^◌, ◌≤◌, ◌<◌, ◌≡◌, ◌≢◌, ap, refl, ◌∙◌, List, [], ◌∷◌, ok, arith,
  Result-cases, inl, inr, length, get_or, get_or_out, set, take, length-set, Bool-cases, ltb,
}
use solana_gacha.Core.Constants.{max_tiers}
use solana_gacha.Core.State.{Pool, Pull, Tier, tiers, empty_tier}
use solana_gacha.Core.Stock.{take_remaining}
use solana_gacha.Core.Stock.Laws.{take_remaining-ok}
use solana_gacha.Core.Draw.{eligible_weight, draw}
use solana_gacha.Core.Draw.Laws.{draw-ok}
use solana_gacha.Inventory.{blocks, take_item}
use solana_gacha.Inventory.View.{tag, available, available-le, available_mono_le, IsStocked}
use solana_gacha.Inventory.Stock.{stock, stock-Cleared, total-available, total_positive}
use solana_gacha.Inventory.Remove.{Cleared}
use solana_gacha.Inventory.Take.{take_item-ok}
use solana_gacha.Program.Settle.{Drawing}
use solana_gacha.Program.Settle.Round.{IsPinned, draw-eq-ok, before_cutoff, eligible-Cleared}
use solana_gacha.Program.Step.{IsInStep}
use solana_gacha.Program.Step.Laws.{taken-IsInStep}

eligible_weight_positive :
    (ts : List Tier) (cs : List ℕ) (t : ℕ)
    → t < length ts
    → 0 < (get_or ts t empty_tier).weight
    → 0 < get_or cs t 0
    → 0 < eligible_weight ts cs
unfolding eligible_weight
eligible_weight_positive [] cs t b w c = absurd (omega arith)
eligible_weight_positive (x ∷ ts) [] t b w c = absurd (ground arith)
eligible_weight_positive (x ∷ ts) (y ∷ cs) zero b w c = ground arith
eligible_weight_positive (x ∷ ts) (y ∷ cs) (suc t) b w c =
    let more : 0 < eligible_weight ts cs = eligible_weight_positive ts cs t (omega arith) w c in
    ground arith

get_or-take :
    (ts : List Tier) (n t : ℕ)
    → t < length (take n ts)
    → get_or (take n ts) t empty_tier ≡ get_or ts t empty_tier
get_or-take ts zero t b = absurd (omega arith)
get_or-take [] (suc n) t b = refl
get_or-take (x ∷ ts) (suc n) zero b = refl
get_or-take (x ∷ ts) (suc n) (suc t) b = get_or-take ts n t (omega arith)

take_remaining_accepts :
    (p : Pool) (k : ℕ)
    → k < length (tiers p)
    → 0 < (get_or p.all_tiers k empty_tier).remaining
    → (p' : Pool) × (take_remaining p k ≡ ok p')
unfolding take_remaining
take_remaining_accepts p k used some = elim (Result-cases (take_remaining p k)) [
  | inl (p', run) ↦ (p', run)
  | inr (e, bad) ↦ absurd (ground arith)
]

-- What the draw of one hash takes.
pub record IsRound (s : Drawing) (cutoff : ℕ) (hash : List ℕ) : Type 0 where
  pub tier : ℕ
  pub rank : ℕ
  pub position : ℕ
  pub index : List ℕ
  pub pool : Pool
  pub used : tier < length (tiers s.pool)
  pub drawn : draw s.pool hash s.eligible ≡ ok (tier, rank)
  pub taken : take_item s.index tier rank ≡ ok (position, index)
  pub tagged : tag s.index position ≡ suc tier
  pub ranked : available s.index tier position ≡ rank
  pub below : rank < get_or s.eligible tier 0
  pub before : position < cutoff
  pub stocked : IsStocked index s.pool.inventory_version
  pub cleared : Cleared s.index index position
  pub lowered : take_remaining s.pool tier ≡ ok pool

-- The state behind a round, with any pull and lamports.
abbrev pub next_drawing :
    {s : Drawing} {cutoff : ℕ} {hash : List ℕ} → IsRound s cutoff hash → Pull → ℕ → Drawing
next_drawing {s} r pull lamports = record {
  pool = r.pool;
  index = r.index;
  pull = pull;
  lamports = lamports;
  eligible = set s.eligible r.tier (get_or s.eligible r.tier 0 - 1);
}

module _ {s : Drawing} {cutoff : ℕ} (pin : IsPinned s s.pool.inventory_version cutoff)
    (step : IsInStep s.pool s.index) where
  words : (t : ℕ) → get_or s.eligible t 0 < 2 ^ 32
  words t = elim (Bool-cases (ltb t max_tiers)) [
    | inl h ↦ omega (
      arith,
      pin.eligible_ok t (ground arith),
      available-le s.index t cutoff,
      pin.past,
      pin.stocked.sized,
      pin.stocked.indexed.small,
    )
    | inr h ↦ omega (arith, get_or_out s.eligible t 0 (ground (arith, pin.sized)))
  ]

  some_weight : 0 < stock s.index cutoff → 0 < eligible_weight (tiers s.pool) s.eligible
  some_weight some =
      let (t, used, here) =
        total_positive (λ t. available s.index t cutoff) (length (tiers s.pool))
          (omega
            (arith, some, total-available s.index (length (tiers s.pool)) cutoff step.tagged)) in
      eligible_weight_positive (tiers s.pool) s.eligible t used
        (rw (get_or-take s.pool.all_tiers s.pool.tier_count t used) (step.weighted t used))
        (omega (arith, here, pin.eligible_ok t (omega (arith, used, step.room))))

  pub next-IsRound : (hash : List ℕ) → 0 < stock s.index cutoff → IsRound s cutoff hash
  next-IsRound hash some =
      let (tier, rank, drawn, _, _, _) =
        draw-ok s.pool hash s.eligible (omega (arith, step.room, pin.sized)) (some_weight some)
          words in
      let (used, below) = draw-eq-ok s.pool hash s.eligible drawn in
      let fits : tier < max_tiers = omega (arith, used, step.room) in
      let counted : get_or s.eligible tier 0 ≡ available s.index tier cutoff =
        pin.eligible_ok tier fits in
      let wide : cutoff ≤ 64 * blocks s.index = omega (arith, pin.past, pin.stocked.sized) in
      let (p, d', taken, tagged, ranked, stocked, cleared) =
        take_item-ok pin.stocked tier rank fits (
          omega (
            arith,
            counted,
            below,
            available_mono_le s.index tier cutoff (64 * blocks s.index) wide,
          )) in
      let (pool, lowered) = take_remaining_accepts s.pool tier used (
        omega (
          arith,
          step.counted tier used,
          counted,
          below,
          available_mono_le s.index tier cutoff s.pool.inventory_version pin.past,
        )) in
      record {
        tier = tier;
        rank = rank;
        position = p;
        index = d';
        pool = pool;
        used = used;
        drawn = drawn;
        taken = taken;
        tagged = tagged;
        ranked = ranked;
        below = below;
        before = before_cutoff s.index tier p cutoff rank ranked (omega (arith, counted, below));
        stocked = stocked;
        cleared = cleared;
        lowered = lowered;
      }

  kept_version :
      {hash : List ℕ} (r : IsRound s cutoff hash)
      → r.pool.inventory_version ≡ s.pool.inventory_version
  kept_version r =
      let (_, _, _, kept, _, _) = take_remaining-ok s.pool r.tier r.lowered in
      ap (λ (q : Pool). q.inventory_version) kept

  pub next-IsPinned :
      {hash : List ℕ} (r : IsRound s cutoff hash) (pull : Pull) (lamports : ℕ)
      → IsPinned (next_drawing r pull lamports) r.pool.inventory_version cutoff
  next-IsPinned r pull lamports =
      let (_, _, same, _, _, _) = take_remaining-ok s.pool r.tier r.lowered in
      record {
        stocked = rw (kept_version r) r.stocked;
        past = omega (arith, pin.past, kept_version r);
        tiers_ok = omega (arith, same, step.room);
        sized = length-set s.eligible r.tier (get_or s.eligible r.tier 0 - 1) ∙ pin.sized;
        eligible_ok =
            eligible-Cleared s.index r.index r.position r.tier cutoff s.eligible r.tagged r.cleared
              r.before pin.sized (omega (arith, r.used, step.room)) pin.eligible_ok;
      }

  pub next-IsInStep : {hash : List ℕ} (r : IsRound s cutoff hash) → IsInStep r.pool r.index
  next-IsInStep r = taken-IsInStep step r.position r.cleared r.tagged r.stocked r.lowered

  pub next-stock :
      {hash : List ℕ} (r : IsRound s cutoff hash) → stock s.index cutoff ≤ stock r.index cutoff + 1
  next-stock r =
      let some : tag s.index r.position ≢ 0 = ground (arith, r.tagged) in
      ground (arith, stock-Cleared s.index r.index r.position r.cleared some cutoff)
