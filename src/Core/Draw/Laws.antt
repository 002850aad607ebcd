-- ===== src/Core/Draw/Laws.antt =====
-- What a draw selects.
use solana_gacha.Prelude.{
  ℕ, suc, ◌+◌, ◌-◌, ◌%◌, ◌^◌, ◌≤◌, ◌<◌, ◌≡◌, ◌≢◌, ◌∙◌, ap, refl, List, [], ◌∷◌, ◌==◌, ltb, get_or,
  length, drop, drop-cons, ok, err, gacha, sold_out, arith, true, false, Bool-cases, inl, inr,
  not-==→ne, ltb→lt, lt→ltb, not-ltb→le, ne→not-==, if◌then◌else◌,
}
use solana_gacha.Core.State.{Tier, Pool, tiers, empty_tier}
use solana_gacha.Core.Draw.{u64_at, eligible_weight, pick_tier, draw_tier, draw, weight_before}

-- Tier `k` owns the rolls from the eligible weight before it, as many as its own weight.
pub record Owns (ts : List Tier) (counts : List ℕ) (k roll : ℕ) : Type 0 where
  pub in_use : k < length ts
  pub in_stock : 0 < get_or counts k 0
  pub from : weight_before ts counts k ≤ roll
  pub to : roll < weight_before ts counts k + (get_or ts k empty_tier).weight

pick_tier-ok :
    (ts : List Tier) (counts : List ℕ) (i roll : ℕ)
    → i + length ts ≤ length counts
    → roll < eligible_weight ts (drop i counts)
    → (k : ℕ) × (pick_tier ts counts i roll ≡ ok (i + k))
      × (k < length ts)
      × (0 < get_or counts (i + k) 0)
      × (weight_before ts (drop i counts) k ≤ roll)
      × (roll < weight_before ts (drop i counts) k + (get_or ts k empty_tier).weight)
unfolding pick_tier eligible_weight weight_before
pick_tier-ok [] counts i roll room h = absurd (omega arith)
pick_tier-ok (t ∷ ts) counts i roll room h =
    let c : ℕ = get_or counts i 0 in
    let next : suc i ≡ i + 1 = omega arith in
    let split : drop i counts ≡ c ∷ drop (i + 1) counts =
      drop-cons counts i 0 (omega arith) ∙ ap (λ (n : ℕ). c ∷ drop n counts) next in
    let total : eligible_weight (t ∷ ts) (drop i counts) ≡ (
        if ltb 0 c
        then t.weight + eligible_weight ts (drop (i + 1) counts)
        else eligible_weight ts (drop (i + 1) counts)) =
      ap (eligible_weight (t ∷ ts)) split in
    elim (Bool-cases (c == 0)) [
      | inl none_left ↦
          let z : ltb 0 c ≡ false = ground arith in
          let (k, run, used, stock, lo, hi) =
            pick_tier-ok ts counts (i + 1) roll (omega arith) (ground arith) in
          let e : i + 1 + k ≡ i + suc k = omega arith in
          (
            suc k,
            rw (none_left, ← e) run,
            omega arith,
            rw (← e) stock,
            rw (split, z) lo,
            rw (split, z) hi,
          )
      | inr some_left ↦ elim (Bool-cases (ltb roll t.weight)) [
        | inl hit ↦
            let e : i + 0 ≡ i = omega arith in
            let ne : c ≢ 0 = not-==→ne c 0 some_left in
            (
              0,
              rw (some_left, hit, e),
              omega arith,
              rw e (omega arith),
              omega arith,
              omega (arith, ltb→lt roll t.weight hit),
            )
        | inr miss ↦
            let ne : c ≢ 0 = not-==→ne c 0 some_left in
            let z : ltb 0 c ≡ true = lt→ltb 0 c (omega arith) in
            let over : t.weight ≤ roll = not-ltb→le roll t.weight miss in
            let (k, run, used, stock, lo, hi) =
              pick_tier-ok ts counts (i + 1) (roll - t.weight) (omega arith) (ground arith) in
            let e : i + 1 + k ≡ i + suc k = omega arith in
            (
              suc k,
              rw (some_left, miss, ← e) run,
              omega arith,
              rw (← e) stock,
              rw (split, z) (omega arith),
              rw (split, z) (omega arith),
            )
      ]
    ]

-- With something eligible, the draw takes the tier that owns the roll, and it is in use and in stock.
draw_tier-ok :
    (p : Pool) (hash counts : List ℕ)
    → length (tiers p) ≤ length counts
    → 0 < eligible_weight (tiers p) counts
    → (k : ℕ) × (draw_tier p hash counts ≡ ok k)
      × Owns (tiers p) counts k (u64_at hash 0 % eligible_weight (tiers p) counts)
unfolding draw_tier
draw_tier-ok p hash counts room some_weight =
    let total : ℕ = eligible_weight (tiers p) counts in
    let roll : ℕ = u64_at hash 0 % total in
    let (k, run, used, stock, lo, hi) =
      pick_tier-ok (tiers p) counts 0 roll (omega arith) (omega arith) in
    let e : 0 + k ≡ k = omega arith in
    (
      k,
      rw (ne→not-== total 0 (omega arith)) (rw e at run),
      record { in_use = used; in_stock = rw e at stock; from = lo; to = hi },
    )

-- With a count for every tier in use, some eligible weight and counts of 32 bits, `draw` succeeds:
-- its tier is in use, has items left, and owns the roll, that is the roll lies in the interval of
-- the tier's weight behind the eligible weight before it; its rank is the second number of the
-- hash modulo the tier's count, and below that count.
pub draw-ok :
    (p : Pool) (hash counts : List ℕ)
    → length (tiers p) ≤ length counts
    → 0 < eligible_weight (tiers p) counts
    → ((t : ℕ) → get_or counts t 0 < 2 ^ 32)
    → (k : ℕ) × (rank : ℕ) × (draw p hash counts ≡ ok (k, rank))
      × Owns (tiers p) counts k (u64_at hash 0 % eligible_weight (tiers p) counts)
      × (rank ≡ u64_at hash 8 % get_or counts k 0)
      × (rank < get_or counts k 0)
unfolding draw
draw-ok p hash counts room some_weight words =
    let (k, run, owns) = draw_tier-ok p hash counts room some_weight in
    let stock : 0 < get_or counts k 0 = owns.in_stock in
    let rank : ℕ = u64_at hash 8 % get_or counts k 0 in
    let below : rank < get_or counts k 0 = omega arith in
    let word : rank % 2 ^ 32 ≡ rank = omega (arith, words k) in
    (k, rank, rw (run, word), owns, refl, below)

-- With nothing eligible, the draw reports that the pool is sold out.
draw_sold_out :
    (p : Pool) (hash counts : List ℕ)
    → eligible_weight (tiers p) counts ≡ 0
    → draw p hash counts ≡ err (gacha sold_out)
unfolding draw draw_tier
draw_sold_out p hash counts e = rw e
