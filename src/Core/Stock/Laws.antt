-- ===== src/Core/Stock/Laws.antt =====
-- The stock of a pool after one item more or less.
use solana_gacha.Prelude.{
  ℕ, zero, suc, ◌+◌, ◌-◌, ◌≤◌, ◌<◌, ◌≡◌, ap, refl, List, [], ◌∷◌, ok, arith, length, get_or, set,
  take,
}
use solana_gacha.Core.State.{Pool, Tier, tiers, remaining, sum_remaining, empty_tier}
use solana_gacha.Core.Stock.{take_remaining, add_remaining}

abbrev pub with_remaining : Tier → ℕ → Tier
with_remaining t n = record t { remaining = n }

-- Taking one item of a tier in use lowers the pool's stock by one.
sum_remaining-set :
    (ts : List Tier) (n k : ℕ) (t : Tier)
    → k < length (take n ts)
    → sum_remaining (take n (set ts k t)) + (get_or ts k empty_tier).remaining
      ≡ sum_remaining (take n ts) + t.remaining
unfolding sum_remaining
sum_remaining-set ts zero k t h = absurd (omega arith)
sum_remaining-set [] (suc n) k t h = absurd (omega arith)
sum_remaining-set (x ∷ ts) (suc n) zero t h = omega arith
sum_remaining-set (x ∷ ts) (suc n) (suc k) t h =
    omega (arith, sum_remaining-set ts n k t (omega arith))

length-take-set :
    (ts : List Tier) (n k : ℕ) (t : Tier) → length (take n (set ts k t)) ≡ length (take n ts)
length-take-set ts zero k t = refl
length-take-set [] (suc n) k t = refl
length-take-set (x ∷ ts) (suc n) zero t = refl
length-take-set (x ∷ ts) (suc n) (suc k) t = ap suc (length-take-set ts n k t)

pub take_remaining-ok :
    (p : Pool) (k : ℕ) {p' : Pool}
    → take_remaining p k ≡ ok p'
    → (k < length (tiers p))
      × (remaining p' + 1 ≡ remaining p)
      × (length (tiers p') ≡ length (tiers p))
      × (p' ≡ record p { all_tiers = p'.all_tiers })
      × (p'.all_tiers
          ≡ set p.all_tiers k (
              with_remaining
                (get_or p.all_tiers k empty_tier)
                ((get_or p.all_tiers k empty_tier).remaining - 1)))
      × (0 < (get_or p.all_tiers k empty_tier).remaining)
unfolding take_remaining remaining
take_remaining-ok p k {p'} run =
    let h : k < length (tiers p) = ground arith in
    let t : Tier = get_or p.all_tiers k empty_tier in
    let t' : Tier = record t { remaining = t.remaining - 1 } in
    let some : 1 ≤ t.remaining = ground arith in
    let shape : p' ≡ record p { all_tiers = set p.all_tiers k t' } = ground arith in
    rw shape (
      h,
      omega (arith, sum_remaining-set p.all_tiers p.tier_count k t' h),
      length-take-set p.all_tiers p.tier_count k t',
      refl,
      refl,
      some,
    )

pub add_remaining-ok :
    (p : Pool) (k : ℕ) {p' : Pool}
    → add_remaining p k ≡ ok p'
    → (k < length (tiers p))
      × (remaining p' ≡ remaining p + 1)
      × (length (tiers p') ≡ length (tiers p))
      × (p' ≡ record p { all_tiers = p'.all_tiers })
      × (p'.all_tiers
          ≡ set p.all_tiers k (
              with_remaining
                (get_or p.all_tiers k empty_tier)
                ((get_or p.all_tiers k empty_tier).remaining + 1)))
unfolding add_remaining remaining
add_remaining-ok p k {p'} run =
    let h : k < length (tiers p) = ground arith in
    let t : Tier = get_or p.all_tiers k empty_tier in
    let t' : Tier = record t { remaining = t.remaining + 1 } in
    let shape : p' ≡ record p { all_tiers = set p.all_tiers k t' } = ground arith in
    rw shape (
      h,
      omega (arith, sum_remaining-set p.all_tiers p.tier_count k t' h),
      length-take-set p.all_tiers p.tier_count k t',
      refl,
      refl,
    )
