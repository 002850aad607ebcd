-- ===== src/Bits/Cover.antt =====
-- Which Fenwick nodes count a block: node `n` counts the `lowest n` blocks that end at block `n`.
use native.Mathlib.Nat.{le_refl, pow-suc, one-le-pow}
use solana_gacha.Prelude.{
  ℕ, zero, suc, ◌+◌, ◌-◌, ◌*◌, ◌/◌, ◌%◌, ◌^◌, ◌≤◌, ◌<◌, ◌≡◌, ap, inl, inr, arith, ◌==◌, ltb, leb,
  if◌then◌else◌, ◌⊎◌, ◌∙◌,
}
use solana_gacha.Bits.Lowest.{lowest, lowest-odd, lowest-even, lowest_bounds}

-- 1 if node `n` counts the block before `i` (blocks are numbered from 0, nodes from 1).
unfoldable pub hit : ℕ → ℕ → ℕ
hit n i = if ltb (n - lowest n) i then (if leb i n then 1 else 0) else 0

hit_half : (n i j : ℕ) → 0 < n → n % 2 ≡ 0 → (i + 1) / 2 ≡ j → hit n i ≡ hit (n / 2) j
unfolding hit
hit_half n i j p e d = ground (arith, lowest-even n p e, lowest_bounds (n / 2))

hit_odd : (n i : ℕ) → n % 2 ≡ 1 → hit n i ≡ (if n == i then 1 else 0)
unfolding hit
hit_odd n i e = ground (arith, lowest-odd n e)

parity : (n : ℕ) → (n % 2 ≡ 0) ⊎ (n % 2 ≡ 1)
parity n = omega arith

next_even : (i : ℕ) → 0 < i → (i + lowest i) % 2 ≡ 0
next_even i p = elim (parity i) [
  | inl e ↦ omega (arith, lowest-even i p e)
  | inr o ↦ omega (arith, lowest-odd i o)
]

next_half : (i : ℕ) → 0 < i → i % 2 ≡ 0 → (i + lowest i + 1) / 2 ≡ i / 2 + lowest (i / 2)
next_half i p e = omega (arith, lowest-even i p e)

next_half_odd : (i : ℕ) → i % 2 ≡ 1 → (i + lowest i + 1) / 2 ≡ (i + 1) / 2
next_half_odd i o = omega (arith, lowest-odd i o)

hit_next_fuel :
    (f n i : ℕ) → n ≤ f → 0 < n → 0 < i → hit n i ≡ (if n == i then 1 else hit n (i + lowest i))
hit_next_fuel zero n i b p q = absurd (omega arith)
hit_next_fuel (suc f) n i b p q = elim (parity n) [
  | inr o ↦ ground (arith, hit_odd n i o, hit_odd n (i + lowest i) o, next_even i q)
  | inl e ↦ elim (parity i) [
    | inr o ↦ ground (
      arith,
      hit_half n i ((i + 1) / 2) p e,
      hit_half n (i + lowest i) ((i + 1) / 2) p e,
      next_half_odd i o,
    )
    | inl z ↦ ground (
      arith,
      hit_half n i (i / 2) p e,
      hit_half n (i + lowest i) (i / 2 + lowest (i / 2)) p e,
      next_half i q z,
      hit_next_fuel f (n / 2) (i / 2),
    )
  ]
]

-- A node counts the block before `i` if it is `i` itself, or counts the block of the next node.
pub hit_next : (n i : ℕ) → 0 < n → 0 < i → hit n i ≡ (if n == i then 1 else hit n (i + lowest i))
hit_next n i p q = hit_next_fuel n n i (le_refl n) p q

pub two-pow-suc : (k : ℕ) → 2 ^ suc k ≡ 2 * 2 ^ k
two-pow-suc k = omega (arith, pow-suc 2 k)

pub two_pow_pos : (k : ℕ) → 0 < 2 ^ k
two_pow_pos k = one-le-pow k 2 (omega arith)

pub mul-two-pow-suc : (q k : ℕ) → q * 2 ^ suc k ≡ 2 * (q * 2 ^ k)
mul-two-pow-suc q k = omega (arith, ap (λ (t : ℕ). q * t) (two-pow-suc k))

-- The node one step above a multiple of twice the step counts exactly the step.
pub lowest_aligned : (k q : ℕ) → lowest (q * 2 ^ suc k + 2 ^ k) ≡ 2 ^ k
lowest_aligned zero q = lowest-odd (q * 2 ^ 1 + 2 ^ 0) (omega arith)
lowest_aligned (suc k) q =
    let n : ℕ = q * 2 ^ suc (suc k) + 2 ^ suc k in
    let h : n / 2 ≡ q * 2 ^ suc k + 2 ^ k =
      omega (arith, two-pow-suc k, mul-two-pow-suc q (suc k)) in
    let even : n % 2 ≡ 0 = omega (arith, two-pow-suc k, mul-two-pow-suc q (suc k)) in
    lowest-even n (omega (arith, two_pow_pos (suc k))) even
    ∙ rw (h, lowest_aligned k q, two-pow-suc k)

-- A node strictly inside an aligned window counts no block before the window.
pub lowest_window : (k q n : ℕ) → q * 2 ^ k < n → n < q * 2 ^ k + 2 ^ k → q * 2 ^ k + lowest n ≤ n
lowest_window zero q n a b = absurd (omega arith)
lowest_window (suc k) q n a b = elim (parity n) [
  | inr o ↦ omega (arith, lowest-odd n o)
  | inl e ↦ omega (
    arith,
    lowest-even n (omega arith) e,
    two-pow-suc k,
    mul-two-pow-suc q k,
    lowest_window k q (n / 2) (omega (arith, mul-two-pow-suc q k))
        (omega (arith, two-pow-suc k, mul-two-pow-suc q k)),
  )
]
