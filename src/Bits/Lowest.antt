-- ===== src/Bits/Lowest.antt =====
-- The lowest set bit, by halving, and the equations of the two bit tricks with it.
use Prim.Native.Nat.{bit_and, bit_and-bitwise, digits}
use native.Mathlib.Nat.{le_refl, pow-suc}
use solana_gacha.Prelude.{
  ℕ, zero, suc, ◌+◌, ◌-◌, ◌*◌, ◌/◌, ◌%◌, ◌^◌, ◌≤◌, ◌<◌, min, ◌≡◌, refl, sym, arith, ◌==◌,
  if◌then◌else◌, ◌∙◌,
}

lowest_fuel : ℕ → ℕ → ℕ
lowest_fuel zero n = 1
lowest_fuel (suc f) n = if n % 2 == 1 then 1 else 2 * lowest_fuel f (n / 2)

pub lowest : ℕ → ℕ
lowest n = lowest_fuel n n

lowest_fuel_irrelevant : (f g n : ℕ) → 0 < n → n ≤ f → n ≤ g → lowest_fuel f n ≡ lowest_fuel g n
unfolding lowest_fuel
lowest_fuel_irrelevant zero g n p hf hg = absurd (omega arith)
lowest_fuel_irrelevant (suc f) zero n p hf hg = absurd (omega arith)
lowest_fuel_irrelevant (suc f) (suc g) n p hf hg =
    ground (arith, lowest_fuel_irrelevant f g (n / 2))

lowest_step : (n : ℕ) → 0 < n → lowest n ≡ (if n % 2 == 1 then 1 else 2 * lowest (n / 2))
unfolding lowest lowest_fuel
lowest_step zero p = absurd (omega arith)
lowest_step (suc n) p = ground (arith, lowest_fuel_irrelevant n (suc n / 2) (suc n / 2))

pub lowest-odd : (n : ℕ) → n % 2 ≡ 1 → lowest n ≡ 1
lowest-odd n h = ground (arith, lowest_step n)

pub lowest-even : (n : ℕ) → 0 < n → n % 2 ≡ 0 → lowest n ≡ 2 * lowest (n / 2)
lowest-even n p h = ground (arith, lowest_step n)

lowest_bounds_fuel : (f n : ℕ) → n ≤ f → 0 < n → (0 < lowest n) × (lowest n ≤ n)
lowest_bounds_fuel zero n b p = absurd (omega arith)
lowest_bounds_fuel (suc f) n b p = ground (arith, lowest_step n, lowest_bounds_fuel f (n / 2))

pub lowest_bounds : (n : ℕ) → 0 < n → (0 < lowest n) × (lowest n ≤ n)
lowest_bounds n = lowest_bounds_fuel n n (le_refl n)

no_digits : (f b : ℕ) → digits (λ y. 0) min f 0 b ≡ 0
no_digits zero b = refl
no_digits (suc f) b = refl

-- Fuel beyond the first number changes nothing.
more_digits : (a k f b : ℕ) → a ≤ f → digits (λ y. 0) min (f + k) a b ≡ digits (λ y. 0) min f a b
more_digits zero k f b h = no_digits (f + k) b ∙ sym (no_digits f b)
more_digits (suc a) k zero b h = absurd (omega arith)
more_digits (suc a) k (suc f) b h =
    let e : suc f + k ≡ suc (f + k) = omega arith in
    let half : suc a / 2 ≤ f = omega arith in rw (e, more_digits (suc a / 2) k f (b / 2) half)

-- The lowest digit of a bitwise conjunction.
bit_and-halves : (m n : ℕ) → bit_and m n ≡ min (m % 2) (n % 2) + 2 * bit_and (m / 2) (n / 2)
bit_and-halves zero n = simp bit_and-bitwise (omega arith)
bit_and-halves (suc a) n =
    let h : ℕ = suc a / 2 in
    let e : h + (a - h) ≡ a = omega arith in
    simp bit_and-bitwise (omega (arith, rw e at (more_digits h (a - h) h (n / 2) (le_refl h))))

bit_and-zero : (b : ℕ) → bit_and 0 b ≡ 0
bit_and-zero b = bit_and-bitwise 0 b

bit_and-self_fuel : (f a : ℕ) → a ≤ f → bit_and a a ≡ a
bit_and-self_fuel f zero h = bit_and-zero 0
bit_and-self_fuel zero (suc a) h = absurd (omega arith)
bit_and-self_fuel (suc f) (suc a) h =
    omega (arith, bit_and-halves (suc a) (suc a), bit_and-self_fuel f (suc a / 2) (omega arith))

clear_lowest_fuel : (f n : ℕ) → n ≤ f → 0 < n → bit_and n (n - 1) + lowest n ≡ n
clear_lowest_fuel zero n h p = absurd (omega arith)
clear_lowest_fuel (suc f) n h p = ground (
  arith,
  lowest_step n,
  bit_and-halves n (n - 1),
  bit_and-self_fuel n (n / 2),
  clear_lowest_fuel f (n / 2),
  (λ (q : n % 2 ≡ 0). let e : (n - 1) / 2 ≡ n / 2 - 1 = omega arith in e),
  (λ (q : n % 2 ≡ 1). let e : (n - 1) / 2 ≡ n / 2 = omega arith in e),
)

-- Clearing the lowest bit subtracts it.
pub clear_lowest : (n : ℕ) → 0 < n → bit_and n (n - 1) + lowest n ≡ n
clear_lowest n = clear_lowest_fuel n n (le_refl n)

bit_and-complement : (k a : ℕ) → a < 2 ^ k → bit_and a (2 ^ k - 1 - a) ≡ 0
bit_and-complement zero a h = let e : a ≡ 0 = omega arith in rw (e, bit_and-zero)
bit_and-complement (suc k) a h =
    let p : 2 ^ suc k ≡ 2 * 2 ^ k = omega (arith, pow-suc 2 k) in
    let e : (2 ^ suc k - 1 - a) / 2 ≡ 2 ^ k - 1 - a / 2 = omega arith in
    bit_and-halves a (2 ^ suc k - 1 - a)
    ∙ rw e (omega (arith, bit_and-complement k (a / 2) (omega arith)))

bit_and_neg : (k a : ℕ) → 0 < a → a < 2 ^ k → bit_and a (2 ^ k - a) ≡ lowest a
bit_and_neg zero a p h = absurd (omega arith)
bit_and_neg (suc k) a p h =
    let d : 2 ^ suc k ≡ 2 * 2 ^ k = omega (arith, pow-suc 2 k) in
    ground (
      arith,
      lowest_step a,
      bit_and-halves a (2 ^ suc k - a),
      bit_and-complement k (a / 2),
      bit_and_neg k (a / 2),
      (λ (q : a % 2 ≡ 1). let e : (2 ^ suc k - a) / 2 ≡ 2 ^ k - 1 - a / 2 = omega arith in e),
      (λ (q : a % 2 ≡ 0). let e : (2 ^ suc k - a) / 2 ≡ 2 ^ k - a / 2 = omega arith in e),
    )

-- `n & n.wrapping_neg()` on 64 bits is the lowest set bit.
pub low_bit-eq-lowest : (n : ℕ) → 0 < n → n < 2 ^ 64 → bit_and n ((2 ^ 64 - n) % 2 ^ 64) ≡ lowest n
low_bit-eq-lowest n p h =
    let e : (2 ^ 64 - n) % 2 ^ 64 ≡ 2 ^ 64 - n = omega arith in rw e (bit_and_neg 64 n p h)
