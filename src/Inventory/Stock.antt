-- ===== src/Inventory/Stock.antt =====
-- All available items of an index, whatever their tier.
use solana_gacha.Prelude.{
  ℕ, zero, suc, ◌+◌, ◌≤◌, ◌<◌, ◌≡◌, ◌≢◌, refl, ◌∙◌, List, ◌==◌, if◌then◌else◌, leb, ltb, arith,
  Bool-cases, ==→eq, not-==→ne, inl, inr,
}
use solana_gacha.Inventory.View.{tag, is_tag, available}
use solana_gacha.Inventory.Remove.{Cleared}
use solana_gacha.Inventory.Append.Laws.{Stocked}

-- How many of the first `n` positions hold an available item.
unfoldable pub stock : List ℕ → ℕ → ℕ
stock d zero = 0
stock d (suc n) = stock d n + (if tag d n == 0 then 0 else 1)

-- The sum of a function of the numbers below `n`.
unfoldable pub total : (ℕ → ℕ) → ℕ → ℕ
total f zero = 0
total f (suc n) = total f n + f n

pub total-ext : (f g : ℕ → ℕ) (n : ℕ) → ((t : ℕ) → t < n → f t ≡ g t) → total f n ≡ total g n
unfolding total
total-ext f g zero h = refl
total-ext f g (suc n) h =
    omega (arith, total-ext f g n (λ t b. h t (omega arith)), h n (omega arith))

total-add : (f g : ℕ → ℕ) (n : ℕ) → total (λ t. f t + g t) n ≡ total f n + total g n
unfolding total
total-add f g zero = refl
total-add f g (suc n) = omega (arith, total-add f g n)

pub total-suc : (f : ℕ → ℕ) (n : ℕ) → total f (suc n) ≡ f 0 + total (λ t. f (suc t)) n
unfolding total
total-suc f zero = omega arith
total-suc f (suc n) = omega (arith, total-suc f n)

-- A positive sum has a positive term.
pub total_positive : (f : ℕ → ℕ) (n : ℕ) → 0 < total f n → (t : ℕ) × (t < n) × (0 < f t)
unfolding total
total_positive f zero h = absurd (omega arith)
total_positive f (suc n) h = elim (Bool-cases (f n == 0)) [
  | inl e ↦
      let z : f n ≡ 0 = ==→eq (f n) 0 e in
      let (t, b, p) = total_positive f n (omega arith) in (t, omega arith, p)
  | inr e ↦ let z : f n ≢ 0 = not-==→ne (f n) 0 e in (n, omega arith, omega arith)
]

total-zero : (n : ℕ) → total (λ t. 0) n ≡ 0
unfolding total
total-zero zero = refl
total-zero (suc n) = omega (arith, total-zero n)

total-is_tag :
    (k x : ℕ) → total (λ t. is_tag t x) k ≡ (if x == 0 then 0 else if leb x k then 1 else 0)
unfolding total is_tag
total-is_tag zero x = ground arith
total-is_tag (suc k) x = ground (arith, total-is_tag k x)

-- The stock is the sum over the tiers.
pub total-available :
    (d : List ℕ) (k n : ℕ) → ((q : ℕ) → tag d q ≤ k) → total (λ t. available d t n) k ≡ stock d n
unfolding stock available
total-available d k zero h = total-zero k
total-available d k (suc n) h =
    total-add (λ t. available d t n) (λ t. is_tag t (tag d n)) k
    ∙ ground (arith, total-available d k n h, total-is_tag k (tag d n), h n)

stock-le : (d : List ℕ) (n : ℕ) → stock d n ≤ n
unfolding stock
stock-le d zero = omega arith
stock-le d (suc n) = ground (arith, stock-le d n)

stock-ext :
    (d d' : List ℕ) (n : ℕ) → ((q : ℕ) → q < n → tag d' q ≡ tag d q) → stock d' n ≡ stock d n
unfolding stock
stock-ext d d' zero h = refl
stock-ext d d' (suc n) h =
    ground (arith, stock-ext d d' n (λ q b. h q (omega arith)), h n (omega arith))

-- Clearing an available position takes one item from every prefix with it.
pub stock-Cleared :
    (d d' : List ℕ) (p : ℕ)
    → Cleared d d' p
    → tag d p ≢ 0
    → (n : ℕ) → stock d' n + (if ltb p n then 1 else 0) ≡ stock d n
unfolding stock
stock-Cleared d d' p c ne zero = ground arith
stock-Cleared d d' p c ne (suc n) = elim (Bool-cases (n == p)) [
  | inl e ↦
      let same : n ≡ p = ==→eq n p e in
      let q : tag d n ≢ 0 = rw same ne in
      let old : tag d n ≢ 0 = q in ground (arith, stock-Cleared d d' p c ne n, c n)
  | inr e ↦ let other : n ≢ p = not-==→ne n p e in ground (arith, stock-Cleared d d' p c ne n, c n)
]

-- Stocking an empty position adds one item to every prefix with it.
pub stock-Stocked :
    (d d' : List ℕ) (p t : ℕ)
    → Stocked d d' p t
    → tag d p ≡ 0
    → (n : ℕ) → stock d' n ≡ stock d n + (if ltb p n then 1 else 0)
unfolding stock
stock-Stocked d d' p t c z zero = ground arith
stock-Stocked d d' p t c z (suc n) = elim (Bool-cases (n == p)) [
  | inl e ↦
      let same : n ≡ p = ==→eq n p e in
      let old : tag d n ≡ 0 = rw same z in ground (arith, stock-Stocked d d' p t c z n, c n)
  | inr e ↦ let other : n ≢ p = not-==→ne n p e in ground (arith, stock-Stocked d d' p t c z n, c n)
]

pub stock_mono : (d : List ℕ) (n k : ℕ) → n ≤ k → stock d n ≤ stock d k
unfolding stock
stock_mono d n zero h = ap-stock d n h
  where
    ap-stock : (d : List ℕ) (n : ℕ) → n ≤ 0 → stock d n ≤ 0
    ap-stock d zero h = omega arith
    ap-stock d (suc n) h = absurd (omega arith)
stock_mono d n (suc k) h = elim (Bool-cases (n == suc k)) [
  | inl e ↦ rw (==→eq n (suc k) e) (omega arith)
  | inr e ↦ ground (arith, stock_mono d n k (omega (arith, not-==→ne n (suc k) e)))
]
